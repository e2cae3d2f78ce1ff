-- ===== src/Commands/Table/FromDelifeq.antt =====
-- Entries `DELIFEQ` to `CLUSTER-FAILOVER` of backend/internal/commands/table.go.
use redis_shake.Prelude.{[], ◌∷◌}
use redis_shake.Prelude.Int.{pos, negsuc}
use redis_shake.Commands.Types.{index_keynum, index_range}
use redis_shake.Commands.Table.Row.{Table, row}

abbrev pub from_delifeq : Table
from_delifeq =
    row "DELIFEQ" "STRING" (index_range 1 (pos 0) 1 ∷ [])
    ∷ row "DIGEST" "STRING" (index_range 1 (pos 0) 1 ∷ [])
    ∷ row "GET" "STRING" (index_range 1 (pos 0) 1 ∷ [])
    ∷ row "GETDEL" "STRING" (index_range 1 (pos 0) 1 ∷ [])
    ∷ row "GETEX" "STRING" (index_range 1 (pos 0) 1 ∷ [])
    ∷ row "GETRANGE" "STRING" (index_range 1 (pos 0) 1 ∷ [])
    ∷ row "GETSET" "STRING" (index_range 1 (pos 0) 1 ∷ [])
    ∷ row "INCR" "STRING" (index_range 1 (pos 0) 1 ∷ [])
    ∷ []

abbrev pub from_incrby : Table
from_incrby =
    row "INCRBY" "STRING" (index_range 1 (pos 0) 1 ∷ [])
    ∷ row "INCRBYFLOAT" "STRING" (index_range 1 (pos 0) 1 ∷ [])
    ∷ row "LCS" "STRING" (index_range 1 (pos 1) 1 ∷ [])
    ∷ row "MGET" "STRING" (index_range 1 (negsuc 0) 1 ∷ [])
    ∷ row "MSET" "STRING" (index_range 1 (negsuc 0) 2 ∷ [])
    ∷ row "MSETEX" "STRING" (index_keynum 1 2 ∷ [])
    ∷ row "MSETNX" "STRING" (index_range 1 (negsuc 0) 2 ∷ [])
    ∷ row "PSETEX" "STRING" (index_range 1 (pos 0) 1 ∷ [])
    ∷ []

abbrev pub from_set : Table
from_set =
    row "SET" "STRING" (index_range 1 (pos 0) 1 ∷ [])
    ∷ row "SETEX" "STRING" (index_range 1 (pos 0) 1 ∷ [])
    ∷ row "SETNX" "STRING" (index_range 1 (pos 0) 1 ∷ [])
    ∷ row "SETRANGE" "STRING" (index_range 1 (pos 0) 1 ∷ [])
    ∷ row "STRLEN" "STRING" (index_range 1 (pos 0) 1 ∷ [])
    ∷ row "SUBSTR" "STRING" (index_range 1 (pos 0) 1 ∷ [])
    ∷ row "ASKING" "CLUSTER" []
    ∷ row "CLUSTER-ADDSLOTS" "CLUSTER" []
    ∷ row "CLUSTER-ADDSLOTSRANGE" "CLUSTER" []
    ∷ row "CLUSTER-BUMPEPOCH" "CLUSTER" []
    ∷ row "CLUSTER-CANCELSLOTMIGRATIONS" "CLUSTER" []
    ∷ row "CLUSTER-COUNT-FAILURE-REPORTS" "CLUSTER" []
    ∷ row "CLUSTER-COUNTKEYSINSLOT" "CLUSTER" []
    ∷ row "CLUSTER-DELSLOTS" "CLUSTER" []
    ∷ row "CLUSTER-DELSLOTSRANGE" "CLUSTER" []
    ∷ row "CLUSTER-FAILOVER" "CLUSTER" []
    ∷ []
