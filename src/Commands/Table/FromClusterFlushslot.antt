-- ===== src/Commands/Table/FromClusterFlushslot.antt =====
-- Entries `CLUSTER-FLUSHSLOT` to `BLMPOP` of backend/internal/commands/table.go.
use redis_shake.Prelude.{[], ◌∷◌}
use redis_shake.Prelude.Int.{pos, negsuc}
use redis_shake.Commands.Types.{index_keynum, index_range}
use redis_shake.Commands.Table.Row.{Table, row}

abbrev pub from_cluster_flushslot : Table
from_cluster_flushslot =
    row "CLUSTER-FLUSHSLOT" "CLUSTER" []
    ∷ row "CLUSTER-FLUSHSLOTS" "CLUSTER" []
    ∷ row "CLUSTER-FORGET" "CLUSTER" []
    ∷ row "CLUSTER-GETKEYSINSLOT" "CLUSTER" []
    ∷ row "CLUSTER-GETSLOTMIGRATIONS" "CLUSTER" []
    ∷ row "CLUSTER-HELP" "CLUSTER" []
    ∷ row "CLUSTER-INFO" "CLUSTER" []
    ∷ row "CLUSTER-KEYSLOT" "CLUSTER" []
    ∷ row "CLUSTER-LINKS" "CLUSTER" []
    ∷ row "CLUSTER-MEET" "CLUSTER" []
    ∷ row "CLUSTER-MIGRATESLOTS" "CLUSTER" []
    ∷ row "CLUSTER-MIGRATION" "CLUSTER" []
    ∷ row "CLUSTER-MYID" "CLUSTER" []
    ∷ row "CLUSTER-MYSHARDID" "CLUSTER" []
    ∷ row "CLUSTER-NODES" "CLUSTER" []
    ∷ row "CLUSTER-REPLICAS" "CLUSTER" []
    ∷ row "CLUSTER-REPLICATE" "CLUSTER" []
    ∷ row "CLUSTER-RESET" "CLUSTER" []
    ∷ row "CLUSTER-SAVECONFIG" "CLUSTER" []
    ∷ row "CLUSTER-SET-CONFIG-EPOCH" "CLUSTER" []
    ∷ row "CLUSTER-SETSLOT" "CLUSTER" []
    ∷ row "CLUSTER-SHARDS" "CLUSTER" []
    ∷ row "CLUSTER-SLAVES" "CLUSTER" []
    ∷ row "CLUSTER-SLOT-STATS" "CLUSTER" []
    ∷ row "CLUSTER-SLOTS" "CLUSTER" []
    ∷ row "CLUSTER-SYNCSLOTS" "CLUSTER" []
    ∷ row "CLUSTER" "CLUSTER" []
    ∷ row "READONLY" "CLUSTER" []
    ∷ row "READWRITE" "CLUSTER" []
    ∷ row "AUTH" "CONNECTION" []
    ∷ row "CLIENT-CACHING" "CONNECTION" []
    ∷ row "CLIENT-CAPA" "CONNECTION" []
    ∷ row "CLIENT-GETNAME" "CONNECTION" []
    ∷ row "CLIENT-GETREDIR" "CONNECTION" []
    ∷ row "CLIENT-HELP" "CONNECTION" []
    ∷ row "CLIENT-ID" "CONNECTION" []
    ∷ row "CLIENT-IMPORT-SOURCE" "CONNECTION" []
    ∷ []

abbrev pub from_client_info : Table
from_client_info =
    row "CLIENT-INFO" "CONNECTION" []
    ∷ row "CLIENT-KILL" "CONNECTION" []
    ∷ row "CLIENT-LIST" "CONNECTION" []
    ∷ row "CLIENT-NO-EVICT" "CONNECTION" []
    ∷ row "CLIENT-NO-TOUCH" "CONNECTION" []
    ∷ row "CLIENT-PAUSE" "CONNECTION" []
    ∷ row "CLIENT-REPLY" "CONNECTION" []
    ∷ row "CLIENT-SETINFO" "CONNECTION" []
    ∷ row "CLIENT-SETNAME" "CONNECTION" []
    ∷ row "CLIENT-TRACKING" "CONNECTION" []
    ∷ row "CLIENT-TRACKINGINFO" "CONNECTION" []
    ∷ row "CLIENT-UNBLOCK" "CONNECTION" []
    ∷ row "CLIENT-UNPAUSE" "CONNECTION" []
    ∷ row "CLIENT" "CONNECTION" []
    ∷ row "ECHO" "CONNECTION" []
    ∷ row "HELLO" "CONNECTION" []
    ∷ row "PING" "CONNECTION" []
    ∷ row "QUIT" "CONNECTION" []
    ∷ row "RESET" "CONNECTION" []
    ∷ row "SELECT" "CONNECTION" []
    ∷ row "BITCOUNT" "BITMAP" (index_range 1 (pos 0) 1 ∷ [])
    ∷ row "BITFIELD" "BITMAP" (index_range 1 (pos 0) 1 ∷ [])
    ∷ row "BITFIELD_RO" "BITMAP" (index_range 1 (pos 0) 1 ∷ [])
    ∷ []

abbrev pub from_bitop : Table
from_bitop =
    row "BITOP" "BITMAP" (index_range 2 (pos 0) 1 ∷ index_range 3 (negsuc 0) 1 ∷ [])
    ∷ row "BITPOS" "BITMAP" (index_range 1 (pos 0) 1 ∷ [])
    ∷ row "GETBIT" "BITMAP" (index_range 1 (pos 0) 1 ∷ [])
    ∷ row "SETBIT" "BITMAP" (index_range 1 (pos 0) 1 ∷ [])
    ∷ row "BLMOVE" "LIST" (index_range 1 (pos 0) 1 ∷ index_range 2 (pos 0) 1 ∷ [])
    ∷ row "BLMPOP" "LIST" (index_keynum 2 1 ∷ [])
    ∷ []
