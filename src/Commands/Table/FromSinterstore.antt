-- ===== src/Commands/Table/FromSinterstore.antt =====
-- Entries `SINTERSTORE` to `XCLAIM` of backend/internal/commands/table.go.
use redis_shake.Prelude.{[], ◌∷◌}
use redis_shake.Prelude.Int.{pos, negsuc}
use redis_shake.Commands.Types.{index_range}
use redis_shake.Commands.Table.Row.{Table, row}

abbrev pub from_sinterstore : Table
from_sinterstore =
    row "SINTERSTORE" "SET" (index_range 1 (pos 0) 1 ∷ index_range 2 (negsuc 0) 1 ∷ [])
    ∷ row "SISMEMBER" "SET" (index_range 1 (pos 0) 1 ∷ [])
    ∷ row "SMEMBERS" "SET" (index_range 1 (pos 0) 1 ∷ [])
    ∷ row "SMISMEMBER" "SET" (index_range 1 (pos 0) 1 ∷ [])
    ∷ row "SMOVE" "SET" (index_range 1 (pos 0) 1 ∷ index_range 2 (pos 0) 1 ∷ [])
    ∷ row "SPOP" "SET" (index_range 1 (pos 0) 1 ∷ [])
    ∷ []

abbrev pub from_srandmember : Table
from_srandmember =
    row "SRANDMEMBER" "SET" (index_range 1 (pos 0) 1 ∷ [])
    ∷ row "SREM" "SET" (index_range 1 (pos 0) 1 ∷ [])
    ∷ row "SSCAN" "SET" (index_range 1 (pos 0) 1 ∷ [])
    ∷ row "SUNION" "SET" (index_range 1 (negsuc 0) 1 ∷ [])
    ∷ row "SUNIONSTORE" "SET" (index_range 1 (pos 0) 1 ∷ index_range 2 (negsuc 0) 1 ∷ [])
    ∷ row "SENTINEL-CKQUORUM" "SENTINEL" []
    ∷ row "SENTINEL-CONFIG" "SENTINEL" []
    ∷ row "SENTINEL-DEBUG" "SENTINEL" []
    ∷ row "SENTINEL-FAILOVER" "SENTINEL" []
    ∷ row "SENTINEL-FLUSHCONFIG" "SENTINEL" []
    ∷ row "SENTINEL-GET-MASTER-ADDR-BY-NAME" "SENTINEL" []
    ∷ row "SENTINEL-GET-PRIMARY-ADDR-BY-NAME" "SENTINEL" []
    ∷ row "SENTINEL-HELP" "SENTINEL" []
    ∷ row "SENTINEL-INFO-CACHE" "SENTINEL" []
    ∷ row "SENTINEL-IS-MASTER-DOWN-BY-ADDR" "SENTINEL" []
    ∷ row "SENTINEL-IS-PRIMARY-DOWN-BY-ADDR" "SENTINEL" []
    ∷ []

abbrev pub from_sentinel_master : Table
from_sentinel_master =
    row "SENTINEL-MASTER" "SENTINEL" []
    ∷ row "SENTINEL-MASTERS" "SENTINEL" []
    ∷ row "SENTINEL-MONITOR" "SENTINEL" []
    ∷ row "SENTINEL-MYID" "SENTINEL" []
    ∷ row "SENTINEL-PENDING-SCRIPTS" "SENTINEL" []
    ∷ row "SENTINEL-PRIMARIES" "SENTINEL" []
    ∷ row "SENTINEL-PRIMARY" "SENTINEL" []
    ∷ row "SENTINEL-REMOVE" "SENTINEL" []
    ∷ row "SENTINEL-REPLICAS" "SENTINEL" []
    ∷ row "SENTINEL-RESET" "SENTINEL" []
    ∷ row "SENTINEL-SENTINELS" "SENTINEL" []
    ∷ row "SENTINEL-SET" "SENTINEL" []
    ∷ row "SENTINEL-SIMULATE-FAILURE" "SENTINEL" []
    ∷ row "SENTINEL-SLAVES" "SENTINEL" []
    ∷ row "SENTINEL" "SENTINEL" []
    ∷ row "XACK" "STREAM" (index_range 1 (pos 0) 1 ∷ [])
    ∷ row "XACKDEL" "STREAM" (index_range 1 (pos 0) 1 ∷ [])
    ∷ row "XADD" "STREAM" (index_range 1 (pos 0) 1 ∷ [])
    ∷ row "XAUTOCLAIM" "STREAM" (index_range 1 (pos 0) 1 ∷ [])
    ∷ row "XCLAIM" "STREAM" (index_range 1 (pos 0) 1 ∷ [])
    ∷ []
