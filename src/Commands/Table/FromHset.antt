-- ===== src/Commands/Table/FromHset.antt =====
-- Entries `HSET` to `SINTERCARD` of backend/internal/commands/table.go.
use redis_shake.Prelude.{[], ◌∷◌}
use redis_shake.Prelude.Int.{pos, negsuc}
use redis_shake.Commands.Types.{index_keynum, index_range}
use redis_shake.Commands.Table.Row.{Table, row}

abbrev pub from_hset : Table
from_hset =
    row "HSET" "HASH" (index_range 1 (pos 0) 1 ∷ [])
    ∷ row "HSETEX" "HASH" (index_range 1 (pos 0) 1 ∷ [])
    ∷ row "HSETNX" "HASH" (index_range 1 (pos 0) 1 ∷ [])
    ∷ row "HSTRLEN" "HASH" (index_range 1 (pos 0) 1 ∷ [])
    ∷ row "HTTL" "HASH" (index_range 1 (pos 0) 1 ∷ [])
    ∷ row "HVALS" "HASH" (index_range 1 (pos 0) 1 ∷ [])
    ∷ row "PFADD" "HYPERLOGLOG" (index_range 1 (pos 0) 1 ∷ [])
    ∷ row "PFCOUNT" "HYPERLOGLOG" (index_range 1 (negsuc 0) 1 ∷ [])
    ∷ []

abbrev pub from_pfdebug : Table
from_pfdebug =
    row "PFDEBUG" "HYPERLOGLOG" (index_range 2 (pos 0) 1 ∷ [])
    ∷ row "PFMERGE" "HYPERLOGLOG" (index_range 1 (pos 0) 1 ∷ index_range 2 (negsuc 0) 1 ∷ [])
    ∷ row "PFSELFTEST" "HYPERLOGLOG" []
    ∷ row "PSUBSCRIBE" "PUBSUB" []
    ∷ row "PUBLISH" "PUBSUB" []
    ∷ row "PUBSUB-CHANNELS" "PUBSUB" []
    ∷ row "PUBSUB-HELP" "PUBSUB" []
    ∷ row "PUBSUB-NUMPAT" "PUBSUB" []
    ∷ row "PUBSUB-NUMSUB" "PUBSUB" []
    ∷ row "PUBSUB-SHARDCHANNELS" "PUBSUB" []
    ∷ row "PUBSUB-SHARDNUMSUB" "PUBSUB" []
    ∷ row "PUBSUB" "PUBSUB" []
    ∷ row "PUNSUBSCRIBE" "PUBSUB" []
    ∷ row "SPUBLISH" "PUBSUB" (index_range 1 (pos 0) 1 ∷ [])
    ∷ row "SSUBSCRIBE" "PUBSUB" (index_range 1 (negsuc 0) 1 ∷ [])
    ∷ row "SUBSCRIBE" "PUBSUB" []
    ∷ []

abbrev pub from_sunsubscribe : Table
from_sunsubscribe =
    row "SUNSUBSCRIBE" "PUBSUB" (index_range 1 (negsuc 0) 1 ∷ [])
    ∷ row "UNSUBSCRIBE" "PUBSUB" []
    ∷ row "SADD" "SET" (index_range 1 (pos 0) 1 ∷ [])
    ∷ row "SCARD" "SET" (index_range 1 (pos 0) 1 ∷ [])
    ∷ row "SDIFF" "SET" (index_range 1 (negsuc 0) 1 ∷ [])
    ∷ row "SDIFFSTORE" "SET" (index_range 1 (pos 0) 1 ∷ index_range 2 (negsuc 0) 1 ∷ [])
    ∷ row "SINTER" "SET" (index_range 1 (negsuc 0) 1 ∷ [])
    ∷ row "SINTERCARD" "SET" (index_keynum 1 1 ∷ [])
    ∷ []
