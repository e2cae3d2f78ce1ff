-- ===== src/Commands/Table/FromGeosearchstore.antt =====
-- Entries `GEOSEARCHSTORE` to `HSCAN` of backend/internal/commands/table.go.
use redis_shake.Prelude.{[], ◌∷◌}
use redis_shake.Prelude.Int.{pos}
use redis_shake.Commands.Types.{index_range}
use redis_shake.Commands.Table.Row.{Table, row}

abbrev pub from_geosearchstore : Table
from_geosearchstore =
    row "GEOSEARCHSTORE" "GEO" (index_range 1 (pos 0) 1 ∷ index_range 2 (pos 0) 1 ∷ [])
    ∷ row "HDEL" "HASH" (index_range 1 (pos 0) 1 ∷ [])
    ∷ row "HEXISTS" "HASH" (index_range 1 (pos 0) 1 ∷ [])
    ∷ row "HEXPIRE" "HASH" (index_range 1 (pos 0) 1 ∷ [])
    ∷ row "HEXPIREAT" "HASH" (index_range 1 (pos 0) 1 ∷ [])
    ∷ row "HEXPIRETIME" "HASH" (index_range 1 (pos 0) 1 ∷ [])
    ∷ row "HGET" "HASH" (index_range 1 (pos 0) 1 ∷ [])
    ∷ []

abbrev pub from_hgetall : Table
from_hgetall =
    row "HGETALL" "HASH" (index_range 1 (pos 0) 1 ∷ [])
    ∷ row "HGETDEL" "HASH" (index_range 1 (pos 0) 1 ∷ [])
    ∷ row "HGETEX" "HASH" (index_range 1 (pos 0) 1 ∷ [])
    ∷ row "HINCRBY" "HASH" (index_range 1 (pos 0) 1 ∷ [])
    ∷ row "HINCRBYFLOAT" "HASH" (index_range 1 (pos 0) 1 ∷ [])
    ∷ row "HKEYS" "HASH" (index_range 1 (pos 0) 1 ∷ [])
    ∷ row "HLEN" "HASH" (index_range 1 (pos 0) 1 ∷ [])
    ∷ row "HMGET" "HASH" (index_range 1 (pos 0) 1 ∷ [])
    ∷ []

abbrev pub from_hmset : Table
from_hmset =
    row "HMSET" "HASH" (index_range 1 (pos 0) 1 ∷ [])
    ∷ row "HPERSIST" "HASH" (index_range 1 (pos 0) 1 ∷ [])
    ∷ row "HPEXPIRE" "HASH" (index_range 1 (pos 0) 1 ∷ [])
    ∷ row "HPEXPIREAT" "HASH" (index_range 1 (pos 0) 1 ∷ [])
    ∷ row "HPEXPIRETIME" "HASH" (index_range 1 (pos 0) 1 ∷ [])
    ∷ row "HPTTL" "HASH" (index_range 1 (pos 0) 1 ∷ [])
    ∷ row "HRANDFIELD" "HASH" (index_range 1 (pos 0) 1 ∷ [])
    ∷ row "HSCAN" "HASH" (index_range 1 (pos 0) 1 ∷ [])
    ∷ []
