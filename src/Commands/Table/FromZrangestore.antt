-- ===== src/Commands/Table/FromZrangestore.antt =====
-- Entries `ZRANGESTORE` to `KEYS` of backend/internal/commands/table.go.
use redis_shake.Prelude.{[], ◌∷◌}
use redis_shake.Prelude.Int.{pos, negsuc}
use redis_shake.Commands.Types.{index_keynum, index_range}
use redis_shake.Commands.Table.Row.{Table, row}

abbrev pub from_zrangestore : Table
from_zrangestore =
    row "ZRANGESTORE" "SORTED_SET" (index_range 1 (pos 0) 1 ∷ index_range 2 (pos 0) 1 ∷ [])
    ∷ row "ZRANK" "SORTED_SET" (index_range 1 (pos 0) 1 ∷ [])
    ∷ row "ZREM" "SORTED_SET" (index_range 1 (pos 0) 1 ∷ [])
    ∷ row "ZREMRANGEBYLEX" "SORTED_SET" (index_range 1 (pos 0) 1 ∷ [])
    ∷ row "ZREMRANGEBYRANK" "SORTED_SET" (index_range 1 (pos 0) 1 ∷ [])
    ∷ row "ZREMRANGEBYSCORE" "SORTED_SET" (index_range 1 (pos 0) 1 ∷ [])
    ∷ row "ZREVRANGE" "SORTED_SET" (index_range 1 (pos 0) 1 ∷ [])
    ∷ []

abbrev pub from_zrevrangebylex : Table
from_zrevrangebylex =
    row "ZREVRANGEBYLEX" "SORTED_SET" (index_range 1 (pos 0) 1 ∷ [])
    ∷ row "ZREVRANGEBYSCORE" "SORTED_SET" (index_range 1 (pos 0) 1 ∷ [])
    ∷ row "ZREVRANK" "SORTED_SET" (index_range 1 (pos 0) 1 ∷ [])
    ∷ row "ZSCAN" "SORTED_SET" (index_range 1 (pos 0) 1 ∷ [])
    ∷ row "ZSCORE" "SORTED_SET" (index_range 1 (pos 0) 1 ∷ [])
    ∷ row "ZUNION" "SORTED_SET" (index_keynum 1 1 ∷ [])
    ∷ row "ZUNIONSTORE" "SORTED_SET" (index_range 1 (pos 0) 1 ∷ index_keynum 2 1 ∷ [])
    ∷ []

abbrev pub from_copy : Table
from_copy =
    row "COPY" "GENERIC" (index_range 1 (pos 0) 1 ∷ index_range 2 (pos 0) 1 ∷ [])
    ∷ row "DEL" "GENERIC" (index_range 1 (negsuc 0) 1 ∷ [])
    ∷ row "DUMP" "GENERIC" (index_range 1 (pos 0) 1 ∷ [])
    ∷ row "EXISTS" "GENERIC" (index_range 1 (negsuc 0) 1 ∷ [])
    ∷ row "EXPIRE" "GENERIC" (index_range 1 (pos 0) 1 ∷ [])
    ∷ row "EXPIREAT" "GENERIC" (index_range 1 (pos 0) 1 ∷ [])
    ∷ row "EXPIRETIME" "GENERIC" (index_range 1 (pos 0) 1 ∷ [])
    ∷ row "KEYS" "GENERIC" []
    ∷ []
