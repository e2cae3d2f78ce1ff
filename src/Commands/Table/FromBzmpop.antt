-- ===== src/Commands/Table/FromBzmpop.antt =====
-- Entries `BZMPOP` to `ZRANGEBYSCORE` of backend/internal/commands/table.go.
use redis_shake.Prelude.{[], ◌∷◌}
use redis_shake.Prelude.Int.{pos, negsuc}
use redis_shake.Commands.Types.{index_keynum, index_range}
use redis_shake.Commands.Table.Row.{Table, row}

abbrev pub from_bzmpop : Table
from_bzmpop =
    row "BZMPOP" "SORTED_SET" (index_keynum 2 1 ∷ [])
    ∷ row "BZPOPMAX" "SORTED_SET" (index_range 1 (negsuc 1) 1 ∷ [])
    ∷ row "BZPOPMIN" "SORTED_SET" (index_range 1 (negsuc 1) 1 ∷ [])
    ∷ row "ZADD" "SORTED_SET" (index_range 1 (pos 0) 1 ∷ [])
    ∷ row "ZCARD" "SORTED_SET" (index_range 1 (pos 0) 1 ∷ [])
    ∷ row "ZCOUNT" "SORTED_SET" (index_range 1 (pos 0) 1 ∷ [])
    ∷ row "ZDIFF" "SORTED_SET" (index_keynum 1 1 ∷ [])
    ∷ []

abbrev pub from_zdiffstore : Table
from_zdiffstore =
    row "ZDIFFSTORE" "SORTED_SET" (index_range 1 (pos 0) 1 ∷ index_keynum 2 1 ∷ [])
    ∷ row "ZINCRBY" "SORTED_SET" (index_range 1 (pos 0) 1 ∷ [])
    ∷ row "ZINTER" "SORTED_SET" (index_keynum 1 1 ∷ [])
    ∷ row "ZINTERCARD" "SORTED_SET" (index_keynum 1 1 ∷ [])
    ∷ row "ZINTERSTORE" "SORTED_SET" (index_range 1 (pos 0) 1 ∷ index_keynum 2 1 ∷ [])
    ∷ row "ZLEXCOUNT" "SORTED_SET" (index_range 1 (pos 0) 1 ∷ [])
    ∷ []

abbrev pub from_zmpop : Table
from_zmpop =
    row "ZMPOP" "SORTED_SET" (index_keynum 1 1 ∷ [])
    ∷ row "ZMSCORE" "SORTED_SET" (index_range 1 (pos 0) 1 ∷ [])
    ∷ row "ZPOPMAX" "SORTED_SET" (index_range 1 (pos 0) 1 ∷ [])
    ∷ row "ZPOPMIN" "SORTED_SET" (index_range 1 (pos 0) 1 ∷ [])
    ∷ row "ZRANDMEMBER" "SORTED_SET" (index_range 1 (pos 0) 1 ∷ [])
    ∷ row "ZRANGE" "SORTED_SET" (index_range 1 (pos 0) 1 ∷ [])
    ∷ row "ZRANGEBYLEX" "SORTED_SET" (index_range 1 (pos 0) 1 ∷ [])
    ∷ row "ZRANGEBYSCORE" "SORTED_SET" (index_range 1 (pos 0) 1 ∷ [])
    ∷ []
