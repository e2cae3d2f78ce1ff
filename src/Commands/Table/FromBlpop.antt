-- ===== src/Commands/Table/FromBlpop.antt =====
-- Entries `BLPOP` to `RPUSHX` of backend/internal/commands/table.go.
use redis_shake.Prelude.{[], ◌∷◌}
use redis_shake.Prelude.Int.{pos, negsuc}
use redis_shake.Commands.Types.{index_keynum, index_range}
use redis_shake.Commands.Table.Row.{Table, row}

abbrev pub from_blpop : Table
from_blpop =
    row "BLPOP" "LIST" (index_range 1 (negsuc 1) 1 ∷ [])
    ∷ row "BRPOP" "LIST" (index_range 1 (negsuc 1) 1 ∷ [])
    ∷ row "BRPOPLPUSH" "LIST" (index_range 1 (pos 0) 1 ∷ index_range 2 (pos 0) 1 ∷ [])
    ∷ row "LINDEX" "LIST" (index_range 1 (pos 0) 1 ∷ [])
    ∷ row "LINSERT" "LIST" (index_range 1 (pos 0) 1 ∷ [])
    ∷ row "LLEN" "LIST" (index_range 1 (pos 0) 1 ∷ [])
    ∷ []

abbrev pub from_lmove : Table
from_lmove =
    row "LMOVE" "LIST" (index_range 1 (pos 0) 1 ∷ index_range 2 (pos 0) 1 ∷ [])
    ∷ row "LMPOP" "LIST" (index_keynum 1 1 ∷ [])
    ∷ row "LPOP" "LIST" (index_range 1 (pos 0) 1 ∷ [])
    ∷ row "LPOS" "LIST" (index_range 1 (pos 0) 1 ∷ [])
    ∷ row "LPUSH" "LIST" (index_range 1 (pos 0) 1 ∷ [])
    ∷ row "LPUSHX" "LIST" (index_range 1 (pos 0) 1 ∷ [])
    ∷ row "LRANGE" "LIST" (index_range 1 (pos 0) 1 ∷ [])
    ∷ []

abbrev pub from_lrem : Table
from_lrem =
    row "LREM" "LIST" (index_range 1 (pos 0) 1 ∷ [])
    ∷ row "LSET" "LIST" (index_range 1 (pos 0) 1 ∷ [])
    ∷ row "LTRIM" "LIST" (index_range 1 (pos 0) 1 ∷ [])
    ∷ row "RPOP" "LIST" (index_range 1 (pos 0) 1 ∷ [])
    ∷ row "RPOPLPUSH" "LIST" (index_range 1 (pos 0) 1 ∷ index_range 2 (pos 0) 1 ∷ [])
    ∷ row "RPUSH" "LIST" (index_range 1 (pos 0) 1 ∷ [])
    ∷ row "RPUSHX" "LIST" (index_range 1 (pos 0) 1 ∷ [])
    ∷ []
