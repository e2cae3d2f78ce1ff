-- ===== src/Commands/Table/FromBfInsert.antt =====
-- Entries `BF.INSERT` to `BF.SCANDUMP` of backend/internal/commands/table.go.
use redis_shake.Prelude.{[], ◌∷◌}
use redis_shake.Prelude.Int.{pos}
use redis_shake.Commands.Types.{index_range}
use redis_shake.Commands.Table.Row.{Table, row}

abbrev pub from_bf_insert : Table
from_bf_insert =
    row "BF.INSERT" "BLOOM FILTER" (index_range 1 (pos 0) 1 ∷ [])
    ∷ row "BF.LOADCHUNK" "BLOOM FILTER" (index_range 1 (pos 0) 1 ∷ [])
    ∷ row "BF.MADD" "BLOOM FILTER" (index_range 1 (pos 0) 1 ∷ [])
    ∷ row "BF.MEXISTS" "BLOOM FILTER" (index_range 1 (pos 0) 1 ∷ [])
    ∷ row "BF.RESERVE" "BLOOM FILTER" (index_range 1 (pos 0) 1 ∷ [])
    ∷ row "BF.SCANDUMP" "BLOOM FILTER" (index_range 1 (pos 0) 1 ∷ [])
    ∷ []
