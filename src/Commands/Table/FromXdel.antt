-- ===== src/Commands/Table/FromXdel.antt =====
-- Entries `XDEL` to `BF.INFO` of backend/internal/commands/table.go.
use redis_shake.Prelude.{[], ◌∷◌}
use redis_shake.Prelude.Int.{pos, negsuc}
use redis_shake.Commands.Types.{index_range, keyword_range}
use redis_shake.Commands.Table.Row.{Table, row}

abbrev pub from_xdel : Table
from_xdel =
    row "XDEL" "STREAM" (index_range 1 (pos 0) 1 ∷ [])
    ∷ row "XDELEX" "STREAM" (index_range 1 (pos 0) 1 ∷ [])
    ∷ row "XGROUP-CREATE" "STREAM" (index_range 2 (pos 0) 1 ∷ [])
    ∷ row "XGROUP-CREATECONSUMER" "STREAM" (index_range 2 (pos 0) 1 ∷ [])
    ∷ row "XGROUP-DELCONSUMER" "STREAM" (index_range 2 (pos 0) 1 ∷ [])
    ∷ row "XGROUP-DESTROY" "STREAM" (index_range 2 (pos 0) 1 ∷ [])
    ∷ row "XGROUP-HELP" "STREAM" []
    ∷ row "XGROUP-SETID" "STREAM" (index_range 2 (pos 0) 1 ∷ [])
    ∷ row "XGROUP" "STREAM" []
    ∷ []

abbrev pub from_xinfo_consumers : Table
from_xinfo_consumers =
    row "XINFO-CONSUMERS" "STREAM" (index_range 2 (pos 0) 1 ∷ [])
    ∷ row "XINFO-GROUPS" "STREAM" (index_range 2 (pos 0) 1 ∷ [])
    ∷ row "XINFO-HELP" "STREAM" []
    ∷ row "XINFO-STREAM" "STREAM" (index_range 2 (pos 0) 1 ∷ [])
    ∷ row "XINFO" "STREAM" []
    ∷ row "XLEN" "STREAM" (index_range 1 (pos 0) 1 ∷ [])
    ∷ row "XPENDING" "STREAM" (index_range 1 (pos 0) 1 ∷ [])
    ∷ row "XRANGE" "STREAM" (index_range 1 (pos 0) 1 ∷ [])
    ∷ row "XREAD" "STREAM" (keyword_range "STREAMS" 1 (negsuc 0) 2 ∷ [])
    ∷ []

abbrev pub from_xreadgroup : Table
from_xreadgroup =
    row "XREADGROUP" "STREAM" (keyword_range "STREAMS" 4 (negsuc 0) 2 ∷ [])
    ∷ row "XREVRANGE" "STREAM" (index_range 1 (pos 0) 1 ∷ [])
    ∷ row "XSETID" "STREAM" (index_range 1 (pos 0) 1 ∷ [])
    ∷ row "XTRIM" "STREAM" (index_range 1 (pos 0) 1 ∷ [])
    ∷ row "BF.ADD" "BLOOM FILTER" (index_range 1 (pos 0) 1 ∷ [])
    ∷ row "BF.CARD" "BLOOM FILTER" (index_range 1 (pos 0) 1 ∷ [])
    ∷ row "BF.EXISTS" "BLOOM FILTER" (index_range 1 (pos 0) 1 ∷ [])
    ∷ row "BF.INFO" "BLOOM FILTER" (index_range 1 (pos 0) 1 ∷ [])
    ∷ []
