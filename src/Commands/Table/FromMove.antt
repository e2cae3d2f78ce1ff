-- ===== src/Commands/Table/FromMove.antt =====
-- Entries `MOVE` to `EVAL_RO` of backend/internal/commands/table.go.
use redis_shake.Prelude.{[], ◌∷◌}
use redis_shake.Prelude.Int.{pos, negsuc}
use redis_shake.Commands.Types.{index_keynum, index_range}
use redis_shake.Commands.Table.Row.{Table, row}

abbrev pub from_move : Table
from_move =
    row "MOVE" "GENERIC" (index_range 1 (pos 0) 1 ∷ [])
    ∷ row "OBJECT-ENCODING" "GENERIC" (index_range 2 (pos 0) 1 ∷ [])
    ∷ row "OBJECT-FREQ" "GENERIC" (index_range 2 (pos 0) 1 ∷ [])
    ∷ row "OBJECT-HELP" "GENERIC" []
    ∷ row "OBJECT-IDLETIME" "GENERIC" (index_range 2 (pos 0) 1 ∷ [])
    ∷ row "OBJECT-REFCOUNT" "GENERIC" (index_range 2 (pos 0) 1 ∷ [])
    ∷ row "OBJECT" "GENERIC" []
    ∷ row "PERSIST" "GENERIC" (index_range 1 (pos 0) 1 ∷ [])
    ∷ row "PEXPIRE" "GENERIC" (index_range 1 (pos 0) 1 ∷ [])
    ∷ []

abbrev pub from_pexpireat : Table
from_pexpireat =
    row "PEXPIREAT" "GENERIC" (index_range 1 (pos 0) 1 ∷ [])
    ∷ row "PEXPIRETIME" "GENERIC" (index_range 1 (pos 0) 1 ∷ [])
    ∷ row "PTTL" "GENERIC" (index_range 1 (pos 0) 1 ∷ [])
    ∷ row "RANDOMKEY" "GENERIC" []
    ∷ row "RENAME" "GENERIC" (index_range 1 (pos 0) 1 ∷ index_range 2 (pos 0) 1 ∷ [])
    ∷ row "RENAMENX" "GENERIC" (index_range 1 (pos 0) 1 ∷ index_range 2 (pos 0) 1 ∷ [])
    ∷ row "RESTORE" "GENERIC" (index_range 1 (pos 0) 1 ∷ [])
    ∷ row "SCAN" "GENERIC" []
    ∷ []

abbrev pub from_touch : Table
from_touch =
    row "TOUCH" "GENERIC" (index_range 1 (negsuc 0) 1 ∷ [])
    ∷ row "TTL" "GENERIC" (index_range 1 (pos 0) 1 ∷ [])
    ∷ row "TYPE" "GENERIC" (index_range 1 (pos 0) 1 ∷ [])
    ∷ row "UNLINK" "GENERIC" (index_range 1 (negsuc 0) 1 ∷ [])
    ∷ row "WAIT" "GENERIC" []
    ∷ row "WAITAOF" "GENERIC" []
    ∷ row "DISCARD" "TRANSACTIONS" []
    ∷ row "EXEC" "TRANSACTIONS" []
    ∷ row "MULTI" "TRANSACTIONS" []
    ∷ row "UNWATCH" "TRANSACTIONS" []
    ∷ row "WATCH" "TRANSACTIONS" (index_range 1 (negsuc 0) 1 ∷ [])
    ∷ row "EVAL" "SCRIPTING" (index_keynum 2 1 ∷ [])
    ∷ row "EVAL_RO" "SCRIPTING" (index_keynum 2 1 ∷ [])
    ∷ []
