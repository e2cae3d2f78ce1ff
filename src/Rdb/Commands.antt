-- ===== src/Rdb/Commands.antt =====
-- `RedisCmd` of backend/internal/rdb/types/interface.go, and the loops that send commands. The
-- loader takes all commands of an object from the channel before it uses them, so they are a list.
use redis_shake.Prelude.{ℕ, zero, suc, ◌^◌, List, [], ◌∷◌, ◌++◌, Bytes, codes, leb, if◌then◌else◌}
use redis_shake.Go.Outcome.{Outcome, ok, panic, out_of_range, ◌>>=◌}
use redis_shake.Structure.Reader
use redis_shake.Structure.Reader.{Reader, return}

abbrev pub RedisCmd : Type 0
RedisCmd = List Bytes

-- `int(n)` as the bound of a loop: it is negative from 2 ^ 63 on.
abbrev pub int_bound : ℕ → ℕ
int_bound n = if leb (2 ^ 63) n then 0 else n

-- `for i := 0; i < size; i++`: what the rounds send, in order.
unfoldable pub repeat : {A : Type 0} → ℕ → Reader (List A) → Reader (List A)
repeat zero round = return []
repeat (suc size) round =
    Reader.◌>>=◌ round (λ sent. Reader.◌>>=◌ (repeat size round) (λ rest. return (sent ++ rest)))

-- The commands of an object behind the one that deletes its key.
abbrev pub after_del : Bytes → Reader (List RedisCmd) → Reader (List RedisCmd)
after_del key m = Reader.◌>>=◌ m (λ cmds. return ((codes "del" ∷ key ∷ []) ∷ cmds))

-- `for i := 0; i < size; i += 2` with `list[i]` and `list[i+1]`.
unfoldable pub pairs : List Bytes → Outcome (List (Bytes × Bytes))
pairs [] = ok []
pairs (x ∷ []) = panic out_of_range
pairs (x ∷ y ∷ rest) = do ps ← pairs rest; ok ((x, y) ∷ ps)
