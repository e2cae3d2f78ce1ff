-- ===== src/Rdb/Pairs.antt =====
-- The elements of a packed hash or sorted set, two at a time.
use redis_shake.Prelude.{◌%◌, List, [], ◌∷◌, length, Bytes, ◌≡◌, refl, arith}
use redis_shake.Go.Outcome.{ok}
use redis_shake.Rdb.Commands.{pairs}

abbrev pub pairing : List Bytes → List (Bytes × Bytes)
pairing [] = []
pairing (x ∷ []) = []
pairing (x ∷ y ∷ rest) = (x, y) ∷ pairing rest

pub pairs-even : (xs : List Bytes) → length xs % 2 ≡ 0 → pairs xs ≡ ok (pairing xs)
unfolding pairs
pairs-even [] h = refl
pairs-even (x ∷ []) h = ground arith
pairs-even (x ∷ y ∷ rest) h = rw (pairs-even rest (omega arith)) refl
