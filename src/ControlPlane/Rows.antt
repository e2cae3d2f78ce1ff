-- ===== src/ControlPlane/Rows.antt =====
-- What the statements of store/repositories.go use of SQL, on a table as the list of its rows.
pub mod Laws
use redis_shake.Prelude.{
  ℕ, ◌+◌, ◌==◌, Bool, Option, none, some, List, [], ◌∷◌, Bytes, bytes_eq, if◌then◌else◌,
}

-- `UPDATE … SET … WHERE`, the number of rows that it changes, and `SELECT COUNT(*) … WHERE`.
module _ {A : Type 0} (p : A → Bool) where
  unfoldable pub update_where : (A → A) → List A → List A
  update_where f [] = []
  update_where f (x ∷ xs) = (if p x then f x else x) ∷ update_where f xs

  unfoldable pub count_where : List A → ℕ
  count_where [] = 0
  count_where (x ∷ xs) = (if p x then 1 else 0) + count_where xs

  -- `SELECT … WHERE` of one row.
  unfoldable pub find_where : List A → Option A
  find_where [] = none
  find_where (x ∷ xs) = let rest = find_where xs in if p x then some x else rest
