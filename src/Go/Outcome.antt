-- ===== src/Go/Outcome.antt =====
-- The outcome of Go code that may panic or loop.
pub mod Rules
use redis_shake.Prelude.{ℕ, ◌≡◌, refl, ◌⊎◌, Option, none, some, List, [], ◌∷◌}
use redis_shake.Prelude.Int.{ℤ, pos, negsuc}
use redis_shake.Prelude.{get_elem?}

-- `log.Panicf`, or the runtime's check of an index or a length.
pub data Panic : Type 0 where
  logged out_of_range : Panic

-- `diverges`: the loop did not end within the fuel that it was given.
pub data Outcome {ℓ} (A : Type ℓ) : Type ℓ where
  ok : A → Outcome A
  panic : Panic → Outcome A
  diverges : Outcome A

infixl 5 ◌>>=◌
abbrev pub ◌>>=◌ {ℓ κ} : {A : Type ℓ} {B : Type κ} → Outcome A → (A → Outcome B) → Outcome B
ok a >>= f = f a
panic p >>= f = panic p
diverges >>= f = diverges

-- `s[i]` at an `int` index.
abbrev pub index {ℓ} : {A : Type ℓ} → List A → ℤ → Outcome A
index xs (pos i) = elim (get_elem? xs i) [ none ↦ panic out_of_range | some x ↦ ok x ]
index xs (negsuc i) = panic out_of_range

pub >>=-ok {ℓ} : {A : Type ℓ} (m : Outcome A) → (m >>= λ a. ok a) ≡ m
>>=-ok (ok a) = refl
>>=-ok (panic p) = refl
>>=-ok diverges = refl
