-- ===== src/Go/Outcome/Rules.antt =====
-- Postconditions of code that may panic, with a rule for each way of composing it.
use redis_shake.Prelude.{Bool, true, false, ◌≡◌, refl, ◌≢◌, if◌then◌else◌}
use redis_shake.Go.Outcome.{Outcome, Panic, ok, panic, diverges, ◌>>=◌}

-- What is returned satisfies `P`.
pub data Returns {ℓ κ} {A : Type ℓ} (P : A → Type κ) : Outcome A → Type (ℓ ⊔ κ) where
  returned : {a : A} → P a → Returns P (ok a)
  panicked : {p : Panic} → Returns P (panic p)
  looped : Returns P diverges

-- The code ends: it panics, or what it returns satisfies `P`.
pub data Ends {ℓ κ} {A : Type ℓ} (P : A → Type κ) : Outcome A → Type (ℓ ⊔ κ) where
  ended : {a : A} → P a → Ends P (ok a)
  stopped : {p : Panic} → Ends P (panic p)

module _ {ℓ κ} {A : Type ℓ} {P : A → Type κ} where
  pub Returns-ok : {a : A} → Returns P (ok a) → P a
  Returns-ok (returned h) = h

  pub Returns-eq_ok : {m : Outcome A} {a : A} → Returns P m → m ≡ ok a → P a
  Returns-eq_ok r e = Returns-ok (rw e at r)

  pub Ends-ok : {a : A} → Ends P (ok a) → P a
  Ends-ok (ended h) = h

  pub Ends-eq_ok : {m : Outcome A} {a : A} → Ends P m → m ≡ ok a → P a
  Ends-eq_ok r e = Ends-ok (rw e at r)

  pub Ends-ne-diverges : {m : Outcome A} → Ends P m → m ≢ diverges
  Ends-ne-diverges (ended h) e = cc
  Ends-ne-diverges stopped e = cc

  pub if-Returns :
      (b : Bool) {x y : Outcome A} → Returns P x → Returns P y → Returns P (if b then x else y)
  if-Returns true hx hy = hx
  if-Returns false hx hy = hy

  pub if-Ends : (b : Bool) {x y : Outcome A} → Ends P x → Ends P y → Ends P (if b then x else y)
  if-Ends true hx hy = hx
  if-Ends false hx hy = hy

-- A weaker postcondition.
pub weaker {ℓ κ μ} :
    {A : Type ℓ} {P : A → Type κ} {Q : A → Type μ} {m : Outcome A}
    → Returns P m
    → ((a : A) → P a → Q a)
    → Returns Q m
weaker (returned h) f = returned (f _ h)
weaker panicked f = panicked
weaker looped f = looped

pub weaken {ℓ κ μ} :
    {A : Type ℓ} {P : A → Type κ} {Q : A → Type μ} {m : Outcome A}
    → Ends P m
    → ((a : A) → P a → Q a)
    → Ends Q m
weaken (ended h) f = ended (f _ h)
weaken stopped f = stopped

module _ {ℓ κ μ} {A : Type ℓ} {B : Type κ} {P : B → Type μ} where
  pub bind-Returns :
      (m : Outcome A) {f : A → Outcome B}
      → ((a : A) → m ≡ ok a → Returns P (f a))
      → Returns P (m >>= f)
  bind-Returns (ok a) h = h a refl
  bind-Returns (panic p) h = panicked
  bind-Returns diverges h = looped

module _ {ℓ κ μ ν} {A : Type ℓ} {B : Type κ} {P : B → Type μ} {Q : A → Type ν} where
  pub bind-Ends :
      {m : Outcome A} {f : A → Outcome B}
      → Ends Q m
      → ((a : A) → m ≡ ok a → Q a → Ends P (f a))
      → Ends P (m >>= f)
  bind-Ends (ended q) h = h _ refl q
  bind-Ends stopped h = stopped

module _ {ℓ κ} {A : Type ℓ} {B : Type κ} where
  -- Code that goes on alike whatever is returned.
  pub bind_cong :
      (m : Outcome A) {f g : A → Outcome B} → ((a : A) → f a ≡ g a) → (m >>= f) ≡ (m >>= g)
  bind_cong (ok a) h = h a
  bind_cong (panic p) h = refl
  bind_cong diverges h = refl

  -- A chain is run in either grouping.
  pub bind_assoc {μ} :
      {C : Type μ} (m : Outcome A) (f : A → Outcome B) (k : B → Outcome C)
      → (m >>= λ a. f a >>= k) ≡ (m >>= f >>= k)
  bind_assoc (ok a) f k = refl
  bind_assoc (panic e) f k = refl
  bind_assoc diverges f k = refl
