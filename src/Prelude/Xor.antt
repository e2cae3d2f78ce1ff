-- ===== src/Prelude/Xor.antt =====
-- Laws of `bit_xor` at variables, from its recursion on binary digits.
use Prim.Native.Nat.{
  ℕ, zero, suc, ◌+◌, ◌*◌, ◌/◌, ◌%◌, ◌^◌, ◌≤◌, ◌<◌, bit_xor, digits, differ, bit_xor-bitwise,
}
use mathlib.Core.Path.{◌≡◌, refl, ap, ◌∙◌}
use native.Mathlib.Nat.{le_refl, pow-suc}
use native.Mathlib.Omega.{arith}

-- Fuel that bounds the first number is enough, and more changes nothing.
enough_digits :
    (a n b m : ℕ) → n ≤ m → a ≤ n → digits (λ y. y) differ m a b ≡ digits (λ y. y) differ n a b
enough_digits zero (suc n) b (suc m) le h = refl
enough_digits zero zero b zero le h = refl
enough_digits zero zero b (suc m) le h = refl
enough_digits zero (suc n) b zero le h = absurd (omega arith)
enough_digits (suc a) zero b m le h = absurd (omega arith)
enough_digits (suc a) (suc n) b zero le h = absurd (omega arith)
enough_digits (suc a) (suc n) b (suc m) le h =
    rw (enough_digits (suc a / 2) n (b / 2) m (omega arith) (omega arith))

zero-xor : (b : ℕ) → bit_xor 0 b ≡ b
zero-xor b = bit_xor-bitwise 0 b

-- The sum of two binary digits without the carry.
pub digit_xor : (x y : ℕ) → x < 2 → y < 2 → differ x y ≡ (x + y) % 2
digit_xor zero y p q = omega arith
digit_xor (suc zero) zero p q = refl
digit_xor (suc zero) (suc zero) p q = refl
digit_xor (suc zero) (suc (suc y)) p q = absurd (omega arith)
digit_xor (suc (suc x)) y p q = absurd (omega arith)

xor_step_differ : (a b : ℕ) → bit_xor a b ≡ bit_xor (a / 2) (b / 2) * 2 + differ (a % 2) (b % 2)
xor_step_differ zero b = omega (arith, zero-xor b, zero-xor (b / 2))
xor_step_differ (suc a) b =
    simp bit_xor-bitwise
      (omega (arith, enough_digits (suc a / 2) (suc a / 2) (b / 2) a (omega arith) (le_refl _)))

-- The recursion on the lowest digit.
pub xor_step : (a b : ℕ) → bit_xor a b ≡ bit_xor (a / 2) (b / 2) * 2 + (a + b) % 2
xor_step a b =
    omega (arith, xor_step_differ a b, digit_xor (a % 2) (b % 2) (omega arith) (omega arith))

-- Half of an exclusive or, and its lowest digit.
pub xor-half : (a b : ℕ) → bit_xor a b / 2 ≡ bit_xor (a / 2) (b / 2)
xor-half a b = omega (arith, xor_step a b)

pub xor-parity : (a b : ℕ) → bit_xor a b % 2 ≡ (a + b) % 2
xor-parity a b = omega (arith, xor_step a b)

xor_comm_fuel : (n a b : ℕ) → a ≤ n → b ≤ n → bit_xor a b ≡ bit_xor b a
xor_comm_fuel zero a b p q = ground arith
xor_comm_fuel (suc n) a b p q =
    omega (arith, xor_step a b, xor_step b a, xor_comm_fuel n (a / 2) (b / 2))

pub xor_comm : (a b : ℕ) → bit_xor a b ≡ bit_xor b a
xor_comm a b = xor_comm_fuel (a + b) a b (omega arith) (omega arith)

xor_assoc_fuel :
    (n a b c : ℕ) → a ≤ n → b ≤ n → c ≤ n → bit_xor (bit_xor a b) c ≡ bit_xor a (bit_xor b c)
xor_assoc_fuel zero a b c p q r = ground (arith, zero-xor 0)
xor_assoc_fuel (suc n) a b c p q r = ground (
  arith,
  xor_step (bit_xor a b) c,
  xor_step a (bit_xor b c),
  xor-half a b,
  xor-half b c,
  xor-parity a b,
  xor-parity b c,
  xor_assoc_fuel n (a / 2) (b / 2) (c / 2),
)

pub xor_assoc : (a b c : ℕ) → bit_xor (bit_xor a b) c ≡ bit_xor a (bit_xor b c)
xor_assoc a b c = xor_assoc_fuel (a + b + c) a b c (omega arith) (omega arith) (omega arith)

pub xor-zero : (a : ℕ) → bit_xor a 0 ≡ a
xor-zero a = xor_comm a 0 ∙ zero-xor a

pub xor-double : (a b : ℕ) → bit_xor (a * 2) (b * 2) ≡ bit_xor a b * 2
xor-double a b = ground (arith, xor_step (a * 2) (b * 2))

-- An exclusive or needs no more digits than its arguments.
pub xor-lt_pow : (k a b : ℕ) → a < 2 ^ k → b < 2 ^ k → bit_xor a b < 2 ^ k
xor-lt_pow zero a b p q = ground (arith, zero-xor 0)
xor-lt_pow (suc k) a b p q = omega (arith, xor_step a b, pow-suc 2 k, xor-lt_pow k (a / 2) (b / 2))

-- Two numbers whose digits do not overlap.
pub xor_fields : (k h l : ℕ) → l < 2 ^ k → bit_xor (h * 2 ^ k) l ≡ h * 2 ^ k + l
xor_fields zero h l p = ground (arith, xor-zero h)
xor_fields (suc k) h l p = ground (
  arith,
  xor_step (h * 2 ^ suc k) l,
  pow-suc 2 k,
  ap (λ (t : ℕ). h * t) (pow-suc 2 k),
  xor_fields k h (l / 2),
)

pub xor-mul_pow : (k a b : ℕ) → bit_xor (a * 2 ^ k) (b * 2 ^ k) ≡ bit_xor a b * 2 ^ k
xor-mul_pow zero a b = ground arith
xor-mul_pow (suc k) a b = ground (
  arith,
  pow-suc 2 k,
  ap (λ (t : ℕ). a * t) (pow-suc 2 k),
  ap (λ (t : ℕ). b * t) (pow-suc 2 k),
  ap (λ (t : ℕ). bit_xor a b * t) (pow-suc 2 k),
  xor-double (a * 2 ^ k) (b * 2 ^ k),
  xor-mul_pow k a b,
)
