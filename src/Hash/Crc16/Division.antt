-- ===== src/Hash/Crc16/Division.antt =====
-- The table-driven loop of `Crc16` is division by the polynomial x^16 + x^12 + x^5 + 1.
use redis_shake.Prelude.Xor.{xor_comm, xor_assoc, xor-double, xor-lt_pow, xor_fields, xor-mul_pow}
use native.Mathlib.Nat.{pow-suc, one-le-pow}
use redis_shake.Prelude.{
  ℕ, zero, suc, ◌+◌, ◌-◌, ◌*◌, ◌/◌, ◌%◌, ◌^◌, ◌<◌, bit_xor, true, [], ◌∷◌, All, Bytes, ◌≡◌, refl,
  ap, arith, ltb, ltb→lt, ◌==◌, ==_iff, if◌then◌else◌, all_below, all_below-holds,
}
use redis_shake.Hash.Crc16.{crc16_entry, crc16_round, crc16_from, crc16}

abbrev pub IsByte : ℕ → Type 0
IsByte c = c < 256

-- One step of long division, highest digit first, with the generator 0x1021.
divide_bit : ℕ → ℕ
divide_bit x = if ltb x (2 ^ 15) then x * 2 else bit_xor (x * 2 - 2 ^ 16) 0x1021

divide_bits : ℕ → ℕ → ℕ
divide_bits zero x = x
divide_bits (suc k) x = divide_bits k (divide_bit x)

-- The remainder of a message, a byte at a time: no table.
pub remainder_from : ℕ → Bytes → ℕ
remainder_from crc [] = crc
remainder_from crc (n ∷ buf) = remainder_from (divide_bits 8 (bit_xor crc (n * 256))) buf

table_correct : all_below (λ i. crc16_entry i == divide_bits 8 (i * 256)) 256 ≡ true
unfolding all_below crc16_entry divide_bits divide_bit
table_correct = refl

table-divide : (i : ℕ) → i < 256 → crc16_entry i ≡ divide_bits 8 (i * 256)
table-divide i h = (==_iff _ _).0 (all_below-holds _ 256 i h table_correct)

-- Digits below the divisor's first digit are carried along unchanged.
double-xor_high :
    (y d : ℕ) → y < 2 ^ 15 → d < 2 ^ 15 → bit_xor (2 ^ 15 + y) d ≡ 2 ^ 15 + bit_xor y d
double-xor_high y d p q = ground (
  arith,
  xor_fields 15 1 y,
  xor_fields 15 1 (bit_xor y d),
  xor_assoc (2 ^ 15) y d,
  xor-lt_pow 15 y d,
)

divide_bit-xor :
    (y d : ℕ) → y < 2 ^ 16 → d < 2 ^ 15 → divide_bit (bit_xor y d) ≡ bit_xor (divide_bit y) (d * 2)
unfolding divide_bit
divide_bit-xor y d p q = ground (
  arith,
  xor-lt_pow 15 y d,
  xor-double y d,
  double-xor_high (y - 2 ^ 15) d,
  xor-double (y - 2 ^ 15) d,
  xor_assoc ((y - 2 ^ 15) * 2) 0x1021 (d * 2),
  xor_assoc ((y - 2 ^ 15) * 2) (d * 2) 0x1021,
  xor_comm 0x1021 (d * 2),
)

divide_bit-lt : (y : ℕ) → y < 2 ^ 16 → divide_bit y < 2 ^ 16
unfolding divide_bit
divide_bit-lt y p = ground (arith, xor-lt_pow 16 (y * 2 - 2 ^ 16) 0x1021)

factor_lt : (d m b : ℕ) → 0 < m → d * m < b → d < b
factor_lt d m b p q = grind arith

divide_bits-xor :
    (k y d : ℕ)
    → y < 2 ^ 16
    → d * 2 ^ k < 2 ^ 16
    → divide_bits k (bit_xor y d) ≡ bit_xor (divide_bits k y) (d * 2 ^ k)
unfolding divide_bits
divide_bits-xor zero y d p q = ground arith
divide_bits-xor (suc k) y d p q = ground (
  arith,
  ap (λ (t : ℕ). d * t) (pow-suc 2 k),
  factor_lt (d * 2) (2 ^ k) (2 ^ 16) (one-le-pow k 2 (omega arith)),
  divide_bit-xor y d p,
  divide_bit-lt y p,
  divide_bits-xor k (divide_bit y) (d * 2),
)

crc16_round-divide :
    (crc n : ℕ) → crc < 2 ^ 16 → n < 256 → crc16_round crc n ≡ divide_bits 8 (bit_xor crc (n * 256))
unfolding crc16_round
crc16_round-divide crc n p q =
    let hi = crc / 256 in
    let lo = crc % 256 in
    let x = bit_xor hi n in
    let x_lt = xor-lt_pow 8 hi n (omega arith) q in
    ground (
      arith,
      xor_fields 8 hi lo,
      xor-mul_pow 8 hi n,
      xor_assoc (hi * 256) lo (n * 256),
      xor_assoc (hi * 256) (n * 256) lo,
      xor_comm lo (n * 256),
      x_lt,
      table-divide x x_lt,
      divide_bits-xor 8 (x * 256) lo,
      xor_comm (lo * 256) (crc16_entry x),
    )

entries_fit : all_below (λ i. ltb (crc16_entry i) (2 ^ 16)) 256 ≡ true
unfolding all_below crc16_entry
entries_fit = refl

crc16_round-lt : (crc n : ℕ) → crc16_round crc n < 2 ^ 16
unfolding crc16_round
crc16_round-lt crc n =
    let i = bit_xor (crc / 256) n % 256 in
    let fits = ltb→lt _ _ (all_below-holds _ 256 i (omega arith) entries_fit) in
    xor-lt_pow 16 (crc * 256 % 2 ^ 16) (crc16_entry i) (omega arith) fits

crc16_from-remainder :
    (crc : ℕ) (buf : Bytes)
    → crc < 2 ^ 16
    → All IsByte buf
    → crc16_from crc buf ≡ remainder_from crc buf
unfolding crc16_from remainder_from
crc16_from-remainder crc [] p h = refl
crc16_from-remainder crc (n ∷ buf) p h =
    rw (← crc16_round-divide crc n p h.0)
      (crc16_from-remainder (crc16_round crc n) buf (crc16_round-lt crc n) h.1)

-- `Crc16` returns the remainder of the message by the polynomial 0x11021, for every byte string.
pub crc16-remainder : (buf : Bytes) → All IsByte buf → crc16 buf ≡ remainder_from 0 buf
unfolding crc16
crc16-remainder buf h = crc16_from-remainder 0 buf (omega arith) h

crc16_from-lt : (crc : ℕ) (buf : Bytes) → crc < 2 ^ 16 → crc16_from crc buf < 2 ^ 16
unfolding crc16_from
crc16_from-lt crc [] p = p
crc16_from-lt crc (n ∷ buf) p = crc16_from-lt (crc16_round crc n) buf (crc16_round-lt crc n)

-- The result is a `uint16`, whatever the bytes are.
pub crc16-lt : (buf : Bytes) → crc16 buf < 2 ^ 16
unfolding crc16
crc16-lt buf = crc16_from-lt 0 buf (omega arith)
