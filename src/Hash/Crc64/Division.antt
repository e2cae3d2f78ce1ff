-- ===== src/Hash/Crc64/Division.antt =====
-- `CalcCRC64` and `digest` divide by the reflected Jones polynomial, in one call or in several.
use native.Mathlib.Nat.{pow-suc}
use redis_shake.Prelude.Xor.{xor_comm, xor_assoc, xor-half, xor-parity, xor_fields, xor-lt_pow}
use redis_shake.Prelude.{
  ℕ, zero, suc, ◌*◌, ◌/◌, ◌%◌, ◌^◌, ◌<◌, bit_xor, true, [], ◌∷◌, ◌++◌, All, Bytes, ◌≡◌, refl, ap,
  arith, ◌==◌, ==_iff, if◌then◌else◌, all_below, all_below-holds, sym, ◌∙◌, ltb, ltb→lt,
}
use redis_shake.Hash.Crc64.{
  crc64_entry, crc64_round, new_digest, update_crc, update, write, sum64, calc_crc64_from,
  calc_crc64,
}

-- One step of reflected division, lowest digit first.
divide_bit : ℕ → ℕ
divide_bit x = if x % 2 == 0 then x / 2 else bit_xor (x / 2) 0x95ac9329ac4bc9b5

divide_bits : ℕ → ℕ → ℕ
divide_bits zero x = x
divide_bits (suc k) x = divide_bits k (divide_bit x)

-- The remainder of a message, a byte at a time: no table.
pub remainder_from : ℕ → Bytes → ℕ
remainder_from crc [] = crc
remainder_from crc (b ∷ p) = remainder_from (divide_bits 8 (bit_xor crc b)) p

table_correct : all_below (λ i. crc64_entry i == divide_bits 8 i) 256 ≡ true
unfolding all_below crc64_entry divide_bits divide_bit
table_correct = refl

table-divide : (i : ℕ) → i < 256 → crc64_entry i ≡ divide_bits 8 i
table-divide i h = (==_iff _ _).0 (all_below-holds _ 256 i h table_correct)

divide_bit-xor : (y e : ℕ) → divide_bit (bit_xor y (e * 2)) ≡ bit_xor (divide_bit y) e
unfolding divide_bit
divide_bit-xor y e = ground (
  arith,
  xor-half y (e * 2),
  xor-parity y (e * 2),
  xor_assoc (y / 2) 0x95ac9329ac4bc9b5 e,
  xor_assoc (y / 2) e 0x95ac9329ac4bc9b5,
  xor_comm 0x95ac9329ac4bc9b5 e,
)

-- Digits above those that are divided move down unchanged.
divide_bits-xor : (k y d : ℕ) → divide_bits k (bit_xor y (d * 2 ^ k)) ≡ bit_xor (divide_bits k y) d
unfolding divide_bits
divide_bits-xor zero y d = ground arith
divide_bits-xor (suc k) y d = ground (
  arith,
  ap (λ (t : ℕ). d * t) (pow-suc 2 k),
  divide_bit-xor y (d * 2 ^ k),
  divide_bits-xor k (divide_bit y) d,
)

xor_low : (crc b : ℕ) → b < 256 → bit_xor crc b ≡ bit_xor (bit_xor (crc % 256) b) (crc / 256 * 256)
xor_low crc b p = ground (
  arith,
  xor_fields 8 (crc / 256) (crc % 256),
  xor_assoc (crc / 256 * 256) (crc % 256) b,
  xor_comm (crc / 256 * 256) (bit_xor (crc % 256) b),
)

crc64_round-divide : (crc b : ℕ) → b < 256 → crc64_round crc b ≡ divide_bits 8 (bit_xor crc b)
unfolding crc64_round
crc64_round-divide crc b p =
    let i = bit_xor (crc % 256) b in
    let i_lt = xor-lt_pow 8 (crc % 256) b (omega arith) p in
    ground (arith, xor_low crc b p, i_lt, table-divide i i_lt, divide_bits-xor 8 i (crc / 256))

calc_crc64_from-remainder :
    (crc : ℕ) (p : Bytes) → All (λ b. b < 256) p → calc_crc64_from crc p ≡ remainder_from crc p
unfolding calc_crc64_from remainder_from
calc_crc64_from-remainder crc [] h = refl
calc_crc64_from-remainder crc (b ∷ p) h =
    rw (← crc64_round-divide crc b h.0) (calc_crc64_from-remainder (crc64_round crc b) p h.1)

-- `CalcCRC64` returns the remainder of the message by the reflected polynomial
-- 0x95ac9329ac4bc9b5, for every byte string.
pub calc_crc64-remainder : (p : Bytes) → All (λ b. b < 256) p → calc_crc64 p ≡ remainder_from 0 p
unfolding calc_crc64
calc_crc64-remainder p h = calc_crc64_from-remainder 0 p h

update_crc-append :
    (crc : ℕ) (p q : Bytes) → update_crc crc (p ++ q) ≡ update_crc (update_crc crc p) q
unfolding update_crc
update_crc-append crc [] q = refl
update_crc-append crc (b ∷ p) q = update_crc-append (crc64_round crc b) p q

update_crc-calc : (crc : ℕ) (p : Bytes) → update_crc crc p ≡ calc_crc64_from crc p
unfolding update_crc calc_crc64_from
update_crc-calc crc [] = refl
update_crc-calc crc (b ∷ p) = update_crc-calc (crc64_round crc b) p

-- Two writes to a new digest leave the sum that `CalcCRC64` gives of the joined bytes.
pub sum64-write : (p q : Bytes) → sum64 (write (write new_digest p).0 q).0 ≡ calc_crc64 (p ++ q)
unfolding sum64 write update new_digest calc_crc64
sum64-write p q = sym (update_crc-append 0 p q) ∙ update_crc-calc 0 (p ++ q)

entries_fit : all_below (λ i. ltb (crc64_entry i) (2 ^ 64)) 256 ≡ true
unfolding all_below crc64_entry
entries_fit = refl

crc64_round-lt : (crc b : ℕ) → crc < 2 ^ 64 → b < 256 → crc64_round crc b < 2 ^ 64
unfolding crc64_round
crc64_round-lt crc b h k =
    let i = bit_xor (crc % 256) b in
    let i_lt = xor-lt_pow 8 (crc % 256) b (omega arith) k in
    let fits = ltb→lt _ _ (all_below-holds _ 256 i i_lt entries_fit) in
    xor-lt_pow 64 (crc64_entry i) (crc / 256) fits (omega arith)

calc_crc64_from-lt :
    (crc : ℕ) (p : Bytes) → crc < 2 ^ 64 → All (λ b. b < 256) p → calc_crc64_from crc p < 2 ^ 64
unfolding calc_crc64_from
calc_crc64_from-lt crc [] h k = h
calc_crc64_from-lt crc (b ∷ p) h k =
    calc_crc64_from-lt (crc64_round crc b) p (crc64_round-lt crc b h k.0) k.1

pub calc_crc64-lt : (p : Bytes) → All (λ b. b < 256) p → calc_crc64 p < 2 ^ 64
unfolding calc_crc64
calc_crc64-lt p h = calc_crc64_from-lt 0 p (omega arith) h
