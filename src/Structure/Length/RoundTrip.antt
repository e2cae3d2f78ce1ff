-- ===== src/Structure/Length/RoundTrip.antt =====
-- Every length that Redis writes is read back.
use redis_shake.Prelude.{
  ℕ, ◌+◌, ◌/◌, ◌%◌, ◌^◌, ◌<◌, [], ◌∷◌, ◌++◌, length, length-append, Bytes, ltb, ltb→lt,
  take-length-append, drop-length-append, if◌then◌else◌, ◌≡◌, arith, Bool-cases, inl, inr,
}
use redis_shake.Go.Outcome.{ok}
use redis_shake.Structure.Reader.{read_byte, big_endian}
use redis_shake.Structure.Reader.Laws.{be_bytes, length-be_bytes, big_endian-be_bytes}
use redis_shake.Structure.Length.{
  plain, read_full, length_after, read_encoded_length, plain_length, read_length,
}

-- `rdbSaveLen` of Redis: 6 bits, 14 bits, 32 bits or 64 bits, whichever is the first to hold `n`.
abbrev pub save_length : ℕ → Bytes
save_length n =
    if ltb n 64
    then n ∷ []
    else if ltb n 16384
    then (0x40 + n / 256) ∷ n % 256 ∷ []
    else if ltb n (2 ^ 32)
    then 0x80 ∷ be_bytes 4 n
    else 0x81 ∷ be_bytes 8 n

read_full-append :
    (k : ℕ) (xs rest : Bytes)
    → length xs ≡ k
    → read_full k (xs ++ rest) ≡ ok (plain (big_endian xs), rest)
unfolding read_full
read_full-append k xs rest e =
    rw (← e) (
      ground (arith, length-append xs rest, take-length-append xs rest, drop-length-append xs rest))

length_after_6_bits : (n : ℕ) (rest : Bytes) → n < 64 → length_after n rest ≡ ok (plain n, rest)
unfolding length_after
length_after_6_bits n rest h = ground arith

length_after_14_bits :
    (n : ℕ) (rest : Bytes)
    → n < 16384
    → length_after (0x40 + n / 256) (n % 256 ∷ rest) ≡ ok (plain n, rest)
unfolding length_after read_byte
length_after_14_bits n rest h = ground arith

length_after_bytes :
    (n : ℕ) (rest : Bytes)
    → (n < 2 ^ 32 → length_after 0x80 (be_bytes 4 n ++ rest) ≡ ok (plain n, rest))
      × (n < 2 ^ 64 → length_after 0x81 (be_bytes 8 n ++ rest) ≡ ok (plain n, rest))
unfolding length_after
length_after_bytes n rest = (
  λ h. rw (read_full-append 4 (be_bytes 4 n) rest (length-be_bytes 4 n), big_endian-be_bytes 4 n h),
  λ h. rw (read_full-append 8 (be_bytes 8 n) rest (length-be_bytes 8 n), big_endian-be_bytes 8 n h),
)

-- What Redis writes as a length is read as that length, and nothing behind it is touched.
pub read_encoded_length-save_length :
    (n : ℕ) (rest : Bytes)
    → n < 2 ^ 64
    → read_encoded_length (save_length n ++ rest) ≡ ok (plain n, rest)
unfolding read_encoded_length read_byte
read_encoded_length-save_length n rest h = elim (Bool-cases (ltb n 64)) [
  | inl a ↦ rw a (length_after_6_bits n rest (ltb→lt n 64 a))
  | inr a ↦ elim (Bool-cases (ltb n 16384)) [
    | inl b ↦ rw (a, b) (length_after_14_bits n rest (ltb→lt n 16384 b))
    | inr b ↦ elim (Bool-cases (ltb n (2 ^ 32))) [
      | inl c ↦ rw (a, b, c) ((length_after_bytes n rest).0 (ltb→lt n (2 ^ 32) c))
      | inr c ↦ rw (a, b, c) ((length_after_bytes n rest).1 h)
    ]
  ]
]

-- Every length of 64 bits is read back from what `rdbSaveLen` of Redis writes for it: in 6, 14, 32
-- or 64 bits.
pub read_length-save_length :
    (n : ℕ) (rest : Bytes) → n < 2 ^ 64 → read_length (save_length n ++ rest) ≡ ok (n, rest)
unfolding read_length plain_length
read_length-save_length n rest h = rw (read_encoded_length-save_length n rest h)
