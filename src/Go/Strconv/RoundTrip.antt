-- ===== src/Go/Strconv/RoundTrip.antt =====
-- What is printed in base 10 is read back.
use redis_shake.Prelude.{
  ℕ, zero, suc, ◌+◌, ◌-◌, ◌*◌, ◌/◌, ◌%◌, ◌^◌, ◌<◌, ◌≤◌, Bool-cases, All, inl, inr, [], ◌∷◌, length,
  Bytes, ◌≡◌, ◌∙◌, arith, ltb,
}
use redis_shake.Prelude.Int.{ℤ, pos, negsuc, ◌≤ℤ◌}
use redis_shake.Go.Strconv.{
  digits, format_uint, format_int, scan, parse_uint, parse_int, Parsed, ParsedUint, unsigned,
}

scan-cons :
    (d n : ℕ) (out : Bytes)
    → d < 10
    → n * 10 + d < 2 ^ 64
    → scan ((b'0' + d) ∷ out) n ≡ scan out (n * 10 + d)
unfolding scan
scan-cons d n out p q = ground arith

scan-digits : (f n : ℕ) (out : Bytes) → n < f → n < 2 ^ 64 → scan (digits f n out) 0 ≡ scan out n
unfolding digits
scan-digits zero n out p q = absurd (omega arith)
scan-digits (suc f) n out p q = ground (
  arith,
  scan-cons n 0 out,
  scan-cons (n % 10) (n / 10) out,
  scan-digits f (n / 10) ((b'0' + n % 10) ∷ out),
)

-- The first byte is a digit, so it is no sign.
digits-cons :
    (f n : ℕ) (out : Bytes) → n < f → (c : ℕ) × (s : Bytes) × (digits f n out ≡ c ∷ s) × (b'0' ≤ c)
unfolding digits
digits-cons zero n out p = absurd (omega arith)
digits-cons (suc f) n out p = elim (Bool-cases (ltb n 10)) [
  | inl one ↦ (b'0' + n, out, rw one, omega arith)
  | inr more ↦ rw more (digits-cons f (n / 10) ((b'0' + n % 10) ∷ out) (ground arith))
]

parse_uint-scan : (s : Bytes) {c : ℕ} {t : Bytes} → s ≡ c ∷ t → parse_uint s ≡ scan s 0
unfolding parse_uint
parse_uint-scan s e = rw (e, parse_uint)

parse_int-unsigned :
    (s : Bytes) {c : ℕ} {t : Bytes} → s ≡ c ∷ t → b'0' ≤ c → parse_int s ≡ unsigned (parse_uint s)
unfolding parse_int
parse_int-unsigned s {c} {t} e d = rw e (ground arith)

-- A printed number is a digit and more.
pub format_uint-cons : (n : ℕ) → (c : ℕ) × (s : Bytes) × (format_uint n ≡ c ∷ s) × (b'0' ≤ c)
unfolding format_uint
format_uint-cons n = digits-cons (suc n) n [] (omega arith)

pub parse_uint-format_uint : (n : ℕ) → n < 2 ^ 64 → parse_uint (format_uint n) ≡ ParsedUint.parsed n
parse_uint-format_uint n p =
    parse_uint-scan (format_uint n) (format_uint-cons n).2
    ∙ (let h : scan (format_uint n) 0 ≡ ParsedUint.parsed n =
          unfold format_uint scan in scan-digits (suc n) n [] (omega arith) p in
        h)

pub parse_int-format_uint : (n : ℕ) → n < 2 ^ 63 → parse_int (format_uint n) ≡ Parsed.parsed (pos n)
unfolding unsigned
parse_int-format_uint n p =
    parse_int-unsigned (format_uint n) (format_uint-cons n).2 (format_uint-cons n).3
    ∙ ground (arith, parse_uint-format_uint n)

-- `ParseInt` reads back what `FormatInt` prints, for every `int64`.
pub parse_int-format_int :
    (z : ℤ)
    → negsuc (2 ^ 63 - 1) ≤ℤ z
    → z ≤ℤ pos (2 ^ 63 - 1)
    → parse_int (format_int z) ≡ Parsed.parsed z
unfolding parse_int format_int
parse_int-format_int (pos n) lo hi = parse_int-format_uint n (omega arith)
parse_int-format_int (negsuc n) lo hi =
    rw (parse_uint-format_uint (suc n) (omega arith)) (ground arith)

-- A printed number has no line breaks.
digits-All : (f n : ℕ) (out : Bytes) → All (λ c. 13 < c) out → All (λ c. 13 < c) (digits f n out)
unfolding digits
digits-All zero n out h = h
digits-All (suc f) n out h = elim (Bool-cases (ltb n 10)) [
  | inl one ↦ rw one (omega arith, h)
  | inr more ↦ rw more (digits-All f (n / 10) ((b'0' + n % 10) ∷ out) (omega arith, h))
]

pub format_uint-All : (n : ℕ) → All (λ c. 13 < c) (format_uint n)
unfolding format_uint
format_uint-All n = digits-All (suc n) n [] tt

pub format_int-All : (z : ℤ) → All (λ c. 13 < c) (format_int z)
unfolding format_int
format_int-All (pos n) = format_uint-All n
format_int-All (negsuc n) = (omega arith, format_uint-All (suc n))

length-digits : (f n : ℕ) (out : Bytes) → length (digits f n out) ≤ f + length out
unfolding digits
length-digits zero n out = omega arith
length-digits (suc f) n out =
    let h = length-digits f (n / 10) ((b'0' + n % 10) ∷ out) in ground arith

pub length-format_uint : (n : ℕ) → length (format_uint n) ≤ suc n
unfolding format_uint
length-format_uint n = omega (arith, length-digits (suc n) n [])
