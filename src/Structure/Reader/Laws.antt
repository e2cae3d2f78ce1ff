-- ===== src/Structure/Reader/Laws.antt =====
-- Reads of bytes that stand in front of a rest.
use native.Mathlib.Nat.{pow-suc}
use redis_shake.Prelude.{
  ℕ, zero, suc, ◌+◌, ◌-◌, ◌*◌, ◌/◌, ◌%◌, ◌^◌, ◌<◌, [], ◌∷◌, ◌++◌, length, length-append,
  take-length-append, drop-length-append, Bytes, ◌≡◌, refl, arith, ap, ◌∙◌,
}
use redis_shake.Prelude.Int.{ℤ, pos, negsuc}
use redis_shake.Go.Outcome
use redis_shake.Go.Outcome.{ok}
use redis_shake.Go.Outcome.Rules.{bind_assoc}
use redis_shake.Structure.Reader.{
  Reader, ◌>>=◌, read_bytes, read_byte, little_endian, big_endian, big_endian_from, signed,
  read_uint16, read_uint24, read_uint32, read_uint64, read_int8, read_int16, read_int24, read_int32,
  read_int64,
}

abbrev pub IsByte : ℕ → Type 0
IsByte b = b < 256

pub read_bytes-append :
    (n : ℕ) (xs rest : Bytes)
    → length xs ≡ n
    → n < 2 ^ 63
    → read_bytes n (xs ++ rest) ≡ ok (xs, rest)
unfolding read_bytes
read_bytes-append n xs rest e h =
    rw (← e) (
      ground (arith, length-append xs rest, take-length-append xs rest, drop-length-append xs rest))

pub read-then :
    {A B C : Type 0} (m : Reader A) (f : A → Reader B) (k : B → Reader C) (s t : Bytes) (b : B)
    → (m >>= f) s ≡ ok (b, t)
    → (m >>= (λ a. f a >>= k)) s ≡ k b t
read-then m f k s t b e =
    bind_assoc (m s) (λ r. f r.0 r.1) (λ r. k r.0 r.1)
    ∙ ap (λ o. Outcome.◌>>=◌ o (λ r. k r.0 r.1)) e

-- The `n` lowest bytes of a number, lowest first and highest first.
abbrev pub le_bytes : ℕ → ℕ → Bytes
le_bytes zero v = []
le_bytes (suc n) v = v % 256 ∷ le_bytes n (v / 256)

abbrev pub be_bytes : ℕ → ℕ → Bytes
be_bytes zero v = []
be_bytes (suc n) v = be_bytes n (v / 256) ++ v % 256 ∷ []

pub length-le_bytes : (n v : ℕ) → length (le_bytes n v) ≡ n
length-le_bytes zero v = refl
length-le_bytes (suc n) v = ap suc (length-le_bytes n (v / 256))

pub length-be_bytes : (n v : ℕ) → length (be_bytes n v) ≡ n
length-be_bytes zero v = refl
length-be_bytes (suc n) v =
    omega (arith, length-append (be_bytes n (v / 256)) (v % 256 ∷ []), length-be_bytes n (v / 256))

div-lt_pow : (n v : ℕ) → v < 256 ^ suc n → v / 256 < 256 ^ n
div-lt_pow n v h = omega (arith, pow-suc 256 n)

pub little_endian-le_bytes : (n v : ℕ) → v < 256 ^ n → little_endian (le_bytes n v) ≡ v
little_endian-le_bytes zero v h = omega arith
little_endian-le_bytes (suc n) v h =
    omega (arith, little_endian-le_bytes n (v / 256) (div-lt_pow n v h))

big_endian_from-append :
    (acc : ℕ) (xs ys : Bytes)
    → big_endian_from acc (xs ++ ys) ≡ big_endian_from (big_endian_from acc xs) ys
big_endian_from-append acc [] ys = refl
big_endian_from-append acc (x ∷ xs) ys = big_endian_from-append (acc * 256 + x) xs ys

pub big_endian-be_bytes : (n v : ℕ) → v < 256 ^ n → big_endian (be_bytes n v) ≡ v
big_endian-be_bytes zero v h = omega arith
big_endian-be_bytes (suc n) v h =
    rw (big_endian_from-append 0 (be_bytes n (v / 256)) (v % 256 ∷ []))
      (omega (arith, big_endian-be_bytes n (v / 256) (div-lt_pow n v h)))

-- The three bytes of `ReadInt24` as a signed number of 24 bits.
pub read_int24-signed :
    (a b c : ℕ) (rest : Bytes)
    → a < 256
    → b < 256
    → c < 256
    → read_int24 (a ∷ b ∷ c ∷ rest) ≡ ok (signed 24 (a + 256 * b + 65536 * c), rest)
unfolding read_int24 read_bytes
read_int24-signed a b c rest p q r = ground arith

-- A number is its high part and its low byte.
pub split_256 : (u : ℕ) → u / 256 * 256 + u % 256 ≡ u
split_256 u = omega arith

-- The pattern of `w` bits of a signed number, and the numbers that have one.
abbrev pub unsigned_of : ℕ → ℤ → ℕ
unsigned_of w (pos n) = n
unsigned_of w (negsuc n) = 2 ^ w - 1 - n

abbrev pub FitsBits : ℕ → ℤ → Type 0
FitsBits w (pos n) = n < 2 ^ (w - 1)
FitsBits w (negsuc n) = n < 2 ^ (w - 1)

abbrev pub Widths : (ℕ → Type 0) → Type 0
Widths P = P 8 × P 16 × P 24 × P 32 × P 64

pub signed-unsigned_of : (v : ℤ) → Widths (λ w. FitsBits w v → signed w (unsigned_of w v) ≡ v)
signed-unsigned_of (pos n) =
    (λ h. ground arith, λ h. ground arith, λ h. ground arith, λ h. ground arith, λ h. ground arith)
signed-unsigned_of (negsuc n) =
    (λ h. ground arith, λ h. ground arith, λ h. ground arith, λ h. ground arith, λ h. ground arith)

pub unsigned_of-lt : (v : ℤ) → Widths (λ w. FitsBits w v → unsigned_of w v < 2 ^ w)
unsigned_of-lt (pos n) = omega arith
unsigned_of-lt (negsuc n) = omega arith

-- Reads of unsigned integers written lowest byte first.
pub read_uint-le_bytes :
    (v : ℕ) (rest : Bytes)
    → (v < 2 ^ 16 → read_uint16 (le_bytes 2 v ++ rest) ≡ ok (v, rest))
      × (v < 2 ^ 24 → read_uint24 (le_bytes 3 v ++ rest) ≡ ok (v, rest))
      × (v < 2 ^ 32 → read_uint32 (le_bytes 4 v ++ rest) ≡ ok (v, rest))
      × (v < 2 ^ 64 → read_uint64 (le_bytes 8 v ++ rest) ≡ ok (v, rest))
unfolding read_uint16 read_uint24 read_uint32 read_uint64
read_uint-le_bytes v rest = (
  λ h.
      rw (read_bytes-append 2 (le_bytes 2 v) rest refl (omega arith), little_endian-le_bytes 2 v h),
  λ h. rw (read_bytes-append 3 (le_bytes 3 v) rest refl (omega arith)) (ground arith),
  λ h.
      rw (read_bytes-append 4 (le_bytes 4 v) rest refl (omega arith), little_endian-le_bytes 4 v h),
  λ h.
      rw (read_bytes-append 8 (le_bytes 8 v) rest refl (omega arith), little_endian-le_bytes 8 v h),
)

three_bytes :
    (u : ℕ) → u < 2 ^ 24 → u % 256 + 256 * (u / 256 % 256) + 65536 * (u / 256 / 256 % 256) ≡ u
three_bytes u h = omega arith

-- Reads of signed integers written lowest byte first.
pub read_int-le_bytes :
    (v : ℤ) (rest : Bytes)
    → (FitsBits 8 v → read_int8 (unsigned_of 8 v ∷ rest) ≡ ok (v, rest))
      × (FitsBits 16 v → read_int16 (le_bytes 2 (unsigned_of 16 v) ++ rest) ≡ ok (v, rest))
      × (FitsBits 24 v → read_int24 (le_bytes 3 (unsigned_of 24 v) ++ rest) ≡ ok (v, rest))
      × (FitsBits 32 v → read_int32 (le_bytes 4 (unsigned_of 32 v) ++ rest) ≡ ok (v, rest))
      × (FitsBits 64 v → read_int64 (le_bytes 8 (unsigned_of 64 v) ++ rest) ≡ ok (v, rest))
unfolding read_int8 read_int16 read_int32 read_int64 read_byte
read_int-le_bytes v rest =
    let s = signed-unsigned_of v in
    let b = unsigned_of-lt v in
    (
      λ h. rw (s.0 h),
      λ h. rw (
        read_bytes-append 2 (le_bytes 2 (unsigned_of 16 v)) rest refl (omega arith),
        little_endian-le_bytes 2 (unsigned_of 16 v) (b.1 h),
        s.1 h,
      ),
      λ h. rw (
        read_int24-signed (unsigned_of 24 v % 256) (unsigned_of 24 v / 256 % 256)
            (unsigned_of 24 v / 256 / 256 % 256) rest (omega arith) (omega arith) (omega arith),
        three_bytes (unsigned_of 24 v) (b.2 h),
        s.2 h,
      ),
      λ h. rw (
        read_bytes-append 4 (le_bytes 4 (unsigned_of 32 v)) rest refl (omega arith),
        little_endian-le_bytes 4 (unsigned_of 32 v) (b.3 h),
        s.3 h,
      ),
      λ h. rw (
        read_bytes-append 8 (le_bytes 8 (unsigned_of 64 v)) rest refl (omega arith),
        little_endian-le_bytes 8 (unsigned_of 64 v) (b.4 h),
        s.4 h,
      ),
    )
