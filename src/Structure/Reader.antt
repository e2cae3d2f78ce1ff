-- ===== src/Structure/Reader.antt =====
-- byte.go and int.go of backend/internal/rdb/structure: reads of bytes and of machine integers from
-- an `io.Reader`, which is the list of the bytes still to come. A short read panics in the log.
pub mod Laws
pub mod Takes
use redis_shake.Prelude.{
  ℕ, zero, suc, ◌+◌, ◌-◌, ◌*◌, ◌/◌, ◌^◌, List, [], ◌∷◌, ◌++◌, length, take, drop, get_or, Bytes,
  leb, ltb, if◌then◌else◌,
}
use redis_shake.Prelude.Int.{ℤ, pos, negsuc}
use redis_shake.Go.Outcome
use redis_shake.Go.Outcome.{Outcome, Panic, ok, panic, diverges, logged, out_of_range}

abbrev pub Reader : Type 0 → Type 0
Reader A = Bytes → Outcome (A × Bytes)

infixl 5 ◌>>=◌
abbrev pub ◌>>=◌ : {A B : Type 0} → Reader A → (A → Reader B) → Reader B
◌>>=◌ m f s = Outcome.◌>>=◌ (m s) (λ r. f r.0 r.1)

abbrev pub return : {A : Type 0} → A → Reader A
return a s = ok (a, s)

abbrev pub fail : {A : Type 0} → Panic → Reader A
fail p s = panic p

-- A computation that reads nothing.
abbrev pub lift : {A : Type 0} → Outcome A → Reader A
lift m s = Outcome.◌>>=◌ m (λ a. ok (a, s))

-- A second reader over the bytes `buf`, `bufio.NewReader(strings.NewReader(…))`; what it leaves is
-- dropped.
abbrev pub read_from : {A : Type 0} → Bytes → Reader A → Reader A
read_from buf m = lift (Outcome.◌>>=◌ (m buf) (λ r. ok r.0))

-- `ReadBytes(rd, int(n))` for an unsigned `n`: a length that is negative as an `int` panics in
-- `make`.
unfoldable pub read_bytes : ℕ → Reader Bytes
read_bytes n s =
    if leb (2 ^ 63) n
    then panic out_of_range
    else if ltb (length s) n
    then panic logged
    else ok (take n s, drop n s)

unfoldable pub read_byte : Reader ℕ
read_byte [] = panic logged
read_byte (b ∷ s) = ok (b, s)

-- `binary.LittleEndian` and `binary.BigEndian`.
abbrev pub little_endian : Bytes → ℕ
little_endian [] = 0
little_endian (b ∷ bs) = b + 256 * little_endian bs

abbrev pub big_endian_from : ℕ → Bytes → ℕ
big_endian_from n [] = n
big_endian_from n (b ∷ bs) = big_endian_from (n * 256 + b) bs

abbrev pub big_endian : Bytes → ℕ
big_endian = big_endian_from 0

-- A pattern of `w` bits as a signed number.
abbrev pub signed : ℕ → ℕ → ℤ
signed w n = if ltb n (2 ^ (w - 1)) then pos n else negsuc (2 ^ w - n - 1)

-- The arithmetic shift `>>` of a signed number.
abbrev pub shift_right : ℤ → ℕ → ℤ
shift_right (pos n) k = pos (n / 2 ^ k)
shift_right (negsuc n) k = negsuc (n / 2 ^ k)

abbrev read_little_endian : ℕ → Reader ℕ
read_little_endian n = do buf ← read_bytes n; return (little_endian buf)

unfoldable pub read_uint8 : Reader ℕ
unfolding read_byte
read_uint8 = read_byte

unfoldable pub read_uint16 : Reader ℕ
unfolding read_bytes
read_uint16 = read_little_endian 2

-- Three bytes and a zero, read as four.
unfoldable pub read_uint24 : Reader ℕ
unfolding read_bytes
read_uint24 = do buf ← read_bytes 3; return (little_endian (buf ++ 0 ∷ []))

unfoldable pub read_uint32 : Reader ℕ
unfolding read_bytes
read_uint32 = read_little_endian 4

unfoldable pub read_uint64 : Reader ℕ
unfolding read_bytes
read_uint64 = read_little_endian 8

unfoldable pub read_int8 : Reader ℤ
unfolding read_byte
read_int8 = do b ← read_byte; return (signed 8 b)

unfoldable pub read_int16 : Reader ℤ
unfolding read_bytes
read_int16 = do n ← read_little_endian 2; return (signed 16 n)

-- A zero and three bytes, read as four and shifted down.
unfoldable pub read_int24 : Reader ℤ
unfolding read_bytes
read_int24 = do buf ← read_bytes 3; return (shift_right (signed 32 (little_endian (0 ∷ buf))) 8)

unfoldable pub read_int32 : Reader ℤ
unfolding read_bytes
read_int32 = do n ← read_little_endian 4; return (signed 32 n)

unfoldable pub read_int64 : Reader ℤ
unfolding read_bytes
read_int64 = do n ← read_little_endian 8; return (signed 64 n)
