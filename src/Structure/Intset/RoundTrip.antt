-- ===== src/Structure/Intset/RoundTrip.antt =====
-- Every intset that Redis writes is read back, as the decimal texts of its members.
use redis_shake.Prelude.{
  ℕ, ◌*◌, ◌^◌, ◌<◌, List, [], ◌∷◌, ◌++◌, append_assoc, append-nil, map, length, All, Bytes, ◌≡◌,
  refl, arith,
}
use redis_shake.Prelude.Int.{ℤ}
use redis_shake.Go.Outcome.{ok}
use redis_shake.Go.Strconv.{format_int}
use redis_shake.Structure.Reader.Laws.{
  le_bytes, unsigned_of, FitsBits, length-le_bytes, little_endian-le_bytes, unsigned_of-lt,
  signed-unsigned_of, read_bytes-append, read_uint-le_bytes,
}
use redis_shake.Structure.Text.Saved.{Saved, save_text, text, IsSaved, read_string-save_text}
use redis_shake.Structure.Intset.{int_string, read_ints, intset_body, read_intset}

-- The three encodings, by the number of bytes that a member takes.
pub data Width : Type 0 where
  int16 int32 int64 : Width

abbrev pub width : Width → ℕ
width int16 = 2
width int32 = 4
width int64 = 8

abbrev pub bits : Width → ℕ
bits k = 8 * width k

-- The members, each in the bytes of the width.
abbrev pub int_bytes : Width → List ℤ → Bytes
int_bytes k [] = []
int_bytes k (v ∷ vs) = le_bytes (width k) (unsigned_of (bits k) v) ++ int_bytes k vs

-- The intset: the width of its members, their number, and the members.
abbrev pub save_intset : Width → List ℤ → Bytes
save_intset k vs = le_bytes 4 (width k) ++ (le_bytes 4 (length vs) ++ int_bytes k vs)

int_string_ok :
    (k : Width) (v : ℤ)
    → FitsBits (bits k) v
    → int_string (width k) (le_bytes (width k) (unsigned_of (bits k) v)) ≡ format_int v
unfolding int_string
int_string_ok int16 v h = rw (
  little_endian-le_bytes 2 (unsigned_of 16 v) ((unsigned_of-lt v).1 h),
  (signed-unsigned_of v).1 h,
)
int_string_ok int32 v h = rw (
  little_endian-le_bytes 4 (unsigned_of 32 v) ((unsigned_of-lt v).3 h),
  (signed-unsigned_of v).3 h,
)
int_string_ok int64 v h = rw (
  little_endian-le_bytes 8 (unsigned_of 64 v) ((unsigned_of-lt v).4 h),
  (signed-unsigned_of v).4 h,
)

width-lt : (k : Width) → width k < 2 ^ 32
width-lt int16 = omega arith
width-lt int32 = omega arith
width-lt int64 = omega arith

read_ints_ok :
    (k : Width) (vs : List ℤ) (rest : Bytes)
    → All (FitsBits (bits k)) vs
    → read_ints (width k) (length vs) (int_bytes k vs ++ rest) ≡ ok (map format_int vs, rest)
unfolding read_ints
read_ints_ok k [] rest h = refl
read_ints_ok k (v ∷ vs) rest h =
    let b = le_bytes (width k) (unsigned_of (bits k) v) in
    rw (
      append_assoc b (int_bytes k vs) rest,
      read_bytes-append (width k) b (int_bytes k vs ++ rest)
          (length-le_bytes (width k) (unsigned_of (bits k) v)) (omega (arith, width-lt k)),
      read_ints_ok k vs rest h.1,
      int_string_ok k v h.0,
    )

intset_body_ok :
    (k : Width) (vs : List ℤ)
    → All (FitsBits (bits k)) vs
    → length vs < 2 ^ 32
    → intset_body (save_intset k vs) ≡ ok (map format_int vs, [])
unfolding intset_body
intset_body_ok k vs h l = rw (
  (read_uint-le_bytes (width k) (le_bytes 4 (length vs) ++ int_bytes k vs)).2 (width-lt k),
  (read_uint-le_bytes (length vs) (int_bytes k vs)).2 l,
  ← append-nil (int_bytes k vs),
  read_ints_ok k vs [] h,
)

-- An intset of 16, 32 or 64 bits, stored as a string in any of the encodings of a string, raw or
-- compressed, is read as the texts of its members, in order.
pub read_intset-save_intset :
    (stored : Saved) (k : Width) (vs : List ℤ) (rest : Bytes)
    → All (FitsBits (bits k)) vs
    → length vs < 2 ^ 32
    → text stored ≡ save_intset k vs
    → IsSaved stored
    → read_intset (save_text stored ++ rest) ≡ ok (map format_int vs, rest)
unfolding read_intset
read_intset-save_intset stored k vs rest h l e m =
    rw (read_string-save_text stored rest m, e, intset_body_ok k vs h l)
