-- ===== src/Rdb/StreamEntries/RoundTrip.antt =====
-- The entries of a stream as Redis packs them, for `readStream` of
-- backend/internal/rdb/types/stream.go.
use redis_shake.Prelude.{
  ℕ, suc, ◌+◌, ◌^◌, ◌<◌, Bool, false, List, [], ◌∷◌, ◌++◌, length, length-append,
  take-length-append, drop-length-append, Bytes, codes, ltb, if◌then◌else◌, ◌≡◌, refl, sym, arith,
}
use redis_shake.Prelude.Int.{pos, ◌-ℤ◌}
use redis_shake.Go.Outcome.{ok}
use redis_shake.Go.Int64.{int64, uint64, add}
use redis_shake.Go.Strconv.{format_uint, format_int}
use redis_shake.Go.Strconv.RoundTrip.{parse_int-format_uint, parse_int-format_int}
use redis_shake.Rdb.Commands.{RedisCmd}
use redis_shake.Rdb.StreamEntries.{next_string, next_integer, next_strings, same_fields, own_fields}

-- The values of the fields of the master entry, or fields of its own.
pub data Body : Type 0 where
  same : List Bytes → Body
  own : List (Bytes × Bytes) → Body

-- An entry with its ID, and the count of its elements.
pub record StreamEntry : Type 0 where
  pub deleted : Bool
  pub ms : ℕ
  pub seq : ℕ
  pub body : Body
  pub lp_count : Bytes

abbrev pub flags : Bool → Body → ℕ
flags deleted (same vs) = if deleted then 3 else 2
flags deleted (own ps) = if deleted then 1 else 0

abbrev pub flatten : List (Bytes × Bytes) → List Bytes
flatten [] = []
flatten ((f, v) ∷ ps) = f ∷ v ∷ flatten ps

abbrev pub body_elements : Body → List Bytes
body_elements (same vs) = vs
body_elements (own ps) = format_uint (length ps) ∷ flatten ps

-- The ID stands relative to that of the master entry. Either difference may be negative: behind the
-- ID 1000-5, the ID 1001-0 is 1 and -5.
abbrev pub entry_elements : ℕ → ℕ → StreamEntry → List Bytes
entry_elements ms seq e =
    format_uint (flags e.deleted e.body)
    ∷ format_int (pos e.ms -ℤ pos ms)
    ∷ format_int (pos e.seq -ℤ pos seq)
    ∷ (body_elements e.body ++ e.lp_count ∷ [])

abbrev pub entries_elements : ℕ → ℕ → List StreamEntry → List Bytes
entries_elements ms seq [] = []
entries_elements ms seq (e ∷ es) = entry_elements ms seq e ++ entries_elements ms seq es

-- Fields with their values, in turn.
abbrev pub zipped : List Bytes → List Bytes → List Bytes
zipped [] vs = []
zipped (f ∷ fs) [] = []
zipped (f ∷ fs) (v ∷ vs) = f ∷ v ∷ zipped fs vs

abbrev pub body_args : List Bytes → Body → List Bytes
body_args fields (same vs) = zipped fields vs
body_args fields (own ps) = flatten ps

abbrev pub IsBody : List Bytes → Body → Type 0
IsBody fields (same vs) = length vs ≡ length fields
IsBody fields (own ps) = length ps < 2 ^ 62

abbrev pub IsEntry : ℕ → ℕ → List Bytes → StreamEntry → Type 0
IsEntry ms seq fields e =
    ((ms < 2 ^ 63) × (e.ms < 2 ^ 63)) × (((seq < 2 ^ 63) × (e.seq < 2 ^ 63)) × IsBody fields e.body)

abbrev pub xadd : Bytes → List Bytes → StreamEntry → RedisCmd
xadd key fields e =
    codes "xadd" ∷ key ∷ (format_uint e.ms ++ b'-' ∷ format_uint e.seq) ∷ body_args fields e.body

-- One command for each entry that is not deleted.
abbrev pub xadds : Bytes → List Bytes → List StreamEntry → List RedisCmd
xadds key fields [] = []
xadds key fields (e ∷ es) =
    let rest = xadds key fields es in if e.deleted then rest else xadd key fields e ∷ rest

abbrev pub live : List StreamEntry → ℕ
live [] = 0
live (e ∷ es) = if e.deleted then live es else suc (live es)

abbrev pub dead : List StreamEntry → ℕ
dead [] = 0
dead (e ∷ es) = if e.deleted then suc (dead es) else dead es

pub next_integer_ok :
    (n : ℕ) (rest : List Bytes)
    → n < 2 ^ 63
    → next_integer (format_uint n ∷ rest) ≡ ok (pos n, rest)
unfolding next_integer next_string
next_integer_ok n rest h = rw (parse_int-format_uint n h) refl

-- A difference of two numbers of 63 bits is read, and the second added to it is the first.
pub next_difference_ok :
    (a b : ℕ) (rest : List Bytes)
    → a < 2 ^ 63
    → b < 2 ^ 63
    → next_integer (format_int (pos a -ℤ pos b) ∷ rest) ≡ ok (pos a -ℤ pos b, rest)
unfolding next_integer next_string
next_difference_ok a b rest h k =
    rw (parse_int-format_int (pos a -ℤ pos b) (ground arith) (ground arith)) refl

pub add-difference : (a b : ℕ) → a < 2 ^ 63 → b < 2 ^ 63 → add (pos a -ℤ pos b) (pos b) ≡ pos a
unfolding int64 uint64
add-difference a b h k = ground arith

pub next_strings_ok :
    (xs rest : List Bytes) → next_strings (pos (length xs)) (xs ++ rest) ≡ ok (xs, rest)
unfolding next_strings
next_strings_ok xs rest =
    let e : ltb (length (xs ++ rest)) (length xs) ≡ false = ground (arith, length-append xs rest) in
    rw (e, take-length-append xs rest, drop-length-append xs rest) refl

pub same_fields_ok :
    (fields vs rest : List Bytes)
    → length vs ≡ length fields
    → same_fields fields (vs ++ rest) ≡ ok (zipped fields vs, rest)
unfolding same_fields next_string
same_fields_ok [] [] rest h = refl
same_fields_ok [] (v ∷ vs) rest h = absurd (omega arith)
same_fields_ok (f ∷ fs) [] rest h = absurd (omega arith)
same_fields_ok (f ∷ fs) (v ∷ vs) rest h = rw (same_fields_ok fs vs rest (omega arith)) refl

length-flatten : (ps : List (Bytes × Bytes)) → length (flatten ps) ≡ length ps + length ps
length-flatten [] = refl
length-flatten ((f, v) ∷ ps) = omega (arith, length-flatten ps)

pub add-small : (a b : ℕ) → a + b < 2 ^ 63 → add (pos a) (pos b) ≡ pos (a + b)
unfolding int64 uint64
add-small a b h = ground arith

pub own_fields_ok :
    (ps : List (Bytes × Bytes)) (rest : List Bytes)
    → length ps < 2 ^ 62
    → own_fields (format_uint (length ps) ∷ (flatten ps ++ rest)) ≡ ok (flatten ps, rest)
unfolding own_fields
own_fields_ok ps rest h =
    rw
      (
        next_integer_ok (length ps) (flatten ps ++ rest) (omega arith),
        add-small (length ps) (length ps) (omega arith),
        sym (length-flatten ps),
        next_strings_ok (flatten ps) rest,
      )
      refl
