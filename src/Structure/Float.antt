-- ===== src/Structure/Float.antt =====
-- backend/internal/rdb/structure/float.go, and the readers of floats of module2_struct.go. A
-- `float64` is the pattern of its 64 bits, as `math.Float64bits` gives it.
use redis_shake.Prelude.{
  ℕ, [], Bytes, Option, none, some, length, take, drop, ltb, ◌==◌, if◌then◌else◌,
}
use redis_shake.Go.Outcome.{ok, panic, logged}
use redis_shake.Structure.Reader.{Reader, ◌>>=◌, return, read_bytes, read_uint8, little_endian}
use redis_shake.Structure.Module2.{expect_opcode}

-- The decimal texts of the floats: `strconv.ParseFloat` (`none` where it gives an error), `Sprintf`
-- in the formats of the code, and `uint64(float64(n) * x)`.
pub record FloatText : Type 0 where
  pub parse_float : Bytes → Option ℕ
  pub format_17g : ℕ → Bytes
  pub format_15f : ℕ → Bytes
  pub format_f : ℕ → Bytes
  pub scaled : ℕ → ℕ → ℕ

-- `math.NaN()`, `math.Inf(0)` and `math.Inf(-1)`.
abbrev pub nan : ℕ
nan = 0x7ff8000000000001

abbrev pub inf : ℕ
inf = 0x7ff0000000000000

abbrev pub neg_inf : ℕ
neg_inf = 0xfff0000000000000

-- A short read takes all that is left and gives 0.
unfoldable pub read_decimal : FloatText → ℕ → Reader ℕ
read_decimal floats u s =
    if ltb (length s) u
    then ok (0, [])
    else elim (floats.parse_float (take u s)) [ none ↦ panic logged | some v ↦ ok (v, drop u s) ]

unfoldable pub read_float : FloatText → Reader ℕ
read_float floats = do
  u ← read_uint8
  (if u == 253
      then return nan
      else if u == 254
      then return inf
      else if u == 255
      then return neg_inf
      else read_decimal floats u)

unfoldable pub read_double : Reader ℕ
read_double = do buf ← read_bytes 8; return (little_endian buf)

-- The opcode of a double, in both.
unfoldable pub read_module_float : FloatText → Reader Bytes
read_module_float floats = expect_opcode 4 (do value ← read_double; return (floats.format_f value))

unfoldable pub read_module_double : FloatText → Reader Bytes
read_module_double floats =
    expect_opcode 4 (do value ← read_double; return (floats.format_15f value))
