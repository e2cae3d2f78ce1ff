-- ===== src/Structure/Module2/Values.antt =====
-- The values that a module writes to an RDB file, behind their opcodes.
use redis_shake.Prelude.{ℕ, ◌^◌, ◌<◌, ◌∷◌, ◌++◌, length, Bytes, ◌≡◌}
use redis_shake.Prelude.Int.{ℤ}
use redis_shake.Go.Outcome.{ok}
use redis_shake.Go.Strconv.{format_uint}
use redis_shake.Structure.Reader.{Reader, read_byte}
use redis_shake.Structure.Reader.Laws.{unsigned_of, FitsBits, unsigned_of-lt}
use redis_shake.Structure.Length.RoundTrip.{save_length, read_length-save_length}
use redis_shake.Structure.Text.RoundTrip.{save_raw, read_string-save_raw}
use redis_shake.Structure.Module2.{
  expect_opcode, read_module_unsigned, read_module_signed, read_module_string,
}

-- A value that a module saves, and the bytes that Redis writes for it.
pub data Value : Type 0 where
  unsigned_value : ℕ → Value
  signed_value : ℤ → Value
  string_value : Bytes → Value

abbrev pub IsValue : Value → Type 0
IsValue (unsigned_value n) = n < 2 ^ 64
IsValue (signed_value v) = FitsBits 64 v
IsValue (string_value s) = length s < 2 ^ 63

abbrev pub save_value : Value → Bytes
save_value (signed_value v) = 1 ∷ save_length (unsigned_of 64 v)
save_value (unsigned_value n) = 2 ∷ save_length n
save_value (string_value s) = 5 ∷ save_raw s

-- The reader of each kind, and the text that it returns.
abbrev pub read_value : Value → Reader Bytes
read_value (unsigned_value n) = read_module_unsigned
read_value (signed_value v) = read_module_signed
read_value (string_value s) = read_module_string

abbrev pub value_text : Value → Bytes
value_text (unsigned_value n) = format_uint n
value_text (signed_value v) = format_uint (unsigned_of 64 v)
value_text (string_value s) = s

-- A value of a module is read by the reader of its kind: an unsigned number as its decimal text, a
-- string as it is, and a signed number as the decimal text of its 64-bit pattern without a sign.
pub read_value-save_value :
    (v : Value) (rest : Bytes)
    → IsValue v
    → read_value v (save_value v ++ rest) ≡ ok (value_text v, rest)
unfolding read_module_unsigned read_module_signed read_module_string expect_opcode read_byte
read_value-save_value (unsigned_value n) rest h = rw (read_length-save_length n rest h)
read_value-save_value (signed_value v) rest h =
    rw (read_length-save_length (unsigned_of 64 v) rest ((unsigned_of-lt v).4 h))
read_value-save_value (string_value s) rest h = read_string-save_raw s rest h
