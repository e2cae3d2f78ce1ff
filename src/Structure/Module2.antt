-- ===== src/Structure/Module2.antt =====
-- backend/internal/rdb/structure/module2_struct.go, but for its readers of floats.
pub mod Values
use redis_shake.Prelude.{ℕ, ◌==◌, if◌then◌else◌, Bytes}
use redis_shake.Go.Outcome.{logged}
use redis_shake.Go.Strconv.{format_uint}
use redis_shake.Structure.Reader.{Reader, ◌>>=◌, return, fail, read_byte}
use redis_shake.Structure.Length.{read_length}
use redis_shake.Structure.Text.{read_string}

-- Every value of a module stands behind an opcode.
unfoldable pub expect_opcode : {A : Type 0} → ℕ → Reader A → Reader A
expect_opcode expected m = do opcode ← read_byte; if opcode == expected then m else fail logged

unfoldable pub read_module_unsigned : Reader Bytes
read_module_unsigned = expect_opcode 2 (do value ← read_length; return (format_uint value))

-- The value is printed as it is read, without a sign.
unfoldable pub read_module_signed : Reader Bytes
read_module_signed = expect_opcode 1 (do value ← read_length; return (format_uint value))

unfoldable pub read_module_string : Reader Bytes
read_module_string = expect_opcode 5 read_string

unfoldable pub read_module_eof : Reader (Unit {0})
read_module_eof = do eof ← read_length; if eof == 0 then return tt else fail logged
