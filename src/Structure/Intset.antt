-- ===== src/Structure/Intset.antt =====
-- backend/internal/rdb/structure/intset.go.
pub mod RoundTrip
use redis_shake.Prelude.{ℕ, zero, suc, List, [], ◌∷◌, Bytes, ◌==◌, if◌then◌else◌}
use redis_shake.Prelude.Int.{ℤ}
use redis_shake.Go.Strconv.{format_int}
use redis_shake.Structure.Reader.{
  Reader, ◌>>=◌, return, read_from, read_bytes, read_uint32, little_endian, signed,
}
use redis_shake.Structure.Text.{read_string}

-- The `switch` on the encoding, whose default leaves the empty string.
unfoldable pub int_string : ℕ → Bytes → Bytes
int_string encoding_type int_bytes =
    if encoding_type == 2
    then format_int (signed 16 (little_endian int_bytes))
    else if encoding_type == 4
    then format_int (signed 32 (little_endian int_bytes))
    else if encoding_type == 8
    then format_int (signed 64 (little_endian int_bytes))
    else []

-- `for i := 0; i < size; i++`.
unfoldable pub read_ints : ℕ → ℕ → Reader (List Bytes)
read_ints encoding_type zero = return []
read_ints encoding_type (suc size) = do
  int_bytes ← read_bytes encoding_type
  elements ← read_ints encoding_type size
  return (int_string encoding_type int_bytes ∷ elements)

unfoldable pub intset_body : Reader (List Bytes)
intset_body = do encoding_type ← read_uint32; size ← read_uint32; read_ints encoding_type size

unfoldable pub read_intset : Reader (List Bytes)
read_intset = do buf ← read_string; read_from buf intset_body
