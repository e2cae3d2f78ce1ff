-- ===== src/Structure/Text.antt =====
-- `ReadString` of backend/internal/rdb/structure/string.go.
pub mod RoundTrip
pub mod Saved
use redis_shake.Prelude.{ℕ, [], ◌∷◌, Bytes, codes, ◌==◌, if◌then◌else◌, ◌≡◌, refl}
use redis_shake.Go.Outcome.{ok, logged}
use redis_shake.Go.Strconv.{format_int}
use redis_shake.Structure.Reader.{
  Reader, ◌>>=◌, return, fail, lift, read_bytes, read_int8, read_int16, read_int32,
}
use redis_shake.Structure.Length.{
  EncodedLength, plain, special, failed, read_encoded_length, read_length,
}
use redis_shake.Structure.Lzf.{lzf_decompress}

-- `case RDBEncLZF`.
unfoldable pub read_compressed : Reader Bytes
read_compressed = do
  in_len ← read_length
  out_len ← read_length
  input ← read_bytes in_len
  lift (lzf_decompress input out_len)

-- The `switch` on a special encoding.
unfoldable pub read_special : ℕ → Reader Bytes
unfolding read_compressed
read_special encoding =
    if encoding == 0
    then (do b ← read_int8; return (format_int b))
    else if encoding == 1
    then (do b ← read_int16; return (format_int b))
    else if encoding == 2
    then (do b ← read_int32; return (format_int b))
    else if encoding == 3
    then read_compressed
    else fail logged

unfoldable pub string_after : EncodedLength → Reader Bytes
string_after (plain n) = read_bytes n
string_after (special n) = read_special n
string_after failed = fail logged

unfoldable pub read_string : Reader Bytes
read_string = do encoded ← read_encoded_length; string_after encoded

int16_string : read_string (0xc1 ∷ 0xfe ∷ 0xff ∷ []) ≡ ok (codes "-2", [])
unfolding read_string read_encoded_length string_after read_special read_int16 format_int
int16_string = refl
