-- ===== src/Structure/Ziplist.antt =====
-- backend/internal/rdb/structure/ziplist.go.
pub mod Entries
pub mod RoundTrip
pub mod Endless
use redis_shake.Prelude.{
  ℕ, zero, suc, ◌+◌, ◌-◌, ◌*◌, ◌/◌, ◌%◌, ◌^◌, List, [], ◌∷◌, length, Bytes, Bool, ◌||◌, ltb, leb,
  ◌==◌, if◌then◌else◌,
}
use redis_shake.Prelude.Int.{ℤ, pos, ◌-ℤ◌, ltb_ℤ}
use redis_shake.Go.Outcome.{diverges, logged}
use redis_shake.Go.Strconv.{format_int}
use redis_shake.Structure.Reader.{
  Reader, ◌>>=◌, return, fail, read_from, read_byte, read_bytes, read_uint16, read_uint32,
  read_int8, read_int16, read_int24, read_int32, read_int64, big_endian,
}
use redis_shake.Structure.Text.{read_string}

-- `if firstByte == 0xFE`: four more bytes of the previous entry's length.
unfoldable pub skip_prevlen : ℕ → Reader ℕ
skip_prevlen first_byte = if first_byte == 0xfe then read_uint32 else return 0

-- The small integers 0 to 12 in the low bits of the encoding byte.
unfoldable pub zip_int_04 : ℕ → Reader Bytes
zip_int_04 first_byte =
    let v = pos (first_byte % 16) -ℤ pos 1 in
    if ltb_ℤ v (pos 0) || ltb_ℤ (pos 12) v then fail logged else return (format_int v)

-- The second `switch`, on the whole encoding byte.
unfoldable pub zip_int_after : ℕ → Reader Bytes
zip_int_after first_byte =
    if first_byte == 0xfe
    then (do v ← read_int8; return (format_int v))
    else if first_byte == 0xc0
    then (do v ← read_int16; return (format_int v))
    else if first_byte == 0xf0
    then (do v ← read_int24; return (format_int v))
    else if first_byte == 0xd0
    then (do v ← read_int32; return (format_int v))
    else if first_byte == 0xe0
    then (do v ← read_int64; return (format_int v))
    else if first_byte / 2 ^ 4 == 0x0f
    then zip_int_04 first_byte
    else fail logged

-- The first `switch`, on the two highest bits of the encoding byte.
unfoldable pub zip_entry_after : ℕ → Reader Bytes
zip_entry_after first_byte =
    let first2bits = first_byte / 2 ^ 6 in
    if first2bits == 0
    then read_bytes (first_byte % 64)
    else if first2bits == 1
    then (do second_byte ← read_byte; read_bytes (first_byte % 64 * 256 + second_byte))
    else if first2bits == 2
    then (do len_bytes ← read_bytes 4; read_bytes (big_endian len_bytes))
    else zip_int_after first_byte

unfoldable pub read_zip_list_entry : ℕ → Reader Bytes
read_zip_list_entry first_byte = do
  prevlen ← skip_prevlen first_byte
  encoding ← read_byte
  zip_entry_after encoding

-- The loop for a list of unknown size: until the byte in front of an entry is 0xFE. An entry takes
-- at least one byte, so the bytes to come and one are enough fuel.
unfoldable pub read_until_end : ℕ → Reader (List Bytes)
read_until_end zero s = diverges
read_until_end (suc fuel) s =
    (do
      first_byte ← read_byte
      let rest = (do
        ele ← read_zip_list_entry first_byte
        elements ← read_until_end fuel
        return (ele ∷ elements))
      if first_byte == 0xfe then return [] else rest)
      s

-- The loop for a known size.
unfoldable pub read_zip_entries : ℕ → Reader (List Bytes)
read_zip_entries zero = return []
read_zip_entries (suc size) = do
  first_byte ← read_byte
  ele ← read_zip_list_entry first_byte
  elements ← read_zip_entries size
  return (ele ∷ elements)

-- `lastByte`, which must be 0xFF.
unfoldable pub check_last : List Bytes → ℕ → Reader (List Bytes)
check_last elements last_byte = if last_byte == 0xff then return elements else fail logged

unfoldable pub sized_zip_list : ℕ → Reader (List Bytes)
sized_zip_list size = do
  elements ← read_zip_entries size
  last_byte ← read_byte
  check_last elements last_byte

unfoldable pub zip_list_after : ℕ → Reader (List Bytes)
zip_list_after size s =
    (if size == 65535 then read_until_end (length s + 1) else sized_zip_list size) s

unfoldable pub zip_list_body : Reader (List Bytes)
zip_list_body = do
  zlbytes ← read_uint32
  zltail ← read_uint32
  size ← read_uint16
  zip_list_after size

unfoldable pub read_zip_list : Reader (List Bytes)
read_zip_list = do buf ← read_string; read_from buf zip_list_body
