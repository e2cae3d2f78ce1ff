-- ===== src/Structure/Listpack.antt =====
-- backend/internal/rdb/structure/listpack.go.
pub mod Numbers
pub mod Entries
pub mod RoundTrip
use redis_shake.Prelude.{
  ℕ, zero, suc, ◌+◌, ◌-◌, ◌*◌, ◌/◌, ◌%◌, ◌^◌, List, [], ◌∷◌, Bytes, ltb, leb, ◌==◌, if◌then◌else◌,
}
use redis_shake.Prelude.Int.{ℤ}
use redis_shake.Go.Outcome.{logged}
use redis_shake.Go.Strconv.{format_int}
use redis_shake.Structure.Reader.{
  Reader, ◌>>=◌, return, fail, read_from, read_byte, read_bytes, read_uint16, read_uint24,
  read_uint32, read_uint64, signed,
}
use redis_shake.Structure.Text.{read_string}

-- The number of bytes of the length that stands behind an entry of `len` bytes.
unfoldable pub lp_encode_backlen : ℕ → ℕ
lp_encode_backlen len =
    if leb len 127
    then 1
    else if ltb len 16383
    then 2
    else if ltb len 2097151
    then 3
    else if ltb len 268435455
    then 4
    else 5

-- The end of `readListpackEntry`: an unsigned pattern as a signed number, in 64-bit arithmetic.
unfoldable pub listpack_int : ℕ → ℕ → ℕ → ℤ
listpack_int uval negstart negmax =
    let folded = (2 ^ 64 + negmax - uval) % 2 ^ 64 in
    if leb negstart uval
    then signed 64 ((2 ^ 64 - folded + (2 ^ 64 - 1)) % 2 ^ 64)
    else signed 64 uval

-- An integer of an entry that takes `len` bytes, and the length behind it.
unfoldable pub finish_int : ℕ → ℕ → ℕ → ℕ → Reader Bytes
finish_int len negstart negmax uval = do
  backlen ← read_bytes (lp_encode_backlen len)
  return (format_int (listpack_int uval negstart negmax))

-- A string of `length` bytes, of an entry with `head` bytes in front of it.
unfoldable pub finish_string : ℕ → ℕ → Reader Bytes
finish_string head length = do
  ele ← read_bytes length
  backlen ← read_bytes (lp_encode_backlen (head + length))
  return ele

-- The chain of tests on the first byte. `b & mask == bits` is a test on the high bits of `b`.
unfoldable pub listpack_entry_after : ℕ → Reader Bytes
listpack_entry_after fire_byte =
    if fire_byte / 2 ^ 7 == 0
    then finish_int 1 (2 ^ 64 - 1) 0 (fire_byte % 128)
    else if fire_byte / 2 ^ 6 == 2
    then finish_string 1 (fire_byte % 64)
    else if fire_byte / 2 ^ 5 == 6
    then (do
      second_byte ← read_byte
      finish_int 2 (2 ^ 12) 8191 (fire_byte % 32 * 256 + second_byte))
    else if fire_byte == 0xf1
    then (do uval ← read_uint16; finish_int 3 (2 ^ 15) 65535 uval)
    else if fire_byte == 0xf2
    then (do uval ← read_uint24; finish_int 4 (2 ^ 23) (2 ^ 24 - 1) uval)
    else if fire_byte == 0xf3
    then (do uval ← read_uint32; finish_int 5 (2 ^ 31) (2 ^ 32 - 1) uval)
    else if fire_byte == 0xf4
    then (do uval ← read_uint64; finish_int 9 (2 ^ 63) (2 ^ 64 - 1) uval)
    else if fire_byte / 2 ^ 4 == 14
    then (do second_byte ← read_byte; finish_string 2 (fire_byte % 16 * 256 + second_byte))
    else if fire_byte == 0xf0
    then (do length ← read_uint32; finish_string 5 length)
    else fail logged

unfoldable pub read_listpack_entry : Reader Bytes
read_listpack_entry = do fire_byte ← read_byte; listpack_entry_after fire_byte

-- `for i := 0; i < size; i++`.
unfoldable pub read_listpack_entries : ℕ → Reader (List Bytes)
read_listpack_entries zero = return []
read_listpack_entries (suc size) = do
  ele ← read_listpack_entry
  elements ← read_listpack_entries size
  return (ele ∷ elements)

-- The last byte, which must be 0xFF.
unfoldable pub check_end : {A : Type 0} → A → ℕ → Reader A
check_end elements last_byte = if last_byte == 0xff then return elements else fail logged

unfoldable pub listpack_body : Reader (List Bytes)
listpack_body = do
  bytes ← read_uint32
  size ← read_uint16
  elements ← read_listpack_entries size
  last_byte ← read_byte
  check_end elements last_byte

unfoldable pub read_listpack : Reader (List Bytes)
read_listpack = do buf ← read_string; read_from buf listpack_body
