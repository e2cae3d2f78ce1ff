-- ===== src/Structure/Length.antt =====
-- backend/internal/rdb/structure/length.go: the length encoding of RDB.
pub mod RoundTrip
use redis_shake.Prelude.{
  ℕ, ◌+◌, ◌*◌, ◌/◌, ◌%◌, ◌^◌, [], ◌∷◌, length, take, drop, Bytes, ltb, ◌==◌, if◌then◌else◌, ◌≡◌,
  refl,
}
use redis_shake.Go.Outcome.{ok, panic, logged}
use redis_shake.Structure.Reader.{Reader, ◌>>=◌, return, fail, read_byte, big_endian}

-- The results of `readEncodedLength`: a length, a special encoding, or an error.
pub data EncodedLength : Type 0 where
  plain : ℕ → EncodedLength
  special : ℕ → EncodedLength
  failed : EncodedLength

-- `io.ReadFull` of `n` bytes, whose error is returned.
unfoldable pub read_full : ℕ → Reader EncodedLength
read_full n s =
    if ltb (length s) n then ok (failed, []) else ok (plain (big_endian (take n s)), drop n s)

-- The `switch` on the two highest bits of the first byte. The `|` joins disjoint fields.
unfoldable pub length_after : ℕ → Reader EncodedLength
unfolding read_full
length_after first_byte =
    let first2bits = first_byte / 2 ^ 6 in
    if first2bits == 0
    then return (plain (first_byte % 64))
    else if first2bits == 1
    then (do next_byte ← read_byte; return (plain (first_byte % 64 * 256 + next_byte)))
    else if first2bits == 2
    then (if first_byte == 0x80
        then read_full 4
        else if first_byte == 0x81
        then read_full 8
        else return failed)
    else return (special (first_byte % 64))

unfoldable pub read_encoded_length : Reader EncodedLength
unfolding length_after read_byte
read_encoded_length = do first_byte ← read_byte; length_after first_byte

unfoldable pub plain_length : EncodedLength → Reader ℕ
plain_length (plain n) = return n
plain_length (special n) = fail logged
plain_length failed = fail logged

unfoldable pub read_length : Reader ℕ
unfolding read_encoded_length plain_length
read_length = do encoded ← read_encoded_length; plain_length encoded

two_bytes : read_length (0x41 ∷ 0x02 ∷ 7 ∷ []) ≡ ok (258, 7 ∷ [])
unfolding read_length
two_bytes = refl
