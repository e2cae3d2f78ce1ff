-- ===== src/Rdb/Restore/Verified.antt =====
-- The value dumps of backend/internal/rdb/rdb.go against the test that Redis makes on the argument
-- of RESTORE (`verifyDumpPayload`).
use redis_shake.Prelude.{
  ℕ, ◌-◌, ◌<◌, ◌≤◌, true, false, [], ◌∷◌, ◌++◌, append_assoc, Bytes, length, length-append, take,
  drop, take-length-append, drop-length-append, All, Option, none, some, ltb, ◌==◌, ==_iff,
  if◌then◌else◌, ◌≡◌, refl, ap, ◌∙◌, arith,
}
use redis_shake.Hash.Crc64.{calc_crc64}
use redis_shake.Hash.Crc64.Division.{remainder_from, calc_crc64-remainder, calc_crc64-lt}
use redis_shake.Structure.Reader.{little_endian}
use redis_shake.Structure.Reader.Laws.{le_bytes, length-le_bytes, little_endian-le_bytes}
use redis_shake.Rdb.Restore.{create_value_dump}

-- The type and the value in front of a footer of two bytes for the version, which the server must
-- know, and eight for the checksum of all bytes in front of it.
abbrev typed : Bytes → Option (ℕ × Bytes)
typed [] = none
typed (t ∷ val) = some (t, val)

abbrev pub verify_dump_payload : ℕ → Bytes → Option (ℕ × Bytes)
verify_dump_payload rdb_version p =
    let n = length p - 10 in
    let footer = drop n p in
    if ltb (length p) 10
    then none
    else if ltb rdb_version (little_endian (take 2 footer))
    then none
    else if little_endian (drop 2 footer) == remainder_from 0 (take n p ++ take 2 footer)
    then typed (take n p)
    else none

bytes :
    (t : ℕ) (val : Bytes)
    → t < 256
    → All (λ b. b < 256) val
    → All (λ b. b < 256) ((t ∷ val) ++ 6 ∷ 0 ∷ [])
bytes t [] h k = (h, (omega arith, (omega arith, tt)))
bytes t (v ∷ val) h k = (h, bytes v val k.0 k.1)

verify_footer :
    (rdb_version : ℕ) (body footer : Bytes)
    → length footer ≡ 10
    → verify_dump_payload rdb_version (body ++ footer) ≡ (
        if ltb rdb_version (little_endian (take 2 footer))
        then none
        else if little_endian (drop 2 footer) == remainder_from 0 (body ++ take 2 footer)
        then typed body
        else none)
verify_footer rdb_version body footer e =
    let size : length (body ++ footer) - 10 ≡ length body =
      omega (arith, length-append body footer) in
    let long : ltb (length (body ++ footer)) 10 ≡ false =
      ground (arith, length-append body footer) in
    rw (size, long, take-length-append body footer, drop-length-append body footer) refl

-- A server whose version of the format is 6 or later takes the dump of any value for that value: the
-- checksum is the remainder of the bytes in front of it by the polynomial of CRC-64.
pub verify_dump_payload-create_value_dump :
    (rdb_version type_byte : ℕ) (val : Bytes)
    → 6 ≤ rdb_version
    → type_byte < 256
    → All (λ b. b < 256) val
    → verify_dump_payload rdb_version (create_value_dump type_byte val) ≡ some (type_byte, val)
unfolding create_value_dump
verify_dump_payload-create_value_dump rdb_version t val h ht hv =
    let body = t ∷ val in
    let crc = calc_crc64 (body ++ 6 ∷ 0 ∷ []) in
    let footer = 6 ∷ 0 ∷ le_bytes 8 crc in
    let crc_ok : (crc == remainder_from 0 (body ++ 6 ∷ 0 ∷ [])) ≡ true =
      (==_iff _ _).1 (calc_crc64-remainder (body ++ 6 ∷ 0 ∷ []) (bytes t val ht hv)) in
    let known : ltb rdb_version 6 ≡ false = ground arith in
    ap (verify_dump_payload rdb_version) (append_assoc body (6 ∷ 0 ∷ []) (le_bytes 8 crc))
    ∙ verify_footer rdb_version body footer (omega (arith, length-le_bytes 8 crc))
    ∙ rw
        (
          known,
          little_endian-le_bytes 8 crc (calc_crc64-lt (body ++ 6 ∷ 0 ∷ []) (bytes t val ht hv)),
          crc_ok,
        )
        refl
