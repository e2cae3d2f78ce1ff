-- ===== src/Hash/Crc64.antt =====
-- `digest` and `CalcCRC64` of backend/internal/utils/crc64.go, on `uint64` values.
mod Table
pub mod Division
use Table.{crc64_table}
use redis_shake.Prelude.{ℕ, ◌/◌, ◌%◌, bit_xor, [], ◌∷◌, get_or, length, Bytes, codes, ◌≡◌, refl}

-- `crc64Table[i]`; the array has 256 entries.
unfoldable pub crc64_entry : ℕ → ℕ
crc64_entry i = get_or crc64_table i 0

-- One round of either loop: `crc = crc64Table[byte(crc)^b] ^ (crc >> 8)`.
unfoldable pub crc64_round : ℕ → ℕ → ℕ
crc64_round crc b = bit_xor (crc64_entry (bit_xor (crc % 256) b)) (crc / 256)

-- The running sum, the `crc` field of `digest`.
pub record Digest : Type 0 where
  pub crc : ℕ

unfoldable pub new_digest : Digest
new_digest = record { crc = 0 }

-- The loop of `Update`.
unfoldable pub update_crc : ℕ → Bytes → ℕ
update_crc crc [] = crc
update_crc crc (b ∷ p) = update_crc (crc64_round crc b) p

unfoldable pub update : Digest → Bytes → Digest
update d p = record d { crc = update_crc d.crc p }

-- `Write` returns the number of bytes that it was given, and no error.
unfoldable pub write : Digest → Bytes → Digest × ℕ
write d p = (update d p, length p)

unfoldable pub sum64 : Digest → ℕ
sum64 d = d.crc

-- The loop of `CalcCRC64`.
unfoldable pub calc_crc64_from : ℕ → Bytes → ℕ
calc_crc64_from crc [] = crc
calc_crc64_from crc (b ∷ p) = calc_crc64_from (crc64_round crc b) p

unfoldable pub calc_crc64 : Bytes → ℕ
unfolding calc_crc64_from crc64_round crc64_entry
calc_crc64 p = calc_crc64_from 0 p

-- The Jones polynomial's check value.
check_value : calc_crc64 (codes "123456789") ≡ 0xe9c6d914c4b8d9ca
unfolding calc_crc64
check_value = refl
