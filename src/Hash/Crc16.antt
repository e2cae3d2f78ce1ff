-- ===== src/Hash/Crc16.antt =====
-- `Crc16` of backend/internal/utils/crc16.go, on `uint16` values kept below 2 ^ 16.
mod Table
pub mod Division
use Table.{crc16tab}
use redis_shake.Prelude.{ℕ, ◌*◌, ◌/◌, ◌%◌, ◌^◌, bit_xor, [], ◌∷◌, get_or, Bytes, codes, ◌≡◌, refl}

-- `crc16tab[i]`; the array has 256 entries.
unfoldable pub crc16_entry : ℕ → ℕ
crc16_entry i = get_or crc16tab i 0

-- One round of the loop: `crc = (crc << 8) ^ crc16tab[((crc >> 8) ^ n) & 0x00FF]`.
unfoldable pub crc16_round : ℕ → ℕ → ℕ
crc16_round crc n = bit_xor (crc * 256 % 2 ^ 16) (crc16_entry (bit_xor (crc / 256) n % 256))

unfoldable pub crc16_from : ℕ → Bytes → ℕ
crc16_from crc [] = crc
crc16_from crc (n ∷ buf) = crc16_from (crc16_round crc n) buf

unfoldable pub crc16 : Bytes → ℕ
unfolding crc16_from crc16_round crc16_entry
crc16 buf = crc16_from 0 buf

-- The check value that the file's comment gives.
check_value : crc16 (codes "123456789") ≡ 0x31c3
unfolding crc16
check_value = refl
