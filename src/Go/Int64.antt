-- ===== src/Go/Int64.antt =====
-- Arithmetic on `int64`, which wraps around.
use redis_shake.Prelude.{ℕ, ◌-◌, ◌/◌, ◌%◌, ◌^◌, Bool, ◌==◌, ltb, if◌then◌else◌}
use redis_shake.Prelude.Int.{ℤ, pos, negsuc, ◌+ℤ◌, ◌-ℤ◌}

-- The number of 64 bits that is equal to an integer modulo 2 ^ 64, without and with its sign.
unfoldable pub uint64 : ℤ → ℕ
uint64 (pos n) = n % 2 ^ 64
uint64 (negsuc n) = 2 ^ 64 - 1 - n % 2 ^ 64

unfoldable pub int64 : ℤ → ℤ
unfolding uint64
int64 z = let n = uint64 z in if ltb n (2 ^ 63) then pos n else negsuc (2 ^ 64 - n - 1)

abbrev pub add : ℤ → ℤ → ℤ
add a b = int64 (a +ℤ b)

abbrev pub sub : ℤ → ℤ → ℤ
sub a b = int64 (a -ℤ b)

-- `a & 1 == 1` and `a & 2 == 2`.
abbrev pub bit_0 : ℤ → Bool
bit_0 a = uint64 a % 2 == 1

abbrev pub bit_1 : ℤ → Bool
bit_1 a = uint64 a / 2 % 2 == 1
