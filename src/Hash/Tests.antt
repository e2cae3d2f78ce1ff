-- ===== src/Hash/Tests.antt =====
-- The theorems on crc16.go and crc64.go of backend/internal/utils at concrete inputs.
use redis_shake.Prelude.{codes, ◌≡◌, arith}
use redis_shake.Hash.Crc16.{crc16}
use redis_shake.Hash.Crc16.Division as Crc16Division
use redis_shake.Hash.Crc16.Division.{crc16-remainder, crc16-lt}
use redis_shake.Hash.Crc64.{calc_crc64}
use redis_shake.Hash.Crc64.Division as Crc64Division
use redis_shake.Hash.Crc64.Division.{calc_crc64-remainder, sum64-write}

crc16-remainder_example : crc16 (codes "foo") ≡ Crc16Division.remainder_from 0 (codes "foo")
crc16-remainder_example = crc16-remainder (codes "foo") (ground arith)

calc_crc64-remainder_example :
    calc_crc64 (codes "foo") ≡ Crc64Division.remainder_from 0 (codes "foo")
calc_crc64-remainder_example = calc_crc64-remainder (codes "foo") (ground arith)
