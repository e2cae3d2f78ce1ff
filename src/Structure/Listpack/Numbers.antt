-- ===== src/Structure/Listpack/Numbers.antt =====
-- The integers of a listpack: an unsigned pattern becomes the number that it stands for.
use redis_shake.Prelude.{ℕ, ◌-◌, ◌^◌, ◌<◌, ◌≡◌, arith}
use redis_shake.Prelude.Int.{ℤ, pos, negsuc}
use redis_shake.Structure.Reader.Laws.{unsigned_of}
use redis_shake.Structure.Listpack.{listpack_int}

-- A number of `w` bits, for the widths that a listpack has.
abbrev pub InBits : ℕ → ℤ → Type 0
InBits w (pos n) = n < 2 ^ (w - 1)
InBits w (negsuc n) = n < 2 ^ (w - 1)

pub listpack_int_7 : (n : ℕ) → n < 128 → listpack_int n (2 ^ 64 - 1) 0 ≡ pos n
unfolding listpack_int
listpack_int_7 n h = ground arith

pub listpack_int_signed :
    (v : ℤ)
    → (InBits 13 v → listpack_int (unsigned_of 13 v) (2 ^ 12) 8191 ≡ v)
      × (InBits 16 v → listpack_int (unsigned_of 16 v) (2 ^ 15) 65535 ≡ v)
      × (InBits 24 v → listpack_int (unsigned_of 24 v) (2 ^ 23) (2 ^ 24 - 1) ≡ v)
      × (InBits 32 v → listpack_int (unsigned_of 32 v) (2 ^ 31) (2 ^ 32 - 1) ≡ v)
      × (InBits 64 v → listpack_int (unsigned_of 64 v) (2 ^ 63) (2 ^ 64 - 1) ≡ v)
unfolding listpack_int
listpack_int_signed (pos n) =
    (λ h. ground arith, λ h. ground arith, λ h. ground arith, λ h. ground arith, λ h. ground arith)
listpack_int_signed (negsuc n) =
    (λ h. ground arith, λ h. ground arith, λ h. ground arith, λ h. ground arith, λ h. ground arith)
