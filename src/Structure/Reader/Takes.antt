-- ===== src/Structure/Reader/Takes.antt =====
-- Readers that end on every input and leave no more than there was, with a rule for each way of
-- composing them.
use redis_shake.Prelude.{
  ℕ, zero, suc, ◌+◌, ◌^◌, ◌≤◌, Bool, true, false, [], ◌∷◌, length, drop, Bytes, ltb, leb,
  if◌then◌else◌, arith,
}
use redis_shake.Go.Outcome.{Outcome, Panic}
use redis_shake.Go.Outcome.Rules.{Ends, ended, stopped, if-Ends, bind-Ends, weaken}
use redis_shake.Structure.Reader.{
  Reader, ◌>>=◌, return, fail, lift, read_from, read_bytes, read_byte, read_uint8, read_uint16,
  read_uint24, read_uint32, read_uint64, read_int8, read_int16, read_int24, read_int32, read_int64,
}

-- `m` ends, and takes at least `k` bytes where it does not panic.
pub record Takes {A : Type 0} (k : ℕ) (m : Reader A) : Type 0 where
  pub ends : (s : Bytes) → Ends (λ r. k + length r.1 ≤ length s) (m s)

module _ {A : Type 0} where
  pub return-Takes : (a : A) → Takes 0 (return a)
  return-Takes a = record { ends = λ s. ended (omega arith) }

  pub fail-Takes : {k : ℕ} {p : Panic} → Takes {A = A} k (fail p)
  fail-Takes = record { ends = λ s. stopped }

  pub lift-Takes : {P : A → Type 0} {m : Outcome A} → Ends P m → Takes 0 (lift m)
  lift-Takes (ended h) = record { ends = λ s. ended (omega arith) }
  lift-Takes stopped = record { ends = λ s. stopped }

  pub any-Takes : {m : Reader A} → Takes 1 m → Takes 0 m
  any-Takes h = record { ends = λ s. weaken (h.ends s) (λ r l. omega (arith, l)) }

  pub if-Takes :
      {k : ℕ} {x y : Reader A} (b : Bool) → Takes k x → Takes k y → Takes k (if b then x else y)
  if-Takes true hx hy = hx
  if-Takes false hx hy = hy

module _ {A B : Type 0} where
  pub bind-Takes :
      {k : ℕ} {m : Reader A} {f : A → Reader B}
      → Takes k m
      → ((a : A) → Takes 0 (f a))
      → Takes k (m >>= f)
  bind-Takes h g = record {
    ends = λ s.
        bind-Ends (h.ends s) (λ r e l. weaken ((g r.0).ends r.1) (λ q l'. omega (arith, l, l')));
  }

pub read_from-Takes :
    {A : Type 0} (buf : Bytes) {m : Reader A} → Takes 0 m → Takes 0 (read_from buf m)
read_from-Takes buf h = lift-Takes {P = λ a. Unit {0}} (bind-Ends (h.ends buf) (λ r e l. ended tt))

pub length-drop : (n : ℕ) (s : Bytes) → 0 + length (drop n s) ≤ length s
length-drop zero s = omega arith
length-drop (suc n) [] = omega arith
length-drop (suc n) (c ∷ s) = omega (arith, length-drop n s)

pub read_bytes-Takes : (n : ℕ) → Takes 0 (read_bytes n)
unfolding read_bytes
read_bytes-Takes n = record {
  ends = λ s.
      if-Ends (leb (2 ^ 63) n) stopped
        (if-Ends (ltb (length s) n) stopped (ended (length-drop n s)));
}

read_byte-Ends : (s : Bytes) → Ends (λ r. 1 + length r.1 ≤ length s) (read_byte s)
unfolding read_byte
read_byte-Ends [] = stopped
read_byte-Ends (b ∷ s) = ended (omega arith)

pub read_byte-Takes : Takes 1 read_byte
read_byte-Takes = record { ends = read_byte-Ends }

-- A number in `n` bytes.
number-Takes :
    {A : Type 0} (n : ℕ) (f : Bytes → A) → Takes 0 (read_bytes n >>= (λ buf. return (f buf)))
number-Takes n f = bind-Takes (read_bytes-Takes n) (λ buf. return-Takes (f buf))

pub read_uint-Takes :
    Takes 0 read_uint8
    × (Takes 0 read_uint16 × (Takes 0 read_uint24 × (Takes 0 read_uint32 × Takes 0 read_uint64)))
unfolding read_uint8 read_uint16 read_uint24 read_uint32 read_uint64
read_uint-Takes = (
  any-Takes read_byte-Takes,
  (number-Takes 2 _, (number-Takes 3 _, (number-Takes 4 _, number-Takes 8 _))),
)

signed-Takes :
    {A B : Type 0} {m : Reader A} → Takes 0 m → (f : A → B) → Takes 0 (m >>= (λ n. return (f n)))
signed-Takes h f = bind-Takes h (λ n. return-Takes (f n))

pub read_int-Takes :
    Takes 0 read_int8
    × (Takes 0 read_int16 × (Takes 0 read_int24 × (Takes 0 read_int32 × Takes 0 read_int64)))
unfolding read_int8 read_int16 read_int24 read_int32 read_int64
read_int-Takes = (
  signed-Takes (any-Takes read_byte-Takes) _,
  (
    signed-Takes (number-Takes 2 _) _,
    (number-Takes 3 _, (signed-Takes (number-Takes 4 _) _, signed-Takes (number-Takes 8 _) _)),
  ),
)
