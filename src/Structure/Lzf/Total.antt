-- ===== src/Structure/Lzf/Total.antt =====
-- `lzfDecompress` ends on every input, and what it returns has the length that was asked for.
use redis_shake.Prelude.{
  ℕ, zero, suc, ◌+◌, ◌≤◌, ◌<◌, [], ◌∷◌, length, Bytes, ◌==◌, ==_iff, if◌then◌else◌, ◌≡◌, ◌≢◌, refl,
  arith, Bool-cases, inl, inr,
}
use redis_shake.Prelude.Int.{ℤ, pos, negsuc, ◌+ℤ◌}
use redis_shake.Go.Outcome.{ok, panic, diverges, logged, index}
use redis_shake.Go.Outcome.Rules.{
  Ends, ended, stopped, Ends-eq_ok, Ends-ne-diverges, if-Ends, bind-Ends, weaken,
}
use redis_shake.Structure.Lzf.{
  put_byte, next_byte, copy_literal, copy_back, copy_length, lzf_round, lzf_loop, lzf_decompress,
}

-- What is left is no longer than before.
next_byte-Ends : (input : Bytes) → Ends (λ r. suc (length r.1) ≡ length input) (next_byte input)
unfolding next_byte
next_byte-Ends [] = stopped
next_byte-Ends (b ∷ input) = ended refl

put_byte-Ends : (out_len : ℕ) (out : Bytes) (b : ℕ) → Ends (λ _. Unit {0}) (put_byte out_len out b)
unfolding put_byte
put_byte-Ends out_len out b = if-Ends _ (ended tt) stopped

copy_literal-Ends :
    (n out_len : ℕ) (input out : Bytes)
    → Ends (λ r. length r.0 ≤ length input) (copy_literal n out_len input out)
unfolding copy_literal
copy_literal-Ends zero out_len input out = ended (omega arith)
copy_literal-Ends (suc n) out_len input out = bind-Ends (next_byte-Ends input) (λ b e shorter.
    bind-Ends (put_byte-Ends out_len out b.0)
      (λ out' e' _. weaken (copy_literal-Ends n out_len b.1 out') (λ r h. omega arith)))

index-Ends : (out : Bytes) (ref : ℤ) → Ends (λ _. Unit {0}) (index out ref)
index-Ends out (negsuc n) = stopped
index-Ends [] (pos n) = stopped
index-Ends (b ∷ out) (pos zero) = ended tt
index-Ends (b ∷ out) (pos (suc n)) = index-Ends out (pos n)

copy_back-Ends :
    (n out_len : ℕ) (ref : ℤ) (out : Bytes) → Ends (λ _. Unit {0}) (copy_back n out_len ref out)
unfolding copy_back
copy_back-Ends zero out_len ref out = ended tt
copy_back-Ends (suc n) out_len ref out = bind-Ends (index-Ends out ref) (λ b e _.
    bind-Ends (put_byte-Ends out_len out b)
      (λ out' e' _. copy_back-Ends n out_len (ref +ℤ pos 1) out'))

copy_length-Ends :
    (ctrl : ℕ) (input : Bytes) → Ends (λ r. length r.1 ≤ length input) (copy_length ctrl input)
unfolding copy_length
copy_length-Ends ctrl input =
    if-Ends _ (bind-Ends (next_byte-Ends input) (λ b e shorter. ended (omega arith)))
      (ended (omega arith))

lzf_round-Ends :
    (out_len ctrl : ℕ) (input out : Bytes)
    → Ends (λ r. length r.0 ≤ length input) (lzf_round out_len ctrl input out)
unfolding lzf_round
lzf_round-Ends out_len ctrl input out = if-Ends _ (copy_literal-Ends (ctrl + 1) out_len input out) (
    bind-Ends (copy_length-Ends ctrl input) (λ l e shorter.
      bind-Ends (next_byte-Ends l.1) (λ low e' shorter'.
        bind-Ends (copy_back-Ends (l.0 + 2) out_len _ out) (λ out' e'' _. ended (omega arith)))))

lzf_loop-Ends :
    (fuel out_len : ℕ) (input out : Bytes)
    → length input < fuel
    → Ends (λ _. Unit {0}) (lzf_loop fuel out_len input out)
unfolding lzf_loop
lzf_loop-Ends zero out_len input out h = absurd (omega arith)
lzf_loop-Ends (suc fuel) out_len [] out h = ended tt
lzf_loop-Ends (suc fuel) out_len (ctrl ∷ input) out h =
    bind-Ends (lzf_round-Ends out_len ctrl input out)
      (λ r e shorter. lzf_loop-Ends fuel out_len r.0 r.1 (omega arith))

checked_length :
    (out : Bytes) (out_len : ℕ)
    → Ends (λ o. length o ≡ out_len) (if length out == out_len then ok out else panic logged)
checked_length out out_len = elim (Bool-cases (length out == out_len)) [
  | inl e ↦ rw e (ended ((==_iff (length out) out_len).0 e))
  | inr e ↦ rw e stopped
]

pub lzf_decompress-Ends :
    (input : Bytes) (out_len : ℕ)
    → Ends (λ out. length out ≡ out_len) (lzf_decompress input out_len)
unfolding lzf_decompress
lzf_decompress-Ends input out_len = if-Ends _ stopped (
    bind-Ends (lzf_loop-Ends (length input + 1) out_len input [] (omega arith))
      (λ out e _. checked_length out out_len))

-- On every input the decompressor ends: the length of the input and one is enough fuel.
pub lzf_decompress-ne-diverges :
    (input : Bytes) (out_len : ℕ) → lzf_decompress input out_len ≢ diverges
lzf_decompress-ne-diverges input out_len = Ends-ne-diverges (lzf_decompress-Ends input out_len)

-- A result of the decompressor has exactly the length that was asked for.
pub length-lzf_decompress :
    (input : Bytes) (out_len : ℕ) (out : Bytes)
    → lzf_decompress input out_len ≡ ok out
    → length out ≡ out_len
length-lzf_decompress input out_len out e = Ends-eq_ok (lzf_decompress-Ends input out_len) e
