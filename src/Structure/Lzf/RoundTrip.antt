-- ===== src/Structure/Lzf/RoundTrip.antt =====
-- The decompressor undoes every sequence of LZF tokens: literal runs and copies of earlier output.
use redis_shake.Prelude.{
  ℕ, zero, suc, ◌+◌, ◌-◌, ◌*◌, ◌/◌, ◌%◌, ◌^◌, ◌≤◌, ◌<◌, List, [], ◌∷◌, ◌++◌, append_assoc,
  append-nil, length, length-append, get_elem?-some, Bool-cases, false, Bytes, ltb, ltb→lt, ◌≡◌,
  refl, ◌∙◌, arith, inl, inr,
}
use redis_shake.Prelude.Int.{pos, ◌+ℤ◌, ◌-ℤ◌}
use redis_shake.Go.Outcome.{ok, index}
use redis_shake.Structure.Lzf.{
  put_byte, next_byte, copy_literal, copy_back, copy_length, lzf_round, lzf_loop, lzf_decompress,
}
use redis_shake.Structure.Lzf.Tokens.{
  encode, encode_all, from_end, expand_back, expand, expand_all, IsToken, AreTokens, Token, literal,
  back,
}

put_byte_ok :
    (out_len : ℕ) (out : Bytes) (b : ℕ)
    → length out < out_len
    → put_byte out_len out b ≡ ok (out ++ b ∷ [])
unfolding put_byte
put_byte_ok out_len out b h = ground arith

length-concat : (out : Bytes) (b : ℕ) → length (out ++ b ∷ []) ≡ suc (length out)
length-concat out b = omega (arith, length-append out (b ∷ []))

copy_literal_ok :
    (bs rest out : Bytes) (out_len : ℕ)
    → length out + length bs ≤ out_len
    → copy_literal (length bs) out_len (bs ++ rest) out ≡ ok (rest, out ++ bs)
unfolding copy_literal next_byte
copy_literal_ok [] rest out out_len h = rw append-nil
copy_literal_ok (b ∷ bs) rest out out_len h = rw (put_byte_ok out_len out b (omega arith)) (
    copy_literal_ok bs rest (out ++ b ∷ []) out_len (omega (arith, length-concat out b))
    ∙ rw append_assoc)

from_end-index :
    (d : ℕ) (out : Bytes)
    → 1 ≤ d
    → d ≤ length out
    → index out (pos (length out - d)) ≡ ok (from_end d out)
from_end-index d out h k =
    let (b, e) = get_elem?-some out (length out - d) (omega arith) in ground (arith, e)

length-expand_back : (n d : ℕ) (out : Bytes) → length (expand_back n d out) ≡ length out + n
length-expand_back zero d out = omega arith
length-expand_back (suc n) d out =
    omega (
      arith,
      length-expand_back n d (out ++ from_end d out ∷ []),
      length-concat out (from_end d out),
    )

next_ref :
    (out : Bytes) (d b : ℕ)
    → d ≤ length out
    → pos (length out - d) +ℤ pos 1 ≡ pos (length (out ++ b ∷ []) - d)
next_ref out d b k = ground (arith, length-concat out b)

copy_back_ok :
    (n d out_len : ℕ) (out : Bytes)
    → 1 ≤ d
    → d ≤ length out
    → length out + n ≤ out_len
    → copy_back n out_len (pos (length out - d)) out ≡ ok (expand_back n d out)
unfolding copy_back
copy_back_ok zero d out_len out h k l = refl
copy_back_ok (suc n) d out_len out h k l =
    let b = from_end d out in
    let size = length-concat out b in
    rw (from_end-index d out h k, put_byte_ok out_len out b (omega arith), next_ref out d b k)
      (copy_back_ok n d out_len (out ++ b ∷ []) h (omega (arith, size)) (omega (arith, size)))

lzf_round_literal :
    (ctrl out_len : ℕ) (input out : Bytes)
    → ctrl < 32
    → lzf_round out_len ctrl input out ≡ copy_literal (ctrl + 1) out_len input out
unfolding lzf_round
lzf_round_literal ctrl out_len input out h = ground arith

ref_distance :
    (size d high low : ℕ)
    → 1 ≤ d
    → d ≤ size
    → high * 256 + low ≡ d - 1
    → pos size -ℤ pos (high * 256) -ℤ pos low -ℤ pos 1 ≡ pos (size - d)
ref_distance size d high low h k e = ground arith

-- A copy of `n` bytes whose length has been read.
lzf_round_back :
    (ctrl l n low d out_len : ℕ) (input rest out : Bytes)
    → l + 2 ≡ n
    → 32 ≤ ctrl
    → copy_length ctrl input ≡ ok (l, low ∷ rest)
    → 1 ≤ d
    → d ≤ length out
    → ctrl % 32 * 256 + low ≡ d - 1
    → length out + n ≤ out_len
    → lzf_round out_len ctrl input out ≡ ok (rest, expand_back n d out)
unfolding lzf_round next_byte
lzf_round_back ctrl l n low d out_len input rest out s c e h k r f =
    let test : ltb ctrl 32 ≡ false = ground arith in
    rw (
      test,
      e,
      ref_distance (length out) d (ctrl % 32) low h k r,
      s,
      copy_back_ok n d out_len out h k f,
    )

copy_length_short :
    (ctrl l : ℕ) (input : Bytes) → ctrl / 32 ≡ l → l < 7 → copy_length ctrl input ≡ ok (l, input)
unfolding copy_length
copy_length_short ctrl l input e h = ground arith

copy_length_long :
    (ctrl b : ℕ) (input : Bytes) → ctrl / 32 ≡ 7 → copy_length ctrl (b ∷ input) ≡ ok (7 + b, input)
unfolding copy_length next_byte
copy_length_long ctrl b input e = ground arith

-- A round reads one token, and appends what the token stands for.
abbrev TokenRead : Token → Bytes → Bytes → ℕ → Type 0
TokenRead t rest out out_len =
    (ctrl : ℕ) × (body : Bytes) × (encode t ++ rest ≡ ctrl ∷ body)
    × (lzf_round out_len ctrl body out ≡ ok (rest, expand out t))

lzf_round_ok :
    (t : Token) (rest out : Bytes) (out_len : ℕ)
    → IsToken (length out) t
    → length (expand out t) ≤ out_len
    → TokenRead t rest out out_len
lzf_round_ok (literal bs) rest out out_len v l =
    let size : length bs - 1 + 1 ≡ length bs = omega arith in
    (
      length bs - 1,
      bs ++ rest,
      refl,
      lzf_round_literal (length bs - 1) out_len (bs ++ rest) out (omega arith)
          ∙ rw size (copy_literal_ok bs rest out out_len (omega (arith, length-append out bs))),
    )
lzf_round_ok (back n d) rest out out_len v l = elim (Bool-cases (ltb n 9)) [
  | inl short ↦
      let ctrl = (n - 2) * 32 + (d - 1) / 256 in
      let few = ltb→lt n 9 short in
      (
        ctrl,
        (d - 1) % 256 ∷ rest,
        rw short,
        lzf_round_back ctrl (n - 2) n ((d - 1) % 256) d out_len ((d - 1) % 256 ∷ rest) rest out
            (omega arith) (omega arith)
            (copy_length_short ctrl (n - 2) _ (omega arith) (omega arith)) (omega arith)
            (omega arith) (omega arith) (omega (arith, length-expand_back n d out)),
      )
  | inr long ↦
      let ctrl = 7 * 32 + (d - 1) / 256 in
      let many : 9 ≤ n = ground arith in
      (
        ctrl,
        (n - 9) ∷ (d - 1) % 256 ∷ rest,
        rw long,
        lzf_round_back ctrl (7 + (n - 9)) n ((d - 1) % 256) d out_len _ rest out (omega arith)
            (omega arith) (copy_length_long ctrl (n - 9) _ (omega arith)) (omega arith)
            (omega arith) (omega arith) (omega (arith, length-expand_back n d out)),
      )
]

length-le-expand : (t : Token) (out : Bytes) → length out ≤ length (expand out t)
length-le-expand (literal bs) out = omega (arith, length-append out bs)
length-le-expand (back n d) out = omega (arith, length-expand_back n d out)

length-le-expand_all : (ts : List Token) (out : Bytes) → length out ≤ length (expand_all out ts)
length-le-expand_all [] out = omega arith
length-le-expand_all (t ∷ ts) out =
    omega (arith, length-le-expand t out, length-le-expand_all ts (expand out t))

encode_pos : (t : Token) → 0 < length (encode t)
encode_pos (literal bs) = omega arith
encode_pos (back n d) = ground arith

lzf_loop_step :
    (fuel out_len ctrl : ℕ) (body rest input out out' : Bytes)
    → input ≡ ctrl ∷ body
    → lzf_round out_len ctrl body out ≡ ok (rest, out')
    → lzf_loop (suc fuel) out_len input out ≡ lzf_loop fuel out_len rest out'
unfolding lzf_loop
lzf_loop_step fuel out_len ctrl body rest input out out' e r = rw (e, lzf_loop, r)

lzf_loop_ok :
    (ts : List Token) (fuel out_len : ℕ) (out : Bytes)
    → AreTokens out ts
    → length (encode_all ts) < fuel
    → length (expand_all out ts) ≤ out_len
    → lzf_loop fuel out_len (encode_all ts) out ≡ ok (expand_all out ts)
unfolding lzf_loop
lzf_loop_ok ts zero out_len out v f l = absurd (omega arith)
lzf_loop_ok [] (suc fuel) out_len out v f l = refl
lzf_loop_ok (t ∷ ts) (suc fuel) out_len out v f l =
    let fits : length (expand out t) ≤ out_len =
      omega (arith, length-le-expand_all ts (expand out t)) in
    let shorter : length (encode_all ts) < fuel =
      omega (arith, length-append (encode t) (encode_all ts), encode_pos t) in
    let (ctrl, body, e, r) = lzf_round_ok t (encode_all ts) out out_len v.0 fits in
    lzf_loop_step fuel out_len ctrl body (encode_all ts) _ out (expand out t) e r
    ∙ lzf_loop_ok ts fuel out_len (expand out t) v.1 shorter l

-- A sequence of tokens that the format can express, written out and decompressed to the length of
-- what it stands for, gives exactly that.
pub lzf_decompress-encode_all :
    (ts : List Token)
    → AreTokens [] ts
    → length (expand_all [] ts) < 2 ^ 63
    → lzf_decompress (encode_all ts) (length (expand_all [] ts)) ≡ ok (expand_all [] ts)
unfolding lzf_decompress
lzf_decompress-encode_all ts v h =
    let size = length (expand_all [] ts) in
    ground
      (arith, lzf_loop_ok ts (length (encode_all ts) + 1) size [] v (omega arith) (omega arith))
