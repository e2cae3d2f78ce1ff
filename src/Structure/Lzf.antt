-- ===== src/Structure/Lzf.antt =====
-- `lzfDecompress` of backend/internal/rdb/structure/string.go. `input` is what is left of `in`, and
-- `out` the first `o` bytes of the output slice; a copy reads only bytes that were written.
pub mod Total
pub mod Tokens
pub mod RoundTrip
use redis_shake.Prelude.{
  ℕ, zero, suc, ◌+◌, ◌*◌, ◌/◌, ◌%◌, ◌^◌, List, [], ◌∷◌, ◌++◌, length, Bytes, codes, ltb, leb, ◌==◌,
  if◌then◌else◌, ◌≡◌, refl,
}
use redis_shake.Prelude.Int.{ℤ, pos, ◌+ℤ◌, ◌-ℤ◌}
use redis_shake.Go.Outcome.{Outcome, ok, panic, diverges, logged, out_of_range, ◌>>=◌, index}

-- `out[o] = b; o++`, in a slice of `out_len` bytes.
unfoldable pub put_byte : ℕ → Bytes → ℕ → Outcome Bytes
put_byte out_len out b = if ltb (length out) out_len then ok (out ++ b ∷ []) else panic out_of_range

-- `in[i]; i++`.
unfoldable pub next_byte : Bytes → Outcome (ℕ × Bytes)
next_byte [] = panic out_of_range
next_byte (b ∷ input) = ok (b, input)

-- The first inner loop: `n` bytes are copied from the input.
unfoldable pub copy_literal : ℕ → ℕ → Bytes → Bytes → Outcome (Bytes × Bytes)
copy_literal zero out_len input out = ok (input, out)
copy_literal (suc n) out_len input out = do
  b ← next_byte input
  out' ← put_byte out_len out b.0
  copy_literal n out_len b.1 out'

-- The second inner loop: `n` bytes are copied from the output, from `ref` on.
unfoldable pub copy_back : ℕ → ℕ → ℤ → Bytes → Outcome Bytes
copy_back zero out_len ref out = ok out
copy_back (suc n) out_len ref out = do
  b ← index out ref
  out' ← put_byte out_len out b
  copy_back n out_len (ref +ℤ pos 1) out'

-- `length := ctrl >> 5`, with one more byte of length if it is 7.
unfoldable pub copy_length : ℕ → Bytes → Outcome (ℕ × Bytes)
copy_length ctrl input =
    if ctrl / 32 == 7 then (do b ← next_byte input; ok (7 + b.0, b.1)) else ok (ctrl / 32, input)

-- One round of the outer loop, behind the control byte.
unfoldable pub lzf_round : ℕ → ℕ → Bytes → Bytes → Outcome (Bytes × Bytes)
lzf_round out_len ctrl input out =
    if ltb ctrl 32 then copy_literal (ctrl + 1) out_len input out else (do
      l ← copy_length ctrl input
      low ← next_byte l.1
      out' ←
          copy_back (l.0 + 2) out_len
            (pos (length out) -ℤ pos (ctrl % 32 * 256) -ℤ pos low.0 -ℤ pos 1) out
      ok (low.1, out'))

-- `for i < len(in)`, on fuel: every round takes at least one byte of the input.
unfoldable pub lzf_loop : ℕ → ℕ → Bytes → Bytes → Outcome Bytes
lzf_loop zero out_len input out = diverges
lzf_loop (suc fuel) out_len [] out = ok out
lzf_loop (suc fuel) out_len (ctrl ∷ input) out = do
  r ← lzf_round out_len ctrl input out
  lzf_loop fuel out_len r.0 r.1

-- A length that is negative as an `int` panics in `make`.
unfoldable pub lzf_decompress : Bytes → ℕ → Outcome Bytes
lzf_decompress input out_len = if leb (2 ^ 63) out_len then panic out_of_range else (do
  out ← lzf_loop (length input + 1) out_len input []
  if length out == out_len then ok out else panic logged)
