-- ===== src/Structure/Text/RoundTrip.antt =====
-- Every string that Redis writes to an RDB file is read back: raw, as an integer, or compressed.
use redis_shake.Prelude.{
  ℕ, ◌+◌, ◌-◌, ◌^◌, ◌<◌, Bool, true, List, [], ◌∷◌, ◌++◌, append_assoc, length, Bytes, ltb, ltb→lt,
  if◌then◌else◌, ◌≡◌, refl, arith, Bool-cases, inl, inr,
}
use redis_shake.Prelude.Int.{ℤ, pos, negsuc}
use redis_shake.Go.Outcome.{ok}
use redis_shake.Go.Strconv.{format_int}
use redis_shake.Structure.Reader.{read_byte}
use redis_shake.Structure.Reader.Laws.{
  le_bytes, unsigned_of, FitsBits, read_bytes-append, read_int-le_bytes,
}
use redis_shake.Structure.Length.{special, read_encoded_length, length_after}
use redis_shake.Structure.Length.RoundTrip.{
  save_length, read_encoded_length-save_length, read_length-save_length,
}
use redis_shake.Structure.Lzf.RoundTrip.{lzf_decompress-encode_all}
use redis_shake.Structure.Lzf.Tokens.{Token, encode_all, expand_all, AreTokens}
use redis_shake.Structure.Text.{read_compressed, read_special, string_after, read_string}

-- A raw string: its length and its bytes.
abbrev pub save_raw : Bytes → Bytes
save_raw s = save_length (length s) ++ s

-- A string that is stored as it is, shorter than 2 ^ 63 bytes, is read back.
pub read_string-save_raw :
    (s rest : Bytes) → length s < 2 ^ 63 → read_string (save_raw s ++ rest) ≡ ok (s, rest)
unfolding read_string string_after
read_string-save_raw s rest h =
    rw
      (
        append_assoc (save_length (length s)) s rest,
        read_encoded_length-save_length (length s) (s ++ rest) (omega arith),
      )
      (read_bytes-append (length s) s rest refl h)

special_length :
    (e : ℕ) (rest : Bytes) → e < 64 → read_encoded_length ((0xc0 + e) ∷ rest) ≡ ok (special e, rest)
unfolding read_encoded_length length_after read_byte
special_length e rest h = ground arith

-- `rdbEncodeInteger` of Redis: an integer in 8, 16 or 32 bits, whichever is the first to hold it.
abbrev pub fits : ℕ → ℤ → Bool
fits w (pos n) = ltb n (2 ^ (w - 1))
fits w (negsuc n) = ltb n (2 ^ (w - 1))

abbrev pub save_int : ℤ → Bytes
save_int v =
    if fits 8 v
    then 0xc0 ∷ unsigned_of 8 v ∷ []
    else if fits 16 v
    then 0xc1 ∷ le_bytes 2 (unsigned_of 16 v)
    else 0xc2 ∷ le_bytes 4 (unsigned_of 32 v)

fits-FitsBits : (w : ℕ) (v : ℤ) → fits w v ≡ true → FitsBits w v
fits-FitsBits w (pos n) e = ltb→lt _ _ e
fits-FitsBits w (negsuc n) e = ltb→lt _ _ e

-- An integer that Redis stores in binary is read back as its decimal text.
pub read_string-save_int :
    (v : ℤ) (rest : Bytes)
    → FitsBits 32 v
    → read_string (save_int v ++ rest) ≡ ok (format_int v, rest)
unfolding read_string string_after read_special
read_string-save_int v rest h = elim (Bool-cases (fits 8 v)) [
  | inl a ↦
      rw (a, special_length 0 _ (omega arith))
        (rw ((read_int-le_bytes v rest).0 (fits-FitsBits 8 v a)))
  | inr a ↦ elim (Bool-cases (fits 16 v)) [
    | inl b ↦
        rw (a, b, special_length 1 _ (omega arith))
          (rw ((read_int-le_bytes v rest).1 (fits-FitsBits 16 v b)))
    | inr b ↦ rw (a, b, special_length 2 _ (omega arith)) (rw ((read_int-le_bytes v rest).3 h))
  ]
]

-- A compressed string: both lengths, and its tokens.
abbrev pub save_compressed : List Token → Bytes
save_compressed ts =
    0xc3
    ∷ (save_length (length (encode_all ts))
        ++ (save_length (length (expand_all [] ts)) ++ encode_all ts))

-- A string that is stored as LZF tokens, with both lengths below 2 ^ 63, is read as the bytes that
-- the tokens stand for.
pub read_string-save_compressed :
    (ts : List Token) (rest : Bytes)
    → AreTokens [] ts
    → length (encode_all ts) < 2 ^ 63
    → length (expand_all [] ts) < 2 ^ 63
    → read_string (save_compressed ts ++ rest) ≡ ok (expand_all [] ts, rest)
unfolding read_string string_after read_special read_compressed
read_string-save_compressed ts rest v h k =
    let n = length (encode_all ts) in
    let m = length (expand_all [] ts) in
    rw (
      special_length 3 _ (omega arith),
      append_assoc (save_length n) (save_length m ++ encode_all ts) rest,
      append_assoc (save_length m) (encode_all ts) rest,
      read_length-save_length n _ (omega arith),
      read_length-save_length m _ (omega arith),
      read_bytes-append n (encode_all ts) rest refl h,
      lzf_decompress-encode_all ts v k,
    )
