-- ===== src/Rdb/Collections/Zsets.antt =====
-- The sorted sets of Redis in their encodings, for backend/internal/rdb/types/zset.go.
use redis_shake.Prelude.{
  ◌^◌, ◌<◌, ◌%◌, ℕ, some, List, [], ◌∷◌, ◌++◌, append_assoc, map, length, length-append,
  take-length-append, drop-length-append, ltb, ◌≤◌, All, Bytes, codes, ◌==◌, false, ◌≡◌, refl,
  arith,
}
use redis_shake.Go.Outcome.{ok}
use redis_shake.Structure.Reader.{read_byte, read_uint8}
use redis_shake.Structure.Reader.Laws.{
  le_bytes, length-le_bytes, little_endian-le_bytes, read_bytes-append,
}
use redis_shake.Structure.Text.Saved.{Saved, save_text, text, IsSaved, read_string-save_text}
use redis_shake.Structure.Float.{
  FloatText, nan, inf, neg_inf, read_decimal, read_float, read_double,
}
use redis_shake.Rdb.Packs.{
  Zip, save_zip, zip_texts, IsZip, read_zip_list-save_zip, Pack, save_pack, pack_texts, IsPack,
  read_listpack-save_pack, flat-singletons, save_counted, counted,
}
use redis_shake.Rdb.Pairs.{pairing, pairs-even}
use redis_shake.Rdb.Collections.{
  zadd, read_member, read_zset, read_zset2, zadd_pairs, read_zset_ziplist, read_zset_listpack,
  rewrite_zset,
}

-- A score as the first format has it: a mark, or a text behind its length.
pub data Score : Type 0 where
  is_nan is_inf is_neg_inf : Score
  decimal : Bytes → ℕ → Score

abbrev pub save_score : Score → Bytes
save_score is_nan = 253 ∷ []
save_score is_inf = 254 ∷ []
save_score is_neg_inf = 255 ∷ []
save_score (decimal s bits) = length s ∷ s

abbrev pub score_bits : Score → ℕ
score_bits is_nan = nan
score_bits is_inf = inf
score_bits is_neg_inf = neg_inf
score_bits (decimal s bits) = bits

abbrev pub IsScore : FloatText → Score → Type 0
IsScore floats (decimal s bits) = (length s < 253) × (floats.parse_float s ≡ some bits)
IsScore floats _ = Unit

pub data ZsetValue : Type 0 where
  zset : List (Saved × Score) → ZsetValue
  zset2 : List (Saved × ℕ) → ZsetValue
  ziplist : Zip → ZsetValue
  listpack : Pack → ZsetValue

abbrev pub zset_type : ZsetValue → ℕ
zset_type (zset ms) = 3
zset_type (zset2 ms) = 5
zset_type (ziplist z) = 12
zset_type (listpack p) = 17

abbrev save_member : Saved × Score → Bytes
save_member m = save_text m.0 ++ save_score m.1

abbrev save_member2 : Saved × ℕ → Bytes
save_member2 m = save_text m.0 ++ le_bytes 8 m.1

abbrev pub save_zset : ZsetValue → Bytes
save_zset (zset ms) = save_counted save_member ms
save_zset (zset2 ms) = save_counted save_member2 ms
save_zset (ziplist z) = save_zip z
save_zset (listpack p) = save_pack p

-- The members with the texts of their scores.
abbrev pub scored : FloatText → ZsetValue → List (Bytes × Bytes)
scored floats (zset ms) = map (λ m. (text m.0, floats.format_17g (score_bits m.1))) ms
scored floats (zset2 ms) = map (λ m. (text m.0, floats.format_17g m.1)) ms
scored floats (ziplist z) = pairing (zip_texts z)
scored floats (listpack p) = pairing (pack_texts p)

abbrev pub IsZset : FloatText → ZsetValue → Type 0
IsZset floats (zset ms) = (length ms < 2 ^ 63) × All (λ m. IsSaved m.0 × IsScore floats m.1) ms
IsZset floats (zset2 ms) = (length ms < 2 ^ 63) × All (λ m. IsSaved m.0 × (m.1 < 2 ^ 64)) ms
IsZset floats (ziplist z) = IsZip z × (length (zip_texts z) % 2 ≡ 0)
IsZset floats (listpack p) = IsPack p × (length (pack_texts p) % 2 ≡ 0)

module _ (floats : FloatText) where
  decimal_ok :
      (s : Bytes) (bits : ℕ) (rest : Bytes)
      → floats.parse_float s ≡ some bits
      → read_decimal floats (length s) (s ++ rest) ≡ ok (bits, rest)
  unfolding read_decimal
  decimal_ok s bits rest h =
      let e : ltb (length (s ++ rest)) (length s) ≡ false = ground (arith, length-append s rest) in
      rw (e, take-length-append s rest, h, drop-length-append s rest) refl

  not_mark : (s : Bytes) (m : ℕ) → length s < 253 → 253 ≤ m → (length s == m) ≡ false
  not_mark s m h k = ground arith

  score_ok :
      (c : Score) (rest : Bytes)
      → IsScore floats c
      → read_float floats (save_score c ++ rest) ≡ ok (score_bits c, rest)
  unfolding read_float read_uint8 read_byte
  score_ok is_nan rest h = refl
  score_ok is_inf rest h = refl
  score_ok is_neg_inf rest h = refl
  score_ok (decimal s bits) rest h =
      rw
        (
          not_mark s 253 h.0 (omega arith),
          not_mark s 254 h.0 (omega arith),
          not_mark s 255 h.0 (omega arith),
          decimal_ok s bits rest h.1,
        )
        refl

  member_ok :
      (key : Bytes) (m : Saved × Score) (rest : Bytes)
      → IsSaved m.0 × IsScore floats m.1
      → read_member floats.format_17g key (read_float floats) (save_member m ++ rest)
        ≡ ok (zadd key (text m.0, floats.format_17g (score_bits m.1)) ∷ [], rest)
  unfolding read_member
  member_ok key (s, c) rest h =
      rw
        (
          append_assoc (save_text s) (save_score c) rest,
          read_string-save_text s (save_score c ++ rest) h.0,
          score_ok c rest h.1,
        )
        refl

  member2_ok :
      (key : Bytes) (m : Saved × ℕ) (rest : Bytes)
      → IsSaved m.0 × (m.1 < 2 ^ 64)
      → read_member floats.format_17g key read_double (save_member2 m ++ rest)
        ≡ ok (zadd key (text m.0, floats.format_17g m.1) ∷ [], rest)
  unfolding read_double read_member
  member2_ok key (s, c) rest h =
      rw
        (
          append_assoc (save_text s) (le_bytes 8 c) rest,
          read_string-save_text s (le_bytes 8 c ++ rest) h.0,
          read_bytes-append 8 (le_bytes 8 c) rest (length-le_bytes 8 c) (omega arith),
          little_endian-le_bytes 8 c h.1,
        )
        refl

  zadd_pairs-even :
      (key rest : Bytes) (list : List Bytes)
      → length list % 2 ≡ 0
      → zadd_pairs key list rest ≡ ok (map (zadd key) (pairing list), rest)
  unfolding zadd_pairs
  zadd_pairs-even key rest list h = rw (h, pairs-even list h) refl

  -- A sorted set in any of its encodings is sent as one command that deletes its key and a ZADD for
  -- each of its members, in order, with the score as it is printed in 17 digits, or as it stands in
  -- a packed encoding.
  pub rewrite_zset-save_zset :
      (key : Bytes) (v : ZsetValue) (rest : Bytes)
      → IsZset floats v
      → rewrite_zset floats key (zset_type v) (save_zset v ++ rest)
        ≡ ok ((codes "del" ∷ key ∷ []) ∷ map (zadd key) (scored floats v), rest)
  unfolding rewrite_zset read_zset read_zset2 read_member read_zset_ziplist read_zset_listpack
  rewrite_zset-save_zset key (zset ms) rest h =
      rw
        (
          counted save_member (λ m. zadd key (text m.0, floats.format_17g (score_bits m.1)) ∷ [])
              (λ m. IsSaved m.0 × IsScore floats m.1)
              (read_member floats.format_17g key (read_float floats)) (member_ok key) ms rest h.0
              h.1,
          flat-singletons (zadd key) (λ m. (text m.0, floats.format_17g (score_bits m.1))) ms,
        )
        refl
  rewrite_zset-save_zset key (zset2 ms) rest h =
      rw
        (
          counted save_member2 (λ m. zadd key (text m.0, floats.format_17g m.1) ∷ [])
              (λ m. IsSaved m.0 × (m.1 < 2 ^ 64)) (read_member floats.format_17g key read_double)
              (member2_ok key) ms rest h.0 h.1,
          flat-singletons (zadd key) (λ m. (text m.0, floats.format_17g m.1)) ms,
        )
        refl
  rewrite_zset-save_zset key (ziplist z) rest h =
      rw (read_zip_list-save_zip z rest h.0, zadd_pairs-even key rest (zip_texts z) h.1) refl
  rewrite_zset-save_zset key (listpack p) rest h =
      rw (read_listpack-save_pack p rest h.0, zadd_pairs-even key rest (pack_texts p) h.1) refl
