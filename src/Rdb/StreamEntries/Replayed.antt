-- ===== src/Rdb/StreamEntries/Replayed.antt =====
-- The commands for the entries of a stream, for `readStream` of
-- backend/internal/rdb/types/stream.go.
use redis_shake.Prelude.{
  ℕ, zero, suc, ◌+◌, ◌^◌, ◌<◌, ◌≤◌, Bool, true, false, ◌&&◌, List, [], ◌∷◌, ◌++◌, append_assoc,
  length, length-append, All, Bytes, codes, if◌then◌else◌, ◌≡◌, refl, sym, ◌∙◌, append-nil, arith,
  Bool-cases, ◌==◌, inl, inr,
}
use redis_shake.Prelude.Int.{pos, ◌-ℤ◌}
use redis_shake.Go.Outcome.{ok}
use redis_shake.Go.Int64.{int64, uint64, sub, bit_0, bit_1}
use redis_shake.Go.Strconv.{format_uint, format_int}
use redis_shake.Rdb.StreamEntries.{
  next_string, master_entry, stream_entry, stream_entries, stream_listpack,
}
use redis_shake.Rdb.StreamEntries.RoundTrip.{
  Body, same, own, StreamEntry, flags, body_elements, entry_elements, entries_elements, body_args,
  IsBody, IsEntry, xadds, live, dead, next_integer_ok, next_strings_ok, same_fields_ok,
  own_fields_ok, next_difference_ok, add-difference,
}

sub_one : (n : ℕ) → n < 2 ^ 63 → sub (pos (suc n)) (pos 1) ≡ pos n
unfolding int64 uint64
sub_one n h = ground arith

flags-small : (d : Bool) (b : Body) → flags d b < 2 ^ 63
flags-small true (same vs) = omega arith
flags-small false (same vs) = omega arith
flags-small true (own ps) = omega arith
flags-small false (own ps) = omega arith

deleted_flag : (d : Bool) (b : Body) → bit_0 (pos (flags d b)) ≡ d
unfolding uint64
deleted_flag true (same vs) = refl
deleted_flag false (same vs) = refl
deleted_flag true (own ps) = refl
deleted_flag false (own ps) = refl

same_flag : (d : Bool) (vs : List Bytes) → bit_1 (pos (flags d (same vs))) ≡ true
unfolding uint64
same_flag true vs = refl
same_flag false vs = refl

own_flag : (d : Bool) (ps : List (Bytes × Bytes)) → bit_1 (pos (flags d (own ps))) ≡ false
unfolding uint64
own_flag true ps = refl
own_flag false ps = refl

-- The elements of a listpack: the master entry with the numbers of live and deleted entries and the
-- fields, and the entries.
abbrev pub listpack_elements : ℕ → ℕ → List Bytes → List StreamEntry → List Bytes
listpack_elements ms seq fields es =
    format_uint (live es)
    ∷ format_uint (dead es)
    ∷ format_uint (length fields)
    ∷ (fields ++ codes "0" ∷ entries_elements ms seq es)

skip_or_send :
    {A : Type 0} (c : Bool) (x y : A)
    → (c ≡ true → elim c [ true ↦ x | false ↦ y ] ≡ x)
      × (c ≡ false → elim c [ true ↦ x | false ↦ y ] ≡ y)
skip_or_send c x y = (λ e. rw e refl, λ e. rw e refl)

module _ (key : Bytes) (ms seq : ℕ) (fields : List Bytes) where
  entry_ok :
      (d : Bool) (m s : ℕ) (b : Body) (lp : Bytes) (rest : List Bytes)
      → (ms < 2 ^ 63) × (m < 2 ^ 63)
      → (seq < 2 ^ 63) × (s < 2 ^ 63)
      → IsBody fields b
      → stream_entry key (pos ms) (pos seq) fields (
          format_uint (flags d b)
          ∷ format_int (pos m -ℤ pos ms)
          ∷ format_int (pos s -ℤ pos seq)
          ∷ (body_elements b ++ lp ∷ rest))
        ≡ ok (
          (
            pos (flags d b),
            codes "xadd" ∷ key ∷ (format_uint m ++ b'-' ∷ format_uint s) ∷ body_args fields b,
          ),
          rest,
        )
  unfolding stream_entry next_string format_int
  entry_ok d m s (same vs) lp rest hm hs hb =
      rw
        (
          next_integer_ok (flags d (same vs))
              (format_int (pos m -ℤ pos ms) ∷ format_int (pos s -ℤ pos seq) ∷ (vs ++ lp ∷ rest))
              (flags-small d (same vs)),
          next_difference_ok m ms (format_int (pos s -ℤ pos seq) ∷ (vs ++ lp ∷ rest)) hm.1 hm.0,
          next_difference_ok s seq (vs ++ lp ∷ rest) hs.1 hs.0,
          same_flag d vs,
          same_fields_ok fields vs (lp ∷ rest) hb,
          add-difference m ms hm.1 hm.0,
          add-difference s seq hs.1 hs.0,
        )
        refl
  entry_ok d m s (own ps) lp rest hm hs hb =
      rw
        (
          next_integer_ok (flags d (own ps))
              (format_int (pos m -ℤ pos ms)
                ∷ format_int (pos s -ℤ pos seq)
                ∷ (body_elements (own ps) ++ lp ∷ rest))
              (flags-small d (own ps)),
          next_difference_ok m ms
              (format_int (pos s -ℤ pos seq) ∷ (body_elements (own ps) ++ lp ∷ rest)) hm.1 hm.0,
          next_difference_ok s seq (body_elements (own ps) ++ lp ∷ rest) hs.1 hs.0,
          own_flag d ps,
          own_fields_ok ps (lp ∷ rest) hb,
          add-difference m ms hm.1 hm.0,
          add-difference s seq hs.1 hs.0,
        )
        refl

  counts : (es : List StreamEntry) → (live es ≤ length es) × (dead es ≤ length es)
  counts [] = (omega arith, omega arith)
  counts (e ∷ es) = elim (Bool-cases e.deleted) [
    | inl d ↦ rw d (omega (arith, (counts es).0), omega (arith, (counts es).1))
    | inr d ↦ rw d (omega (arith, (counts es).0), omega (arith, (counts es).1))
  ]

  -- One round, with what the rounds behind it give.
  round_ok :
      (fuel : ℕ) (d : Bool) (m s : ℕ) (b : Body) (lp : Bytes) (es : List StreamEntry)
      (rest : List Bytes)
      → length es < 2 ^ 63
      → IsEntry ms seq fields (record { deleted = d; ms = m; seq = s; body = b; lp_count = lp })
      → stream_entries fuel key (pos ms) (pos seq) fields (pos (live es)) (pos (dead es)) rest
        ≡ ok (xadds key fields es)
      → stream_entries
          (suc fuel)
          key
          (pos ms)
          (pos seq)
          fields
          (pos (if d then live es else suc (live es)))
          (pos (if d then suc (dead es) else dead es))
          (format_uint (flags d b)
            ∷ format_int (pos m -ℤ pos ms)
            ∷ format_int (pos s -ℤ pos seq)
            ∷ (body_elements b ++ lp ∷ rest))
        ≡ ok (
            xadds key fields
              (record { deleted = d; ms = m; seq = s; body = b; lp_count = lp } ∷ es))
  unfolding stream_entries
  round_ok fuel true m s b lp es rest l h again =
      let more : (live es == 0 && suc (dead es) == 0) ≡ false = ground arith in
      rw (stream_entries, more, entry_ok true m s b lp rest h.0 h.1.0 h.1.1)
        ((skip_or_send (bit_0 (pos (flags true b))) _ _).0 (deleted_flag true b)
          ∙ rw (sub_one (dead es) (omega (arith, (counts es).1))) again)
  round_ok fuel false m s b lp es rest l h again =
      let more : (suc (live es) == 0) ≡ false = ground arith in
      rw (stream_entries, more, entry_ok false m s b lp rest h.0 h.1.0 h.1.1)
        ((skip_or_send (bit_0 (pos (flags false b))) _ _).1 (deleted_flag false b)
          ∙ rw (sub_one (live es) (omega (arith, (counts es).0)), again) refl)

  entries_ok :
      (fuel : ℕ) (es : List StreamEntry) (rest : List Bytes)
      → length es < fuel
      → length es < 2 ^ 63
      → All (IsEntry ms seq fields) es
      → stream_entries fuel key
          (pos ms)
          (pos seq)
          fields
          (pos (live es))
          (pos (dead es))
          (entries_elements ms seq es ++ rest)
        ≡ ok (xadds key fields es)
  unfolding stream_entries
  entries_ok zero es rest f l h = absurd (omega arith)
  entries_ok (suc fuel) [] rest f l h = refl
  entries_ok (suc fuel) (e ∷ es) rest f l h =
      rw
        (
          append_assoc (entry_elements ms seq e) (entries_elements ms seq es) rest,
          append_assoc (body_elements e.body) (e.lp_count ∷ [])
              (entries_elements ms seq es ++ rest),
        )
        (round_ok fuel e.deleted e.ms e.seq e.body e.lp_count es
          (entries_elements ms seq es ++ rest) (omega arith) h.0
          (entries_ok fuel es rest (omega arith) (omega arith) h.1))

  length-elements : (es : List StreamEntry) → length es ≤ length (entries_elements ms seq es)
  length-elements [] = omega arith
  length-elements (e ∷ es) = omega (
    arith,
    length-append (entry_elements ms seq e) (entries_elements ms seq es),
    length-elements es,
  )

  -- A listpack of a stream whose IDs and numbers fit 63 bits, each ID stored as its differences from
  -- that of the master entry, of either sign, gives one XADD for each entry that is not deleted, in
  -- order, with its ID and its fields, be they its own or those of the master entry.
  pub stream_listpack-elements :
      (es : List StreamEntry)
      → length es < 2 ^ 63
      → length fields < 2 ^ 63
      → All (IsEntry ms seq fields) es
      → stream_listpack key (pos ms) (pos seq) (listpack_elements ms seq fields es)
        ≡ ok (xadds key fields es)
  unfolding stream_listpack master_entry next_string
  stream_listpack-elements es l lf h =
      rw
        (
          next_integer_ok (live es)
              (format_uint (dead es)
                ∷ format_uint (length fields)
                ∷ (fields ++ codes "0" ∷ entries_elements ms seq es))
              (omega (arith, (counts es).0)),
          next_integer_ok (dead es)
              (format_uint (length fields) ∷ (fields ++ codes "0" ∷ entries_elements ms seq es))
              (omega (arith, (counts es).1)),
          next_integer_ok (length fields) (fields ++ codes "0" ∷ entries_elements ms seq es) lf,
          next_strings_ok fields (codes "0" ∷ entries_elements ms seq es),
          sym (append-nil (entries_elements ms seq es)),
        )
        (entries_ok (length (entries_elements ms seq es ++ []) + 1) es []
          (omega (arith, length-append (entries_elements ms seq es) [], length-elements es)) l h)
