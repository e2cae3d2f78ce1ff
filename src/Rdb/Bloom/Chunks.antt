-- ===== src/Rdb/Bloom/Chunks.antt =====
-- The chunks of a Bloom filter, for `getEncodedChunk` and `getLinkPos` of
-- backend/internal/rdb/types/mbbloom.go.
use redis_shake.Prelude.{
  ℕ, zero, suc, ◌+◌, ◌-◌, ◌<◌, ◌≤◌, min, List, [], ◌∷◌, ◌++◌, Bytes, length, length-append, take,
  drop, Option, none, some, ltb, Bool-cases, inl, inr, ltb→lt, ◌≡◌, refl, sym, ap, ◌∙◌, arith,
}
use redis_shake.Go.Outcome.{ok, ◌>>=◌}
use redis_shake.Rdb.Bloom.{
  Link, Chain, get_link_pos_from, get_link_pos, get_encoded_chunk, encoded_chunks, filter_bytes,
}

module _ {A : Type 0} where
  length-drop : (n : ℕ) (xs : List A) → length (drop n xs) ≡ length xs - n
  length-drop zero xs = omega arith
  length-drop (suc n) [] = omega arith
  length-drop (suc n) (x ∷ xs) = omega (arith, length-drop n xs)

  length-take : (n : ℕ) (xs : List A) → n ≤ length xs → length (take n xs) ≡ n
  length-take zero xs h = refl
  length-take (suc n) [] h = absurd (omega arith)
  length-take (suc n) (x ∷ xs) h = omega (arith, length-take n xs (omega arith))

  drop-append : (n : ℕ) (xs ys : List A) → n ≤ length xs → drop n (xs ++ ys) ≡ drop n xs ++ ys
  drop-append zero xs ys h = refl
  drop-append (suc n) [] ys h = absurd (omega arith)
  drop-append (suc n) (x ∷ xs) ys h = drop-append n xs ys (omega arith)

  drop-append_past :
      (n : ℕ) (xs ys : List A) → length xs ≤ n → drop n (xs ++ ys) ≡ drop (n - length xs) ys
  drop-append_past n [] ys h = let e : n - 0 ≡ n = omega arith in rw e refl
  drop-append_past zero (x ∷ xs) ys h = absurd (omega arith)
  drop-append_past (suc n) (x ∷ xs) ys h =
      let e : suc n - suc (length xs) ≡ n - length xs = omega arith in
      rw e (drop-append_past n xs ys (omega arith))

  take-append : (n : ℕ) (xs ys : List A) → n ≤ length xs → take n (xs ++ ys) ≡ take n xs
  take-append zero xs ys h = refl
  take-append (suc n) [] ys h = absurd (omega arith)
  take-append (suc n) (x ∷ xs) ys h = ap (◌∷◌ x) (take-append n xs ys (omega arith))

  take-drop : (n : ℕ) (xs : List A) → take n xs ++ drop n xs ≡ xs
  take-drop zero xs = refl
  take-drop (suc n) [] = refl
  take-drop (suc n) (x ∷ xs) = ap (◌∷◌ x) (take-drop n xs)

  drop-nil : (n : ℕ) → drop {A = A} n [] ≡ []
  drop-nil zero = refl
  drop-nil (suc n) = refl

  drop-drop : (m n : ℕ) (xs : List A) → drop n (drop m xs) ≡ drop (m + n) xs
  drop-drop zero n xs = let e : 0 + n ≡ n = omega arith in rw e refl
  drop-drop (suc m) n [] = let e : suc m + n ≡ suc (m + n) = omega arith in rw e (drop-nil n)
  drop-drop (suc m) n (x ∷ xs) =
      let e : suc m + n ≡ suc (m + n) = omega arith in rw e (drop-drop m n xs)

-- Where a position stands in the filters: in a filter at an offset, or behind all of them.
data Found (ls : List Link) (off : ℕ) : Option (Link × ℕ) → Type 0 where
  inside :
      (l : Link) (o : ℕ) (more : Bytes)
      → o < length l.bf
      → drop off (filter_bytes ls) ≡ drop o l.bf ++ more
      → Found ls off (some (l, o))
  behind : length (filter_bytes ls) ≤ off → Found ls off none

later :
    (l : Link) (ls : List Link) (off : ℕ) {r : Option (Link × ℕ)}
    → length l.bf ≤ off
    → Found ls (off - length l.bf) r
    → Found (l ∷ ls) off r
later l ls off h (inside k o more lt e) =
    inside k o more lt (drop-append_past off l.bf (filter_bytes ls) h ∙ e)
later l ls off h (behind k) = behind (omega (arith, length-append l.bf (filter_bytes ls)))

get_link_pos_from-Found :
    (ls : List Link) (seek off : ℕ) → Found ls off (get_link_pos_from ls seek (seek + off))
unfolding get_link_pos_from
get_link_pos_from-Found [] seek off = behind (omega arith)
get_link_pos_from-Found (l ∷ ls) seek off =
    elim (Bool-cases (ltb (seek + off) (seek + length l.bf))) [
      | inl e ↦ rw e (
          let e' : seek + off - seek ≡ off = omega arith in
          let lt : off < length l.bf = omega (arith, ltb→lt _ _ e) in
          rw e' (
            inside l off (filter_bytes ls) lt
              (drop-append off l.bf (filter_bytes ls) (omega arith))))
      | inr e ↦ rw e (
          let past : length l.bf ≤ off = ground arith in
          let e' : seek + off ≡ seek + length l.bf + (off - length l.bf) = omega arith in
          rw e' (
            later l ls off past
              (get_link_pos_from-Found ls (seek + length l.bf) (off - length l.bf))))
    ]

-- The chunks are the bytes in order, each of between one and `max` bytes, with the position behind it.
abbrev pub AreChunks : ℕ → ℕ → List (ℕ × Bytes) → Bytes → Type 0
AreChunks max cur_iter [] bytes = bytes ≡ []
AreChunks max cur_iter ((iter, chunk) ∷ chunks) bytes =
    (more : Bytes) × (bytes ≡ chunk ++ more)
    × (1 ≤ length chunk)
    × (length chunk ≤ max)
    × (iter ≡ cur_iter + length chunk)
    × AreChunks max iter chunks more

-- The chunk at a position.
data ChunkAt (ls : List Link) (max pos : ℕ) : Bytes × ℕ → Type 0 where
  last : length (filter_bytes ls) ≤ pos → ChunkAt ls max pos ([], 0)
  next :
      (c : Bytes) (k : ℕ)
      → length c ≡ k
      → 1 ≤ k
      → k ≤ max
      → drop pos (filter_bytes ls) ≡ c ++ drop (pos + k) (filter_bytes ls)
      → ChunkAt ls max pos (c, suc pos + k)

drop-past : {A : Type 0} (n : ℕ) (xs : List A) → length xs ≤ n → drop n xs ≡ []
drop-past n [] h = drop-nil n
drop-past zero (x ∷ xs) h = absurd (omega arith)
drop-past (suc n) (x ∷ xs) h = drop-past n xs (omega arith)

module _ (sb : Chain) (max : ℕ) (positive : 1 ≤ max) where
  -- The part of a filter that makes a chunk.
  part :
      (pos o k : ℕ) (bf more : Bytes)
      → k ≤ length bf - o
      → 1 ≤ k
      → k ≤ max
      → drop pos (filter_bytes sb.filters) ≡ drop o bf ++ more
      → ChunkAt sb.filters max pos (take k (drop o bf), suc pos + k)
  part pos o k bf more h one le e =
      let total = filter_bytes sb.filters in
      let n : length (take k (drop o bf)) ≡ k =
        length-take k (drop o bf) (omega (arith, length-drop o bf)) in
      let front : take k (drop pos total) ≡ take k (drop o bf) =
        ap (take k) e ∙ take-append k (drop o bf) more (omega (arith, length-drop o bf)) in
      let split : drop pos total ≡ take k (drop o bf) ++ drop (pos + k) total =
        sym (take-drop k (drop pos total)) ∙ rw (front, drop-drop pos k total) refl in
      next (take k (drop o bf)) k n one le split

  found_chunk :
      (pos : ℕ) (r : Option (Link × ℕ))
      → Found sb.filters pos r
      → ChunkAt sb.filters max pos (elim r [
        | none ↦ ([], 0)
        | some (pl, off) ↦
            let l = min (length pl.bf - off) max in (take l (drop off pl.bf), suc pos + l)
      ])
  found_chunk pos none (behind h) = last h
  found_chunk pos (some (l, o)) (inside _ _ more lt e) =
      part pos o (min (length l.bf - o) max) l.bf more (omega arith) (omega arith) (omega arith) e

  chunk_at : (pos : ℕ) → ChunkAt sb.filters max pos (get_encoded_chunk sb (suc pos) max)
  unfolding get_encoded_chunk get_link_pos
  chunk_at pos =
      let e : suc pos - 1 ≡ 0 + pos = omega arith in
      rw (get_encoded_chunk, e) (found_chunk pos _ (get_link_pos_from-Found sb.filters 0 pos))

  -- The chunks from a position on, given those behind the next one.
  chunks_step :
      (fuel pos : ℕ) (chunk : Bytes × ℕ)
      → ChunkAt sb.filters max pos chunk
      → ((k : ℕ)
          → 1 ≤ k
          → pos + k ≤ length (filter_bytes sb.filters)
          → (chunks : List (ℕ × Bytes)) × (encoded_chunks fuel sb (suc pos + k) max ≡ ok chunks)
            × AreChunks max (suc pos + k) chunks (drop (pos + k) (filter_bytes sb.filters)))
      → (chunks : List (ℕ × Bytes)) × (elim chunk.0 [
        | [] ↦ ok []
        | c ∷ cs ↦
            encoded_chunks fuel sb chunk.1 max >>= (λ chunks. ok ((chunk.1, c ∷ cs) ∷ chunks))
      ]
          ≡ ok chunks)
        × AreChunks max (suc pos) chunks (drop pos (filter_bytes sb.filters))
  chunks_step fuel pos _ (last h) more = ([], refl, drop-past pos (filter_bytes sb.filters) h)
  chunks_step fuel pos _ (next [] k n one le e) more = absurd (omega arith)
  chunks_step fuel pos _ (next (c ∷ cs) k n one le e) more =
      let total = filter_bytes sb.filters in
      let within : pos + k ≤ length total = omega (
        arith,
        length-drop pos total,
        ap length e,
        length-append (c ∷ cs) (drop (pos + k) total),
      ) in
      let (chunks, run, are) = more k one within in
      (
        (suc pos + k, c ∷ cs) ∷ chunks,
        rw run refl,
        (drop (pos + k) (filter_bytes sb.filters), e, omega arith, omega arith, omega arith, are),
      )

  chunks_ok :
      (fuel pos : ℕ)
      → pos ≤ length (filter_bytes sb.filters)
      → length (filter_bytes sb.filters) < fuel + pos
      → (chunks : List (ℕ × Bytes)) × (encoded_chunks fuel sb (suc pos) max ≡ ok chunks)
        × AreChunks max (suc pos) chunks (drop pos (filter_bytes sb.filters))
  unfolding encoded_chunks
  chunks_ok zero pos w h = absurd (omega arith)
  chunks_ok (suc fuel) pos w h =
      chunks_step fuel pos (get_encoded_chunk sb (suc pos) max) (chunk_at pos) (λ k one within.
        let e : suc pos + k ≡ suc (pos + k) = omega arith in
        rw e (chunks_ok fuel (pos + k) within (omega arith)))

  -- With a positive size the loop ends, with the bytes of all filters cut into chunks in order: each
  -- has at least one byte and at most that size, and stands behind the number of the byte after its
  -- last one, counted from 1.
  pub encoded_chunks-AreChunks :
      (chunks : List (ℕ × Bytes)) × (encoded_chunks (length (filter_bytes sb.filters) + 1) sb 1 max
        ≡ ok chunks)
      × AreChunks max 1 chunks (filter_bytes sb.filters)
  encoded_chunks-AreChunks =
      chunks_ok (length (filter_bytes sb.filters) + 1) 0 (omega arith) (omega arith)
