-- ===== src/Cluster/Halves.antt =====
-- A cluster of two nodes that have one half of the slots each.
use redis_shake.Prelude.{
  ℕ, zero, suc, ◌+◌, ◌*◌, ◌<◌, ◌≤◌, List, [], ◌∷◌, map, All, Bytes, codes, some, get_elem?, ◌≡◌,
  ◌≢◌, refl, ap, ◌⊎◌, inl, inr, Member, arith,
}
use redis_shake.Prelude.Int.{ℤ, pos}
use redis_shake.Cluster.{key_slots}
use redis_shake.Cluster.Loaded.{Owns, count_from, here_or_later}
use redis_shake.Cluster.Succeeds.{Distinct, SharesOut}

abbrev pub span : ℕ → ℕ → List ℤ
span i n = map pos (count_from i n)

abbrev pub two_addresses : List Bytes
two_addresses = codes "10.0.0.1:6379" ∷ codes "10.0.0.2:6379" ∷ []

abbrev pub halves : List (List ℤ)
halves = span 0 8192 ∷ span 8192 8192 ∷ []

abbrev Within : ℕ → ℕ → ℤ → Type 0
Within i n s = (t : ℕ) × (s ≡ pos t) × (i ≤ t) × (t < i + n)

span-Within : (i n : ℕ) → All (Within i n) (span i n)
span-Within i zero = tt
span-Within i (suc n) =
    ((i, refl, omega arith, omega arith), All_map (count_from (i + 1) n) (span-Within (i + 1) n))
  where
    All_map :
        (xs : List ℕ) → All (Within (i + 1) n) (map pos xs) → All (Within i (suc n)) (map pos xs)
    All_map [] h = tt
    All_map (x ∷ xs) h =
        let (t, e, le, lt) = h.0 in ((t, e, omega arith, omega arith), All_map xs h.1)

Member-Within :
    (i n t : ℕ) (ss : List ℤ) → All (Within i n) ss → Member (pos t) ss → (i ≤ t) × (t < i + n)
Member-Within i n t [] h m = absurd m
Member-Within i n t (s ∷ ss) h (inr m) = Member-Within i n t ss h.1 m
Member-Within i n t (s ∷ ss) h (inl e) =
    let (u, e', le, lt) = h.0 in
    let same : t ≡ u = ground (arith, e, e') in (omega (arith, same, le), omega (arith, same, lt))

span-Member : (i n t : ℕ) → i ≤ t → t < i + n → Member (pos t) (span i n)
span-Member i zero t le lt = absurd (omega arith)
span-Member i (suc n) t le lt = elim (here_or_later i t le) [
  | inl e ↦ inl (ap pos e)
  | inr l ↦ inr (span-Member (i + 1) n t l (omega arith))
]

span-Distinct : (i n : ℕ) → Distinct (span i n)
span-Distinct i zero = tt
span-Distinct i (suc n) = (later (span (i + 1) n) (span-Within (i + 1) n), span-Distinct (i + 1) n)
  where
    later : (ss : List ℤ) → All (Within (i + 1) n) ss → All (λ t. t ≢ pos i) ss
    later [] h = tt
    later (s ∷ ss) h =
        let (t, e, le, lt) = h.0 in
        (
          (λ same. let bad : t ≡ i = ground (arith, same, e) in absurd (omega (arith, bad, le))),
          later ss h.1,
        )

in_cluster :
    (i n : ℕ) (ss : List ℤ)
    → i + n ≤ key_slots
    → All (Within i n) ss
    → All (λ s. (t : ℕ) × (s ≡ pos t) × (t < key_slots)) ss
in_cluster i n [] le h = tt
in_cluster i n (s ∷ ss) le h =
    let (t, e, low, lt) = h.0 in ((t, e, omega arith), in_cluster i n ss le h.1)

-- A list of the halves is the span that belongs to its node.
half : (v : ℕ) (ss : List ℤ) → get_elem? halves v ≡ some ss → (v < 2) × (ss ≡ span (v * 8192) 8192)
half zero ss e = (omega arith, cc)
half (suc zero) ss e = (omega arith, cc)
half (suc (suc v)) ss e = absurd (ground (arith, e))

same_Within : (i n : ℕ) (ss ts : List ℤ) → ss ≡ ts → All (Within i n) ts → All (Within i n) ss
same_Within i n ss ts e h = rw e h

owner : (v t : ℕ) → Owns halves v t → (v * 8192 ≤ t) × (t < v * 8192 + 8192)
owner v t (ss, at, m) =
    let (lt, e) = half v ss at in
    Member-Within (v * 8192) 8192 t ss
      (same_Within (v * 8192) 8192 ss (span (v * 8192) 8192) e (span-Within (v * 8192) 8192)) m

listed_half : (v : ℕ) → v < 2 → (ss : List ℤ) × (get_elem? halves v ≡ some ss)
listed_half zero lt = (span 0 8192, refl)
listed_half (suc zero) lt = (span 8192 8192, refl)
listed_half (suc (suc v)) lt = absurd (omega arith)

here_or_later_half : (t : ℕ) → (t < 8192) ⊎ (8192 ≤ t)
here_or_later_half t = grind arith

pub halves-SharesOut : SharesOut 2 halves
halves-SharesOut = record {
  listed = λ v lt. listed_half v lt;
  distinct = λ v ss at. rw ((half v ss at).1) (span-Distinct (v * 8192) 8192);
  in_range = λ v ss at.
      let (lt, e) = half v ss at in
      rw e (
        in_cluster (v * 8192) 8192 (span (v * 8192) 8192) (omega (arith, lt))
          (span-Within (v * 8192) 8192));
  disjoint = λ t v w a b. omega (arith, owner v t a, owner w t b);
  covers = λ t lt. elim (here_or_later_half t) [
    | inl low ↦ (0, omega arith, (span 0 8192, refl, span-Member 0 8192 t (omega arith) low))
    | inr high ↦
        (1, omega arith, (span 8192 8192, refl, span-Member 8192 8192 t high (omega (arith, lt))))
  ];
}
