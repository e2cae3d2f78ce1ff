-- ===== src/Commands/Slots/HashTag.antt =====
-- Which part of a key decides its slot.
use redis_shake.Prelude.{
  ℕ, zero, suc, ◌%◌, ◌<◌, List, [], ◌∷◌, ◌++◌, All, length, take, Bytes, Option, none, some, ◌≡◌,
  ◌≢◌, refl, ap, arith, ltb, ◌==◌, if◌then◌else◌, Option-cases, inl, inr,
}
use redis_shake.Hash.Crc16.{crc16}
use redis_shake.Commands.Slots.{close_at, find_hash_tag, key_hash, calc_slots}

-- What stands behind the first `mark`, and what stands before it.
abbrev pub behind : ℕ → Bytes → Option Bytes
behind mark [] = none
behind mark (c ∷ s) = let rest = behind mark s in if c == mark then some s else rest

abbrev pub before : ℕ → Bytes → Option Bytes
before mark [] = none
before mark (c ∷ s) =
    let rest = before mark s in
    if c == mark then some [] else elim rest [ none ↦ none | some t ↦ some (c ∷ t) ]

-- The rule of the Redis cluster specification: what stands between the first `{` and the first `}`
-- behind it, if that is not empty, and the whole key otherwise.
abbrev pub hashed_part : Bytes → Bytes
hashed_part key = elim (behind b'{' key) [
  | none ↦ key
  | some s ↦ elim (before b'}' s) [ none ↦ key | some t ↦ if ltb 0 (length t) then t else key ]
]

close_at-before : (s : Bytes) → close_at s ≡ none → find_hash_tag s ≡ []
unfolding close_at find_hash_tag
close_at-before [] e = refl
close_at-before (c ∷ s) e = ground (arith, close_at-before s)

close_at-take : (s : Bytes) (k : ℕ) → close_at s ≡ some k → before b'}' s ≡ some (take k s)
unfolding close_at
close_at-take [] k e = cc
close_at-take (c ∷ s) zero e = ground (arith, close_at-take s 0)
close_at-take (c ∷ s) (suc k) e = ground (arith, close_at-take s k)

close_at-none : (s : Bytes) → close_at s ≡ none → before b'}' s ≡ none
unfolding close_at
close_at-none [] e = refl
close_at-none (c ∷ s) e = ground (arith, close_at-none s)

abbrev tag_of : Bytes → Bytes
tag_of key = elim (behind b'{' key) [
  | none ↦ []
  | some s ↦ elim (before b'}' s) [ none ↦ [] | some t ↦ t ]
]

find_hash_tag-tag_of : (s : Bytes) → find_hash_tag s ≡ tag_of s
unfolding find_hash_tag
find_hash_tag-tag_of [] = refl
find_hash_tag-tag_of (c ∷ s) = elim (Option-cases (close_at s)) [
  | inl e ↦ ground (arith, find_hash_tag-tag_of s, close_at-before s, close_at-none s)
  | inr (k, e) ↦ ground (arith, find_hash_tag-tag_of s, close_at-take s k)
]

-- The slot of a key is the checksum of the part that the cluster specification names, modulo the
-- 16384 slots.
pub key_hash-hashed_part : (key : Bytes) → key_hash key ≡ crc16 (hashed_part key) % 16384
unfolding key_hash
key_hash-hashed_part key = rw find_hash_tag-tag_of (ground arith)

abbrev pub Lacks : ℕ → Bytes → Type 0
Lacks mark = All (λ c. c ≢ mark)

behind-append : (mark : ℕ) (a s : Bytes) → Lacks mark a → behind mark (a ++ mark ∷ s) ≡ some s
behind-append mark [] s l = ground arith
behind-append mark (c ∷ a) s l = ground (arith, behind-append mark a s l.1)

before-append : (mark : ℕ) (t s : Bytes) → Lacks mark t → before mark (t ++ mark ∷ s) ≡ some t
before-append mark [] s l = ground arith
before-append mark (c ∷ t) s l = ground (arith, before-append mark t s l.1)

hashed_part_tagged :
    (a tag b : Bytes)
    → Lacks b'{' a
    → Lacks b'}' tag
    → tag ≢ []
    → hashed_part (a ++ b'{' ∷ (tag ++ b'}' ∷ b)) ≡ tag
hashed_part_tagged a [] b la lt ne = absurd (ne refl)
hashed_part_tagged a (c ∷ tag) b la lt ne =
    ground (arith, behind-append b'{' a (c ∷ tag ++ b'}' ∷ b) la, before-append b'}' (c ∷ tag) b lt)

-- Two keys with the same tag in their first braces fall into one slot, whatever stands around.
pub key_hash_same_tag :
    (a b c d tag : Bytes)
    → Lacks b'{' a
    → Lacks b'{' c
    → Lacks b'}' tag
    → tag ≢ []
    → key_hash (a ++ b'{' ∷ (tag ++ b'}' ∷ b)) ≡ key_hash (c ++ b'{' ∷ (tag ++ b'}' ∷ d))
key_hash_same_tag a b c d tag la lc lt ne = rw (
  key_hash-hashed_part,
  key_hash-hashed_part,
  hashed_part_tagged a tag b la lt ne,
  hashed_part_tagged c tag d lc lt ne,
)

-- Every slot that `CalcSlots` returns is a slot of the cluster, and there is one for each key.
pub calc_slots-lt :
    (keys : List Bytes)
    → All (λ slot. slot < 16384) (calc_slots keys) × (length (calc_slots keys) ≡ length keys)
unfolding calc_slots key_hash
calc_slots-lt [] = (tt, refl)
calc_slots-lt (k ∷ keys) = ((omega arith, (calc_slots-lt keys).0), ap suc (calc_slots-lt keys).1)
