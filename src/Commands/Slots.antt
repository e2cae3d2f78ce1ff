-- ===== src/Commands/Slots.antt =====
-- `keyHash` and `CalcSlots` of backend/internal/commands/keys.go. The loop over the runes of a key
-- is one over its bytes: `{` is ASCII, and no byte of a longer rune is.
pub mod HashTag
use redis_shake.Prelude.{
  ℕ, zero, suc, ◌-◌, ◌%◌, ◌^◌, List, [], ◌∷◌, map, length, take, Bytes, codes, Option, none, some,
  ltb, ◌==◌, if◌then◌else◌, ◌≡◌, refl,
}
use redis_shake.Hash.Crc16.{crc16}

-- The inner loop: the first `}` of `key[i:]`, counted from `i`.
unfoldable pub close_at : Bytes → Option ℕ
close_at [] = none
close_at (c ∷ s) =
    let rest = close_at s in
    if c == b'}' then some 0 else elim rest [ none ↦ none | some k ↦ some (suc k) ]

-- The loop labelled `findHashTag`: `key[i+1 : k]` for the first `{` with a `}` behind it.
unfoldable pub find_hash_tag : Bytes → Bytes
unfolding close_at
find_hash_tag [] = []
find_hash_tag (c ∷ s) =
    let rest = find_hash_tag s in
    if c == b'{' then elim (close_at (c ∷ s)) [ none ↦ rest | some k ↦ take (k - 1) s ] else rest

unfoldable pub key_hash : Bytes → ℕ
key_hash key =
    let hashtag = find_hash_tag key in
    let hashed = if ltb 0 (length hashtag) then hashtag else key in crc16 hashed % 2 ^ 14

unfoldable pub calc_slots : List Bytes → List ℕ
calc_slots keys = map key_hash keys
