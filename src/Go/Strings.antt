-- ===== src/Go/Strings.antt =====
-- `strings.ToUpper`, `HasPrefix`, `HasSuffix` and `slices.Contains`, on strings as bytes.
-- `to_upper` is the ASCII path of `strings.ToUpper`: bytes from 0x80 on are kept.
use mathlib.Core.List.{reverse}
use redis_shake.Prelude.{
  ℕ, ◌-◌, Bool, true, false, ◌&&◌, ◌||◌, List, [], ◌∷◌, map, Bytes, bytes_eq, codes, ◌≡◌, refl, leb,
  ◌==◌, if◌then◌else◌,
}

upper_byte : ℕ → ℕ
upper_byte c = if leb b'a' c && leb c b'z' then c - 32 else c

unfoldable pub to_upper : Bytes → Bytes
unfolding upper_byte
to_upper s = map upper_byte s

unfoldable pub has_prefix : Bytes → Bytes → Bool
has_prefix s [] = true
has_prefix [] (p ∷ ps) = false
has_prefix (c ∷ s) (p ∷ ps) = c == p && has_prefix s ps

unfoldable pub has_suffix : Bytes → Bytes → Bool
unfolding has_prefix
has_suffix s suffix = has_prefix (reverse s) (reverse suffix)

-- `slices.Contains` of strings.
unfoldable pub contains : List Bytes → Bytes → Bool
contains [] v = false
contains (x ∷ xs) v = elim (bytes_eq v x) [ true ↦ true | false ↦ contains xs v ]

shout : to_upper (codes "get-9z") ≡ codes "GET-9Z"
unfolding to_upper
shout = refl

-- `strings.TrimSpace`, on ASCII.
is_space : ℕ → Bool
is_space c = (leb 9 c && leb c 13) || c == 32

trim_left : Bytes → Bytes
trim_left [] = []
trim_left (c ∷ s) = let rest = trim_left s in if is_space c then rest else c ∷ s

unfoldable pub trim_space : Bytes → Bytes
unfolding trim_left is_space
trim_space s = reverse (trim_left (reverse (trim_left s)))

trimmed : trim_space (codes " a b  ") ≡ codes "a b"
unfolding trim_space
trimmed = refl
