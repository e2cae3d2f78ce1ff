-- ===== src/Structure/Lzf/Tokens.antt =====
-- The tokens of LZF: what each is written as, and what it appends to the output.
use redis_shake.Prelude.{
  ℕ, zero, suc, ◌+◌, ◌-◌, ◌*◌, ◌/◌, ◌%◌, ◌≤◌, ◌<◌, List, [], ◌∷◌, ◌++◌, length, get_elem?, none,
  some, Bytes, ltb, if◌then◌else◌,
}

-- A run of bytes, or `length` bytes from `distance` back.
pub data Token : Type 0 where
  literal : Bytes → Token
  back : ℕ → ℕ → Token

-- The bytes of a token: a control byte, and what goes with it.
abbrev pub encode : Token → Bytes
encode (literal bs) = (length bs - 1) ∷ bs
encode (back n d) =
    if ltb n 9
    then ((n - 2) * 32 + (d - 1) / 256) ∷ (d - 1) % 256 ∷ []
    else (7 * 32 + (d - 1) / 256) ∷ (n - 9) ∷ (d - 1) % 256 ∷ []

abbrev pub encode_all : List Token → Bytes
encode_all [] = []
encode_all (t ∷ ts) = encode t ++ encode_all ts

-- The byte that stands `d` before the end.
abbrev pub from_end : ℕ → Bytes → ℕ
from_end d out = elim (get_elem? out (length out - d)) [ none ↦ 0 | some b ↦ b ]

abbrev pub expand_back : ℕ → ℕ → Bytes → Bytes
expand_back zero d out = out
expand_back (suc n) d out = expand_back n d (out ++ from_end d out ∷ [])

-- What a token appends to the output.
abbrev pub expand : Bytes → Token → Bytes
expand out (literal bs) = out ++ bs
expand out (back n d) = expand_back n d out

abbrev pub expand_all : Bytes → List Token → Bytes
expand_all out [] = out
expand_all out (t ∷ ts) = expand_all (expand out t) ts

-- What the format can express, with `size` bytes written so far.
abbrev pub IsToken : ℕ → Token → Type 0
IsToken size (literal bs) = (0 < length bs) × (length bs ≤ 32)
IsToken size (back n d) = (3 ≤ n) × (n ≤ 264) × (1 ≤ d) × (d ≤ 8192) × (d ≤ size)

abbrev pub AreTokens : Bytes → List Token → Type 0
AreTokens out [] = Unit
AreTokens out (t ∷ ts) = IsToken (length out) t × AreTokens (expand out t) ts
