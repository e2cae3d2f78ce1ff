-- ===== src/Go/Strconv.antt =====
-- `strconv.FormatUint`, `FormatInt`, `ParseUint`, `ParseInt` and `Atoi`, in base 10 and 64 bits.
pub mod RoundTrip
use redis_shake.Prelude.{
  ℕ, zero, suc, ◌+◌, ◌-◌, ◌*◌, ◌/◌, ◌%◌, ◌^◌, Bool, true, ◌||◌, [], ◌∷◌, Bytes, codes, ◌≡◌, refl,
  ltb, leb, ◌==◌, if◌then◌else◌,
}
use redis_shake.Prelude.Int.{ℤ, pos, negsuc}

-- The decimal digits of a number in front of `out`, lowest digit first. The number itself is
-- enough fuel: it has no more digits than that.
digits : ℕ → ℕ → Bytes → Bytes
digits zero n out = out
digits (suc f) n out =
    let rest = digits f (n / 10) ((b'0' + n % 10) ∷ out) in
    if ltb n 10 then (b'0' + n) ∷ out else rest

unfoldable pub format_uint : ℕ → Bytes
unfolding digits
format_uint n = digits (suc n) n []

unfoldable pub format_int : ℤ → Bytes
unfolding format_uint
format_int (pos n) = format_uint n
format_int (negsuc n) = b'-' ∷ format_uint (suc n)

-- A number, or an error with the number that goes with it: 0, or the nearest bound.
pub data Parsed : Type 0 where
  parsed : ℤ → Parsed
  bad_syntax : Parsed
  bad_range : ℤ → Parsed

pub data ParsedUint : Type 0 where
  parsed : ℕ → ParsedUint
  bad_syntax bad_range : ParsedUint

-- The loop of `ParseUint`, which stops at the first digit that does not fit 64 bits.
scan : Bytes → ℕ → ParsedUint
scan [] n = ParsedUint.parsed n
scan (c ∷ s) n =
    let m = n * 10 + (c - b'0') in
    let rest = scan s m in
    if ltb c b'0' || ltb b'9' c
    then ParsedUint.bad_syntax
    else if leb (2 ^ 64) m
    then ParsedUint.bad_range
    else rest

unfoldable pub parse_uint : Bytes → ParsedUint
unfolding scan
parse_uint [] = ParsedUint.bad_syntax
parse_uint (c ∷ s) = scan (c ∷ s) 0

unsigned : ParsedUint → Parsed
unsigned (ParsedUint.parsed n) =
    if leb (2 ^ 63) n then bad_range (pos (2 ^ 63 - 1)) else Parsed.parsed (pos n)
unsigned ParsedUint.bad_syntax = Parsed.bad_syntax
unsigned ParsedUint.bad_range = bad_range (pos (2 ^ 63 - 1))

negated : ParsedUint → Parsed
negated (ParsedUint.parsed zero) = Parsed.parsed (pos 0)
negated (ParsedUint.parsed (suc n)) =
    if ltb (2 ^ 63) (suc n) then bad_range (negsuc (2 ^ 63 - 1)) else Parsed.parsed (negsuc n)
negated ParsedUint.bad_syntax = Parsed.bad_syntax
negated ParsedUint.bad_range = bad_range (negsuc (2 ^ 63 - 1))

-- `ParseInt(s, 10, 64)`; `Atoi` gives the same results.
unfoldable pub parse_int : Bytes → Parsed
unfolding parse_uint unsigned negated
parse_int [] = Parsed.bad_syntax
parse_int (c ∷ s) =
    if c == b'+'
    then unsigned (parse_uint s)
    else if c == b'-'
    then negated (parse_uint s)
    else unsigned (parse_uint (c ∷ s))

-- The number of `strconv.ParseInt` where its error is not looked at.
unfoldable pub value_of : Parsed → ℤ
value_of (Parsed.parsed n) = n
value_of Parsed.bad_syntax = pos 0
value_of (Parsed.bad_range n) = n

print_negative : format_int (negsuc 1233) ≡ codes "-1234"
unfolding format_int
print_negative = refl

print_max : format_uint (2 ^ 64 - 1) ≡ codes "18446744073709551615"
unfolding format_uint
print_max = refl

parse_tests :
    (parse_int (codes "-1234") ≡ Parsed.parsed (negsuc 1233))
    × (parse_int (codes "9223372036854775808") ≡ bad_range (pos (2 ^ 63 - 1)))
    × (parse_int (codes "12a") ≡ Parsed.bad_syntax)
unfolding parse_int
parse_tests = (refl, refl, refl)
