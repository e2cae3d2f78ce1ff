-- ===== src/Commands/Keys/Streams.antt =====
-- `XREAD` and `XREADGROUP`: the limit 2 of their key specification, which halves the arguments
-- behind `STREAMS`, is not among the limits that `CalcKeys` reads.
use redis_shake.Prelude.{
  ℕ, zero, suc, ◌+◌, ◌-◌, ◌<◌, ◌^◌, true, false, List, [], ◌∷◌, ◌++◌, length, length-append, drop,
  All, Bytes, bytes_eq, codes, some, ◌≡◌, refl, ap, ◌∙◌, arith, if◌then◌else◌, inl, inr,
}
use redis_shake.Prelude.Int.{ℤ, pos, negsuc}
use redis_shake.Go.Outcome.{ok, >>=-ok, index}
use redis_shake.Go.Strings.{to_upper, contains}
use redis_shake.Commands.Types.{keyword_range}
use redis_shake.Commands.Table.{lookup_command, is_container, redis_commands}
use redis_shake.Commands.Keys.Loops.{
  every_from, drop-cons, range_keys-rest, command_name-cons, last_argument, to_last, drop-nil,
  le_or_lt,
}
use redis_shake.Commands.Keys.{
  no_keys, find_keyword, begin_search, range_keys, keys_from, find_keys, limit_count,
  last_key_index, specs_keys, spec_keys, entry_keys, calc_keys, Found, command_name,
}

-- No argument of the list is the keyword, in any case.
abbrev pub Lacks : Bytes → List Bytes → Type 0
Lacks word = All (λ o. bytes_eq (to_upper o) word ≡ false)

drop_view :
    (argv rest : List Bytes) (x : Bytes) (n : ℕ)
    → drop n argv ≡ x ∷ rest
    → (n < length argv) × (index argv (pos n) ≡ ok x) × (drop (n + 1) argv ≡ rest)
drop_view argv rest x n e = elim (le_or_lt (length argv) n) [
  | inl le ↦ absurd (cc (drop-nil n argv le))
  | inr lt ↦ let (y, d, at) = drop-cons n argv lt in (lt, ground (arith, at, d), ground (arith, d))
]

find_keyword_step :
    (fuel : ℕ) (argv : List Bytes) (word x : Bytes) (n : ℕ)
    → n < length argv
    → index argv (pos n) ≡ ok x
    → find_keyword (suc fuel) argv word (pos n) (pos 1) ≡ (
        if bytes_eq (to_upper x) word
        then ok (some (pos (n + 1)))
        else find_keyword fuel argv word (pos (n + 1)) (pos 1))
unfolding find_keyword
find_keyword_step fuel argv word x n lt at = ground (arith, at)

find_keyword_found :
    (argv : List Bytes) (word x : Bytes) (opts rest : List Bytes) (fuel n : ℕ)
    → drop n argv ≡ opts ++ x ∷ rest
    → Lacks word opts
    → bytes_eq (to_upper x) word ≡ true
    → length opts < fuel
    → find_keyword fuel argv word (pos n) (pos 1) ≡ ok (some (pos (n + length opts + 1)))
find_keyword_found argv word x opts rest zero n e l h f = absurd (omega arith)
find_keyword_found argv word x [] rest (suc fuel) n e l h f =
    let (lt, at, _) = drop_view argv rest x n e in
    rw (find_keyword_step fuel argv word x n lt at, h) (ground arith)
find_keyword_found argv word x (o ∷ opts) rest (suc fuel) n e l h f =
    let (lt, at, d) = drop_view argv (opts ++ x ∷ rest) o n e in
    let found = find_keyword_found argv word x opts rest fuel (n + 1) d l.1 h (omega arith) in
    rw (find_keyword_step fuel argv word o n lt at, l.0, found) (ground arith)

specs_keys_keyword :
    (fuel : ℕ) (argv : List Bytes) (begin : ℕ) (found : Found)
    → find_keyword fuel argv (codes "STREAMS") (pos 1) (pos 1) ≡ ok (some (pos begin))
    → specs_keys fuel argv (keyword_range "STREAMS" 1 (negsuc 0) 2 ∷ []) found
      ≡ range_keys fuel argv (pos begin) (to_last argv) (pos 1) (pos (2 ^ 31 - 1)) found
unfolding specs_keys spec_keys begin_search keys_from find_keys limit_count last_key_index
specs_keys_keyword fuel argv begin found e =
    >>=-ok _ ∙ rw (e, keys_from, find_keys, last_argument (length argv))

every_from-zero : (xs : List Bytes) → every_from 0 0 xs ≡ xs
every_from-zero [] = refl
every_from-zero (x ∷ xs) = ap (◌∷◌ x) (every_from-zero xs)

lookup_xread :
    lookup_command redis_commands (codes "XREAD")
    ≡ some
        (record { group = codes "STREAM"; key_spec = keyword_range "STREAMS" 1 (negsuc 0) 2 ∷ [] })
unfolding lookup_command
lookup_xread = refl

drop_behind :
    (opts args : List Bytes) (word : Bytes) → drop (suc (length opts)) (opts ++ word ∷ args) ≡ args
drop_behind [] args word = refl
drop_behind (o ∷ opts) args word = drop_behind opts args word

-- Every argument behind `STREAMS` is reported as a key of `XREAD`: the names of the streams, and
-- the IDs that follow them too.
pub calc_keys-xread :
    (name word : Bytes) (opts args : List Bytes)
    → to_upper name ≡ codes "XREAD"
    → Lacks (codes "STREAMS") opts
    → bytes_eq (to_upper word) (codes "STREAMS") ≡ true
    → length args < 2 ^ 31 - 1
    → (is : List ℤ) × (calc_keys redis_commands (name ∷ (opts ++ word ∷ args))
        ≡ ok (record {
          cma_name = codes "XREAD";
          group = codes "STREAM";
          found = record { keys = args; indexes = is };
        }))
unfolding calc_keys entry_keys is_container contains
calc_keys-xread name word opts args up l h lt =
    let argv = name ∷ (opts ++ word ∷ args) in
    let size = length-append opts (word ∷ args) in
    let begin : ℕ = suc (suc (length opts)) in
    let fuel = length argv + 2 in
    let seek : find_keyword fuel argv (codes "STREAMS") (pos 1) (pos 1) ≡ ok (some (pos begin)) =
      find_keyword_found argv (codes "STREAMS") word opts args fuel 1 refl l h (omega (arith, size))
      ∙ ap (λ (k : ℕ). ok (some (pos k))) (omega arith) in
    let (is, r) =
      range_keys-rest argv fuel begin 0 (2 ^ 31 - 1) no_keys (omega arith) (omega (arith, size))
        (omega (arith, size)) in
    let named : command_name argv ≡ ok (codes "XREAD") =
      command_name-cons name (opts ++ word ∷ args) (rw up) ∙ rw up in
    let kept : every_from 0 0 (drop begin argv) ≡ args =
      every_from-zero (drop begin argv) ∙ drop_behind opts args word in
    let keys = specs_keys_keyword fuel argv begin no_keys seek in
    (is, rw (named, lookup_xread, entry_keys, keys, r, kept))
