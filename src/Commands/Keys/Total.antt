-- ===== src/Commands/Keys/Total.antt =====
-- On the program's table the loops of `CalcKeys` end, whatever the arguments.
use redis_shake.Prelude.{
  ℕ, zero, suc, ◌+◌, ◌<◌, Bool, true, false, List, [], ◌∷◌, All, length, get_elem?,
  get_elem?-lt_length, Bytes, bytes_eq, bytes_eq_iff, ◌⊎◌, codes, Option, none, some, ◌≡◌, ◌≢◌,
  refl, arith, Option-cases, inl, inr,
}
use redis_shake.Prelude.Int.{ℤ, pos, negsuc, ◌+ℤ◌, ◌-ℤ◌, ltb_ℤ}
use redis_shake.Go.Outcome.{Outcome, diverges, index}
use redis_shake.Go.Outcome.Rules.{Ends, ended, stopped, Ends-ne-diverges, if-Ends, bind-Ends}
use redis_shake.Go.Strconv.{Parsed, parse_int}
use redis_shake.Commands.Types.{KeySpec, RedisCommand}
use redis_shake.Commands.Table.{redis_commands}
use redis_shake.Commands.Table.Wellformed.{spec_wellformed, lookup-wellformed}
use redis_shake.Commands.Keys.{
  Found, no_keys, append_key, find_keyword, range_keys, counted_keys, find_keys, keynum_keys,
  keys_from, begin_search, spec_keys, specs_keys, entry_keys, command_name, calc_keys, key_count,
  parsed_or_panic,
}

-- The code ends, with whatever result.
abbrev Terminates {ℓ} : {A : Type ℓ} → Outcome A → Type ℓ
Terminates = Ends (λ _. Unit {0})

-- An index that is read lies inside the list.
abbrev Inside {ℓ} : {A : Type ℓ} → List A → ℤ → Type 0
Inside xs (pos n) = n < length xs
Inside xs (negsuc n) = ⊥

index-Ends {ℓ} : {A : Type ℓ} (xs : List A) (i : ℤ) → Ends (λ _. Inside xs i) (index xs i)
index-Ends xs (negsuc n) = stopped
index-Ends xs (pos n) = elim (Option-cases (get_elem? xs n)) [
  | inl e ↦ rw (e, index) stopped
  | inr (x, e) ↦ rw (e, index) (ended (get_elem?-lt_length xs n e))
]

append_key-Ends :
    (argv : List Bytes) (inx : ℤ) (found : Found)
    → Ends (λ _. Inside argv inx) (append_key argv inx found)
unfolding append_key
append_key-Ends argv inx found = bind-Ends (index-Ends argv inx) (λ key e h. ended h)

-- Whatever is left to visit from `inx` on fits the fuel.
abbrev Fits : ℕ → List Bytes → ℤ → Type 0
Fits fuel argv (pos n) = (0 < fuel) × (length argv < n + fuel)
Fits fuel argv (negsuc n) = 0 < fuel

Fits-of : (fuel : ℕ) (argv : List Bytes) (i : ℤ) → length argv < fuel → Fits fuel argv i
Fits-of fuel argv (pos n) h = omega arith
Fits-of fuel argv (negsuc n) h = omega arith

Fits-step :
    (fuel : ℕ) (argv : List Bytes) (inx step : ℤ)
    → Fits (suc fuel) argv inx
    → Inside argv inx
    → ltb_ℤ (pos 0) step ≡ true
    → Fits fuel argv (inx +ℤ step)
Fits-step fuel argv (pos n) (pos s) f i h = ground arith
Fits-step fuel argv (pos n) (negsuc s) f i h = ground arith
Fits-step fuel argv (negsuc n) step f i h = absurd i

-- The two ways for a specification of the table to begin and to go on.
wellformed_begin :
    (spec : KeySpec)
    → spec_wellformed spec ≡ true
    → (bytes_eq spec.begin_search_type (codes "index") ≡ true)
      ⊎ (ltb_ℤ (pos 0) spec.begin_search_start_from ≡ true)
unfolding spec_wellformed
wellformed_begin spec h = ground arith

abbrev is_range : KeySpec → Bool
is_range spec = bytes_eq spec.find_keys_type (codes "range")

wellformed_find :
    (spec : KeySpec)
    → spec_wellformed spec ≡ true
    → (is_range spec ≡ true) × (ltb_ℤ (pos 0) spec.find_keys_range_key_step ≡ true)
      ⊎ (is_range spec ≡ false) × (ltb_ℤ (pos 0) spec.find_keys_keynum_key_step ≡ true)
unfolding spec_wellformed
wellformed_find spec h = ground (
  arith,
  bytes_eq_iff spec.find_keys_type (codes "range"),
  bytes_eq_iff spec.find_keys_type (codes "keynum"),
)

module _ (argv : List Bytes) where
  range_keys-Terminates :
      (fuel : ℕ) (inx last step limit : ℤ) (found : Found)
      → Fits fuel argv inx
      → ltb_ℤ (pos 0) step ≡ true
      → Terminates (range_keys fuel argv inx last step limit found)
  unfolding range_keys
  range_keys-Terminates zero (pos n) last step limit found f h = absurd (omega arith)
  range_keys-Terminates zero (negsuc n) last step limit found f h = absurd (omega arith)
  range_keys-Terminates (suc fuel) inx last step limit found f h =
      if-Ends _
        (bind-Ends (append_key-Ends argv inx found) (λ found' e i.
          range_keys-Terminates fuel (inx +ℤ step) last step (limit -ℤ pos 1) found'
            (Fits-step fuel argv inx step f i h) h))
        (ended tt)

  counted_keys-Terminates :
      (fuel : ℕ) (inx step count : ℤ) (found : Found)
      → Fits fuel argv inx
      → ltb_ℤ (pos 0) step ≡ true
      → Terminates (counted_keys fuel argv inx step count found)
  unfolding counted_keys
  counted_keys-Terminates zero (pos n) step count found f h = absurd (omega arith)
  counted_keys-Terminates zero (negsuc n) step count found f h = absurd (omega arith)
  counted_keys-Terminates (suc fuel) inx step count found f h =
      if-Ends _
        (bind-Ends (append_key-Ends argv inx found) (λ found' e i.
          counted_keys-Terminates fuel (inx +ℤ step) step (count -ℤ pos 1) found'
            (Fits-step fuel argv inx step f i h) h))
        (ended tt)

  find_keyword-Terminates :
      (fuel : ℕ) (word : Bytes) (inx : ℤ)
      → Fits fuel argv inx
      → Terminates (find_keyword fuel argv word inx (pos 1))
  unfolding find_keyword
  find_keyword-Terminates zero word (pos n) f = absurd (omega arith)
  find_keyword-Terminates zero word (negsuc n) f = absurd (omega arith)
  find_keyword-Terminates (suc fuel) word inx f =
      if-Ends _
        (bind-Ends (index-Ends argv inx) (λ arg e i. if-Ends _ (ended tt) (
          find_keyword-Terminates fuel word (inx +ℤ pos 1)
            (Fits-step fuel argv inx (pos 1) f i refl))))
        (ended tt)

  begin_search-Terminates :
      (fuel : ℕ) (spec : KeySpec)
      → length argv < fuel
      → spec_wellformed spec ≡ true
      → Terminates (begin_search fuel argv spec)
  unfolding begin_search
  begin_search-Terminates fuel spec f h = elim (wellformed_begin spec h) [
    | inl e ↦ rw e (ended tt)
    | inr e ↦ rw e (
        if-Ends _ (ended tt)
          (if-Ends _ (find_keyword-Terminates fuel _ _ (Fits-of fuel argv _ f)) stopped))
  ]

  parsed_or_panic-Terminates : (p : Parsed) → Terminates (parsed_or_panic p)
  unfolding parsed_or_panic
  parsed_or_panic-Terminates (Parsed.parsed n) = ended tt
  parsed_or_panic-Terminates Parsed.bad_syntax = stopped
  parsed_or_panic-Terminates (Parsed.bad_range n) = stopped

  keynum_keys-Terminates :
      (fuel : ℕ) (spec : KeySpec) (begin : ℤ) (found : Found)
      → length argv < fuel
      → ltb_ℤ (pos 0) spec.find_keys_keynum_key_step ≡ true
      → Terminates (keynum_keys fuel argv spec begin found)
  unfolding keynum_keys key_count
  keynum_keys-Terminates fuel spec begin found f h = if-Ends _ stopped (
      bind-Ends (index-Ends argv _) (λ arg e i.
        bind-Ends (parsed_or_panic-Terminates (parse_int arg))
          (λ count e' _. counted_keys-Terminates fuel _ _ count found (Fits-of fuel argv _ f) h)))

  find_keys-Terminates :
      (fuel : ℕ) (spec : KeySpec) (begin : ℤ) (found : Found)
      → length argv < fuel
      → spec_wellformed spec ≡ true
      → Terminates (find_keys fuel argv spec begin found)
  unfolding find_keys
  find_keys-Terminates fuel spec begin found f h = elim (wellformed_find spec h) [
    | inl (e, s) ↦ rw e (range_keys-Terminates fuel begin _ _ _ found (Fits-of fuel argv _ f) s)
    | inr (e, s) ↦ rw e (if-Ends _ (keynum_keys-Terminates fuel spec begin found f s) stopped)
  ]

  keys_from-Terminates :
      (fuel : ℕ) (spec : KeySpec) (found : Found) (begin : Option ℤ)
      → length argv < fuel
      → spec_wellformed spec ≡ true
      → Terminates (keys_from fuel argv spec found begin)
  unfolding keys_from
  keys_from-Terminates fuel spec found none f h = ended tt
  keys_from-Terminates fuel spec found (some begin) f h =
      find_keys-Terminates fuel spec begin found f h

  specs_keys-Terminates :
      (fuel : ℕ) (specs : List KeySpec) (found : Found)
      → length argv < fuel
      → All (λ spec. spec_wellformed spec ≡ true) specs
      → Terminates (specs_keys fuel argv specs found)
  unfolding specs_keys spec_keys
  specs_keys-Terminates fuel [] found f h = ended tt
  specs_keys-Terminates fuel (spec ∷ specs) found f h =
      bind-Ends
        (bind-Ends (begin_search-Terminates fuel spec f h.0)
          (λ begin e _. keys_from-Terminates fuel spec found begin f h.0))
        (λ found' e _. specs_keys-Terminates fuel specs found' f h.1)

  entry_keys-Terminates :
      (name : Bytes) (entry : Option RedisCommand)
      → ((cmd : RedisCommand)
          → entry ≡ some cmd
          → All (λ spec. spec_wellformed spec ≡ true) cmd.key_spec)
      → Terminates (entry_keys argv name entry)
  unfolding entry_keys
  entry_keys-Terminates name none h = ended tt
  entry_keys-Terminates name (some cmd) h =
      bind-Ends (specs_keys-Terminates _ cmd.key_spec no_keys (omega arith) (h cmd refl))
        (λ found e _. ended tt)

command_name-Terminates : (argv : List Bytes) → Terminates (command_name argv)
unfolding command_name
command_name-Terminates [] = stopped
command_name-Terminates (name ∷ []) = ended tt
command_name-Terminates (name ∷ sub ∷ rest) = if-Ends _ (ended tt) (ended tt)

calc_keys-Terminates : (argv : List Bytes) → Terminates (calc_keys redis_commands argv)
unfolding calc_keys
calc_keys-Terminates argv =
    bind-Ends (command_name-Terminates argv)
      (λ name e _. entry_keys-Terminates argv name _ (λ cmd. lookup-wellformed name cmd))

-- On the program's table `CalcKeys` never runs out of the fuel that it is given, the number of
-- arguments and two: it returns or panics, whatever the arguments.
pub calc_keys-ne-diverges : (argv : List Bytes) → calc_keys redis_commands argv ≢ diverges
calc_keys-ne-diverges argv = Ends-ne-diverges (calc_keys-Terminates argv)
