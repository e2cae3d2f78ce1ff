-- ===== src/Commands/Keys/Loops.antt =====
-- What the loops of `CalcKeys` collect, against a reading of the key specifications.
use native.Mathlib.Nat.{suc-add}
use redis_shake.Prelude.{
  ℕ, zero, suc, ◌+◌, ◌-◌, ◌<◌, ◌≤◌, ◌^◌, false, List, [], ◌∷◌, ◌++◌, append_assoc, append-nil,
  length, drop, Bytes, some, ◌≡◌, refl, sym, ◌∙◌, arith, ◌⊎◌, inl, inr,
}
use redis_shake.Prelude.Int.{ℤ, pos, negsuc, ◌+ℤ◌, ◌-ℤ◌}
use redis_shake.Go.Outcome.{Outcome, ok, >>=-ok, index}
use redis_shake.Go.Strings.{to_upper}
use redis_shake.Commands.Types.{index_range}
use redis_shake.Commands.Table.{Table, lookup_command, is_container}
use redis_shake.Commands.Keys.{
  no_keys, calc_keys, command_name, entry_keys, specs_keys, spec_keys, begin_search, keys_from,
  find_keys, limit_count, last_key_index, Found, append_key, range_keys,
}

-- Every element at a multiple of `suc gap`, from the element `skip` on.
abbrev pub every_from : ℕ → ℕ → List Bytes → List Bytes
every_from gap skip [] = []
every_from gap zero (x ∷ xs) = x ∷ every_from gap gap xs
every_from gap (suc skip) (x ∷ xs) = every_from gap skip xs

-- `result` is the return of keys `ks` behind those of `found`, with some indexes.
abbrev pub Collects : Found → List Bytes → Outcome Found → Type 0
Collects found ks result =
    (is : List ℤ) × (result ≡ ok (record { keys = found.keys ++ ks; indexes = is }))

every_from-drop :
    (gap skip : ℕ) (xs : List Bytes) → every_from gap skip xs ≡ every_from gap 0 (drop skip xs)
every_from-drop gap zero [] = refl
every_from-drop gap zero (x ∷ xs) = refl
every_from-drop gap (suc skip) [] = refl
every_from-drop gap (suc skip) (x ∷ xs) = every_from-drop gap skip xs

pub drop-cons {ℓ} :
    {A : Type ℓ} (n : ℕ) (xs : List A)
    → n < length xs
    → (x : A) × (drop n xs ≡ x ∷ drop (suc n) xs) × (index xs (pos n) ≡ ok x)
drop-cons n [] h = elim h [ ]
drop-cons zero (x ∷ xs) h = (x, refl, refl)
drop-cons (suc n) (y ∷ xs) h = drop-cons n xs (omega arith)

pub drop-nil {ℓ} : {A : Type ℓ} (n : ℕ) (xs : List A) → length xs ≤ n → drop n xs ≡ []
drop-nil zero [] h = refl
drop-nil (suc n) [] h = refl
drop-nil zero (x ∷ xs) h = absurd (omega arith)
drop-nil (suc n) (x ∷ xs) h = drop-nil n xs (omega arith)

drop-drop {ℓ} : {A : Type ℓ} (n m : ℕ) (xs : List A) → drop m (drop n xs) ≡ drop (n + m) xs
drop-drop zero m xs = ground arith
drop-drop (suc n) m [] = drop-nil m [] (omega arith) ∙ sym (drop-nil (suc n + m) [] (omega arith))
drop-drop (suc n) m (x ∷ xs) = rw suc-add (drop-drop n m xs)

abbrev with_key : Found → Bytes → ℕ → Found
with_key found x n = record {
  keys = found.keys ++ x ∷ [];
  indexes = found.indexes ++ (pos n +ℤ pos 1) ∷ [];
}

abbrev pub to_last : List Bytes → ℤ
to_last argv = pos (length argv) -ℤ pos 1

pub le_or_lt : (a b : ℕ) → (a ≤ b) ⊎ (b < a)
le_or_lt a b = grind arith

module _ (argv : List Bytes) where
  range_keys_stop :
      (fuel n : ℕ) (step limit : ℤ) (found : Found)
      → length argv ≤ n
      → range_keys (suc fuel) argv (pos n) (to_last argv) step limit found ≡ ok found
  unfolding range_keys
  range_keys_stop fuel n step limit found h = ground arith

  append_key_ok :
      (n : ℕ) (found : Found) (x : Bytes)
      → index argv (pos n) ≡ ok x
      → append_key argv (pos n) found ≡ ok (with_key found x n)
  unfolding append_key
  append_key_ok n found x e = rw e

  range_keys_step :
      (fuel n gap limit : ℕ) (found : Found) (x : Bytes)
      → n < length argv
      → index argv (pos n) ≡ ok x
      → range_keys (suc fuel) argv (pos n) (to_last argv) (pos (suc gap)) (pos (suc limit)) found
        ≡ range_keys fuel argv
            (pos (n + suc gap))
            (to_last argv)
            (pos (suc gap))
            (pos limit)
            (with_key found x n)
  unfolding range_keys
  range_keys_step fuel n gap limit found x h e = ground (arith, append_key_ok n found x e)

  every_from_step :
      (n gap : ℕ) {x : Bytes}
      → drop n argv ≡ x ∷ drop (suc n) argv
      → every_from gap 0 (drop n argv) ≡ x ∷ every_from gap 0 (drop (n + suc gap) argv)
  every_from_step n gap {x} e =
      rw (e, every_from-drop gap gap (drop (suc n) argv), drop-drop (suc n) gap argv) (ground arith)

  -- A range that runs to the last argument collects every `suc gap`-th one.
  pub range_keys-rest :
      (fuel n gap limit : ℕ) (found : Found)
      → 0 < fuel
      → length argv < n + fuel
      → length argv ≤ n + limit
      → Collects found
          (every_from gap 0 (drop n argv))
          (range_keys fuel argv (pos n) (to_last argv) (pos (suc gap)) (pos limit) found)
  range_keys-rest zero n gap limit found p f l = absurd (omega arith)
  range_keys-rest (suc fuel) n gap zero found p f l =
      let le : length argv ≤ n = omega arith in
      (found.indexes, range_keys_stop fuel n _ _ found le ∙ rw (drop-nil n argv le, append-nil))
  range_keys-rest (suc fuel) n gap (suc limit) found p f l = elim (le_or_lt (length argv) n) [
    | inl le ↦
        (found.indexes, range_keys_stop fuel n _ _ found le ∙ rw (drop-nil n argv le, append-nil))
    | inr lt ↦
        let (x, e, at) = drop-cons n argv lt in
        let rest =
          range_keys-rest fuel (n + suc gap) gap limit (with_key found x n) (omega arith)
            (omega arith) (omega arith) in
        (
          rest.0,
          range_keys_step fuel n gap limit found x lt at
              ∙ rest.1
              ∙ rw (every_from_step n gap e, append_assoc),
        )
  ]

pub last_argument : (n : ℕ) → pos n +ℤ negsuc 0 ≡ pos n -ℤ pos 1
last_argument n = ground arith

specs_keys_range :
    (fuel : ℕ) (argv : List Bytes) (begin gap : ℕ) (found : Found)
    → specs_keys fuel argv (index_range begin (negsuc 0) (suc gap) ∷ []) found
      ≡ range_keys fuel argv (pos begin) (to_last argv) (pos (suc gap)) (pos (2 ^ 31 - 1)) found
unfolding specs_keys spec_keys begin_search keys_from find_keys limit_count last_key_index
specs_keys_range fuel argv begin gap found = >>=-ok _ ∙ rw (last_argument (length argv))

pub command_name-cons :
    (name : Bytes) (args : List Bytes)
    → is_container (to_upper name) ≡ false
    → command_name (name ∷ args) ≡ ok (to_upper name)
unfolding command_name
command_name-cons name [] c = refl
command_name-cons name (sub ∷ rest) c = rw c

-- `DEL`, `MGET`, `MSET` and the like: one specification, a range from the first argument to the
-- last. `CalcKeys` reports every `suc gap`-th argument behind the name.
pub calc_keys-rest :
    (table : Table) (name : Bytes) (args : List Bytes) (group : Bytes) (gap : ℕ)
    → length args < 2 ^ 31 - 1
    → is_container (to_upper name) ≡ false
    → lookup_command table (to_upper name)
      ≡ some (record { group = group; key_spec = index_range 1 (negsuc 0) (suc gap) ∷ [] })
    → (is : List ℤ) × (calc_keys table (name ∷ args)
        ≡ ok (record {
          cma_name = to_upper name;
          group = group;
          found = record { keys = every_from gap 0 args; indexes = is };
        }))
unfolding calc_keys entry_keys
calc_keys-rest table name args group gap h c e =
    let argv = name ∷ args in
    let (is, r) =
      range_keys-rest argv (length argv + 2) 1 gap (2 ^ 31 - 1) no_keys (omega arith) (omega arith)
        (omega arith) in
    (is, rw (command_name-cons name args c, e, entry_keys, specs_keys_range, r))
