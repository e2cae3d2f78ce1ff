-- ===== src/Filter/Chain.antt =====
-- The chains of tests in filter.go, as conditions.
use redis_shake.Prelude.{
  ◌≡◌, refl, ap, inl, inr, Bool, true, false, ◌&&◌, ◌||◌, not, List, [], ◌∷◌, Bytes, bytes_eq, map,
  all, any, Bool-cases, if◌then◌else◌, arith,
}
use redis_shake.Prelude.Int.{ℤ, eq_ℤ}
use redis_shake.Go.Strings.{has_prefix, has_suffix, contains}
use redis_shake.Entry.{Entry}
use redis_shake.Filter.{
  FilterOptions, is_empty, some_prefix, some_suffix, all_true, all_false, results_kept, contains_db,
  filter_entry,
}

-- One list of names to allow and one to block: an empty list to allow allows all.
abbrev pub permitted {ℓ} : {A : Type ℓ} → (A → A → Bool) → List A → List A → A → Bool
permitted eq allow block x = (is_empty allow || any (eq x) allow) && not (any (eq x) block)

abbrev pub entry_kept : FilterOptions → Entry → Bool
entry_kept opt e =
    permitted eq_ℤ opt.allow_db opt.block_db e.db_id
    && (permitted bytes_eq opt.allow_command opt.block_command e.cmd_name
        && permitted bytes_eq opt.allow_command_group opt.block_command_group e.group)

pub contains-any : (xs : List Bytes) (v : Bytes) → contains xs v ≡ any (bytes_eq v) xs
unfolding contains
contains-any [] v = refl
contains-any (x ∷ xs) v = ground (arith, contains-any xs v)

pub contains_db-any : (xs : List ℤ) (v : ℤ) → contains_db xs v ≡ any (eq_ℤ v) xs
unfolding contains_db
contains_db-any [] v = refl
contains_db-any (x ∷ xs) v = ground (arith, contains_db-any xs v)

pub some_prefix-any : (xs : List Bytes) (v : Bytes) → some_prefix xs v ≡ any (has_prefix v) xs
unfolding some_prefix
some_prefix-any [] v = refl
some_prefix-any (x ∷ xs) v = ground (arith, some_prefix-any xs v)

pub some_suffix-any : (xs : List Bytes) (v : Bytes) → some_suffix xs v ≡ any (has_suffix v) xs
unfolding some_suffix
some_suffix-any [] v = refl
some_suffix-any (x ∷ xs) v = ground (arith, some_suffix-any xs v)

-- A pair of tests in the chain, for the names to allow and for those to block.
pub both_tests :
    (empty found blocked rest : Bool)
    → (if not empty && not found then false else if blocked then false else rest)
      ≡ (((empty || found) && not blocked) && rest)
both_tests true _ true rest = refl
both_tests true _ false rest = refl
both_tests false true true rest = refl
both_tests false true false rest = refl
both_tests false false _ rest = refl

pub last_tests :
    (empty found blocked : Bool)
    → (if not empty && not found then false else not blocked) ≡ ((empty || found) && not blocked)
last_tests true found blocked = refl
last_tests false true blocked = refl
last_tests false false blocked = refl

-- An empty list blocks nothing, tested or not.
pub any_nonempty {ℓ} :
    {A : Type ℓ} (p : A → Bool) (xs : List A) → (not (is_empty xs) && any p xs) ≡ any p xs
any_nonempty p [] = refl
any_nonempty p (x ∷ xs) = ground arith

pub filter_entry-kept : (opt : FilterOptions) (e : Entry) → filter_entry opt e ≡ entry_kept opt e
unfolding filter_entry
filter_entry-kept opt e = rw (
  contains_db-any opt.allow_db e.db_id,
  contains_db-any opt.block_db e.db_id,
  contains-any opt.allow_command e.cmd_name,
  contains-any opt.block_command e.cmd_name,
  contains-any opt.allow_command_group e.group,
  contains-any opt.block_command_group e.group,
  any_nonempty (eq_ℤ e.db_id) opt.block_db,
  any_nonempty (bytes_eq e.cmd_name) opt.block_command,
  any_nonempty (bytes_eq e.group) opt.block_command_group,
  both_tests (is_empty opt.allow_db),
  both_tests (is_empty opt.allow_command),
  last_tests,
)

pub or_true : (b : Bool) → (b || true) ≡ true
or_true true = refl
or_true false = refl

pub some_test : (a b c : Bool) → (if a then true else if b then true else c) ≡ (a || (b || c))
some_test true b c = refl
some_test false true c = refl
some_test false false c = refl

pub dropped : (b : Bool) → (if b then false else false) ≡ false
dropped true = refl
dropped false = refl

pub all_true-map {ℓ} : {A : Type ℓ} (p : A → Bool) (xs : List A) → all_true (map p xs) ≡ all p xs
unfolding all_true
all_true-map p [] = refl
all_true-map p (x ∷ xs) = ap (λ b. p x && b) (all_true-map p xs)

pub results_kept-all {ℓ} :
    {A : Type ℓ} (p : A → Bool) (opt : FilterOptions) (e : Entry) (xs : List A)
    → results_kept opt e (map p xs) ≡ (all p xs && entry_kept opt e)
unfolding results_kept
results_kept-all p opt e xs = elim (Bool-cases (all p xs)) [
  | inl h ↦ rw (all_true-map p xs, h, filter_entry-kept opt e)
  | inr h ↦ rw (all_true-map p xs, h) (dropped (all_false (map p xs)))
]
