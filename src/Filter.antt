-- ===== src/Filter.antt =====
-- backend/internal/filter: filter.go and filter_keys_pattern.go. Which entries are kept.
pub mod Chain
pub mod Keys
pub mod Kept
pub mod Function
mod Tests
use redis_shake.Prelude.{
  ℕ, ◌≡◌, refl, Bool, true, false, ◌&&◌, ◌||◌, not, List, [], ◌∷◌, length, Bytes, bytes_eq, codes,
  Option, none, some, ◌==◌, if◌then◌else◌,
}
use redis_shake.Prelude.Int.{ℤ, eq_ℤ}
use redis_shake.Go.Outcome.{Outcome, ok, panic, logged, ◌>>=◌}
use redis_shake.Go.Strings.{has_prefix, has_suffix, contains, trim_space}
use redis_shake.Entry.{Entry}

-- Go's package regexp: `Compile`, which may refuse a pattern, and `MatchString`.
pub record Engine : Type 1 where
  pub Regexp : Type 0
  pub compile : Bytes → Option Regexp
  pub match_string : Regexp → Bytes → Bool

-- `FilterOptions` of backend/internal/config/config.go, but for the Lua function.
pub record FilterOptions : Type 0 where
  pub allow_keys : List Bytes
  pub allow_key_prefix : List Bytes
  pub allow_key_suffix : List Bytes
  pub block_keys : List Bytes
  pub block_key_prefix : List Bytes
  pub block_key_suffix : List Bytes
  pub allow_key_regex : List Bytes
  pub block_key_regex : List Bytes
  pub allow_db : List ℤ
  pub block_db : List ℤ
  pub allow_command : List Bytes
  pub block_command : List Bytes
  pub allow_command_group : List Bytes
  pub block_command_group : List Bytes

abbrev pub is_empty {ℓ} : {A : Type ℓ} → List A → Bool
is_empty xs = length xs == 0

-- `*`, `.*` and `^.*$` alone match every key, without the engine.
unfoldable pub is_any : List Bytes → Bool
is_any (first ∷ []) =
    bytes_eq first (codes "*") || bytes_eq first (codes ".*") || bytes_eq first (codes "^.*$")
is_any _ = false

-- The loops over prefixes and over suffixes.
unfoldable pub some_prefix : List Bytes → Bytes → Bool
some_prefix [] key = false
some_prefix (p ∷ ps) key = let rest = some_prefix ps key in if has_prefix key p then true else rest

unfoldable pub some_suffix : List Bytes → Bytes → Bool
some_suffix [] key = false
some_suffix (s ∷ ss) key = let rest = some_suffix ss key in if has_suffix key s then true else rest

-- The second loop: `allTrue` and `allFalse`.
unfoldable pub all_true : List Bool → Bool
all_true [] = true
all_true (r ∷ rs) = r && all_true rs

unfoldable pub all_false : List Bool → Bool
all_false [] = true
all_false (r ∷ rs) = not r && all_false rs

unfoldable pub contains_db : List ℤ → ℤ → Bool
contains_db [] db = false
contains_db (d ∷ ds) db = let rest = contains_db ds db in if eq_ℤ db d then true else rest

-- The tests behind the keys: the database, the command, and its group.
unfoldable pub filter_entry : FilterOptions → Entry → Bool
filter_entry opt e =
    if not (is_empty opt.allow_db) && not (contains_db opt.allow_db e.db_id)
    then false
    else if not (is_empty opt.block_db) && contains_db opt.block_db e.db_id
    then false
    else if not (is_empty opt.allow_command) && not (contains opt.allow_command e.cmd_name)
    then false
    else if not (is_empty opt.block_command) && contains opt.block_command e.cmd_name
    then false
    else if not (is_empty opt.allow_command_group) && not (contains opt.allow_command_group e.group)
    then false
    else not (not (is_empty opt.block_command_group) && contains opt.block_command_group e.group)

-- An entry whose keys all pass goes on to the other tests; one that mixes keys is dropped too, with
-- a line in the log.
unfoldable pub results_kept : FilterOptions → Entry → List Bool → Bool
results_kept opt e results =
    if all_true results then filter_entry opt e else if all_false results then false else false

module _ (engine : Engine) where
  -- `NewKeysPattern`: the patterns that are not blank, or the error of the first that is refused.
  unfoldable pub new_keys_pattern : List Bytes → Option (List engine.Regexp)
  new_keys_pattern [] = some []
  new_keys_pattern (k ∷ ks) =
      let rest = new_keys_pattern ks in
      let pattern = trim_space k in
      if bytes_eq pattern [] then rest else elim (engine.compile pattern) [
        | none ↦ none
        | some item ↦ elim rest [ none ↦ none | some items ↦ some (item ∷ items) ]
      ]

  unfoldable pub match_key : List engine.Regexp → Bytes → Bool
  match_key [] key = false
  match_key (r ∷ rs) key =
      let rest = match_key rs key in if engine.match_string r key then true else rest

  -- `blockListKeyPatterns` and `allowListKeyPatterns`: `none` until `once.Do` has run.
  pub record Patterns : Type 0 where
    pub block_list : Option (List engine.Regexp)
    pub allow_list : Option (List engine.Regexp)

  -- `once.Do`, whose panic ends the program.
  unfoldable pub once_do : List Bytes → Option (List engine.Regexp) → Outcome (List engine.Regexp)
  once_do regs (some patterns) = ok patterns
  once_do regs none = elim (new_keys_pattern regs) [
    | none ↦ panic logged
    | some patterns ↦ ok patterns
  ]

  unfoldable pub block_key_match : List Bytes → Bytes → Patterns → Outcome (Bool × Patterns)
  block_key_match regs key st = do
    patterns ← once_do regs st.block_list
    ok (match_key patterns key, record st { block_list = some patterns })

  unfoldable pub allow_key_match : List Bytes → Bytes → Patterns → Outcome (Bool × Patterns)
  allow_key_match regs key st =
      let compiled = (do
        patterns ← once_do regs st.allow_list
        ok (match_key patterns key, record st { allow_list = some patterns })) in
      if is_any regs then ok (true, st) else compiled

  unfoldable pub block_key_filter : FilterOptions → Bytes → Patterns → Outcome (Bool × Patterns)
  block_key_filter opt key st =
      let matched = (do
        m ← block_key_match opt.block_key_regex key st
        ok (
          if m.0
              then true
              else if some_prefix opt.block_key_prefix key
              then true
              else some_suffix opt.block_key_suffix key,
          m.1,
        )) in
      if is_empty opt.block_key_regex
        && is_empty opt.block_key_prefix
        && is_empty opt.block_key_suffix
        && is_empty opt.block_keys
      then ok (false, st)
      else if contains opt.block_keys key
      then ok (true, st)
      else matched

  unfoldable pub allow_key_filter : FilterOptions → Bytes → Patterns → Outcome (Bool × Patterns)
  allow_key_filter opt key st =
      let matched = (do
        m ← allow_key_match opt.allow_key_regex key st
        ok (
          if m.0
              then true
              else if some_prefix opt.allow_key_prefix key
              then true
              else some_suffix opt.allow_key_suffix key,
          m.1,
        )) in
      if is_empty opt.allow_key_regex
        && is_empty opt.allow_key_prefix
        && is_empty opt.allow_key_suffix
        && is_empty opt.allow_keys
      then ok (true, st)
      else if contains opt.allow_keys key
      then ok (true, st)
      else matched

  -- The body of the first loop of `Filter`.
  unfoldable pub key_result : FilterOptions → Bytes → Patterns → Outcome (Bool × Patterns)
  key_result opt key st = do
    blocked ← block_key_filter opt key st
    if blocked.0 then ok (false, blocked.1) else allow_key_filter opt key blocked.1

  unfoldable pub key_results :
      FilterOptions → List Bytes → Patterns → Outcome (List Bool × Patterns)
  key_results opt [] st = ok ([], st)
  key_results opt (key ∷ keys) st = do
    r ← key_result opt key st
    rs ← key_results opt keys r.1
    ok (r.0 ∷ rs.0, rs.1)

  unfoldable pub filter : FilterOptions → Entry → Patterns → Outcome (Bool × Patterns)
  filter opt e st = do rs ← key_results opt e.keys st; ok (results_kept opt e rs.0, rs.1)
