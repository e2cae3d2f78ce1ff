-- ===== src/Filter/Keys.antt =====
-- What the filters of keys answer, whatever they have compiled so far.
use redis_shake.Prelude.{
  ◌≡◌, refl, ◌⊎◌, inl, inr, Bool, true, false, ◌&&◌, ◌||◌, not, List, [], ◌∷◌, Bytes, bytes_eq,
  Option, none, some, map, any, Bool-cases, if◌then◌else◌, arith,
}
use redis_shake.Go.Outcome.{Outcome, ok}
use redis_shake.Go.Strings.{has_prefix, has_suffix, contains}
use redis_shake.Filter.{
  Engine, FilterOptions, is_empty, new_keys_pattern, match_key, Patterns, once_do, block_key_match,
  is_any, allow_key_match, some_prefix, some_suffix, block_key_filter, allow_key_filter, key_result,
  key_results,
}
use redis_shake.Filter.Chain.{contains-any, some_prefix-any, some_suffix-any, or_true, some_test}

module _ (engine : Engine) where
  pub match_key-any :
      (ps : List engine.Regexp) (key : Bytes)
      → match_key engine ps key ≡ any (λ r. engine.match_string r key) ps
  unfolding match_key
  match_key-any [] key = refl
  match_key-any (p ∷ ps) key = ground (arith, match_key-any ps key)

  -- A key is among the names, matches a pattern, or has one of the prefixes or suffixes.
  abbrev pub listed : List Bytes → List engine.Regexp → List Bytes → List Bytes → Bytes → Bool
  listed keys patterns prefixes suffixes key =
      any (bytes_eq key) keys
      || (any (λ r. engine.match_string r key) patterns
          || (any (has_prefix key) prefixes || any (has_suffix key) suffixes))

  abbrev pub blocked : FilterOptions → List engine.Regexp → Bytes → Bool
  blocked opt patterns key =
      listed opt.block_keys patterns opt.block_key_prefix opt.block_key_suffix key

  -- With no list to allow keys by, every key is allowed.
  abbrev pub allows_all : FilterOptions → Bool
  allows_all opt =
      is_empty opt.allow_key_regex
      && is_empty opt.allow_key_prefix
      && is_empty opt.allow_key_suffix
      && is_empty opt.allow_keys

  abbrev pub allowed : FilterOptions → List engine.Regexp → Bytes → Bool
  allowed opt patterns key =
      allows_all opt
      || is_any opt.allow_key_regex
      || listed opt.allow_keys patterns opt.allow_key_prefix opt.allow_key_suffix key

  -- What a `once` holds, before and after it has run.
  abbrev pub Cached : Option (List engine.Regexp) → List engine.Regexp → Type 0
  Cached once patterns = (once ≡ none) ⊎ (once ≡ some patterns)

  abbrev pub IsCache : List engine.Regexp → List engine.Regexp → Patterns engine → Type 0
  IsCache bs als st = Cached st.block_list bs × Cached st.allow_list als

  pub once_do-ok :
      (regs : List Bytes) (once : Option (List engine.Regexp)) (ps : List engine.Regexp)
      → new_keys_pattern engine regs ≡ some ps
      → Cached once ps
      → once_do engine regs once ≡ ok ps
  unfolding once_do
  once_do-ok regs once ps e (inl c) = rw (c, once_do, e)
  once_do-ok regs once ps e (inr c) = rw c

  pub unlisted :
      (keys regs prefixes suffixes : List Bytes) (ps : List engine.Regexp) (key : Bytes)
      → new_keys_pattern engine regs ≡ some ps
      → (is_empty regs && is_empty prefixes && is_empty suffixes && is_empty keys) ≡ true
      → listed keys ps prefixes suffixes key ≡ false
  unfolding new_keys_pattern
  unlisted [] [] [] [] [] key e h = refl
  unlisted [] [] [] [] (p ∷ ps) key e h = cc
  unlisted (k ∷ ks) [] [] [] ps key e h = absurd (ground arith)
  unlisted ks [] [] (x ∷ xs) ps key e h = absurd (ground arith)
  unlisted ks [] (x ∷ xs) ss ps key e h = absurd (ground arith)
  unlisted ks (r ∷ rs) prefixes ss ps key e h = absurd (ground arith)

  -- The result of a filter, with a state whose patterns are those of the options.
  abbrev pub Answers :
      Bool → List engine.Regexp → List engine.Regexp → Outcome (Bool × Patterns engine) → Type 0
  Answers b bs als m = (st : Patterns engine) × (m ≡ ok (b, st)) × IsCache bs als st

  pub listed_found :
      (keys prefixes suffixes : List Bytes) (ps : List engine.Regexp) (key : Bytes)
      → contains keys key ≡ true
      → listed keys ps prefixes suffixes key ≡ true
  listed_found keys prefixes suffixes ps key h = rw (← contains-any keys key, h)

  pub listed_rest :
      (keys prefixes suffixes : List Bytes) (ps : List engine.Regexp) (key : Bytes)
      → contains keys key ≡ false
      → (if match_key engine ps key
          then true
          else if some_prefix prefixes key
          then true
          else some_suffix suffixes key)
        ≡ listed keys ps prefixes suffixes key
  listed_rest keys prefixes suffixes ps key h =
      rw
        (
          ← contains-any keys key,
          h,
          match_key-any ps key,
          some_prefix-any prefixes key,
          some_suffix-any suffixes key,
        )
        (some_test (any (λ r. engine.match_string r key) ps) (any (has_prefix key) prefixes)
          (any (has_suffix key) suffixes))

  pub block_key_filter-Answers :
      (opt : FilterOptions) (bs als : List engine.Regexp) (key : Bytes) (st : Patterns engine)
      → new_keys_pattern engine opt.block_key_regex ≡ some bs
      → IsCache bs als st
      → Answers (blocked opt bs key) bs als (block_key_filter engine opt key st)
  unfolding block_key_filter block_key_match
  block_key_filter-Answers opt bs als key st e c =
      elim (Bool-cases (
        is_empty opt.block_key_regex
        && is_empty opt.block_key_prefix
        && is_empty opt.block_key_suffix
        && is_empty opt.block_keys)) [
          | inl h ↦ (
            st,
            rw (
              h,
              unlisted opt.block_keys opt.block_key_regex opt.block_key_prefix opt.block_key_suffix
                  bs key e h,
            ),
            c,
          )
          | inr h ↦ elim (Bool-cases (contains opt.block_keys key)) [
            | inl k ↦ (
              st,
              rw (
                h,
                k,
                listed_found opt.block_keys opt.block_key_prefix opt.block_key_suffix bs key k,
              ),
              c,
            )
            | inr k ↦ (
              record st { block_list = some bs },
              rw (
                h,
                k,
                once_do-ok opt.block_key_regex st.block_list bs e c.0,
                listed_rest opt.block_keys opt.block_key_prefix opt.block_key_suffix bs key k,
              ),
              (inr refl, c.1),
            )
          ]
        ]

  pub allow_key_filter-Answers :
      (opt : FilterOptions) (bs als : List engine.Regexp) (key : Bytes) (st : Patterns engine)
      → new_keys_pattern engine opt.allow_key_regex ≡ some als
      → IsCache bs als st
      → Answers (allowed opt als key) bs als (allow_key_filter engine opt key st)
  unfolding allow_key_filter allow_key_match
  allow_key_filter-Answers opt bs als key st e c = elim (Bool-cases (allows_all opt)) [
    | inl h ↦ (st, rw h, c)
    | inr h ↦ elim (Bool-cases (contains opt.allow_keys key)) [
      | inl k ↦ (
        st,
        rw (
          h,
          k,
          listed_found opt.allow_keys opt.allow_key_prefix opt.allow_key_suffix als key k,
          or_true (is_any opt.allow_key_regex),
        ),
        c,
      )
      | inr k ↦ elim (Bool-cases (is_any opt.allow_key_regex)) [
        | inl a ↦ (st, rw (h, k, a), c)
        | inr a ↦ (
          record st { allow_list = some als },
          rw (
            h,
            k,
            a,
            once_do-ok opt.allow_key_regex st.allow_list als e c.1,
            listed_rest opt.allow_keys opt.allow_key_prefix opt.allow_key_suffix als key k,
          ),
          (c.0, inr refl),
        )
      ]
    ]
  ]

  abbrev pub key_kept : FilterOptions → List engine.Regexp → List engine.Regexp → Bytes → Bool
  key_kept opt bs als key = not (blocked opt bs key) && allowed opt als key

  pub key_result-Answers :
      (opt : FilterOptions) (bs als : List engine.Regexp) (key : Bytes) (st : Patterns engine)
      → new_keys_pattern engine opt.block_key_regex ≡ some bs
      → new_keys_pattern engine opt.allow_key_regex ≡ some als
      → IsCache bs als st
      → Answers (key_kept opt bs als key) bs als (key_result engine opt key st)
  unfolding key_result
  key_result-Answers opt bs als key st eb ea c =
      let (st', e, c') = block_key_filter-Answers opt bs als key st eb c in
      let (st'', e', c'') = allow_key_filter-Answers opt bs als key st' ea c' in
      elim (Bool-cases (blocked opt bs key)) [
        | inl h ↦ (st', rw (e, h), c')
        | inr h ↦ (st'', rw (e, h, e'), c'')
      ]

  pub key_results-ok :
      (opt : FilterOptions) (bs als : List engine.Regexp) (keys : List Bytes) (st : Patterns engine)
      → new_keys_pattern engine opt.block_key_regex ≡ some bs
      → new_keys_pattern engine opt.allow_key_regex ≡ some als
      → IsCache bs als st
      → (st' : Patterns engine) × (key_results engine opt keys st
          ≡ ok (map (key_kept opt bs als) keys, st'))
        × IsCache bs als st'
  unfolding key_results
  key_results-ok opt bs als [] st eb ea c = (st, refl, c)
  key_results-ok opt bs als (key ∷ keys) st eb ea c =
      let (st', e, c') = key_result-Answers opt bs als key st eb ea c in
      let (st'', e', c'') = key_results-ok opt bs als keys st' eb ea c' in (st'', rw (e, e'), c'')
