-- ===== src/Filter/Kept.antt =====
-- What `Filter` keeps, whatever it has compiled so far.
use redis_shake.Prelude.{
  ◌≡◌, refl, false, ◌&&◌, List, [], ◌∷◌, Bytes, none, some, all, map, Bool-cases, inl, inr,
  if◌then◌else◌, arith,
}
use redis_shake.Go.Outcome.{ok, panic, logged}
use redis_shake.Go.Strings.{contains}
use redis_shake.Entry.{Entry}
use redis_shake.Filter.{
  Engine, FilterOptions, is_empty, new_keys_pattern, Patterns, once_do, block_key_match,
  block_key_filter, key_result, key_results, filter, results_kept, all_true, all_false,
  filter_entry,
}
use redis_shake.Filter.Chain.{results_kept-all, entry_kept}
use redis_shake.Filter.Keys.{IsCache, Answers, key_kept, key_results-ok}

module _ (engine : Engine) where
  -- Where all patterns compile and the caches hold nothing else, `Filter` answers without a panic:
  -- an entry is kept if no key of it is blocked, every key of it is allowed, and its database, its
  -- command and its group are permitted. The caches hold nothing else afterwards.
  pub filter-kept :
      (opt : FilterOptions) (bs als : List engine.Regexp) (e : Entry) (st : Patterns engine)
      → new_keys_pattern engine opt.block_key_regex ≡ some bs
      → new_keys_pattern engine opt.allow_key_regex ≡ some als
      → IsCache engine bs als st
      → Answers engine
          (all (key_kept engine opt bs als) e.keys && entry_kept opt e)
          bs
          als
          (filter engine opt e st)
  unfolding filter
  filter-kept opt bs als e st eb ea c =
      let (st', r, c') = key_results-ok engine opt bs als e.keys st eb ea c in
      (st', rw (r, results_kept-all (key_kept engine opt bs als) opt e e.keys), c')

  refused_nonempty :
      (regs : List Bytes) → new_keys_pattern engine regs ≡ none → is_empty regs ≡ false
  unfolding new_keys_pattern
  refused_nonempty [] e = cc
  refused_nonempty (r ∷ rs) e = ground arith

  -- Every key that is blocked by its name has its result without the pattern.
  refused_results :
      (opt : FilterOptions) (st : Patterns engine) (keys : List Bytes)
      → new_keys_pattern engine opt.block_key_regex ≡ none
      → st.block_list ≡ none
      → key_results engine opt keys st ≡ (
          if all (contains opt.block_keys) keys
          then ok (map (λ k. false) keys, st)
          else panic logged)
  unfolding key_results key_result block_key_filter block_key_match once_do
  refused_results opt st [] r s = refl
  refused_results opt st (key ∷ keys) r s = elim (Bool-cases (contains opt.block_keys key)) [
    | inr c ↦ rw (key_results, refused_nonempty opt.block_key_regex r, c, s, once_do, r) refl
    | inl c ↦
        rw (key_results, refused_nonempty opt.block_key_regex r, c, refused_results opt st keys r s)
          (elim (Bool-cases (all (contains opt.block_keys) keys)) [
            | inl d ↦ rw d refl
            | inr d ↦ rw d refl
          ])
  ]

  none_kept :
      (opt : FilterOptions) (e : Entry) (keys : List Bytes)
      → results_kept opt e (map (λ k. false) keys) ≡ (is_empty keys && filter_entry opt e)
  unfolding results_kept all_true all_false
  none_kept opt e [] = refl
  none_kept opt e (k ∷ keys) = ground arith

  -- Where a pattern to block keys by does not compile, and none was cached, `Filter` answers exactly
  -- for the entries whose keys are all blocked by their names, and it leaves the caches alone: it
  -- drops them, or, where there is no key at all, tests their database, command and group. At any
  -- other entry it panics.
  pub filter-refused :
      (opt : FilterOptions) (e : Entry) (st : Patterns engine)
      → new_keys_pattern engine opt.block_key_regex ≡ none
      → st.block_list ≡ none
      → filter engine opt e st ≡ (
          if all (contains opt.block_keys) e.keys
          then ok (is_empty e.keys && filter_entry opt e, st)
          else panic logged)
  unfolding filter
  filter-refused opt e st r s =
      rw (refused_results opt st e.keys r s)
        (elim (Bool-cases (all (contains opt.block_keys) e.keys)) [
          | inl d ↦ rw (d, none_kept opt e e.keys) refl
          | inr d ↦ rw d refl
        ])
