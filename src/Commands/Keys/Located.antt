-- ===== src/Commands/Keys/Located.antt =====
-- Every key that `CalcKeys` reports stands in the command at the index reported with it.
use redis_shake.Prelude.{ℕ, zero, suc, List, [], ◌∷◌, ◌++◌, Bytes, Option, none, some, ◌≡◌, arith}
use redis_shake.Prelude.Int.{ℤ, pos, ◌+ℤ◌, ◌-ℤ◌}
use redis_shake.Go.Outcome.{ok, index}
use redis_shake.Go.Outcome.Rules.{
  Returns, returned, panicked, looped, Returns-eq_ok, if-Returns, bind-Returns,
}
use redis_shake.Commands.Types.{KeySpec, RedisCommand}
use redis_shake.Commands.Table.{Table, lookup_command}
use redis_shake.Commands.Keys.{
  Found, no_keys, append_key, range_keys, counted_keys, find_keys, keynum_keys, keys_from,
  entry_keys, begin_search, spec_keys, specs_keys, Calculated, command_name, calc_keys, key_count,
}

-- The two lists are as long as one another, and index `i` (counted from 1) holds key `k`.
abbrev pub Located : List Bytes → List Bytes → List ℤ → Type 0
Located argv [] [] = Unit
Located argv (k ∷ ks) (i ∷ is) = (index argv (i -ℤ pos 1) ≡ ok k) × Located argv ks is
Located argv _ _ = ⊥

abbrev pub FoundLocated : List Bytes → Found → Type 0
FoundLocated argv f = Located argv f.keys f.indexes

pred_suc : (i : ℤ) → i +ℤ pos 1 -ℤ pos 1 ≡ i
pred_suc i = ground arith

Located-concat :
    (argv ks : List Bytes) (is : List ℤ) (k : Bytes) (i : ℤ)
    → Located argv ks is
    → index argv i ≡ ok k
    → Located argv (ks ++ k ∷ []) (is ++ (i +ℤ pos 1) ∷ [])
Located-concat argv [] [] k i l e = (rw (pred_suc i) e, tt)
Located-concat argv (x ∷ ks) (j ∷ is) k i l e = (l.0, Located-concat argv ks is k i l.1 e)
Located-concat argv [] (j ∷ is) k i l e = absurd l
Located-concat argv (x ∷ ks) [] k i l e = absurd l

module _ (argv : List Bytes) where
  append_key-Returns :
      (inx : ℤ) (found : Found)
      → FoundLocated argv found
      → Returns (FoundLocated argv) (append_key argv inx found)
  unfolding append_key
  append_key-Returns inx found l =
      bind-Returns (index argv inx)
        (λ key e. returned (Located-concat argv found.keys found.indexes key inx l e))

  range_keys-Returns :
      (fuel : ℕ) (inx last step limit : ℤ) (found : Found)
      → FoundLocated argv found
      → Returns (FoundLocated argv) (range_keys fuel argv inx last step limit found)
  unfolding range_keys
  range_keys-Returns zero inx last step limit found l = looped
  range_keys-Returns (suc fuel) inx last step limit found l =
      if-Returns _
        (bind-Returns (append_key argv inx found) (λ f e.
          range_keys-Returns fuel (inx +ℤ step) last step (limit -ℤ pos 1) f
            (Returns-eq_ok (append_key-Returns inx found l) e)))
        (returned l)

  counted_keys-Returns :
      (fuel : ℕ) (inx step count : ℤ) (found : Found)
      → FoundLocated argv found
      → Returns (FoundLocated argv) (counted_keys fuel argv inx step count found)
  unfolding counted_keys
  counted_keys-Returns zero inx step count found l = looped
  counted_keys-Returns (suc fuel) inx step count found l =
      if-Returns _
        (bind-Returns (append_key argv inx found) (λ f e.
          counted_keys-Returns fuel (inx +ℤ step) step (count -ℤ pos 1) f
            (Returns-eq_ok (append_key-Returns inx found l) e)))
        (returned l)

  keynum_keys-Returns :
      (fuel : ℕ) (spec : KeySpec) (begin : ℤ) (found : Found)
      → FoundLocated argv found
      → Returns (FoundLocated argv) (keynum_keys fuel argv spec begin found)
  unfolding keynum_keys
  keynum_keys-Returns fuel spec begin found l = if-Returns _ panicked (
      bind-Returns (index argv _) (λ arg e.
        bind-Returns (key_count arg) (λ count e'. counted_keys-Returns fuel _ _ count found l)))

  find_keys-Returns :
      (fuel : ℕ) (spec : KeySpec) (begin : ℤ) (found : Found)
      → FoundLocated argv found
      → Returns (FoundLocated argv) (find_keys fuel argv spec begin found)
  unfolding find_keys
  find_keys-Returns fuel spec begin found l =
      if-Returns _ (range_keys-Returns fuel begin _ _ _ found l)
        (if-Returns _ (keynum_keys-Returns fuel spec begin found l) panicked)

  keys_from-Returns :
      (fuel : ℕ) (spec : KeySpec) (found : Found) (begin : Option ℤ)
      → FoundLocated argv found
      → Returns (FoundLocated argv) (keys_from fuel argv spec found begin)
  unfolding keys_from
  keys_from-Returns fuel spec found none l = returned l
  keys_from-Returns fuel spec found (some begin) l = find_keys-Returns fuel spec begin found l

  spec_keys-Returns :
      (fuel : ℕ) (spec : KeySpec) (found : Found)
      → FoundLocated argv found
      → Returns (FoundLocated argv) (spec_keys fuel argv spec found)
  unfolding spec_keys
  spec_keys-Returns fuel spec found l =
      bind-Returns (begin_search fuel argv spec)
        (λ begin e. keys_from-Returns fuel spec found begin l)

  specs_keys-Returns :
      (fuel : ℕ) (specs : List KeySpec) (found : Found)
      → FoundLocated argv found
      → Returns (FoundLocated argv) (specs_keys fuel argv specs found)
  unfolding specs_keys
  specs_keys-Returns fuel [] found l = returned l
  specs_keys-Returns fuel (spec ∷ specs) found l =
      bind-Returns (spec_keys fuel argv spec found) (λ f e.
        specs_keys-Returns fuel specs f (Returns-eq_ok (spec_keys-Returns fuel spec found l) e))

  entry_keys-Returns :
      (name : Bytes) (entry : Option RedisCommand)
      → Returns (λ r. FoundLocated argv r.found) (entry_keys argv name entry)
  unfolding entry_keys
  entry_keys-Returns name none = returned tt
  entry_keys-Returns name (some cmd) =
      bind-Returns (specs_keys _ argv cmd.key_spec no_keys)
        (λ f e. returned (Returns-eq_ok (specs_keys-Returns _ cmd.key_spec no_keys tt) e))

  calc_keys-Returns :
      (table : Table) → Returns (λ r. FoundLocated argv r.found) (calc_keys table argv)
  unfolding calc_keys
  calc_keys-Returns table =
      bind-Returns (command_name argv)
        (λ name e. entry_keys-Returns name (lookup_command table name))

-- Whatever the table, the keys and the indexes that `CalcKeys` returns are of one length, and each
-- key is the argument at its index, counted from 1.
pub calc_keys-Located :
    (table : Table) (argv : List Bytes) {r : Calculated}
    → calc_keys table argv ≡ ok r
    → Located argv r.found.keys r.found.indexes
calc_keys-Located table argv e = Returns-eq_ok (calc_keys-Returns argv table) e
