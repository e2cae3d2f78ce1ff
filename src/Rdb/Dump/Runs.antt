-- ===== src/Rdb/Dump/Runs.antt =====
-- The loader on the records of a dump.
use native.Mathlib.Nat.{add-zero}
use redis_shake.Prelude.{
  ℕ, zero, suc, ◌+◌, ◌*◌, ◌^◌, ◌<◌, Bool, true, List, [], ◌∷◌, ◌++◌, append_assoc, append-nil,
  Bytes, length, Option, none, some, All, ltb, ◌≡◌, refl, sym, ◌∙◌, arith,
}
use redis_shake.Prelude.Int.{pos}
use redis_shake.Go.Outcome.{Outcome, ok, panic, diverges, ◌>>=◌, >>=-ok}
use redis_shake.Go.Outcome.Rules.{bind_assoc, bind_cong}
use redis_shake.Go.Int64.{int64, uint64}
use redis_shake.Go.Strconv.{format_int}
use redis_shake.Structure.Text.Saved.{Saved, text}
use redis_shake.Entry.{Entry}
use redis_shake.Rdb.Commands.{RedisCmd}
use redis_shake.Rdb.Restore.{Loader, Options, separate_commands, restore, object_entries}
use redis_shake.Rdb.Loader.{Rounds, set_expire}
use redis_shake.Rdb.Items.{Item, act, run}
use redis_shake.Rdb.Dump.{
  Expiry, Key, Db, expiry_items, hint_items, value_items, key_items, keys_items, db_items,
  dbs_items, remaining, ttl, live_entries, key_entries, keys_entries, dbs_entries, IsExpiry, IsKey,
  IsDb,
}

set_expire-remaining :
    (now at : ℕ) (ld : Loader)
    → now < 2 ^ 63
    → at < 2 ^ 63
    → set_expire (pos now) (pos at) ld ≡ record ld { expire_ms = pos (remaining now at) }
unfolding set_expire int64 uint64
set_expire-remaining now at ld h k = ground arith

-- The loader between two keys.
abbrev pub at_rest : ℕ → ℕ → Loader
at_rest repl db = record {
  repl_stream_db_id = pos repl;
  now_db_id = pos db;
  expire_ms = pos 0;
  idle = pos 0;
  freq = pos 0;
}

-- The database that is selected behind some databases.
abbrev pub last_db : ℕ → List Db → ℕ
last_db n [] = n
last_db n (d ∷ ds) = last_db d.number ds

-- Entries in front of those that are returned.
abbrev behind : {A : Type 0} → List Entry → A × List Entry → Outcome (A × List Entry)
behind es l = ok (l.0, es ++ l.1)

glue :
    {A B : Type 0} (es : List Entry) (m : Outcome (A × List Entry))
    (n : A → Outcome (B × List Entry))
    → (m >>= (λ r. n r.0 >>= behind r.1) >>= behind es)
      ≡ (m >>= behind es >>= (λ r. n r.0 >>= behind r.1))
glue es (ok (a, fs)) n =
    sym (bind_assoc (n a) (behind fs) (behind es))
    ∙ bind_cong (n a) (λ l. rw (append_assoc es fs l.1) refl)
glue es (panic p) n = refl
glue es diverges n = refl

module _ (options : Options) (is_valkey : Bool) (rounds : Rounds) where
  run-append :
      (i : ℕ) (ld : Loader) (xs ys : List Item)
      → run options is_valkey rounds i ld (xs ++ ys)
        ≡ ◌>>=◌ (run options is_valkey rounds i ld xs) (λ r.
          ◌>>=◌ (run options is_valkey rounds (i + length xs) r.0 ys) (λ l. ok (l.0, r.1 ++ l.1)))
  run-append i ld [] ys = rw (add-zero i) (sym (>>=-ok _))
  run-append i ld (x ∷ xs) ys =
      let e : i + suc (length xs) ≡ suc i + length xs = omega arith in
      bind_cong (act options is_valkey (rounds.now i) ld x) (λ r.
        rw (run-append (suc i) r.0 xs ys, e)
          (glue r.1 (run options is_valkey rounds (suc i) r.0 xs)
            (λ l. run options is_valkey rounds (suc i + length xs) l ys)))
      ∙ bind_assoc (act options is_valkey (rounds.now i) ld x) _ _

  pub run-then :
      (i : ℕ) {l1 : Loader} {e1 : List Entry} {l2 : Loader} {e2 : List Entry} (ld : Loader)
      (xs ys : List Item)
      → run options is_valkey rounds i ld xs ≡ ok (l1, e1)
      → run options is_valkey rounds (i + length xs) l1 ys ≡ ok (l2, e2)
      → run options is_valkey rounds i ld (xs ++ ys) ≡ ok (l2, e1 ++ e2)
  run-then i ld xs ys p q = rw (run-append i ld xs ys, p, q) refl

  -- The hints change nothing that is sent.
  value_ok :
      (i : ℕ) (ld : Loader) (lru lfu : Option ℕ) (t : ℕ) (name : Saved) (value : Bytes)
      (cmds : List RedisCmd)
      → run options is_valkey rounds i ld (hint_items lru lfu ++ Item.object t name value cmds ∷ [])
        ≡ ok (
          record ld { expire_ms = pos 0; idle = pos 0; freq = pos 0 },
          object_entries options ld (text name) t value cmds ++ [],
        )
  unfolding object_entries separate_commands restore
  value_ok i ld none none t name value cmds = refl
  value_ok i ld (some l) none t name value cmds = refl
  value_ok i ld none (some f) t name value cmds = refl
  value_ok i ld (some l) (some f) t name value cmds = refl

  object_entries-live_entries :
      (live repl db : ℕ) (k : Key)
      → object_entries options
          (record (at_rest repl db) { expire_ms = pos live })
          (text k.name)
          k.type_byte
          k.value
          k.cmds
        ≡ live_entries options live db k
  unfolding object_entries separate_commands restore format_int
  object_entries-live_entries zero repl db k = refl
  object_entries-live_entries (suc live) repl db k =
      let e : ltb 0 (suc live + 0) ≡ true = ground arith in rw e refl

  module _ (clock : ℕ → ℕ) (now : (j : ℕ) → rounds.now j ≡ pos (clock j))
      (small : (j : ℕ) → clock j < 2 ^ 63) where
    expire_ok :
        (i at : ℕ) (ld : Loader)
        → at < 2 ^ 63
        → set_expire (rounds.now i) (pos at) ld
          ≡ record ld { expire_ms = pos (remaining (clock i) at) }
    expire_ok i at ld h = rw (now i) (set_expire-remaining (clock i) at ld (small i) h)

    expiry_ok :
        (i repl db : ℕ) (e : Expiry)
        → IsExpiry e
        → run options is_valkey rounds i (at_rest repl db) (expiry_items e)
          ≡ ok (record (at_rest repl db) { expire_ms = pos (ttl (clock i) e) }, [])
    expiry_ok i repl db Expiry.never h = refl
    expiry_ok i repl db (Expiry.at_ms n) h =
        let e : ltb n (2 ^ 63) ≡ true = ground arith in
        rw (e, expire_ok i n (at_rest repl db) h) refl
    expiry_ok i repl db (Expiry.at_s n) h =
        rw (expire_ok i (n * 1000) (at_rest repl db) (omega arith)) refl

    key_ok :
        (i repl db : ℕ) (k : Key)
        → IsKey options is_valkey k
        → run options is_valkey rounds i (at_rest repl db) (key_items k)
          ≡ ok (at_rest repl db, key_entries options (clock i) db k)
    key_ok i repl db k h =
        let live = record (at_rest repl db) { expire_ms = pos (ttl (clock i) k.expiry) } in
        run-then i (at_rest repl db) (expiry_items k.expiry) (value_items k)
          (expiry_ok i repl db k.expiry h.1.1.1.0)
          (value_ok (i + length (expiry_items k.expiry)) live k.lru k.lfu k.type_byte k.name k.value
            k.cmds)
        ∙ rw
            (
              append-nil (object_entries options live (text k.name) k.type_byte k.value k.cmds),
              object_entries-live_entries (ttl (clock i) k.expiry) repl db k,
            )
            refl

    keys_ok :
        (i repl db : ℕ) (ks : List Key)
        → All (IsKey options is_valkey) ks
        → run options is_valkey rounds i (at_rest repl db) (keys_items ks)
          ≡ ok (at_rest repl db, keys_entries options clock i db ks)
    keys_ok i repl db [] h = refl
    keys_ok i repl db (k ∷ ks) h =
        run-then i (at_rest repl db) (key_items k) (keys_items ks) (key_ok i repl db k h.0)
          (keys_ok (i + length (key_items k)) repl db ks h.1)

    db_ok :
        (i repl n : ℕ) (d : Db)
        → IsDb options is_valkey d
        → run options is_valkey rounds i (at_rest repl n) (db_items d)
          ≡ ok (at_rest repl d.number, keys_entries options clock (suc (suc i)) d.number d.keys)
    db_ok i repl n d h =
        let e : ltb d.number (2 ^ 63) ≡ true = ground arith in
        rw (e, keys_ok (suc (suc i)) repl d.number d.keys h.1.1) refl

    pub dbs_ok :
        (i repl n : ℕ) (ds : List Db)
        → All (IsDb options is_valkey) ds
        → run options is_valkey rounds i (at_rest repl n) (dbs_items ds)
          ≡ ok (at_rest repl (last_db n ds), dbs_entries options clock i ds)
    dbs_ok i repl n [] h = refl
    dbs_ok i repl n (d ∷ ds) h =
        run-then i (at_rest repl n) (db_items d) (dbs_items ds) (db_ok i repl n d h.0)
          (dbs_ok (i + length (db_items d)) repl d.number ds h.1)
