-- ===== src/Rdb/Items.antt =====
-- The records of an RDB file one by one: how Redis writes each, its strings in any encoding, and
-- what the loader of backend/internal/rdb/rdb.go makes of it.
use redis_shake.Prelude.{
  ℕ, zero, suc, ◌+◌, ◌-◌, ◌*◌, ◌^◌, ◌<◌, ◌≤◌, Bool, false, List, [], ◌∷◌, ◌++◌, append_assoc, Bytes,
  codes, length, length-append, take-length-append, All, ◌==◌, ◌≡◌, refl, sym, ◌∙◌, arith,
}
use redis_shake.Prelude.Int.{ℤ, pos}
use redis_shake.Go.Outcome
use redis_shake.Go.Outcome.{Outcome, ok}
use redis_shake.Go.Outcome.Rules.{bind_assoc, bind_cong}
use redis_shake.Structure.Reader.{Reader, read_byte, signed}
use redis_shake.Structure.Reader.Laws.{le_bytes, read_uint-le_bytes}
use redis_shake.Structure.Length.RoundTrip.{save_length, read_length-save_length}
use redis_shake.Structure.Text.Saved.{Saved, save_text, text, IsSaved, read_string-save_text}
use redis_shake.Entry.{Entry}
use redis_shake.Rdb.Commands.{RedisCmd}
use redis_shake.Rdb.Streams.{skip_lengths}
use redis_shake.Rdb.Object.{parse_object}
use redis_shake.Rdb.Restore.{Loader, Options, send, object_entries}
use redis_shake.Rdb.Loader.{
  tee, object_options, set_expire, aux_field, read_object, parse_record, Rounds, rdb_round,
  parse_rdb_entry,
}

-- An object carries its type, its key, its value in the encoding of the type, and the commands that
-- the value stands for.
pub data Item : Type 0 where
  slot_info : ℕ → ℕ → ℕ → Item
  function2 : Saved → Item
  idle freq : ℕ → Item
  aux : Saved → Saved → Item
  resize_db : ℕ → ℕ → Item
  expire_ms expire select : ℕ → Item
  object : ℕ → Saved → Bytes → List RedisCmd → Item

abbrev pub opcode : Item → ℕ
opcode (slot_info a b c) = 244
opcode (function2 f) = 245
opcode (idle n) = 248
opcode (freq n) = 249
opcode (aux k v) = 250
opcode (resize_db a b) = 251
opcode (expire_ms n) = 252
opcode (expire n) = 253
opcode (select n) = 254
opcode (object t k v cmds) = t

abbrev pub payload : Item → Bytes
payload (slot_info a b c) = save_length a ++ (save_length b ++ save_length c)
payload (function2 f) = save_text f
payload (idle n) = save_length n
payload (freq n) = n ∷ []
payload (aux k v) = save_text k ++ save_text v
payload (resize_db a b) = save_length a ++ save_length b
payload (expire_ms n) = le_bytes 8 n
payload (expire n) = le_bytes 4 n
payload (select n) = save_length n
payload (object t k v cmds) = save_text k ++ v

abbrev pub save_items : List Item → Bytes
save_items [] = []
save_items (i ∷ is) = opcode i ∷ (payload i ++ save_items is)

module _ (options : Options) (is_valkey : Bool) where
  -- The reader of the objects takes a value, whatever is behind it, for the commands.
  abbrev pub IsValue : ℕ → Bytes → Bytes → List RedisCmd → Type 0
  IsValue t key value cmds =
      (rest : Bytes)
      → parse_object (object_options options is_valkey) t key (value ++ rest) ≡ ok (cmds, rest)

  abbrev pub IsItem : Item → Type 0
  IsItem (slot_info a b c) = (a < 2 ^ 64) × ((b < 2 ^ 64) × (c < 2 ^ 64))
  IsItem (function2 f) = IsSaved f
  IsItem (idle n) = n < 2 ^ 64
  IsItem (freq n) = Unit
  IsItem (aux k v) = IsSaved k × IsSaved v
  IsItem (resize_db a b) = (a < 2 ^ 64) × (b < 2 ^ 64)
  IsItem (expire_ms n) = n < 2 ^ 64
  IsItem (expire n) = n < 2 ^ 32
  IsItem (select n) = n < 2 ^ 64
  IsItem (object t k v cmds) = (t < 244) × (IsSaved k × IsValue t (text k) v cmds)

  -- What one record does to the loader, and what is sent.
  abbrev pub act : ℤ → Loader → Item → Outcome (Loader × List Entry)
  act now ld (slot_info a b c) = ok (ld, [])
  act now ld (function2 f) =
      ok (ld, send (pos 0) (codes "function" ∷ codes "load" ∷ codes "replace" ∷ text f ∷ []) ∷ [])
  act now ld (idle n) = ok (record ld { idle = signed 64 n }, [])
  act now ld (freq n) = ok (record ld { freq = pos n }, [])
  act now ld (aux k v) = aux_field (text k) (text v) ld
  act now ld (resize_db a b) = ok (ld, [])
  act now ld (expire_ms n) = ok (set_expire now (signed 64 n) ld, [])
  act now ld (expire n) = ok (set_expire now (pos (n * 1000)) ld, [])
  act now ld (select n) = ok (record ld { now_db_id = signed 64 n }, [])
  act now ld (object t k v cmds) = ok (
    record ld { expire_ms = pos 0; idle = pos 0; freq = pos 0 },
    object_entries options ld (text k) t v cmds,
  )

  -- All records in order, one in each round from the round `i` on.
  abbrev pub run : Rounds → ℕ → Loader → List Item → Outcome (Loader × List Entry)
  run rounds i ld [] = ok (ld, [])
  run rounds i ld (item ∷ items) =
      Outcome.◌>>=◌ (act (rounds.now i) ld item)
        (λ r. Outcome.◌>>=◌ (run rounds (suc i) r.0 items) (λ l. ok (l.0, r.1 ++ l.1)))

  tee_ok :
      {A : Type 0} (m : Reader A) (value rest : Bytes) (a : A)
      → m (value ++ rest) ≡ ok (a, rest)
      → tee m (value ++ rest) ≡ ok ((a, value), rest)
  unfolding tee
  tee_ok m value rest a e =
      let taken : length value + length rest - length rest ≡ length value = omega arith in
      rw (e, length-append value rest, taken, take-length-append value rest) refl

  object_ok :
      (ld : Loader) (t : ℕ) (k : Saved) (v : Bytes) (cmds : List RedisCmd) (rest : Bytes)
      → IsSaved k
      → IsValue t (text k) v cmds
      → read_object options is_valkey ld t ((save_text k ++ v) ++ rest)
        ≡ ok (
          (
            record ld { expire_ms = pos 0; idle = pos 0; freq = pos 0 },
            object_entries options ld (text k) t v cmds,
          ),
          rest,
        )
  unfolding read_object
  object_ok ld t k v cmds rest h value =
      rw
        (
          append_assoc (save_text k) v rest,
          read_string-save_text k (v ++ rest) h,
          tee_ok (parse_object (object_options options is_valkey) t (text k)) v rest cmds
              (value rest),
        )
        refl

  no_opcode : (t o : ℕ) → t < 244 → 244 ≤ o → (t == o) ≡ false
  no_opcode t o h k = ground arith

  record_ok :
      (now : ℤ) (ld : Loader) (item : Item) (rest : Bytes)
      → IsItem item
      → parse_record options is_valkey now ld (opcode item) (payload item ++ rest)
        ≡ Outcome.◌>>=◌ (act now ld item) (λ r. ok (r, rest))
  unfolding parse_record skip_lengths read_byte
  record_ok now ld (slot_info a b c) rest h =
      rw
        (
          append_assoc (save_length a) (save_length b ++ save_length c) rest,
          append_assoc (save_length b) (save_length c) rest,
          read_length-save_length a (save_length b ++ (save_length c ++ rest)) h.0,
          read_length-save_length b (save_length c ++ rest) h.1.0,
          read_length-save_length c rest h.1.1,
        )
        refl
  record_ok now ld (function2 f) rest h = rw (read_string-save_text f rest h) refl
  record_ok now ld (idle n) rest h = rw (read_length-save_length n rest h) refl
  record_ok now ld (freq n) rest h = refl
  record_ok now ld (aux k v) rest h =
      rw
        (
          append_assoc (save_text k) (save_text v) rest,
          read_string-save_text k (save_text v ++ rest) h.0,
          read_string-save_text v rest h.1,
        )
        refl
  record_ok now ld (resize_db a b) rest h =
      rw
        (
          append_assoc (save_length a) (save_length b) rest,
          read_length-save_length a (save_length b ++ rest) h.0,
          read_length-save_length b rest h.1,
        )
        refl
  record_ok now ld (expire_ms n) rest h = rw ((read_uint-le_bytes n rest).3 h) refl
  record_ok now ld (expire n) rest h = rw ((read_uint-le_bytes n rest).2 h) refl
  record_ok now ld (select n) rest h = rw (read_length-save_length n rest h) refl
  record_ok now ld (object t k v cmds) rest h =
      rw
        (
          no_opcode t 244 h.0 (omega arith),
          no_opcode t 246 h.0 (omega arith),
          no_opcode t 245 h.0 (omega arith),
          no_opcode t 247 h.0 (omega arith),
          no_opcode t 248 h.0 (omega arith),
          no_opcode t 249 h.0 (omega arith),
          no_opcode t 250 h.0 (omega arith),
          no_opcode t 251 h.0 (omega arith),
          no_opcode t 252 h.0 (omega arith),
          no_opcode t 253 h.0 (omega arith),
          no_opcode t 254 h.0 (omega arith),
          object_ok ld t k v cmds rest h.1.0 h.1.1,
        )
        refl

  no_end : (item : Item) → IsItem item → (opcode item == 255) ≡ false
  no_end (slot_info a b c) h = refl
  no_end (function2 f) h = refl
  no_end (idle n) h = refl
  no_end (freq n) h = refl
  no_end (aux k v) h = refl
  no_end (resize_db a b) h = refl
  no_end (expire_ms n) h = refl
  no_end (expire n) h = refl
  no_end (select n) h = refl
  no_end (object t k v cmds) h = no_opcode t 255 h.0 (omega arith)

  round_ok :
      (rounds : Rounds) (i : ℕ) (ld : Loader) (item : Item) (rest : Bytes)
      → rounds.done i ≡ false
      → IsItem item
      → rdb_round options is_valkey rounds i ld (opcode item) (payload item ++ rest)
        ≡ Outcome.◌>>=◌ (act (rounds.now i) ld item) (λ r. ok ((r, false), rest))
  unfolding rdb_round
  round_ok rounds i ld item rest d h =
      rw (no_end item h, record_ok (rounds.now i) ld item rest h, d)
        (sym (bind_assoc (act (rounds.now i) ld item) _ _))

  -- A file of records, in which the context is never cancelled.
  pub parse_rdb_entry-run :
      (rounds : Rounds) (fuel i : ℕ) (ld : Loader) (items : List Item) (rest : Bytes)
      → ((j : ℕ) → rounds.done j ≡ false)
      → length items < fuel
      → All IsItem items
      → parse_rdb_entry fuel options is_valkey rounds i ld (save_items items ++ 255 ∷ rest)
        ≡ Outcome.◌>>=◌ (run rounds i ld items) (λ l. ok (l, rest))
  unfolding parse_rdb_entry read_byte rdb_round
  parse_rdb_entry-run rounds zero i ld items rest d l h = absurd (omega arith)
  parse_rdb_entry-run rounds (suc fuel) i ld [] rest d l h = refl
  parse_rdb_entry-run rounds (suc fuel) i ld (item ∷ items) rest d l h =
      rw
        (
          append_assoc (payload item) (save_items items) (255 ∷ rest),
          round_ok rounds i ld item (save_items items ++ 255 ∷ rest) (d i) h.0,
        )
        (sym (bind_assoc (act (rounds.now i) ld item) _ _)
          ∙ bind_cong (act (rounds.now i) ld item) (λ r.
            rw (parse_rdb_entry-run rounds fuel (suc i) r.0 items rest d (omega arith) h.1) (
              sym (bind_assoc (run rounds (suc i) r.0 items) _ _)
              ∙ bind_assoc (run rounds (suc i) r.0 items) _ _))
          ∙ bind_assoc (act (rounds.now i) ld item) _ _)
