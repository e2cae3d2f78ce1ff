-- ===== src/Rdb/Dump/Restored.antt =====
-- What the loader sends for a saved database.
use native.Mathlib.Nat.{zero-add}
use redis_shake.Prelude.{
  ℕ, suc, ◌+◌, ◌^◌, ◌<◌, Bool, true, false, List, [], ◌∷◌, ◌++◌, Bytes, codes, length,
  length-append, All, if◌then◌else◌, ◌≡◌, refl, arith,
}
use redis_shake.Prelude.Int.{ℤ, pos}
use redis_shake.Go.Outcome.{ok}
use redis_shake.Go.Strconv.{Parsed, parse_int}
use redis_shake.Go.Strconv.RoundTrip.{parse_int-format_uint}
use redis_shake.Structure.Reader.Laws.{read_bytes-append}
use redis_shake.Structure.Text.Saved.{Saved}
use redis_shake.Rdb.Restore.{new_loader, Options}
use redis_shake.Rdb.Loader.{Rounds, aux_field, set_repl_stream_db, magic, check_version, parse_rdb}
use redis_shake.Rdb.Items.{save_items, run, parse_rdb_entry-run}
use redis_shake.Rdb.Dump.{
  Aux, Dump, dbs_items, aux_items, function_items, dump_items, repl_db, aux_entries,
  function_entries, dump_entries, IsAux, IsDump,
}
use redis_shake.Rdb.Dump.Runs.{at_rest, last_db, run-then, dbs_ok}
use redis_shake.Rdb.Dump.Fields.{length-save_items, dump-IsItem}

-- Nine bytes in front of the records: the name of the program and the digits of the version.
abbrev pub header : Bool → Bytes → Bytes
header is_valkey digits = codes (if is_valkey then "VALKEY" else "REDIS") ++ digits

header_ok :
    (is_valkey : Bool) (digits : Bytes)
    → length digits ≡ (if is_valkey then 3 else 4)
    → magic (header is_valkey digits) ≡ ok (is_valkey, digits)
unfolding magic
header_ok true (a ∷ b ∷ c ∷ []) e = refl
header_ok false (a ∷ b ∷ c ∷ d ∷ []) e = refl
header_ok _ _ e = ground arith

length-header :
    (is_valkey : Bool) (digits : Bytes)
    → length digits ≡ (if is_valkey then 3 else 4)
    → length (header is_valkey digits) ≡ 9
length-header true digits e = omega arith
length-header false digits e = omega arith

module _ (options : Options) (is_valkey : Bool) (rounds : Rounds) where
  aux_ok :
      (i repl : ℕ) (more : List Aux)
      → All (IsAux options is_valkey) more
      → run options is_valkey rounds i (at_rest repl 0) (aux_items more)
        ≡ ok (at_rest (repl_db repl more) 0, aux_entries more)
  unfolding aux_field set_repl_stream_db
  aux_ok i repl [] h = refl
  aux_ok i repl (Aux.repl_stream_db k v n ∷ more) h =
      rw (h.0.1.0, h.0.1.1.0, parse_int-format_uint n (omega arith), aux_ok (suc i) n more h.1) refl
  aux_ok i repl (Aux.lua k v ∷ more) h = rw (h.0.1, aux_ok (suc i) repl more h.1) refl
  aux_ok i repl (Aux.other k v ∷ more) h = rw (h.0.1.0, h.0.1.1, aux_ok (suc i) repl more h.1) refl

  functions_ok :
      (i repl : ℕ) (fs : List Saved)
      → run options is_valkey rounds i (at_rest repl 0) (function_items fs)
        ≡ ok (at_rest repl 0, function_entries fs)
  functions_ok i repl [] = refl
  functions_ok i repl (f ∷ fs) = rw (functions_ok (suc i) repl fs) refl

  dump_ok :
      (clock : ℕ → ℕ) (d : Dump)
      → ((j : ℕ) → rounds.now j ≡ pos (clock j))
      → ((j : ℕ) → clock j < 2 ^ 63)
      → IsDump options is_valkey d
      → run options is_valkey rounds 0 (at_rest 0 0) (dump_items d)
        ≡ ok (at_rest (repl_db 0 d.aux) (last_db 0 d.dbs), dump_entries options clock d)
  dump_ok clock d now small h =
      let i = length (aux_items d.aux) in
      let j = i + length (function_items d.functions) in
      let repl = repl_db 0 d.aux in
      let functions_dbs =
        run-then options is_valkey rounds i (at_rest repl 0) (function_items d.functions)
          (dbs_items d.dbs) (functions_ok i repl d.functions)
          (dbs_ok options is_valkey rounds clock now small j repl 0 d.dbs h.1.1) in
      run-then options is_valkey rounds 0 (at_rest 0 0) (aux_items d.aux)
        (function_items d.functions ++ dbs_items d.dbs) (aux_ok 0 0 d.aux h.0)
        (rw (zero-add i) functions_dbs)

  -- A file with a version that is a number and with the fields of a dump, whose numbers and
  -- lengths fit them, in which the names of keys, the fields of the file and the functions are
  -- strings in any encoding, raw, integer or compressed, and in which the reader of the objects
  -- takes the value of each key, whatever is behind it, for the commands that go with it (`save-
  -- IsValue` shows this of strings, lists, sets, sorted sets and hashes), loaded at times from 0
  -- to 2 ^ 63 milliseconds and while the context is not cancelled, gives the database of the
  -- replication stream, and in order: its scripts, its functions, and for every key of every
  -- database one RESTORE with the value as it stands in the file and the time to live at that
  -- moment, or the commands of the value and a PEXPIRE where the dump is longer than an argument
  -- may be. What stands behind the end is not read.
  pub parse_rdb-save_items :
      (clock : ℕ → ℕ) (digits : Bytes) (version : ℤ) (d : Dump) (rest : Bytes)
      → ((j : ℕ) → rounds.now j ≡ pos (clock j))
      → ((j : ℕ) → clock j < 2 ^ 63)
      → ((j : ℕ) → rounds.done j ≡ false)
      → length digits ≡ (if is_valkey then 3 else 4)
      → parse_int digits ≡ Parsed.parsed version
      → IsDump options is_valkey d
      → parse_rdb options rounds
          (header is_valkey digits ++ (save_items (dump_items d) ++ 255 ∷ rest))
        ≡ ok (pos (repl_db 0 d.aux), dump_entries options clock d)
  unfolding parse_rdb check_version new_loader
  parse_rdb-save_items clock digits version d rest now small live n v h =
      let items = dump_items d in
      let file = save_items items ++ 255 ∷ rest in
      let fuel : length items < length file + 1 =
        omega (arith, length-save_items items, length-append (save_items items) (255 ∷ rest)) in
      rw
        (
          read_bytes-append 9 (header is_valkey digits) file (length-header is_valkey digits n)
              (omega arith),
          header_ok is_valkey digits n,
          v,
          parse_rdb_entry-run options is_valkey rounds (length file + 1) 0 (at_rest 0 0) items rest
              live fuel (dump-IsItem options is_valkey d h),
          dump_ok clock d now small h,
        )
        refl
