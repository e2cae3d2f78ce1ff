-- ===== src/Rdb/Loader.antt =====
-- backend/internal/rdb/rdb.go: `ParseRDB`, on the bytes of a file that is open, and
-- `parseRDBEntry`. What goes to the channel is collected in order. The calls of the function that
-- is told the position, for the status, are left out.
use redis_shake.Prelude.{
  ℕ, zero, suc, ◌+◌, ◌-◌, ◌*◌, Bool, true, false, ◌||◌, List, [], ◌∷◌, ◌++◌, Bytes, codes, length,
  take, drop, ◌==◌, bytes_eq, if◌then◌else◌,
}
use redis_shake.Prelude.Int.{ℤ, pos, ltb_ℤ}
use redis_shake.Go.Outcome
use redis_shake.Go.Outcome.{Outcome, ok, panic, diverges, logged}
use redis_shake.Go.Int64.{sub}
use redis_shake.Go.Strconv.{Parsed, parse_int}
use redis_shake.Structure.Reader.{
  Reader, ◌>>=◌, return, fail, lift, read_byte, read_bytes, read_uint32, read_uint64, signed,
}
use redis_shake.Structure.Length.{read_length}
use redis_shake.Structure.Text.{read_string}
use redis_shake.Structure.Float.{FloatText, read_float, read_double}
use redis_shake.Entry.{Entry, new_entry}
use redis_shake.Rdb.Streams.{skip_lengths}
use redis_shake.Rdb.Object.{ObjectOptions, parse_object}
use redis_shake.Rdb.Restore.{Loader, new_loader, Options, send, object_entries}

-- `opcode` of `case kFlagModuleAux`, up to its end. Every opcode takes at least one byte, so the
-- bytes to come and one are enough fuel.
unfoldable pub skip_aux_value : FloatText → ℕ → Reader ℕ
skip_aux_value floats opcode =
    if opcode == 1 || opcode == 2
    then read_length
    else if opcode == 3
    then read_float floats
    else if opcode == 4
    then read_double
    else if opcode == 5
    then (do s ← read_string; return 0)
    else fail logged

unfoldable pub skip_aux_values : ℕ → FloatText → Reader (Unit {0})
skip_aux_values zero floats s = diverges
skip_aux_values (suc fuel) floats s =
    (do
      opcode ← read_length
      elim (opcode == 0) [
        | true ↦ return tt
        | false ↦ (do value ← skip_aux_value floats opcode; skip_aux_values fuel floats)
      ])
      s

unfoldable pub skip_module_aux : FloatText → Reader (Unit {0})
unfolding skip_lengths
skip_module_aux floats s = (do header ← skip_lengths 3; skip_aux_values (length s + 1) floats) s

-- An expiry relative to now. One in the past becomes 1 millisecond.
unfoldable pub set_expire : ℤ → ℤ → Loader → Loader
set_expire now at ld =
    let expire_ms = sub at now in
    record ld { expire_ms = if ltb_ℤ expire_ms (pos 0) then pos 1 else expire_ms }

unfoldable pub set_repl_stream_db : Parsed → Loader → Outcome Loader
set_repl_stream_db (Parsed.parsed n) ld = ok (record ld { repl_stream_db_id = n })
set_repl_stream_db _ ld = panic logged

-- `case kFlagAUX`.
unfoldable pub aux_field : Bytes → Bytes → Loader → Outcome (Loader × List Entry)
unfolding new_entry set_repl_stream_db
aux_field key value ld =
    if bytes_eq key (codes "repl-stream-db")
    then Outcome.◌>>=◌ (set_repl_stream_db (parse_int value) ld) (λ l. ok (l, []))
    else if bytes_eq key (codes "lua")
    then ok (ld, send (pos 0) (codes "script" ∷ codes "load" ∷ value ∷ []) ∷ [])
    else ok (ld, [])

abbrev pub object_options : Options → Bool → ObjectOptions
object_options options is_valkey = record {
  floats = options.floats;
  target_mbbloom_version = options.target_mbbloom_version;
  is_valkey = is_valkey;
}

-- A read through `io.TeeReader`, with the bytes that it took.
unfoldable pub tee : {A : Type 0} → Reader A → Reader (A × Bytes)
tee m s = Outcome.◌>>=◌ (m s) (λ r. ok ((r.0, take (length s - length r.1) s), r.1))

-- `default`: a key with its value. The expiry and the two hints are spent.
unfoldable pub read_object : Options → Bool → Loader → ℕ → Reader (Loader × List Entry)
unfolding object_entries tee
read_object options is_valkey ld type_byte = do
  key ← read_string
  read ← tee (parse_object (object_options options is_valkey) type_byte key)
  return (
    record ld { expire_ms = pos 0; idle = pos 0; freq = pos 0 },
    object_entries options ld key type_byte read.1 read.0,
  )

-- The `switch` on a type byte other than that of the end, at a time.
unfoldable pub parse_record : Options → Bool → ℤ → Loader → ℕ → Reader (Loader × List Entry)
unfolding set_expire skip_lengths new_entry
parse_record options is_valkey now ld t =
    if t == 244
    then (do slots ← skip_lengths 3; return (ld, []))
    else if t == 246
    then fail logged
    else if t == 245
    then (do
      function ← read_string
      let load = codes "function" ∷ codes "load" ∷ codes "replace" ∷ function ∷ []
      return (ld, send (pos 0) load ∷ []))
    else if t == 247
    then (do aux ← skip_module_aux options.floats; return (ld, []))
    else if t == 248
    then (do idle ← read_length; return (record ld { idle = signed 64 idle }, []))
    else if t == 249
    then (do freq ← read_byte; return (record ld { freq = pos freq }, []))
    else if t == 250
    then (do key ← read_string; value ← read_string; lift (aux_field key value ld))
    else if t == 251
    then (do sizes ← skip_lengths 2; return (ld, []))
    else if t == 252
    then (do at ← read_uint64; return (set_expire now (signed 64 at) ld, []))
    else if t == 253
    then (do at ← read_uint32; return (set_expire now (pos (at * 1000)) ld, []))
    else if t == 254
    then (do db ← read_length; return (record ld { now_db_id = signed 64 db }, []))
    else read_object options is_valkey ld t

-- In every round of the loop: the time, and whether the context is cancelled at its end.
pub record Rounds : Type 0 where
  pub now : ℕ → ℤ
  pub done : ℕ → Bool

-- One round behind its type byte: the loader, what is sent, and whether the loop ends.
unfoldable pub rdb_round :
    Options → Bool → Rounds → ℕ → Loader → ℕ → Reader ((Loader × List Entry) × Bool)
rdb_round options is_valkey rounds i ld type_byte =
    if type_byte == 255 then return ((ld, []), true) else (do
      r ← parse_record options is_valkey (rounds.now i) ld type_byte
      return (r, rounds.done i))

-- Every round takes at least one byte, so the bytes to come and one are enough fuel.
unfoldable pub parse_rdb_entry :
    ℕ → Options → Bool → Rounds → ℕ → Loader → Reader (Loader × List Entry)
parse_rdb_entry zero options is_valkey rounds i ld s = diverges
parse_rdb_entry (suc fuel) options is_valkey rounds i ld s =
    (do
      type_byte ← read_byte
      round ← rdb_round options is_valkey rounds i ld type_byte
      elim round.1 [
        | true ↦ return round.0
        | false ↦ (do
          rest ← parse_rdb_entry fuel options is_valkey rounds (suc i) round.0.0
          return (rest.0, round.0.1 ++ rest.1))
      ])
      s

-- Whether a magic string is the one of Valkey, with the digits of the version behind it.
unfoldable pub magic : Bytes → Outcome (Bool × Bytes)
magic buf =
    if bytes_eq (take 5 buf) (codes "REDIS")
    then ok (false, drop 5 buf)
    else if bytes_eq (take 6 buf) (codes "VALKEY")
    then ok (true, drop 6 buf)
    else panic logged

unfoldable pub check_version : Parsed → Outcome ℤ
check_version (Parsed.parsed version) = ok version
check_version _ = panic logged

-- The database of the replication stream, and the entries.
unfoldable pub parse_rdb : Options → Rounds → Bytes → Outcome (ℤ × List Entry)
unfolding magic check_version new_loader
parse_rdb options rounds file = Outcome.◌>>=◌ (read_bytes 9 file) (λ r.
    Outcome.◌>>=◌ (magic r.0) (λ m. Outcome.◌>>=◌ (check_version (parse_int m.1)) (λ version.
      Outcome.◌>>=◌ (parse_rdb_entry (length r.1 + 1) options m.0 rounds 0 new_loader r.1)
        (λ l. ok (l.0.0.repl_stream_db_id, l.0.1)))))
