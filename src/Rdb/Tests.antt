-- ===== src/Rdb/Tests.antt =====
-- The theorems on backend/internal/rdb at concrete inputs.
use redis_shake.Prelude.{
  ℕ, true, false, List, [], ◌∷◌, ◌++◌, Bytes, codes, none, some, ◌≡◌, refl, ◌≢◌, arith,
}
use redis_shake.Prelude.Int.{pos}
use redis_shake.Go.Outcome.{ok, diverges}
use redis_shake.Go.Strconv.{format_uint, parse_int}
use redis_shake.Structure.Float.{FloatText}
use redis_shake.Structure.Text.Saved.{Saved}
use redis_shake.Rdb.Collections.Lists.{ListValue, Node}
use redis_shake.Rdb.Hashes.Fields.{HashValue, save_hash, hash_type, fields_cmds, hash_fields}
use redis_shake.Rdb.Hashes.RoundTrip.{rewrite_hash-save_hash}
use redis_shake.Rdb.Hashes.{rewrite_hash}
use redis_shake.Rdb.Object.{ObjectOptions, parse_object}
use redis_shake.Rdb.Values.{Value, save, commands, type_of, parse_object-save}
use redis_shake.Rdb.Restore.{Options, create_value_dump}
use redis_shake.Rdb.Restore.Verified.{verify_dump_payload, verify_dump_payload-create_value_dump}
use redis_shake.Rdb.Loader.{Rounds, object_options, parse_rdb}
use redis_shake.Rdb.LoaderTotal.{parse_rdb-ne-diverges}
use redis_shake.Rdb.Items.{save_items}
use redis_shake.Rdb.Dump.{Expiry, Key, Aux, Dump, dump_items, dump_entries, IsDump}
use redis_shake.Rdb.Dump.Fields.{save-IsValue}
use redis_shake.Rdb.Dump.Restored.{header, parse_rdb-save_items}
use redis_shake.Rdb.Bloom.{Link, Chain, encoded_chunks}
use redis_shake.Rdb.Bloom.Chunks.{AreChunks, encoded_chunks-AreChunks}
use redis_shake.Rdb.StreamEntries.{stream_listpack}
use redis_shake.Rdb.StreamEntries.RoundTrip.{Body, StreamEntry, xadds}
use redis_shake.Rdb.StreamEntries.Replayed.{listpack_elements, stream_listpack-elements}

-- Texts of floats for inputs without any.
abbrev floats : FloatText
floats = record {
  parse_float = λ s. none;
  format_17g = format_uint;
  format_15f = format_uint;
  format_f = format_uint;
  scaled = λ n x. 0;
}

abbrev options : Options
options = record {
  floats = floats;
  target_mbbloom_version = 0;
  target_redis_proto_max_bulk_len = 512;
  rdb_restore_command_behavior = codes "rewrite";
}

abbrev objects : ObjectOptions
objects = object_options options false

-- A list of a plain node, and a hash of a field that expires.
abbrev queue : Value
queue = Value.list (ListValue.quicklist2 (Node.plain (Saved.raw (codes "a")) ∷ []))

abbrev session : HashValue
session = HashValue.metadata 5000 (
    record { name = Saved.raw (codes "token"); value = Saved.raw (codes "x"); expire_at = 6000 }
    ∷ [])

parse_object-save_example :
    parse_object objects (type_of queue) (codes "q") (save queue ++ [])
    ≡ ok (commands objects (codes "q") queue, [])
parse_object-save_example =
    parse_object-save objects (codes "q") queue [] (omega arith, (omega arith, tt))

rewrite_hash-save_hash_example :
    rewrite_hash false (codes "s") (hash_type session) (save_hash session ++ [])
    ≡ ok ((codes "del" ∷ codes "s" ∷ []) ∷ fields_cmds (codes "s") (hash_fields session), [])
rewrite_hash-save_hash_example = rewrite_hash-save_hash false (codes "s") session [] (
  omega arith,
  (omega arith, ((omega arith, (omega arith, (omega arith, λ e. omega arith))), tt)),
)

-- A database with a list that expires, after the fields of the file.
abbrev key : Key
key = record {
  name = Saved.raw (codes "q");
  type_byte = type_of queue;
  value = save queue;
  cmds = commands objects (codes "q") queue;
  expiry = Expiry.at_ms 2500;
  lru = some 3;
  lfu = none;
}

abbrev dump : Dump
dump = record {
  aux =
      Aux.repl_stream_db (Saved.raw (codes "repl-stream-db")) (Saved.integer (pos 2)) 2
      ∷ Aux.lua (Saved.raw (codes "lua")) (Saved.raw (codes "return 1"))
      ∷ [];
  functions = Saved.raw (codes "#!lua") ∷ [];
  dbs = record { number = 3; size = 1; expires_size = 1; keys = key ∷ [] } ∷ [];
}

abbrev clock : ℕ → ℕ
clock i = 1000

abbrev rounds : Rounds
rounds = record { now = λ i. pos (clock i); done = λ i. false }

dump-IsDump : IsDump options false dump
unfolding format_uint redis_shake.Go.Strconv.format_int
dump-IsDump = (
  (
    ((omega arith, omega arith), (refl, (refl, omega arith))),
    (((omega arith, omega arith), refl), tt),
  ),
  (
    (omega arith, tt),
    (
      (
        omega arith,
        (
          (omega arith, omega arith),
          (
            (
              omega arith,
              (
                omega arith,
                (
                  save-IsValue options false (codes "q") queue (omega arith, (omega arith, tt)),
                  (omega arith, omega arith),
                ),
              ),
            ),
            tt,
          ),
        ),
      ),
      tt,
    ),
  ),
)

parse_rdb-save_items_example :
    parse_rdb options rounds
      (header false (codes "0011") ++ (save_items (dump_items dump) ++ 255 ∷ []))
    ≡ ok (pos 2, dump_entries options clock dump)
unfolding parse_int
parse_rdb-save_items_example =
    parse_rdb-save_items options false rounds clock (codes "0011") (pos 11) dump [] (λ j. refl)
      (λ j. omega arith) (λ j. refl) refl refl dump-IsDump

parse_rdb-ne-diverges_example : parse_rdb options rounds (codes "REDIS0011") ≢ diverges
parse_rdb-ne-diverges_example = parse_rdb-ne-diverges options rounds (codes "REDIS0011")

verify_dump_payload-create_value_dump_example :
    verify_dump_payload 11 (create_value_dump 0 (1 ∷ 65 ∷ [])) ≡ some (0, 1 ∷ 65 ∷ [])
verify_dump_payload-create_value_dump_example =
    verify_dump_payload-create_value_dump 11 0 (1 ∷ 65 ∷ []) (omega arith) (omega arith)
      (omega arith, (omega arith, tt))

abbrev filter_of : Bytes → Link
filter_of bf = record {
  hashes = 1;
  n2 = 3;
  entries = 2;
  err = 0;
  bpe = 0;
  bf = bf;
  bits = 8;
  size = 1;
}

abbrev chain : Chain
chain = record {
  filters = filter_of (1 ∷ 2 ∷ 3 ∷ []) ∷ filter_of (4 ∷ []) ∷ [];
  size = 2;
  nfilters = 2;
  options = 0;
  growth = 2;
}

encoded_chunks-AreChunks_example :
    (chunks : List (ℕ × Bytes)) × (encoded_chunks 5 chain 1 2 ≡ ok chunks)
    × AreChunks 2 1 chunks (1 ∷ 2 ∷ 3 ∷ 4 ∷ [])
encoded_chunks-AreChunks_example = encoded_chunks-AreChunks chain 2 (omega arith)

-- One entry with the fields of the master entry and one that is deleted.
abbrev entries : List StreamEntry
entries =
    record {
      deleted = false;
      ms = 1001;
      seq = 0;
      body = Body.same (codes "on" ∷ []);
      lp_count = codes "4";
    }
    ∷ record {
      deleted = true;
      ms = 1002;
      seq = 7;
      body = Body.own ((codes "a", codes "b") ∷ []);
      lp_count = codes "6";
    }
    ∷ []

abbrev fields : List Bytes
fields = codes "state" ∷ []

stream_listpack-elements_example :
    stream_listpack (codes "s") (pos 1000) (pos 5) (listpack_elements 1000 5 fields entries)
    ≡ ok (xadds (codes "s") fields entries)
stream_listpack-elements_example =
    stream_listpack-elements (codes "s") 1000 5 fields entries (omega arith) (omega arith)
      (ground arith)
