-- ===== src/Entry.antt =====
-- `Entry` of backend/internal/entry/entry.go, with `Parse`.
use redis_shake.Prelude.{ℕ, List, [], Bytes}
use redis_shake.Prelude.Int.{ℤ, pos}
use redis_shake.Go.Outcome.{Outcome, ok, ◌>>=◌}
use redis_shake.Commands.Table.{Table}
use redis_shake.Commands.Keys.{calc_keys}
use redis_shake.Commands.Slots.{calc_slots}

pub record Entry : Type 0 where
  pub db_id : ℤ
  pub argv : List Bytes
  pub cmd_name : Bytes
  pub group : Bytes
  pub keys : List Bytes
  pub key_indexes : List ℤ
  pub slots : List ℕ
  pub serialized_size : ℤ

unfoldable pub new_entry : Entry
new_entry = record {
  db_id = pos 0;
  argv = [];
  cmd_name = [];
  group = [];
  keys = [];
  key_indexes = [];
  slots = [];
  serialized_size = pos 0;
}

unfoldable pub parse : Table → Entry → Outcome Entry
parse table e = do
  r ← calc_keys table e.argv
  ok (record e {
    cmd_name = r.cma_name;
    group = r.group;
    keys = r.found.keys;
    key_indexes = r.found.indexes;
    slots = calc_slots r.found.keys;
  })
