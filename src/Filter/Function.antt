-- ===== src/Filter/Function.antt =====
-- backend/internal/filter/function.go: the Lua function that an entry is given to.
use redis_shake.Prelude.{ℕ, List, [], ◌∷◌, map, Bytes, Option, none, some}
use redis_shake.Prelude.Int.{ℤ}
use redis_shake.Go.Outcome.{Outcome, ok, panic, logged}
use redis_shake.Go.Strings.{trim_space}
use redis_shake.Entry.{Entry, new_entry}

-- The globals that a script reads.
pub record Globals : Type 0 where
  pub db : ℤ
  pub group : Bytes
  pub cmd : Bytes
  pub keys : List Bytes
  pub key_indexes : List ℤ
  pub slots : List ℕ
  pub argv : List Bytes

-- gopher-lua: the parser with the compiler, and a run in a virtual machine of the pool. A run gives
-- what it has passed to `shake.call`, in order, or fails.
pub record Lua : Type 1 where
  pub Proto : Type 0
  pub Machine : Type 0
  pub compile : Bytes → Option Proto
  pub p_call : Proto → Machine → Globals → Option (List (ℤ × List Bytes))

-- The entry that `shake.call` appends.
unfoldable pub called_entry : ℤ × List Bytes → Entry
called_entry (db, argv) = record new_entry { db_id = db; argv = argv }

unfoldable pub globals : Entry → Globals
globals e = record {
  db = e.db_id;
  group = e.group;
  cmd = e.cmd_name;
  keys = e.keys;
  key_indexes = e.key_indexes;
  slots = e.slots;
  argv = e.argv;
}

module _ (lua : Lua) where
  -- `*Runtime`, which is nil where there is no script.
  abbrev pub Runtime : Type 0
  Runtime = Option lua.Proto

  unfoldable pub new_function_filter : Bytes → Outcome Runtime
  new_function_filter [] = ok none
  new_function_filter (c ∷ code) = elim (lua.compile (trim_space (c ∷ code))) [
    | none ↦ panic logged
    | some proto ↦ ok (some proto)
  ]

  -- `RunFunction`, on the machine that the pool hands out.
  unfoldable pub run_function : Runtime → lua.Machine → Entry → Outcome (List Entry)
  unfolding called_entry globals
  run_function none machine e = ok (e ∷ [])
  run_function (some proto) machine e = elim (lua.p_call proto machine (globals e)) [
    | none ↦ panic logged
    | some calls ↦ ok (map called_entry calls)
  ]
