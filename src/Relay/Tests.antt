-- ===== src/Relay/Tests.antt =====
-- The loop at two entries, one of which the filter drops, and a function that doubles an entry.
use redis_shake.Prelude.{
  arith, ◌≢◌, ℕ, [], ◌∷◌, List, Bytes, bytes_eq, codes, none, some, ◌≡◌, refl, inl, inr, All,
}
use redis_shake.Prelude.Int.{pos}
use redis_shake.Go.Outcome.{panic, logged, ok}
use redis_shake.Hash.Crc16.{crc16}
use redis_shake.Commands.Table.{redis_commands}
use redis_shake.Commands.Keys.{run_calc_keys}
use redis_shake.Commands.Slots.{key_hash, find_hash_tag, calc_slots}
use redis_shake.Entry.{Entry, new_entry, parse}
use redis_shake.Filter.{Engine, FilterOptions, Patterns, new_keys_pattern}
use redis_shake.Filter.Keys.{IsCache}
use redis_shake.Filter.Function.{Lua, run_function, called_entry, globals}
use redis_shake.Cluster.{ClusterWriter, Sent, load_cluster_nodes}
use redis_shake.Cluster.Succeeds.{load_cluster_nodes-ok}
use redis_shake.Cluster.Halves.{two_addresses, halves, halves-SharesOut}
use redis_shake.Relay.Stopped.{relay-stops}
use redis_shake.Relay.{Program, relay}
use redis_shake.Relay.Delivered.{Delivered, IsRelayed, IsWritable, relay-Delivered}

abbrev literal : Engine
literal = record { Regexp = Bytes; compile = λ pattern. some pattern; match_string = bytes_eq }

-- A script that calls `shake.call` twice with what it was given.
abbrev doubling : Lua
doubling = record {
  Proto = Bytes;
  Machine = ℕ;
  compile = λ code. some code;
  p_call = λ proto machine g. some ((g.db, g.argv) ∷ (g.db, g.argv) ∷ []);
}

abbrev options : FilterOptions
options = record {
  allow_keys = [];
  allow_key_prefix = [];
  allow_key_suffix = [];
  block_keys = codes "b" ∷ [];
  block_key_prefix = [];
  block_key_suffix = [];
  allow_key_regex = [];
  block_key_regex = [];
  allow_db = [];
  block_db = [];
  allow_command = [];
  block_command = [];
  allow_command_group = [];
  block_command_group = [];
}

abbrev loading : (r : ClusterWriter) × (load_cluster_nodes two_addresses halves ≡ ok r)
loading = load_cluster_nodes-ok two_addresses halves halves-SharesOut

abbrev program : Program literal doubling
program = record {
  table = redis_commands;
  options = options;
  runtime = some (codes "twice");
  writer = loading.0;
}

abbrev get : Bytes → Entry
get key = record new_entry { argv = codes "GET" ∷ key ∷ [] }

abbrev parsed_get : Bytes → Entry
parsed_get key = record (get key) {
  cmd_name = codes "GET";
  group = codes "STRING";
  keys = key ∷ [];
  key_indexes = pos 2 ∷ [];
  slots = calc_slots (key ∷ []);
}

abbrev fresh : Patterns literal
fresh = record { block_list = none; allow_list = none }

abbrev entries : List (Entry × ℕ)
entries = (get (codes "b"), 0) ∷ (get (codes "a"), 1) ∷ []

get_b : parse redis_commands (get (codes "b")) ≡ ok (parsed_get (codes "b"))
unfolding parse new_entry run_calc_keys
get_b = refl

get_a : parse redis_commands (get (codes "a")) ≡ ok (parsed_get (codes "a"))
unfolding parse new_entry run_calc_keys
get_a = refl

entries-IsRelayed : All (IsRelayed literal doubling program halves 2 [] []) entries
unfolding new_entry run_function called_entry globals
entries-IsRelayed =
    let written : IsWritable literal doubling program halves 2 (get (codes "a")) =
      (parsed_get (codes "a"), get_a, inr (codes "a", [], refl, tt)) in
    (
      (parsed_get (codes "b"), get_b, inl refl),
      (
        (
          parsed_get (codes "a"),
          get_a,
          inr (refl, get (codes "a") ∷ get (codes "a") ∷ [], refl, (written, (written, tt))),
        ),
        tt,
      ),
    )

relay-Delivered_example :
    (log : Sent) × Delivered literal doubling program halves 2 [] [] entries log
    × (after : Patterns literal) × (relay literal doubling program entries fresh []
        ≡ ok (after, log))
    × IsCache literal [] [] after
unfolding new_keys_pattern
relay-Delivered_example =
    relay-Delivered literal doubling program halves 2 two_addresses loading.1 refl [] [] refl refl
      entries fresh [] (inl refl, inl refl) entries-IsRelayed

-- Without a script, an entry with keys in two slots stops the program.
abbrev plain : Program literal doubling
plain = record program { runtime = none }

abbrev two_keys : Entry
two_keys = record new_entry { argv = codes "MGET" ∷ codes "a" ∷ codes "c" ∷ [] }

abbrev parsed_keys : Entry
parsed_keys = record two_keys {
  cmd_name = codes "MGET";
  group = codes "STRING";
  keys = codes "a" ∷ codes "c" ∷ [];
  key_indexes = pos 2 ∷ pos 3 ∷ [];
  slots = calc_slots (codes "a" ∷ codes "c" ∷ []);
}

keys_parsed : parse redis_commands two_keys ≡ ok parsed_keys
unfolding parse new_entry run_calc_keys
keys_parsed = refl

keys_again : parse redis_commands parsed_keys ≡ ok parsed_keys
unfolding parse new_entry run_calc_keys
keys_again = refl

slot_a : key_hash (codes "a") ≡ 15495
unfolding key_hash find_hash_tag crc16
slot_a = refl

slot_c : key_hash (codes "c") ≡ 7365
unfolding key_hash find_hash_tag crc16
slot_c = refl

two_slots : key_hash (codes "c") ≢ key_hash (codes "a")
two_slots e = omega (arith, e, slot_a, slot_c)

relay-stops_example :
    relay literal doubling plain ((two_keys, 0) ∷ (get (codes "a"), 1) ∷ []) fresh [] ≡ panic logged
unfolding new_keys_pattern run_function calc_slots
relay-stops_example =
    relay-stops literal doubling plain halves 2 two_addresses loading.1 refl [] [] refl refl []
      two_keys parsed_keys 0 [] [] parsed_keys ((get (codes "a"), 1) ∷ []) fresh []
      (inl refl, inl refl) tt keys_parsed refl refl tt
      (
        parsed_keys,
        keys_again,
        key_hash (codes "a"),
        key_hash (codes "c"),
        key_hash (codes "c") ∷ [],
        refl,
        inl refl,
        two_slots,
      )
