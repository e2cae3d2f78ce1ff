-- ===== src/Cluster/Tests.antt =====
-- The theorems on redis_cluster_writer.go at a cluster of two nodes.
use redis_shake.Prelude.{[], ◌∷◌, codes, ◌≡◌, refl}
use redis_shake.Prelude.Int.{pos}
use redis_shake.Go.Outcome.{ok}
use redis_shake.Commands.Table.{redis_commands}
use redis_shake.Commands.Keys.{run_calc_keys}
use redis_shake.Commands.Slots.{calc_slots}
use redis_shake.Entry.{Entry, new_entry, parse}
use redis_shake.Cluster.{ClusterWriter, load_cluster_nodes}
use redis_shake.Cluster.Loaded.{Routes, load_cluster_nodes-Routes}
use redis_shake.Cluster.Succeeds.{load_cluster_nodes-ok}
use redis_shake.Cluster.Halves.{two_addresses, halves, halves-SharesOut}

load_cluster_nodes-ok_example :
    (r : ClusterWriter) × (load_cluster_nodes two_addresses halves ≡ ok r)
load_cluster_nodes-ok_example = load_cluster_nodes-ok two_addresses halves halves-SharesOut

-- The writer for the two nodes.
abbrev loading : (r : ClusterWriter) × (load_cluster_nodes two_addresses halves ≡ ok r)
loading = load_cluster_nodes-ok two_addresses halves halves-SharesOut

load_cluster_nodes-Routes_example : Routes two_addresses halves loading.0
load_cluster_nodes-Routes_example = load_cluster_nodes-Routes two_addresses halves loading.1

abbrev command : Entry
command = record new_entry { argv = codes "MGET" ∷ codes "{a}x" ∷ codes "{a}y" ∷ [] }

abbrev parsed_command : Entry
parsed_command = record command {
  cmd_name = codes "MGET";
  group = codes "STRING";
  keys = codes "{a}x" ∷ codes "{a}y" ∷ [];
  key_indexes = pos 2 ∷ pos 3 ∷ [];
  slots = calc_slots (codes "{a}x" ∷ codes "{a}y" ∷ []);
}

command_parsed : parse redis_commands command ≡ ok parsed_command
unfolding parse new_entry run_calc_keys
command_parsed = refl
