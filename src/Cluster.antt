-- ===== src/Cluster.antt =====
-- backend/internal/writer/redis_cluster_writer.go: which writer an entry goes to.
pub mod Loaded
pub mod Succeeds
pub mod Routed
pub mod Halves
mod Tests
use redis_shake.Prelude.{
  ℕ, zero, suc, ◌+◌, ◌^◌, Bool, true, false, List, [], ◌∷◌, ◌++◌, map, Bytes, Option, none, some,
  ltb, ◌==◌, if◌then◌else◌,
}
use redis_shake.Prelude.Int.{ℤ, pos, negsuc, eq_ℤ}
use redis_shake.Go.Outcome.{Outcome, ok, panic, logged, out_of_range, ◌>>=◌, index}
use redis_shake.Entry.{Entry}

abbrev pub key_slots : ℕ
key_slots = 16384

-- The array of writers: a writer is the number of the node that it was made for, and `none` is nil.
abbrev pub Router : Type 0
Router = ℕ → Option ℕ

pub record ClusterWriter : Type 0 where
  pub addresses : List Bytes
  pub writers : List ℕ
  pub router : Router

-- `r.router[s] = redisWriter`.
abbrev pub assign : ℕ → ℕ → Router → Router
assign s w router t = if t == s then some w else router t

-- The body of the inner loop of `loadClusterNodes`, at an `int` that may be out of range.
unfoldable pub occupy : ℤ → ℕ → Router → Outcome Router
occupy (negsuc s) w router = panic out_of_range
occupy (pos s) w router =
    if ltb s key_slots
    then elim (router s) [ none ↦ ok (assign s w router) | some other ↦ panic logged ]
    else panic out_of_range

unfoldable pub occupy_all : List ℤ → ℕ → Router → Outcome Router
occupy_all [] w router = ok router
occupy_all (s ∷ slots) w router = do router' ← occupy s w router; occupy_all slots w router'

-- The outer loop: a writer for every address, at the slots of its node.
unfoldable pub load_nodes : ℕ → List Bytes → List (List ℤ) → ClusterWriter → Outcome ClusterWriter
load_nodes i [] slots r = ok r
load_nodes i (address ∷ addresses) slots r = do
  node_slots ← index slots (pos i)
  router ← occupy_all node_slots i r.router
  load_nodes (i + 1) addresses slots (record r { writers = r.writers ++ i ∷ []; router = router })

-- The last loop: no slot of the `n` from `i` on is without a writer.
unfoldable pub check_occupied : ℕ → ℕ → Router → Outcome (Unit {0})
check_occupied zero i router = ok tt
check_occupied (suc n) i router = elim (router i) [
  | none ↦ panic logged
  | some w ↦ check_occupied n (i + 1) router
]

-- `loadClusterNodes`, on what `GetRedisClusterNodes` returns.
unfoldable pub load_cluster_nodes : List Bytes → List (List ℤ) → Outcome ClusterWriter
load_cluster_nodes addresses slots = do
  r ←
      load_nodes 0 addresses slots
        (record { addresses = addresses; writers = []; router = λ s. none })
  checked ← check_occupied key_slots 0 r.router
  ok r

-- What the writers were given: the number of the writer and the entry, in order.
abbrev pub Sent : Type 0
Sent = List (ℕ × Entry)

-- `for _, slot := range entry.Slots`.
unfoldable pub same_slot : ℤ → List ℕ → Outcome ℤ
same_slot last [] = ok last
same_slot last (slot ∷ slots) =
    let last' = if eq_ℤ last (negsuc 0) then pos slot else last in
    let rest = same_slot last' slots in if eq_ℤ (pos slot) last' then rest else panic logged

-- `r.router[lastSlot].Write(entry)`; the call on a nil writer panics.
unfoldable pub route : ClusterWriter → ℤ → Entry → Sent → Outcome Sent
route r (negsuc s) e sent = panic out_of_range
route r (pos s) e sent =
    if ltb s key_slots
    then elim (r.router s) [ none ↦ panic out_of_range | some w ↦ ok (sent ++ (w, e) ∷ []) ]
    else panic out_of_range

-- `Write`: an entry without slots goes to every writer.
unfoldable pub write : ClusterWriter → Entry → List ℕ → Sent → Outcome Sent
write r e [] sent = ok (sent ++ map (λ w. (w, e)) r.writers)
write r e (slot ∷ slots) sent = do last ← same_slot (negsuc 0) (slot ∷ slots); route r last e sent

unfoldable pub write_entry : ClusterWriter → Entry → Sent → Outcome Sent
write_entry r e sent = write r e e.slots sent

-- `Consistent` and `StatusConsistent`: every writer is.
unfoldable pub consistent : (ℕ → Bool) → List ℕ → Bool
consistent status_consistent [] = true
consistent status_consistent (w ∷ ws) =
    let rest = consistent status_consistent ws in if status_consistent w then rest else false
