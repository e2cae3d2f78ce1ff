-- ===== src/Cluster/Routed.antt =====
-- Where `Write` sends an entry.
use redis_shake.Prelude.{
  ℕ, ◌<◌, List, [], ◌∷◌, ◌++◌, All, Bytes, some, lt→ltb, ◌==◌, ==_iff, ◌≡◌, ◌≢◌, refl, ap, ◌∙◌,
  Member, inl, inr, Bool-cases,
}
use redis_shake.Prelude.Int.{ℤ, pos, negsuc}
use redis_shake.Go.Outcome.{ok, panic, logged}
use redis_shake.Go.Outcome.Rules.{returned, Returns-eq_ok, bind-Returns}
use redis_shake.Commands.Table.{Table}
use redis_shake.Commands.Keys.{calc_keys}
use redis_shake.Commands.Slots.{key_hash, calc_slots}
use redis_shake.Commands.Slots.HashTag.{calc_slots-lt}
use redis_shake.Entry.{Entry, parse}
use redis_shake.Cluster.{
  load_cluster_nodes, key_slots, ClusterWriter, Sent, same_slot, route, write, write_entry,
}
use redis_shake.Cluster.Loaded.{Owns, load_cluster_nodes-Routes}

same_slot-same :
    (s : ℕ) (slots : List ℕ) → All (λ t. t ≡ s) slots → same_slot (pos s) slots ≡ ok (pos s)
unfolding same_slot
same_slot-same s [] h = refl
same_slot-same s (t ∷ slots) h = rw ((==_iff t s).1 h.0) (same_slot-same s slots h.1)

first_slot : (s : ℕ) (slots : List ℕ) → same_slot (negsuc 0) (s ∷ slots) ≡ same_slot (pos s) slots
unfolding same_slot
first_slot s slots = rw ((==_iff s s).1 refl)

route-ok :
    (r : ClusterWriter) (s w : ℕ) (e : Entry) (sent : Sent)
    → s < key_slots
    → r.router s ≡ some w
    → route r (pos s) e sent ≡ ok (sent ++ (w, e) ∷ [])
unfolding route
route-ok r s w e sent lt at = rw (lt→ltb s key_slots lt, at)

-- An entry whose slots are all one goes to the writer of that slot, and to no other.
pub write_entry-routed :
    (r : ClusterWriter) (e : Entry) (sent : Sent) (s w : ℕ) (slots : List ℕ)
    → e.slots ≡ s ∷ slots
    → All (λ t. t ≡ s) slots
    → s < key_slots
    → r.router s ≡ some w
    → write_entry r e sent ≡ ok (sent ++ (w, e) ∷ [])
unfolding write_entry write
write_entry-routed r e sent s w slots es same lt at =
    ap (λ ss. write r e ss sent) es
    ∙ rw (first_slot s slots, same_slot-same s slots same) (route-ok r s w e sent lt at)

same_slot-cross :
    (s t : ℕ) (slots : List ℕ) → Member t slots → t ≢ s → same_slot (pos s) slots ≡ panic logged
unfolding same_slot
same_slot-cross s t [] m n = absurd m
same_slot-cross s t (u ∷ slots) m n = elim (Bool-cases (u == s)) [
  | inl h ↦
      rw (same_slot, h)
        (elim m [
          | inl e ↦ absurd (n (e ∙ (==_iff u s).0 h))
          | inr later ↦ same_slot-cross s t slots later n
        ])
  | inr h ↦ rw (same_slot, h)
]

-- An entry with two different slots panics, whatever the writers.
pub write_entry-cross :
    (r : ClusterWriter) (e : Entry) (sent : Sent) (s t : ℕ) (slots : List ℕ)
    → e.slots ≡ s ∷ slots
    → Member t slots
    → t ≢ s
    → write_entry r e sent ≡ panic logged
unfolding write_entry write
write_entry-cross r e sent s t slots es m n =
    ap (λ ss. write r e ss sent) es ∙ rw (first_slot s slots, same_slot-cross s t slots m n)

same_hashes :
    (k : Bytes) (ks : List Bytes)
    → All (λ k'. key_hash k' ≡ key_hash k) ks
    → All (λ s. s ≡ key_hash k) (calc_slots ks)
unfolding calc_slots
same_hashes k [] h = tt
same_hashes k (k' ∷ ks) h = (h.0, same_hashes k ks h.1)

pub parsed_slots :
    (table : Table) (e e' : Entry) → parse table e ≡ ok e' → e'.slots ≡ calc_slots e'.keys
unfolding parse
parsed_slots table e e' h =
    Returns-eq_ok {P = λ x. x.slots ≡ calc_slots x.keys}
      (bind-Returns (calc_keys table e.argv) (λ r _. returned refl)) h

-- A command that `Parse` has taken apart, with keys that all fall into one slot, is written to one
-- node of a cluster that is loaded: to the node that owns this slot.
pub write_entry-parse :
    (table : Table) (addresses : List Bytes) (slots : List (List ℤ)) (r : ClusterWriter)
    (parsed e : Entry) (sent : Sent) (k : Bytes) (ks : List Bytes)
    → load_cluster_nodes addresses slots ≡ ok r
    → parse table e ≡ ok parsed
    → parsed.keys ≡ k ∷ ks
    → All (λ k'. key_hash k' ≡ key_hash k) ks
    → (w : ℕ) × Owns slots w (key_hash k)
      × (write_entry r parsed sent ≡ ok (sent ++ (w, parsed) ∷ []))
unfolding calc_slots
write_entry-parse table addresses slots r parsed e sent k ks loaded p keys same =
    let (owner, full, _) = load_cluster_nodes-Routes addresses slots loaded in
    let lt = (calc_slots-lt (k ∷ ks)).0.0 in
    let (w, at) = full (key_hash k) lt in
    let es : parsed.slots ≡ key_hash k ∷ calc_slots ks =
      parsed_slots table e parsed p ∙ ap calc_slots keys in
    (
      w,
      ((owner (key_hash k) w).0 at).1,
      write_entry-routed r parsed sent (key_hash k) w (calc_slots ks) es (same_hashes k ks same) lt
          at,
    )
