-- ===== src/Cluster/Succeeds.antt =====
-- `loadClusterNodes` succeeds on a cluster whose nodes share out the slots.
use redis_shake.Prelude.{
  ℕ, zero, suc, ◌+◌, ◌<◌, ◌≤◌, List, [], ◌∷◌, ◌++◌, All, Bytes, none, some, lt→ltb, ◌==◌, ==_iff,
  ◌≡◌, ◌≢◌, refl, ap, sym, length, ◌∙◌, Member, inl, inr, arith, get_elem?, Bool-cases,
  Option-cases,
}
use redis_shake.Prelude.Int.{ℤ, pos}
use redis_shake.Go.Outcome.{ok, index}
use redis_shake.Go.Outcome.Rules.{Returns-eq_ok}
use redis_shake.Cluster.{
  key_slots, Router, ClusterWriter, assign, occupy, occupy_all, load_nodes, check_occupied,
  load_cluster_nodes,
}
use redis_shake.Cluster.Loaded.{Owns, Adds, load_nodes-Adds, occupy_all-Adds}

abbrev pub Distinct : List ℤ → Type 0
Distinct [] = Unit
Distinct (s ∷ ss) = All (λ t. t ≢ s) ss × Distinct ss

-- A slot of the cluster that has no writer yet.
abbrev pub Free : Router → ℤ → Type 0
Free router s = (t : ℕ) × (s ≡ pos t) × (t < key_slots) × (router t ≡ none)

other_free :
    (s w t : ℕ) (router : Router) (x : ℤ)
    → x ≢ pos s
    → x ≡ pos t
    → router t ≡ none
    → assign s w router t ≡ none
other_free s w t router x d e free = elim (Bool-cases (t == s)) [
  | inl h ↦ absurd (d (e ∙ ap pos ((==_iff t s).0 h)))
  | inr h ↦ rw h free
]

occupy-ok :
    (t w : ℕ) (router : Router)
    → t < key_slots
    → router t ≡ none
    → occupy (pos t) w router ≡ ok (assign t w router)
unfolding occupy
occupy-ok t w router lt free = rw (lt→ltb t key_slots lt, free)

Free-assign :
    (s : ℕ) (w : ℕ) (router : Router) (ss : List ℤ)
    → All (λ t. t ≢ pos s) ss
    → All (Free router) ss
    → All (Free (assign s w router)) ss
Free-assign s w router [] d f = tt
Free-assign s w router (x ∷ ss) d f =
    let (t, e, lt, free) = f.0 in
    ((t, e, lt, other_free s w t router x d.0 e free), Free-assign s w router ss d.1 f.1)

occupy_all-ok :
    (ss : List ℤ) (w : ℕ) (router : Router)
    → Distinct ss
    → All (Free router) ss
    → (r : Router) × (occupy_all ss w router ≡ ok r)
unfolding occupy_all
occupy_all-ok [] w router d f = (router, refl)
occupy_all-ok (s ∷ ss) w router d f =
    let (t, e, lt, free) = f.0 in
    let (r, ok_rest) =
      occupy_all-ok ss w (assign t w router) d.1 (Free-assign t w router ss (rw (← e) (d.0)) f.1) in
    (r, rw (e, occupy-ok t w router lt free, ok_rest))

-- The nodes share out the slots: each list names slots of the cluster, none of them twice; no slot
-- is in two lists; and every slot is in one.
pub record SharesOut (nodes : ℕ) (slots : List (List ℤ)) : Type 0 where
  pub listed : (v : ℕ) → v < nodes → (ss : List ℤ) × (get_elem? slots v ≡ some ss)
  pub distinct : (v : ℕ) (ss : List ℤ) → get_elem? slots v ≡ some ss → Distinct ss
  pub in_range :
      (v : ℕ) (ss : List ℤ)
      → get_elem? slots v ≡ some ss
      → All (λ s. (t : ℕ) × (s ≡ pos t) × (t < key_slots)) ss
  pub disjoint : (t v w : ℕ) → Owns slots v t → Owns slots w t → v ≡ w
  pub covers : (t : ℕ) → t < key_slots → (v : ℕ) × (v < nodes) × Owns slots v t

-- The writers of a router are those of the first `i` nodes, at their slots.
abbrev pub Within : List (List ℤ) → ℕ → Router → Type 0
Within slots i router = (t v : ℕ) → router t ≡ some v → (v < i) × Owns slots v t

get-index :
    (slots : List (List ℤ)) (i : ℕ) (ss : List ℤ)
    → get_elem? slots i ≡ some ss
    → index slots (pos i) ≡ ok ss
get-index slots i ss e = rw (index, e)

load_nodes_step :
    (i : ℕ) (address : Bytes) (addresses : List Bytes) (slots : List (List ℤ)) (ss : List ℤ)
    (r r' : ClusterWriter) (router : Router)
    → get_elem? slots i ≡ some ss
    → occupy_all ss i r.router ≡ ok router
    → load_nodes
        (i + 1)
        addresses
        slots
        (record r { writers = r.writers ++ i ∷ []; router = router })
      ≡ ok r'
    → load_nodes i (address ∷ addresses) slots r ≡ ok r'
unfolding load_nodes
load_nodes_step i address addresses slots ss r r' router at done rest =
    rw (load_nodes, get-index slots i ss at, done, rest)

module _ (nodes : ℕ) (slots : List (List ℤ)) (shares : SharesOut nodes slots) where
  slot_free : (i t : ℕ) (router : Router) → Within slots i router → Owns slots i t → router t ≡ none
  slot_free i t router within owned = elim (Option-cases (router t)) [
    | inl e ↦ e
    | inr x ↦
        let (lt, owner) = within t x.0 x.1 in
        absurd (omega (arith, lt, shares.disjoint t x.0 i owner owned))
  ]

  -- The lists of the nodes are free when their turn comes; `ss` is an end of the list `all`.
  All-Free :
      (i : ℕ) (router : Router) (all ss : List ℤ)
      → get_elem? slots i ≡ some all
      → ((s : ℤ) → Member s ss → Member s all)
      → Within slots i router
      → All (λ s. (t : ℕ) × (s ≡ pos t) × (t < key_slots)) ss
      → All (Free router) ss
  All-Free i router all [] at sub within range = tt
  All-Free i router all (s ∷ ss) at sub within range =
      let (t, e, lt) = range.0 in
      let member = sub (pos t) (inl (sym e)) in
      (
        (t, e, lt, slot_free i t router within (all, at, member)),
        All-Free i router all ss at (λ x m. sub x (inr m)) within range.1,
      )

  Within-next :
      (i : ℕ) (ss : List ℤ) (before after : Router)
      → get_elem? slots i ≡ some ss
      → Within slots i before
      → Adds (λ v t. (v ≡ i) × Member (pos t) ss) before after
      → Within slots (i + 1) after
  Within-next i ss before after at within adds t v e = elim ((adds t v).0 e) [
    | inl b ↦ let (lt, owner) = within t v b in (omega (arith, lt), owner)
    | inr n ↦ (omega (arith, n.0), (ss, cc, n.1))
  ]

  load_nodes-ok :
      (i : ℕ) (addresses : List Bytes) (r : ClusterWriter)
      → i + length addresses ≤ nodes
      → Within slots i r.router
      → (r' : ClusterWriter) × (load_nodes i addresses slots r ≡ ok r')
  unfolding load_nodes
  load_nodes-ok i [] r le within = (r, refl)
  load_nodes-ok i (address ∷ addresses) r le within =
      let (ss, at) = shares.listed i (omega arith) in
      let (router, done) =
        occupy_all-ok ss i r.router (shares.distinct i ss at)
          (All-Free i r.router ss ss at (λ s m. m) within (shares.in_range i ss at)) in
      let next = record r { writers = r.writers ++ i ∷ []; router = router } in
      let (r', rest) = load_nodes-ok (i + 1) addresses next (omega arith) (
        Within-next i ss r.router router at within
          (Returns-eq_ok (occupy_all-Adds ss i r.router) done)) in
      (r', load_nodes_step i address addresses slots ss r r' router at done rest)

check_occupied-ok :
    (n i : ℕ) (router : Router)
    → ((t : ℕ) → i ≤ t → t < i + n → (v : ℕ) × (router t ≡ some v))
    → check_occupied n i router ≡ ok tt
unfolding check_occupied
check_occupied-ok zero i router h = refl
check_occupied-ok (suc n) i router h =
    let (v, e) = h i (omega arith) (omega arith) in
    rw (check_occupied, e)
      (check_occupied-ok n (i + 1) router (λ t le lt. h t (omega arith) (omega arith)))

-- Where the nodes at the addresses share out the slots, `loadClusterNodes` returns.
pub load_cluster_nodes-ok :
    (addresses : List Bytes) (slots : List (List ℤ))
    → SharesOut (length addresses) slots
    → (r : ClusterWriter) × (load_cluster_nodes addresses slots ≡ ok r)
unfolding load_cluster_nodes
load_cluster_nodes-ok addresses slots shares =
    let start : ClusterWriter = record {
      addresses = addresses;
      writers = [];
      router = λ s. none;
    } in
    let (r, e) =
      load_nodes-ok (length addresses) slots shares 0 addresses start (omega arith) (λ t v h. cc) in
    let adds = Returns-eq_ok (load_nodes-Adds 0 addresses slots start) e in
    let covered : (t : ℕ) → 0 ≤ t → t < 0 + key_slots → (v : ℕ) × (r.router t ≡ some v) = λ t le lt.
      let (v, below, owner) = shares.covers t (omega arith) in
      (v, (adds t v).1 (inr (omega arith, omega (arith, below), owner))) in
    (r, rw (e, check_occupied-ok key_slots 0 r.router covered))
