-- ===== src/Cluster/Loaded.antt =====
-- The table that `loadClusterNodes` builds: every slot belongs to one node, and only to that one.
use redis_shake.Prelude.{
  ℕ, zero, suc, ◌+◌, ◌<◌, ◌≤◌, List, [], ◌∷◌, ◌++◌, Bytes, Option, none, some, ltb, ◌==◌, ==_iff,
  ◌≡◌, ap, sym, length, append_assoc, append-nil, ◌∙◌, ◌↔◌, ◌⊎◌, Member, inl, inr, arith, get_elem?,
  Bool-cases, Option-cases,
}
use redis_shake.Prelude.Int.{ℤ, pos, negsuc}
use redis_shake.Go.Outcome.{ok, index}
use redis_shake.Go.Outcome.Rules.{
  Returns, returned, panicked, Returns-eq_ok, weaker, bind-Returns, if-Returns,
}
use redis_shake.Cluster.{
  key_slots, Router, ClusterWriter, assign, occupy, occupy_all, load_nodes, check_occupied,
  load_cluster_nodes,
}

-- Node `w` owns slot `t`: it is in the list of that node.
abbrev pub Owns : List (List ℤ) → ℕ → ℕ → Type 0
Owns slots w t = (ss : List ℤ) × (get_elem? slots w ≡ some ss) × Member (pos t) ss

-- A router after a step: what it had, and what `New` says.
abbrev pub Adds : (ℕ → ℕ → Type 0) → Router → Router → Type 0
Adds New before after = (t v : ℕ) → (after t ≡ some v) ↔ ((before t ≡ some v) ⊎ New v t)

assign-Adds :
    (s w : ℕ) (router : Router)
    → router s ≡ none
    → Adds (λ v t. (v ≡ w) × (t ≡ s)) router (assign s w router)
assign-Adds s w router e t v = elim (Bool-cases (t == s)) [
  | inl h ↦
      let same : t ≡ s = (==_iff t s).0 h in
      (
        λ a. inr (ground (arith, h, a), same),
        λ o. elim o [
          | inl b ↦ absurd (ground (arith, same, e, b))
          | inr n ↦ rw h (ap some (sym n.0))
        ],
      )
  | inr h ↦ (
    λ a. inl (ground (arith, h, a)),
    λ o. elim o [ inl b ↦ rw h b | inr n ↦ absurd (ground (arith, h, n.1)) ],
  )
]

occupy-Adds :
    (s : ℤ) (w : ℕ) (router : Router)
    → Returns (Adds (λ v t. (v ≡ w) × (pos t ≡ s)) router) (occupy s w router)
unfolding occupy
occupy-Adds (negsuc s) w router = panicked
occupy-Adds (pos s) w router = elim (Option-cases (router s)) [
  | inl e ↦ rw e (
      if-Returns (ltb s key_slots)
        (returned (λ t v.
          let (to, from) = assign-Adds s w router e t v in
          (
            λ a. elim (to a) [ inl b ↦ inl b | inr n ↦ inr (n.0, ap pos n.1) ],
            λ o. from (elim o [ inl b ↦ inl b | inr n ↦ inr (n.0, ground (arith, n.1)) ]),
          )))
        panicked)
  | inr x ↦ rw (x.1) (if-Returns (ltb s key_slots) panicked panicked)
]

pub occupy_all-Adds :
    (slots : List ℤ) (w : ℕ) (router : Router)
    → Returns (Adds (λ v t. (v ≡ w) × Member (pos t) slots) router) (occupy_all slots w router)
unfolding occupy_all
occupy_all-Adds [] w router =
    returned (λ t v. (inl, λ o. elim o [ inl b ↦ b | inr n ↦ absurd n.1 ]))
occupy_all-Adds (s ∷ slots) w router = bind-Returns (occupy s w router) (λ r e.
    weaker (occupy_all-Adds slots w r) (λ r' adds t v.
      let (to, from) = Returns-eq_ok (occupy-Adds s w router) e t v in
      let (to', from') = adds t v in
      (
        λ a. elim (to' a) [
          | inl b ↦ elim (to b) [ inl c ↦ inl c | inr n ↦ inr (n.0, inl n.1) ]
          | inr n ↦ inr (n.0, inr n.1)
        ],
        λ o. elim o [
          | inl b ↦ from' (inl (from (inl b)))
          | inr n ↦ elim n.1 [
            | inl m ↦ from' (inl (from (inr (n.0, m))))
            | inr m ↦ from' (inr (n.0, m))
          ]
        ],
      )))

-- The numbers of `n` nodes, from `i` on.
abbrev pub count_from : ℕ → ℕ → List ℕ
count_from i zero = []
count_from i (suc n) = i ∷ count_from (i + 1) n

abbrev pub Among : ℕ → List Bytes → List (List ℤ) → ℕ → ℕ → Type 0
Among i addresses slots v t = (i ≤ v) × (v < i + length addresses) × Owns slots v t

pub index-get :
    (slots : List (List ℤ)) (i : ℕ) (ss : List ℤ)
    → index slots (pos i) ≡ ok ss
    → get_elem? slots i ≡ some ss
index-get slots i ss e = elim (Option-cases (get_elem? slots i)) [
  | inl h ↦ absurd (ground (arith, e, h))
  | inr x ↦ ground (arith, e, x.1)
]

pub here_or_later : (i v : ℕ) → i ≤ v → (v ≡ i) ⊎ (i + 1 ≤ v)
here_or_later i v h = grind arith

Own-here :
    (slots : List (List ℤ)) (i v t : ℕ) (ss : List ℤ)
    → get_elem? slots i ≡ some ss
    → v ≡ i
    → Owns slots v t
    → Member (pos t) ss
Own-here slots i v t ss at e (ss', at', m) = let same : ss' ≡ ss = cc in rw (← same) m

-- One node more: the slots of node `i`, and those of the nodes behind it.
step_Adds :
    (i v t : ℕ) (address : Bytes) (addresses : List Bytes) (slots : List (List ℤ)) (ss : List ℤ)
    (before between after : Router)
    → get_elem? slots i ≡ some ss
    → (between t ≡ some v) ↔ ((before t ≡ some v) ⊎ ((v ≡ i) × Member (pos t) ss))
    → (after t ≡ some v) ↔ ((between t ≡ some v) ⊎ Among (i + 1) addresses slots v t)
    → (after t ≡ some v) ↔ ((before t ≡ some v) ⊎ Among i (address ∷ addresses) slots v t)
step_Adds i v t address addresses slots ss before between after at (to, from) (to', from') = (
  λ a. elim (to' a) [
    | inl b ↦ elim (to b) [
      | inl c ↦ inl c
      | inr n ↦ inr (omega (arith, n.0), omega (arith, n.0), (ss, cc, n.1))
    ]
    | inr n ↦ inr (omega (arith, n.0), omega (arith, n.1), n.2)
  ],
  λ o. elim o [
    | inl b ↦ from' (inl (from (inl b)))
    | inr n ↦ elim (here_or_later i v n.0) [
      | inl e ↦ from' (inl (from (inr (e, Own-here slots i v t ss at e n.2))))
      | inr l ↦ from' (inr (l, omega (arith, n.1), n.2))
    ]
  ],
)

pub load_nodes-Adds :
    (i : ℕ) (addresses : List Bytes) (slots : List (List ℤ)) (r : ClusterWriter)
    → Returns
        (λ r'. Adds (Among i addresses slots) r.router r'.router)
        (load_nodes i addresses slots r)
unfolding load_nodes
load_nodes-Adds i [] slots r =
    returned (λ t v. (inl, λ o. elim o [ inl b ↦ b | inr n ↦ absurd (omega (arith, n.0, n.1)) ]))
load_nodes-Adds i (address ∷ addresses) slots r = bind-Returns (index slots (pos i)) (λ ss at.
    bind-Returns (occupy_all ss i r.router) (λ router e.
      weaker
        (load_nodes-Adds (i + 1) addresses slots
          (record r { writers = r.writers ++ i ∷ []; router = router }))
        (λ r' adds t v.
          step_Adds i v t address addresses slots ss r.router router r'.router
            (index-get slots i ss at) (Returns-eq_ok (occupy_all-Adds ss i r.router) e t v)
            (adds t v))))

load_nodes-writers :
    (i : ℕ) (addresses : List Bytes) (slots : List (List ℤ)) (r : ClusterWriter)
    → Returns
        (λ r'. r'.writers ≡ r.writers ++ count_from i (length addresses))
        (load_nodes i addresses slots r)
unfolding load_nodes
load_nodes-writers i [] slots r = returned (sym (append-nil r.writers))
load_nodes-writers i (address ∷ addresses) slots r = bind-Returns (index slots (pos i)) (λ ss at.
    bind-Returns (occupy_all ss i r.router) (λ router e.
      weaker
        (load_nodes-writers (i + 1) addresses slots
          (record r { writers = r.writers ++ i ∷ []; router = router }))
        (λ r' e'. e' ∙ append_assoc r.writers (i ∷ []) (count_from (i + 1) (length addresses)))))

check_occupied-all :
    (n i : ℕ) (router : Router)
    → Returns
        (λ _. (t : ℕ) → i ≤ t → t < i + n → (v : ℕ) × (router t ≡ some v))
        (check_occupied n i router)
unfolding check_occupied
check_occupied-all zero i router = returned (λ t le lt. absurd (omega arith))
check_occupied-all (suc n) i router = elim (Option-cases (router i)) [
  | inl e ↦ rw (check_occupied, e) panicked
  | inr x ↦
      rw (check_occupied, x.1)
        (weaker (check_occupied-all n (i + 1) router) (λ _ h t le lt. elim (here_or_later i t le) [
          | inl e ↦ (x.0, rw (← x.1) (ap router e))
          | inr l ↦ h t l (omega arith)
        ]))
]

-- The table of writers: a slot goes to the one node that owns it, and every slot to some node.
abbrev pub Routes : List Bytes → List (List ℤ) → ClusterWriter → Type 0
Routes addresses slots r =
    ((t v : ℕ) → (r.router t ≡ some v) ↔ ((v < length addresses) × Owns slots v t))
    × ((t : ℕ) → t < key_slots → (v : ℕ) × (r.router t ≡ some v))
    × (r.writers ≡ count_from 0 (length addresses))

-- A writer that `loadClusterNodes` returns routes a slot to a node exactly if the slot is in the
-- list of that node: so no slot is in two lists. Each of the 16384 slots goes to some node, and
-- there is a writer for every address.
pub load_cluster_nodes-Routes :
    (addresses : List Bytes) (slots : List (List ℤ)) {r : ClusterWriter}
    → load_cluster_nodes addresses slots ≡ ok r
    → Routes addresses slots r
unfolding load_cluster_nodes
load_cluster_nodes-Routes addresses slots {r} e =
    Returns-eq_ok {P = Routes addresses slots}
      (bind-Returns (load_nodes 0 addresses slots start) (λ r' e'.
        bind-Returns (check_occupied key_slots 0 r'.router) (λ _ e''. returned (
          λ t v. whole t v (Returns-eq_ok (load_nodes-Adds 0 addresses slots start) e' t v),
          λ t lt.
              Returns-eq_ok (check_occupied-all key_slots 0 r'.router) e'' t (omega arith)
                (omega arith),
          Returns-eq_ok (load_nodes-writers 0 addresses slots start) e',
        ))))
      e
  where
    start : ClusterWriter
    start = record { addresses = addresses; writers = []; router = λ s. none }

    whole :
        (t v : ℕ)
        → {o : Option ℕ} → (o ≡ some v) ↔ ((none ≡ some v) ⊎ Among 0 addresses slots v t)
        → (o ≡ some v) ↔ ((v < length addresses) × Owns slots v t)
    whole t v (to, from) = (
      λ a. elim (to a) [ inl b ↦ cc | inr n ↦ (omega (arith, n.1), n.2) ],
      λ o. from (inr (omega arith, omega (arith, o.0), o.1)),
    )
