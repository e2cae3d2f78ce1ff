-- ===== src/Relay/Delivered.antt =====
-- What the loop has sent when the reader ends.
use redis_shake.Prelude.{
  ℕ, ◌≡◌, refl, ap, ◌∙◌, Bool, true, false, ◌&&◌, List, [], ◌∷◌, ◌++◌, map, append_assoc,
  append-nil, Bytes, some, all, All, length, ◌⊎◌, inl, inr,
}
use redis_shake.Prelude.Int.{ℤ}
use redis_shake.Go.Outcome.{ok}
use redis_shake.Commands.Slots.{key_hash, calc_slots}
use redis_shake.Entry.{Entry, parse}
use redis_shake.Filter.{Engine, Patterns, new_keys_pattern}
use redis_shake.Filter.Chain.{entry_kept}
use redis_shake.Filter.Keys.{IsCache, key_kept}
use redis_shake.Filter.Kept.{filter-kept}
use redis_shake.Filter.Function.{Lua, run_function}
use redis_shake.Cluster.{Sent, load_cluster_nodes, write, write_entry}
use redis_shake.Cluster.Loaded.{Owns, count_from, load_cluster_nodes-Routes}
use redis_shake.Cluster.Routed.{write_entry-parse, parsed_slots}
use redis_shake.Relay.{Program, write_all, relay_kept, relay_entry, relay}

-- Every node of a cluster of `n`, with an entry.
abbrev pub to_all : ℕ → Entry → Sent
to_all n e = map (λ w. (w, e)) (count_from 0 n)

module _ (engine : Engine) (lua : Lua) (program : Program engine lua) (slots : List (List ℤ))
    (n : ℕ) where
  -- How entries are written: one with keys of one slot to the node that owns the slot, and one
  -- without keys to every node.
  pub data Written : List Entry → Sent → Type 0 where
    none_left : Written [] []
    to_owner :
        {es : List Entry} {log : Sent} (e p : Entry) (k : Bytes) (ks : List Bytes) (w : ℕ)
        → parse program.table e ≡ ok p
        → p.keys ≡ k ∷ ks
        → All (λ k'. key_hash k' ≡ key_hash k) ks
        → Owns slots w (key_hash k)
        → Written es log
        → Written (e ∷ es) ((w, p) ∷ log)
    to_every_node :
        {es : List Entry} {log : Sent} (e p : Entry)
        → parse program.table e ≡ ok p
        → p.keys ≡ []
        → Written es log
        → Written (e ∷ es) (to_all n p ++ log)

  -- What the filter keeps, with the patterns that it has compiled.
  abbrev pub keeps : List engine.Regexp → List engine.Regexp → Entry → Bool
  keeps bs als p =
      all (key_kept engine program.options bs als) p.keys && entry_kept program.options p

  -- What is sent for the entries of a reader: nothing for those that the filter drops, and for the
  -- others in order what the function makes of them.
  pub data Delivered (bs als : List engine.Regexp)
      : List (Entry × lua.Machine) → Sent → Type 0 where
    ended : Delivered bs als [] []
    dropped :
        {es : List (Entry × lua.Machine)} {log : Sent} (e p : Entry) (machine : lua.Machine)
        → parse program.table e ≡ ok p
        → keeps bs als p ≡ false
        → Delivered bs als es log
        → Delivered bs als ((e, machine) ∷ es) log
    delivered :
        {es : List (Entry × lua.Machine)} {first log : Sent} (e p : Entry) (machine : lua.Machine)
        (out : List Entry)
        → parse program.table e ≡ ok p
        → keeps bs als p ≡ true
        → run_function lua program.runtime machine p ≡ ok out
        → Written out first
        → Delivered bs als es log
        → Delivered bs als ((e, machine) ∷ es) (first ++ log)

  -- An entry that can be written: its keys are of one slot, if it has any.
  abbrev pub IsWritable : Entry → Type 0
  IsWritable e =
      (p : Entry) × (parse program.table e ≡ ok p)
      × ((p.keys ≡ [])
          ⊎ ((k : Bytes) × (ks : List Bytes) × (p.keys ≡ k ∷ ks)
              × All (λ k'. key_hash k' ≡ key_hash k) ks))

  -- An entry of the reader that is dropped, or that the function makes such entries of.
  abbrev pub IsRelayed : List engine.Regexp → List engine.Regexp → Entry × lua.Machine → Type 0
  IsRelayed bs als (e, machine) =
      (p : Entry) × (parse program.table e ≡ ok p)
      × ((keeps bs als p ≡ false)
          ⊎ ((keeps bs als p ≡ true)
              × (out : List Entry) × (run_function lua program.runtime machine p ≡ ok out)
              × All IsWritable out))

  module _ (addresses : List Bytes)
      (loaded : load_cluster_nodes addresses slots ≡ ok program.writer)
      (nodes : n ≡ length addresses) where
    write_every_node :
        (e p : Entry) (sent : Sent)
        → parse program.table e ≡ ok p
        → p.keys ≡ []
        → write_entry program.writer p sent ≡ ok (sent ++ to_all n p)
    unfolding write_entry write calc_slots
    write_every_node e p sent parsed keys =
        let (_, _, writers) = load_cluster_nodes-Routes addresses slots loaded in
        let no_slots : p.slots ≡ [] = parsed_slots program.table e p parsed ∙ ap calc_slots keys in
        ap (λ ss. write program.writer p ss sent) no_slots ∙ rw (writers, nodes) refl

    pub write_all-Written :
        (es : List Entry) (sent : Sent)
        → All IsWritable es
        → (log : Sent) × Written es log × (write_all engine lua program es sent ≡ ok (sent ++ log))
    unfolding write_all
    write_all-Written [] sent h = ([], none_left, rw append-nil refl)
    write_all-Written (e ∷ es) sent ((p, parsed, inl keys), h) =
        let (log, w, r) = write_all-Written es (sent ++ to_all n p) h in
        (
          to_all n p ++ log,
          to_every_node e p parsed keys w,
          rw (parsed, write_every_node e p sent parsed keys)
              (r ∙ ap ok (append_assoc sent (to_all n p) log)),
        )
    write_all-Written (e ∷ es) sent ((p, parsed, inr (k, ks, keys, same)), h) =
        let (w, owner, written) =
          write_entry-parse program.table addresses slots program.writer p e sent k ks loaded parsed
            keys same in
        let (log, later, r) = write_all-Written es (sent ++ (w, p) ∷ []) h in
        (
          (w, p) ∷ log,
          to_owner e p k ks w parsed keys same owner later,
          rw (parsed, written) (r ∙ ap ok (append_assoc sent ((w, p) ∷ []) log)),
        )

    module _ (bs als : List engine.Regexp)
        (block : new_keys_pattern engine program.options.block_key_regex ≡ some bs)
        (allow : new_keys_pattern engine program.options.allow_key_regex ≡ some als) where
      -- Entries whose kept ones can be written are relayed without a panic, and what has been sent
      -- then is what was sent before, and behind it what the specification says: for each entry
      -- that the filter keeps, in order, what the function makes of it, an entry with keys at the
      -- node that owns their slot, and one without keys at every node.
      pub relay-Delivered :
          (es : List (Entry × lua.Machine)) (patterns : Patterns engine) (sent : Sent)
          → IsCache engine bs als patterns
          → All (IsRelayed bs als) es
          → (log : Sent) × Delivered bs als es log
            × (after : Patterns engine) × (relay engine lua program es patterns sent
                ≡ ok (after, sent ++ log))
            × IsCache engine bs als after
      unfolding relay relay_entry relay_kept
      relay-Delivered [] patterns sent cache h = ([], ended, patterns, rw append-nil refl, cache)
      relay-Delivered ((e, machine) ∷ es) patterns sent cache ((p, parsed, inl drop), h) =
          let (next, answer, cache') =
            filter-kept engine program.options bs als p patterns block allow cache in
          let (log, d, after, r, c) = relay-Delivered es next sent cache' h in
          (log, dropped e p machine parsed drop d, after, rw (parsed, answer, drop) r, c)
      relay-Delivered ((e, machine) ∷ es) patterns sent cache
            ((p, parsed, inr (keep, out, made, writable)), h) =
          let (next, answer, cache') =
            filter-kept engine program.options bs als p patterns block allow cache in
          let (first, w, written) = write_all-Written out sent writable in
          let (log, d, after, r, c) = relay-Delivered es next (sent ++ first) cache' h in
          (
            first ++ log,
            delivered e p machine out parsed keep made w d,
            after,
            rw (parsed, answer, keep, made, written)
                (r ∙ ap (λ l. ok (after, l)) (append_assoc sent first log)),
            c,
          )
