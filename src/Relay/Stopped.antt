-- ===== src/Relay/Stopped.antt =====
-- Where the loop stops: an entry that no single node can take.
use redis_shake.Prelude.{
  ℕ, ◌≡◌, ◌≢◌, refl, ◌∙◌, true, List, [], ◌∷◌, ◌++◌, Bytes, some, All, Member, length,
}
use redis_shake.Prelude.Int.{ℤ}
use redis_shake.Go.Outcome.{ok, panic, logged, ◌>>=◌}
use redis_shake.Go.Outcome.Rules.{bind_cong, bind_assoc}
use redis_shake.Entry.{Entry, parse}
use redis_shake.Filter.{Engine, Patterns, new_keys_pattern}
use redis_shake.Filter.Keys.{IsCache}
use redis_shake.Filter.Kept.{filter-kept}
use redis_shake.Filter.Function.{Lua, run_function}
use redis_shake.Cluster.{Sent, write_entry, load_cluster_nodes}
use redis_shake.Cluster.Routed.{write_entry-cross}
use redis_shake.Relay.{Program, write_all, relay_kept, relay_entry, relay}
use redis_shake.Relay.Delivered.{keeps, IsWritable, IsRelayed, write_all-Written, relay-Delivered}

module _ (engine : Engine) (lua : Lua) (program : Program engine lua) where
  write_all-append :
      (a b : List Entry) (sent : Sent)
      → write_all engine lua program (a ++ b) sent
        ≡ (write_all engine lua program a sent >>= λ s. write_all engine lua program b s)
  unfolding write_all
  write_all-append [] b sent = refl
  write_all-append (e ∷ a) b sent =
      bind_cong (parse program.table e) (λ p.
        bind_cong (write_entry program.writer p sent) (λ s. write_all-append a b s)
        ∙ bind_assoc (write_entry program.writer p sent) _ _)
      ∙ bind_assoc (parse program.table e) _ _

  relay-append :
      (a b : List (Entry × lua.Machine)) (patterns : Patterns engine) (sent : Sent)
      → relay engine lua program (a ++ b) patterns sent
        ≡ (relay engine lua program a patterns sent >>= λ st. relay engine lua program b st.0 st.1)
  unfolding relay
  relay-append [] b patterns sent = refl
  relay-append ((e, machine) ∷ a) b patterns sent =
      bind_cong (relay_entry engine lua program e machine patterns sent)
        (λ st. relay-append a b st.0 st.1)
      ∙ bind_assoc (relay_entry engine lua program e machine patterns sent) _ _

  -- An entry with keys in two slots.
  abbrev pub IsSplit : Entry → Type 0
  IsSplit e =
      (p : Entry) × (parse program.table e ≡ ok p)
      × (s : ℕ) × (t : ℕ) × (slots : List ℕ) × (p.slots ≡ s ∷ slots)
      × Member t slots
      × (t ≢ s)

  write_all-IsSplit :
      (e : Entry) (es : List Entry) (sent : Sent)
      → IsSplit e
      → write_all engine lua program (e ∷ es) sent ≡ panic logged
  unfolding write_all
  write_all-IsSplit e es sent (p, parsed, s, t, slots, at, m, n) =
      rw (parsed, write_entry-cross program.writer p sent s t slots at m n) refl

module _ (engine : Engine) (lua : Lua) (program : Program engine lua) (slots : List (List ℤ))
    (n : ℕ) (addresses : List Bytes)
    (loaded : load_cluster_nodes addresses slots ≡ ok program.writer) (nodes : n ≡ length addresses)
    (bs als : List engine.Regexp)
    (block : new_keys_pattern engine program.options.block_key_regex ≡ some bs)
    (allow : new_keys_pattern engine program.options.allow_key_regex ≡ some als) where
  kept_split :
      (e p : Entry) (machine : lua.Machine) (before after : List Entry) (split : Entry)
      (patterns : Patterns engine) (sent : Sent)
      → IsCache engine bs als patterns
      → parse program.table e ≡ ok p
      → keeps engine lua program slots n bs als p ≡ true
      → run_function lua program.runtime machine p ≡ ok (before ++ split ∷ after)
      → All (IsWritable engine lua program slots n) before
      → IsSplit engine lua program split
      → relay_entry engine lua program e machine patterns sent ≡ panic logged
  unfolding relay_entry relay_kept
  kept_split e p machine before after split patterns sent cache parsed keep made writable bad =
      let (next, answer, _) =
        filter-kept engine program.options bs als p patterns block allow cache in
      let (first, _, written) =
        write_all-Written engine lua program slots n addresses loaded nodes before sent writable in
      rw
        (
          parsed,
          answer,
          keep,
          made,
          write_all-append engine lua program before (split ∷ after) sent,
          written,
          write_all-IsSplit engine lua program split after (sent ++ first) bad,
        )
        refl

  -- A kept entry that the function makes an entry with keys in two slots of stops the program with
  -- a panic, whatever follows it and wherever it stands: behind entries that can be relayed, and with
  -- entries that can be written made in front of it.
  pub relay-stops :
      (es : List (Entry × lua.Machine)) (e p : Entry) (machine : lua.Machine)
      (before after : List Entry) (split : Entry) (later : List (Entry × lua.Machine))
      (patterns : Patterns engine) (sent : Sent)
      → IsCache engine bs als patterns
      → All (IsRelayed engine lua program slots n bs als) es
      → parse program.table e ≡ ok p
      → keeps engine lua program slots n bs als p ≡ true
      → run_function lua program.runtime machine p ≡ ok (before ++ split ∷ after)
      → All (IsWritable engine lua program slots n) before
      → IsSplit engine lua program split
      → relay engine lua program (es ++ (e, machine) ∷ later) patterns sent ≡ panic logged
  unfolding relay
  relay-stops es e p machine before after split later patterns sent cache h parsed keep made
        writable bad =
      let (log, _, st, r, c) =
        relay-Delivered engine lua program slots n addresses loaded nodes bs als block allow es
          patterns sent cache h in
      rw
        (
          relay-append engine lua program es ((e, machine) ∷ later) patterns sent,
          r,
          kept_split e p machine before after split st (sent ++ log) c parsed keep made writable
              bad,
        )
        refl
