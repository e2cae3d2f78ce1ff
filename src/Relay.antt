-- ===== src/Relay.antt =====
-- The loop of backend/cmd/redis-shake/main.go over the entries of a reader, with the cluster writer.
-- The goroutines of several readers share the filter and the writer: the entries stand in the order in
-- which they are taken, each with the Lua machine that the pool hands out for it.
pub mod Delivered
pub mod Stopped
mod Tests
use redis_shake.Prelude.{Bool, true, false, List, [], ◌∷◌}
use redis_shake.Go.Outcome.{Outcome, ok, ◌>>=◌}
use redis_shake.Commands.Table.{Table}
use redis_shake.Entry.{Entry, parse}
use redis_shake.Filter.{Engine, FilterOptions, Patterns, filter}
use redis_shake.Filter.Function.{Lua, Runtime, run_function}
use redis_shake.Cluster.{ClusterWriter, Sent, write_entry}

-- What the program has been started with.
pub record Program (engine : Engine) (lua : Lua) : Type 0 where
  pub table : Table
  pub options : FilterOptions
  pub runtime : Runtime lua
  pub writer : ClusterWriter

module _ (engine : Engine) (lua : Lua) (program : Program engine lua) where
  -- `for _, theEntry := range entries`.
  unfoldable pub write_all : List Entry → Sent → Outcome Sent
  write_all [] sent = ok sent
  write_all (e ∷ es) sent = do
    parsed ← parse program.table e
    sent' ← write_entry program.writer parsed sent
    write_all es sent'

  -- The rest of the round, for an entry that `Filter` has answered for.
  unfoldable pub relay_kept :
      Bool → Entry → lua.Machine → Patterns engine → Sent → Outcome (Patterns engine × Sent)
  unfolding write_all
  relay_kept false e machine patterns sent = ok (patterns, sent)
  relay_kept true e machine patterns sent = do
    entries ← run_function lua program.runtime machine e
    sent' ← write_all entries sent
    ok (patterns, sent')

  unfoldable pub relay_entry :
      Entry → lua.Machine → Patterns engine → Sent → Outcome (Patterns engine × Sent)
  unfolding relay_kept
  relay_entry e machine patterns sent = do
    parsed ← parse program.table e
    answer ← filter engine program.options parsed patterns
    relay_kept answer.0 parsed machine answer.1 sent

  -- `for e := range ch`, over the entries of all readers in the order in which they come.
  unfoldable pub relay :
      List (Entry × lua.Machine) → Patterns engine → Sent → Outcome (Patterns engine × Sent)
  unfolding relay_entry
  relay [] patterns sent = ok (patterns, sent)
  relay ((e, machine) ∷ es) patterns sent = do
    st ← relay_entry e machine patterns sent
    relay es st.0 st.1
