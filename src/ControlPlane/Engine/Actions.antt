-- ===== src/ControlPlane/Engine/Actions.antt =====
-- controlplane/engine/manager.go: the steps of the engine, as a sequence.
use redis_shake.Prelude.{true, false, ℕ, Bool, Option, List, [], ◌∷◌, Bytes, ◌≡◌}
use redis_shake.ControlPlane.Domain.{TaskMode, Run, starting, same_run_state}
use redis_shake.ControlPlane.Engine.{Manager, ExitResult, stop, force_stop, handle_exit}
use redis_shake.ControlPlane.Engine.Rounds.{
  monitor_tick, Wait, wait_round, launch, record_start, shutdown, initialize,
}

-- What the goroutines and requests of the engine do, one at a time.
pub data Action : Type 0 where
  launches : Run → TaskMode → Option Bytes → ℕ → Action
  records_start : Bytes → ℕ → ℕ → ℕ → Bytes → Bool → Action
  waits : Bytes → Wait → ℕ → Action
  monitors : Bytes → Option Bytes → ℕ → ℕ → Action
  stops force_stops : Bytes → ℕ → Bool → Action
  exits : Bytes → ExitResult → ℕ → Action
  shuts_down restarts : ℕ → Action

module _ (replace_all : ℕ → Bytes → Bytes) (max : ℕ) where
  unfoldable pub act : Action → Manager → Manager
  act (launches r mode failure at) m = (launch replace_all r mode failure at max m).0
  act (records_start id pid at port path written) m = record_start id pid at port path written m
  act (waits id w at) m = wait_round id w at m
  act (monitors id status at failures) m = (monitor_tick id status at failures m).0
  act (stops id at signalled) m = (stop id at signalled m).0
  act (force_stops id at signalled) m = (force_stop id at signalled m).0
  act (exits id result at) m = handle_exit replace_all id result at m
  act (shuts_down at) m = shutdown at m
  act (restarts at) m = initialize at (record m { processes = [] })

  unfoldable pub acts : List Action → Manager → Manager
  unfolding act
  acts [] m = m
  acts (a ∷ rest) m = acts rest (act a m)

-- A run as `Start` makes it.
abbrev pub IsStart : Action → Type 0
IsStart (launches r mode failure at) =
    (same_run_state r.state starting ≡ true) × (r.stop_requested_by_user ≡ false)
IsStart _ = Unit
