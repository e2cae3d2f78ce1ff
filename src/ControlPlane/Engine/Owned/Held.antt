-- ===== src/ControlPlane/Engine/Owned/Held.antt =====
-- controlplane/engine/manager.go: the processes are those of the live runs, whatever the engine does.
use redis_shake.Prelude.{
  ℕ, Option, none, some, List, [], ◌∷◌, Bytes, codes, if◌then◌else◌, All, refl, arith,
}
use redis_shake.ControlPlane.Domain.{Run, is_live}
use redis_shake.ControlPlane.Rows.{find_where}
use redis_shake.ControlPlane.Rows.Laws.{map_some, find-update}
use redis_shake.ControlPlane.Store.{run_at, get_run}
use redis_shake.ControlPlane.Calls.{kept, live, set_unknown, mark_active_runs_unknown}
use redis_shake.ControlPlane.Engine.{Manager, managed, stop, force_stop}
use redis_shake.ControlPlane.Engine.Rounds.{shutdown, initialize}
use redis_shake.ControlPlane.Engine.Actions.{
  Action, launches, records_start, waits, monitors, stops, force_stops, exits, shuts_down, restarts,
  act, acts, IsStart,
}
use redis_shake.ControlPlane.Engine.Owned.{Agree, IsOwned}
use redis_shake.ControlPlane.Engine.Owned.Steps.{
  monitor_tick-IsOwned, wait_round-IsOwned, record_start-IsOwned, stop_with-IsOwned,
  stop_each-IsOwned,
}
use redis_shake.ControlPlane.Engine.Owned.Ends.{handle_exit-IsOwned}
use redis_shake.ControlPlane.Engine.Owned.Launches.{launch-IsOwned}

unknown-Agree :
    (reason : Bytes) (at : ℕ) (o : Option Run)
    → Agree (map_some (λ r. if live r then set_unknown reason at r else r) o) none
unfolding is_live
unknown-Agree reason at none = tt
unknown-Agree reason at (some r) = ground arith

-- After a restart no process is managed, and no run is live.
restart-IsOwned : (at : ℕ) (m : Manager) → IsOwned (initialize at (record m { processes = [] }))
unfolding initialize mark_active_runs_unknown kept managed get_run find_where
restart-IsOwned at m = λ id.
    let reason = codes "control plane restarted; worker ownership could not be proven" in
    rw (find-update (run_at id) live (set_unknown reason at) (λ x. refl) m.database.runs)
      (unknown-Agree reason at (find_where (run_at id) m.database.runs))

act-IsOwned :
    (replace_all : ℕ → Bytes → Bytes) (max : ℕ) (a : Action) (m : Manager)
    → IsStart a
    → IsOwned m
    → IsOwned (act replace_all max a m)
unfolding act stop force_stop shutdown
act-IsOwned replace_all max (launches r mode failure at) m s h =
    launch-IsOwned replace_all max r mode failure at m s.0 s.1 h
act-IsOwned replace_all max (records_start id pid at port path written) m s h =
    record_start-IsOwned id pid at port path written m h
act-IsOwned replace_all max (waits id w at) m s h = wait_round-IsOwned id w at m h
act-IsOwned replace_all max (monitors id status at failures) m s h =
    monitor_tick-IsOwned id status at failures m h
act-IsOwned replace_all max (stops id at signalled) m s h =
    stop_with-IsOwned (codes "stopped by user") id at signalled m h
act-IsOwned replace_all max (force_stops id at signalled) m s h =
    stop_with-IsOwned (codes "force-stopped by user") id at signalled m h
act-IsOwned replace_all max (exits id result at) m s h =
    handle_exit-IsOwned replace_all id result at m h
act-IsOwned replace_all max (shuts_down at) m s h = stop_each-IsOwned m.processes at m h
act-IsOwned replace_all max (restarts at) m s h = restart-IsOwned at m

-- If the engine manages a process for each live run of the database and for no other, and a run is
-- STOPPING, and marked as stopped by the user, exactly if its process is expected to stop, then all
-- this still holds after any sequence of launches of starting runs, successful or not, rounds of the
-- loops that watch a worker, stops, ends of workers, shutdowns and restarts.
pub acts-IsOwned :
    (replace_all : ℕ → Bytes → Bytes) (max : ℕ) (steps : List Action) (m : Manager)
    → All IsStart steps
    → IsOwned m
    → IsOwned (acts replace_all max steps m)
unfolding acts
acts-IsOwned replace_all max [] m s h = h
acts-IsOwned replace_all max (a ∷ steps) m s h =
    acts-IsOwned replace_all max steps (act replace_all max a m) s.1
      (act-IsOwned replace_all max a m s.0 h)
