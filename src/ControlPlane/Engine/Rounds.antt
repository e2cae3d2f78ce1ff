-- ===== src/ControlPlane/Engine/Rounds.antt =====
-- controlplane/engine/manager.go: `Initialize`, the start of a run, the rounds of the loops that watch
-- its worker, and `Shutdown`.
use redis_shake.Prelude.{
  true, false, Bool, ℕ, ◌+◌, false, Option, none, some, List, [], ◌∷◌, Bytes, codes, leb,
  if◌then◌else◌,
}
use redis_shake.ControlPlane.Domain.{TaskMode, Run}
use redis_shake.ControlPlane.Store.{get_run, done, refused, create_run_if_no_active}
use redis_shake.ControlPlane.Calls.{
  request_run_stop, mark_run_running, mark_run_status_unhealthy, update_run_status,
  mark_active_runs_unknown, update_run_started,
}
use redis_shake.ControlPlane.Engine.{
  Process, Manager, Reply, store_error, with_process, with_answer, set_expected_stop,
  set_startup_failure, delete, start_failed, finalize_start_failure,
}

-- A round of `monitor` on its ticker: what `fetchStatus` gives, and the failures in a row.
unfoldable pub monitor_tick : Bytes → Option Bytes → ℕ → ℕ → Manager → Manager × ℕ
monitor_tick id none at failures m = (
  if leb 3 (failures + 1) then with_answer (mark_run_status_unhealthy id at m.database) m else m,
  failures + 1,
)
monitor_tick id (some status) at failures m =
    (with_answer (update_run_status id status at m.database) m, 0)

-- What `waitUntilStarted` waits for, beside the exit of the worker.
pub data Wait : Type 0 where
  ticked : Option Bytes → Wait
  timed_out canceled : Wait

unfoldable pub startup_timeout : Bytes
startup_timeout = codes "RedisShake status endpoint did not become ready before the startup timeout"

-- A round of `waitUntilStarted`.
unfoldable pub wait_round : Bytes → Wait → ℕ → Manager → Manager
unfolding startup_timeout
wait_round id (ticked none) at m = m
wait_round id (ticked (some status)) at m = with_answer (mark_run_running id status at m.database) m
wait_round id timed_out at m =
    let failing = with_process id (set_startup_failure startup_timeout) m in
    with_answer (mark_run_status_unhealthy id at failing.database) failing
wait_round id canceled at m =
    with_process id (set_startup_failure (codes "run start request was canceled")) m

-- `Start` where the worker has started: its process is managed.
unfoldable pub started : Run → TaskMode → Manager → Manager
started r mode m =
    let process : Process = record {
      run_id = r.id;
      mode = mode;
      expected_stop = false;
      stop_reason = [];
      startup_failure = [];
    } in
    record m { processes = process ∷ delete r.id m.processes }

-- `Start` from the creation of the run on. `failure` is the error of the files or of the command.
-- Where there is none, `Start` goes on, to `record_start` and the rounds of `wait_round`.
unfoldable pub launch :
    (ℕ → Bytes → Bytes) → Run → TaskMode → Option Bytes → ℕ → ℕ → Manager → Manager × Option Reply
unfolding started
launch replace_all r mode failure at max m = elim (create_run_if_no_active r max m.database) [
  | refused e ↦ (m, some (store_error e))
  | done db ↦
      let created = record m { database = db } in
      elim failure [
        | none ↦ (started r mode created, none)
        | some cause ↦
            let failed_run = finalize_start_failure replace_all r.id cause at created in
            (failed_run, some (start_failed (get_run r.id failed_run.database)))
      ]
]

-- `writeProcessMetadata` in `Start`; where it fails, the worker is killed.
unfoldable pub write_metadata : Bytes → Bool → Manager → Manager
write_metadata id true m = m
write_metadata id false m =
    with_process id (set_startup_failure (codes "failed to write RedisShake process metadata")) m

-- `UpdateRunStarted` in `Start`; where it fails, the worker is killed too.
unfoldable pub record_start : Bytes → ℕ → ℕ → ℕ → Bytes → Bool → Manager → Manager
unfolding write_metadata
record_start id pid at port path written m =
    elim (update_run_started id pid at port path m.database) [
      | done db ↦ write_metadata id written (record m { database = db })
      | refused e ↦
          with_process id
            (set_startup_failure (codes "failed to persist RedisShake process metadata")) m
    ]

-- The loop of `Shutdown` over the processes, before it waits for them.
unfoldable pub stop_each : List Process → ℕ → Manager → Manager
stop_each [] at m = m
stop_each (p ∷ ps) at m =
    let asked = with_answer (request_run_stop p.run_id at m.database) m in
    stop_each ps at (
      with_process p.run_id (set_expected_stop (codes "stopped during control-plane shutdown"))
        asked)

unfoldable pub shutdown : ℕ → Manager → Manager
unfolding stop_each
shutdown at m = stop_each m.processes at m

unfoldable pub initialize : ℕ → Manager → Manager
initialize at m =
    with_answer
      (mark_active_runs_unknown
        (codes "control plane restarted; worker ownership could not be proven") at m.database)
      m
