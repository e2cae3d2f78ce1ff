-- ===== src/ControlPlane/Calls.antt =====
-- The UPDATE statements of the runs in controlplane/store/repositories.go, and any sequence of calls.
use redis_shake.Prelude.{
  ℕ, Bool, true, false, ◌&&◌, ◌||◌, not, ltb, Option, none, some, List, [], ◌∷◌, Bytes, bytes_eq,
  ◌==◌, if◌then◌else◌,
}
use redis_shake.Prelude.Int.{ℤ}
use redis_shake.ControlPlane.Domain.{
  RunState, starting, running, stopping, unknown, Task, Run, same_run_state, is_active, is_live,
  is_terminal,
}
use redis_shake.ControlPlane.Rows.{update_where, count_where}
use redis_shake.ControlPlane.Store.{
  Database, conflict, not_found, invalid_final_state, Answer, done, refused, get_run, create_task,
  update_task, mark_task_ready, save_task_precheck_result, archive_task, create_run_if_no_active,
  create_run, check_failed, is_port,
}

-- `WHERE id = ? AND` a test of the state.
abbrev pub run_in : Bytes → (RunState → Bool) → Run → Bool
run_in id test r = bytes_eq r.id id && test r.state

-- The UPDATE of a run with `requireChanged`.
unfoldable pub write_run : Bytes → (RunState → Bool) → (Run → Run) → Database → Answer Database
write_run id test f db =
    if count_where (run_in id test) db.runs == 0
    then refused conflict
    else done (record db { runs = update_where (run_in id test) f db.runs })

abbrev pub set_started : ℕ → ℕ → ℕ → Bytes → Run → Run
set_started pid at port worker_path r = record r {
  pid = some pid;
  process_started_at = some at;
  status_port = some port;
  worker_path = worker_path;
  updated_at = at;
}

abbrev pub is_starting : RunState → Bool
is_starting state = same_run_state state starting

-- The CHECK of the port is made on a row that changes.
unfoldable pub update_run_started : Bytes → ℕ → ℕ → ℕ → Bytes → Database → Answer Database
unfolding write_run
update_run_started id pid at port worker_path db =
    if ltb 0 (count_where (run_in id is_starting) db.runs) && not (is_port port)
    then refused check_failed
    else write_run id is_starting (set_started pid at port worker_path) db

abbrev pub set_status : Bytes → ℕ → Run → Run
set_status status at r = record r {
  status_json = status;
  status_healthy = true;
  last_heartbeat_at = some at;
  updated_at = at;
}

abbrev pub set_running : Bytes → ℕ → Run → Run
set_running status at r = record (set_status status at r) { state = running }

unfoldable pub mark_run_running : Bytes → Bytes → ℕ → Database → Answer Database
unfolding write_run
mark_run_running id status at db = write_run id is_starting (set_running status at) db

abbrev pub is_running_or_stopping : RunState → Bool
is_running_or_stopping state = same_run_state state running || same_run_state state stopping

unfoldable pub update_run_status : Bytes → Bytes → ℕ → Database → Answer Database
unfolding write_run
update_run_status id status at db = write_run id is_running_or_stopping (set_status status at) db

abbrev pub set_unhealthy : ℕ → Run → Run
set_unhealthy at r = record r { status_healthy = false; updated_at = at }

unfoldable pub mark_run_status_unhealthy : Bytes → ℕ → Database → Answer Database
unfolding write_run
mark_run_status_unhealthy id at db = write_run id is_live (set_unhealthy at) db

abbrev pub set_stopping : ℕ → Run → Run
set_stopping at r = record r { state = stopping; stop_requested_by_user = true; updated_at = at }

abbrev pub is_stoppable : RunState → Bool
is_stoppable state = same_run_state state starting || same_run_state state running

-- A run that is already stopping is no error.
unfoldable pub request_run_stop : Bytes → ℕ → Database → Answer Database
request_run_stop id at db =
    if count_where (run_in id is_stoppable) db.runs == 0
    then elim (get_run id db) [
      | none ↦ refused not_found
      | some r ↦ if same_run_state r.state stopping then done db else refused conflict
    ]
    else done (record db { runs = update_where (run_in id is_stoppable) (set_stopping at) db.runs })

abbrev pub set_final : RunState → Option ℤ → Bytes → ℕ → Run → Run
set_final state exit_code reason at r = record r {
  state = state;
  finished_at = some at;
  exit_code = exit_code;
  exit_reason = reason;
  status_healthy = false;
  updated_at = at;
}

unfoldable pub finalize_run : Bytes → RunState → Option ℤ → Bytes → ℕ → Database → Answer Database
unfolding write_run
finalize_run id state exit_code reason at db =
    if is_terminal state
    then write_run id is_active (set_final state exit_code reason at) db
    else refused invalid_final_state

abbrev pub set_unknown : Bytes → ℕ → Run → Run
set_unknown reason at r = record r {
  state = unknown;
  status_healthy = false;
  exit_reason = reason;
  updated_at = at;
}

abbrev pub live : Run → Bool
live r = is_live r.state

unfoldable pub mark_active_runs_unknown : Bytes → ℕ → Database → Answer Database
mark_active_runs_unknown reason at db =
    done (record db { runs = update_where live (set_unknown reason at) db.runs })

abbrev pub set_deleted : ℕ → Run → Run
set_deleted at r = record r { artifacts_deleted_at = some at; updated_at = at }

unfoldable pub mark_run_artifacts_deleted : Bytes → ℕ → Database → Answer Database
unfolding write_run
mark_run_artifacts_deleted id at db = write_run id is_terminal (set_deleted at) db

-- A call of the store that writes tasks or runs. `inserts_run` is `CreateRun`, which of all code only
-- tests call.
pub data Call : Type 0 where
  creates_task : Task → Call
  updates_task : Task → ℕ → Call
  marks_task_ready saves_precheck : Bytes → ℕ → ℕ → Bytes → Call
  archives_task : Bytes → ℕ → Call
  creates_run inserts_run : Run → Call
  starts_run : Bytes → ℕ → ℕ → ℕ → Bytes → Call
  marks_running updates_status : Bytes → Bytes → ℕ → Call
  marks_unhealthy requests_stop deletes_artifacts : Bytes → ℕ → Call
  finalizes : Bytes → RunState → Option ℤ → Bytes → ℕ → Call
  marks_unknown : Bytes → ℕ → Call

-- Whether a new run is checked against its task and the active runs.
abbrev pub is_checked : Call → Bool
is_checked (inserts_run r) = false
is_checked _ = true

-- `max` is `MaxConcurrentRuns`, which one control plane keeps.
unfoldable pub call : ℕ → Call → Database → Answer Database
call max (creates_task t) db = create_task t db
call max (updates_task t revision) db = update_task t revision db
call max (marks_task_ready id rev at result) db = mark_task_ready id rev at result db
call max (saves_precheck id rev at result) db = save_task_precheck_result id rev at result db
call max (archives_task id at) db = archive_task id at db
call max (creates_run r) db = create_run_if_no_active r max db
call max (inserts_run r) db = create_run r db
call max (starts_run id pid at port path) db = update_run_started id pid at port path db
call max (marks_running id status at) db = mark_run_running id status at db
call max (updates_status id status at) db = update_run_status id status at db
call max (marks_unhealthy id at) db = mark_run_status_unhealthy id at db
call max (requests_stop id at) db = request_run_stop id at db
call max (deletes_artifacts id at) db = mark_run_artifacts_deleted id at db
call max (finalizes id state exit_code reason at) db = finalize_run id state exit_code reason at db
call max (marks_unknown reason at) db = mark_active_runs_unknown reason at db

unfoldable pub kept : Database → Answer Database → Database
kept db (done next) = next
kept db (refused e) = db

unfoldable pub calls : ℕ → List Call → Database → Database
calls max [] db = db
calls max (c ∷ cs) db = calls max cs (kept db (call max c db))
