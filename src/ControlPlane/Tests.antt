-- ===== src/ControlPlane/Tests.antt =====
-- A task that runs, is stopped, runs again and is archived, and calls that are refused on the way.
use redis_shake.Prelude.{true, ℕ, false, none, some, List, [], ◌∷◌, Bytes, codes, ◌≡◌, refl, arith}
use redis_shake.Go.Strings.{contains, to_upper}
use redis_shake.Prelude.Int.{pos}
use redis_shake.ControlPlane.Domain.{
  ready, archived, sync, scan, draft, starting, running, stopped, failed, Task, Run, is_terminal,
  is_active, is_live, RunState, task_code,
}
use redis_shake.ControlPlane.Rows.{update_where, count_where, find_where}
use redis_shake.ControlPlane.Store.{
  Database, active_of, active, stored_run, refused, revision_conflict, get_task, get_run,
  update_task, mark_task_ready, create_run_if_no_active, create_task, archive_task, admit_run,
  insert_run, write_task, keys_hold, has_connection, task_write_miss, empty_json,
}
use redis_shake.ControlPlane.Calls.{
  Call, creates_task, updates_task, marks_task_ready, archives_task, creates_run, starts_run,
  marks_running, requests_stop, finalizes, marks_unknown, call, kept, calls, write_run,
  update_run_started, mark_run_running, request_run_stop, finalize_run, mark_active_runs_unknown,
}
use redis_shake.ControlPlane.Bounded.{IsBounded}
use redis_shake.ControlPlane.Bounded.Held.{calls-IsBounded}
use redis_shake.ControlPlane.Final.{Outcome, outcome_of, calls-outcome_of}
use redis_shake.ControlPlane.Moves.{MovesTo, call-MovesTo, calls-get_task}
use redis_shake.ControlPlane.Engine.{
  Process, Manager, ExitResult, managed, handle_exit, start_failed,
}
use redis_shake.ControlPlane.Engine.Actions.{
  Action, launches, records_start, waits, stops, exits, shuts_down, restarts, acts,
}
use redis_shake.ControlPlane.Engine.Rounds.{ticked}
use redis_shake.ControlPlane.Engine.Rounds.{launch}
use redis_shake.ControlPlane.Engine.Fails.{failed_run, with_run, launch-fails}
use redis_shake.ControlPlane.Engine.Owned.{IsOwned}
use redis_shake.ControlPlane.Engine.Owned.Held.{acts-IsOwned}
use redis_shake.ControlPlane.Engine.Exit.{handle_exit-ends}
use redis_shake.ControlPlane.Stale.{update_task-revision_conflict}

abbrev task : Task
task = record {
  id = codes "t1";
  name = codes "copy";
  description = [];
  mode = sync;
  source_connection_id = codes "a";
  target_connection_id = [];
  reader_options = [];
  filter_options = [];
  advanced_options = [];
  state = draft;
  config_revision = 1;
  created_at = 1;
  updated_at = 1;
  last_prechecked_at = none;
  last_precheck_result = [];
}

abbrev run_of : Bytes → Run
run_of id = record {
  id = id;
  task_id = codes "t1";
  config_revision = 1;
  config_snapshot = [];
  state = starting;
  pid = none;
  process_started_at = none;
  status_port = none;
  runtime_dir = codes "/r";
  started_at = 5;
  finished_at = none;
  exit_code = none;
  exit_reason = [];
  last_heartbeat_at = none;
  stop_requested_by_user = false;
  status_json = [];
  status_healthy = false;
  worker_path = [];
  updated_at = 0;
  artifacts_deleted_at = none;
}

abbrev updated_row : Task
updated_row = record task {
  reader_options = codes "{}";
  filter_options = codes "{}";
  advanced_options = codes "{}";
  config_revision = 2;
}

abbrev run_states : List Run → List RunState
run_states [] = []
run_states (r ∷ rs) = r.state ∷ run_states rs

abbrev first_state : List Task → ℕ
first_state [] = 3
first_state (t ∷ ts) = task_code t.state

-- The states of the runs and the code of the first task's.
abbrev all_states : Database → List RunState × ℕ
all_states db = (run_states db.runs, first_state db.tasks)

abbrev empty : Database
empty = record { connections = codes "a" ∷ []; tasks = []; runs = [] }

abbrev with_task : Database
with_task = record empty { tasks = task ∷ [] }

-- The task is ready and its run has started.
abbrev up : List Call
up =
    creates_task task
    ∷ marks_task_ready (codes "t1") 1 2 []
    ∷ creates_run (run_of (codes "r1"))
    ∷ creates_run (run_of (codes "r2"))
    ∷ starts_run (codes "r1") 77 6 8080 []
    ∷ marks_running (codes "r1") (codes "{}") 7
    ∷ archives_task (codes "t1") 8
    ∷ []

abbrev down : List Call
down =
    requests_stop (codes "r1") 9
    ∷ finalizes (codes "r1") stopped (some (pos 0)) (codes "bye") 10
    ∷ finalizes (codes "r1") failed none [] 11
    ∷ requests_stop (codes "r1") 12
    ∷ marks_unknown [] 13
    ∷ archives_task (codes "t1") 14
    ∷ updates_task task 1
    ∷ []

-- The second run is refused while the first is active, and so is the archiving of the task.
ran : all_states (calls 4 up empty) ≡ (running ∷ [], 1)
unfolding calls call kept create_task mark_task_ready create_run_if_no_active admit_run insert_run
    write_task update_run_started mark_run_running write_run archive_task get_task get_run keys_hold
    has_connection update_where count_where find_where is_active empty_json contains
ran = refl

-- The stopped run stays as it is; the task is archived and no longer updated.
ended : all_states (calls 4 down (calls 4 up empty)) ≡ (stopped ∷ [], 2)
unfolding calls call kept create_task mark_task_ready create_run_if_no_active admit_run insert_run
    write_task update_run_started mark_run_running write_run archive_task get_task get_run keys_hold
    has_connection update_where count_where find_where is_active empty_json contains
    request_run_stop finalize_run mark_active_runs_unknown update_task is_live is_terminal
    task_write_miss
ended = refl

calls-IsBounded_example : IsBounded 4 (calls 4 up empty)
unfolding count_where get_task
calls-IsBounded_example =
    calls-IsBounded 4 up empty (ground arith) (λ id. omega arith, λ h. omega arith)

abbrev stopped_run : Run
stopped_run = record (run_of (codes "r1")) {
  state = stopped;
  finished_at = some 10;
  exit_code = some (pos 0);
  exit_reason = codes "bye";
}

abbrev after_stop : Database
after_stop = record with_task { runs = stopped_run ∷ [] }

abbrev how_stopped : Outcome
how_stopped = record {
  state = stopped;
  exit_code = some (pos 0);
  exit_reason = codes "bye";
  finished_at = some 10;
}

calls-outcome_of_example : outcome_of (codes "r1") (calls 4 down after_stop) ≡ some how_stopped
unfolding get_run find_where is_terminal
calls-outcome_of_example = calls-outcome_of 4 down after_stop (codes "r1") how_stopped refl refl

call-MovesTo_example :
    MovesTo
      (codes "r1")
      stopped_run
      (kept after_stop (call 4 (requests_stop (codes "r1") 12) after_stop))
unfolding get_run find_where
call-MovesTo_example =
    call-MovesTo 4 (requests_stop (codes "r1") 12) after_stop (codes "r1") stopped_run refl

update_task-revision_conflict_example :
    update_task task 1 (record with_task { tasks = updated_row ∷ [] }) ≡ refused revision_conflict
unfolding update_task update_where count_where keys_hold has_connection contains to_upper empty_json
update_task-revision_conflict_example =
    (update_task-revision_conflict task 1 with_task (record with_task { tasks = updated_row ∷ [] })
        (omega arith) refl).0
      task refl

abbrev worker : Process
worker = record {
  run_id = codes "r1";
  mode = scan;
  expected_stop = false;
  stop_reason = [];
  startup_failure = [];
}

abbrev manager : Manager
manager = record {
  database = record with_task { runs = run_of (codes "r1") ∷ [] };
  processes = worker ∷ [];
}

abbrev exited : ExitResult
exited = record { err = none; exit_code = pos 0 }

-- The scan has ended before it was found running: it is no longer managed and has succeeded.
handle_exit-ends_example :
    managed (codes "r1") (handle_exit (λ n s. s) (codes "r1") exited 9 manager) ≡ none
unfolding managed get_run find_where is_active
handle_exit-ends_example =
    (handle_exit-ends (λ n s. s) (codes "r1") exited 9 manager worker (run_of (codes "r1")) refl
      refl refl).0

-- The engine starts, launches a run, finds it up, stops it, sees it end, and fails to start
-- a second one.
abbrev day : List Action
day =
    restarts 4
    ∷ launches (run_of (codes "r1")) scan none 5
    ∷ records_start (codes "r1") 77 6 8080 [] true
    ∷ waits (codes "r1") (ticked (some (codes "{}"))) 7
    ∷ stops (codes "r1") 8 true
    ∷ exits (codes "r1") exited 9
    ∷ launches (run_of (codes "r2")) scan (some (codes "no file")) 10
    ∷ shuts_down 11
    ∷ []

abbrev before : Manager
before = record {
  database = record empty { tasks = record task { state = ready } ∷ [] };
  processes = [];
}

acts-IsOwned_example : IsOwned (acts (λ n s. s) 1 day before)
unfolding get_run managed find_where
acts-IsOwned_example =
    acts-IsOwned (λ n s. s) 1 day before
      (tt, ((refl, refl), (tt, (tt, (tt, (tt, ((refl, refl), (tt, tt)))))))) (λ id. tt)

abbrev archived_task : Task
archived_task = record task { state = archived }

calls-get_task_example :
    get_task (codes "t1") (calls 4 down (record empty { tasks = archived_task ∷ [] }))
    ≡ some archived_task
unfolding get_task find_where
calls-get_task_example =
    calls-get_task 4 down (record empty { tasks = archived_task ∷ [] }) (codes "t1") archived_task
      refl refl

abbrev created_database : Database
created_database = record before.database { runs = stored_run (run_of (codes "r1")) ∷ [] }

abbrev failed_row : Run
failed_row = failed_run (λ n s. s) (codes "no file") 10 (run_of (codes "r1"))

launch-fails_example :
    (launch (λ n s. s) (run_of (codes "r1")) scan (some (codes "no file")) 10 1 before ≡ (
      record before { database = with_run failed_row before.database },
      some (start_failed (some failed_row)),
    ))
    × ((id : Bytes)
        → count_where (active_of id) (with_run failed_row before.database).runs
          ≡ count_where (active_of id) before.database.runs)
    × (count_where active (with_run failed_row before.database).runs
        ≡ count_where active before.database.runs)
unfolding create_run_if_no_active admit_run insert_run get_task find_where count_where is_active
    empty_json
launch-fails_example =
    launch-fails (λ n s. s) (run_of (codes "r1")) scan (codes "no file") 10 1 before
      created_database refl refl
