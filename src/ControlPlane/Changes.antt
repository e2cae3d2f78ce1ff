-- ===== src/ControlPlane/Changes.antt =====
-- controlplane/store/repositories.go: what a call may change, as a step relation on databases.
pub mod Called
use redis_shake.Prelude.{
  ℕ, ◌+◌, ◌<◌, ◌^◌, Bool, true, false, not, ◌&&◌, ◌||◌, Option, none, some, List, [], ◌∷◌, ◌++◌,
  Bytes, ltb, leb, ◌==◌, ==_iff, ◌≡◌, refl, Bool-cases, inl, inr, Option-cases, arith,
}
use redis_shake.Prelude.Int.{ℤ}
use redis_shake.ControlPlane.Domain.{
  draft, ready, archived, RunState, starting, running, stopping, Task, Run, same_task_state,
  same_run_state, is_active, is_live, is_terminal,
}
use redis_shake.ControlPlane.Rows.{update_where, count_where}
use redis_shake.ControlPlane.Store.{
  Database, Answer, done, refused, Leaves, task_at, run_at, get_task, get_run, active_of, active,
  archivable, writable, keys_hold, write_task, create_task, update_task, mark_task_ready,
  save_task_precheck_result, archive_task, insert_run, admit_run, create_run_if_no_active,
  with_json, set_task, set_precheck, set_archived, stored_run,
}
use redis_shake.ControlPlane.Calls.{
  run_in, write_run, is_stoppable, set_stopping, request_run_stop, set_unknown, live, finalize_run,
  set_final, update_run_started, set_started, mark_run_running, set_running, is_starting,
  set_status, update_run_status, is_running_or_stopping, mark_run_status_unhealthy, set_unhealthy,
  mark_active_runs_unknown, mark_run_artifacts_deleted, set_deleted, Call, creates_task,
  updates_task, marks_task_ready, saves_precheck, archives_task, creates_run, starts_run,
  marks_running, updates_status, marks_unhealthy, requests_stop, deletes_artifacts, finalizes,
  marks_unknown, call,
}

-- What an UPDATE writes to a run, and the states that its WHERE asks for.
pub data Write : Type 0 where
  write_started : ℕ → ℕ → ℕ → Bytes → Write
  write_running write_status : Bytes → ℕ → Write
  write_unhealthy write_stopping write_deleted : ℕ → Write
  write_final : (state : RunState) → Option ℤ → Bytes → ℕ → is_terminal state ≡ true → Write
  write_unknown : Bytes → ℕ → Write

abbrev pub written : Write → Run → Run
written (write_started pid at port path) = set_started pid at port path
written (write_running status at) = set_running status at
written (write_status status at) = set_status status at
written (write_unhealthy at) = set_unhealthy at
written (write_stopping at) = set_stopping at
written (write_deleted at) = set_deleted at
written (write_final state code reason at h) = set_final state code reason at
written (write_unknown reason at) = set_unknown reason at

abbrev pub asked : Write → RunState → Bool
asked (write_started pid at port path) = is_starting
asked (write_running status at) = is_starting
asked (write_status status at) = is_running_or_stopping
asked (write_unhealthy at) = is_live
asked (write_stopping at) = is_stoppable
asked (write_deleted at) = is_terminal
asked (write_final state code reason at h) = is_active
asked (write_unknown reason at) = is_live

-- `checked` says that new runs are.
pub data Change (checked : Bool) (max : ℕ) : Database → Database → Type 0 where
  no_change : (db : Database) → Change checked max db db
  adds_task :
      (t : Task) (db : Database)
      → count_where (task_at t.id) db.tasks ≡ 0
      → Change checked max db (record db { tasks = db.tasks ++ with_json t ∷ [] })
  opens_tasks :
      (p : Task → Bool) (f : Task → Task) (db : Database)
      → ((t : Task) → (f t).id ≡ t.id)
      → ((t : Task) → same_task_state (f t).state archived ≡ false)
      → ((t : Task) → p t ≡ true → same_task_state t.state archived ≡ false)
      → Change checked max db (record db { tasks = update_where p f db.tasks })
  archives :
      (id : Bytes) (at : ℕ) (db : Database)
      → Change checked max db
          (record db { tasks = update_where (archivable id db.runs) (set_archived at) db.tasks })
  adds_run :
      (r : Run) (t : Task) (db : Database)
      → get_task r.task_id db ≡ some t
      → same_task_state t.state archived ≡ false
      → count_where (active_of r.task_id) db.runs ≡ 0
      → (0 < max → count_where active db.runs < max)
      → Change checked max db (record db { runs = db.runs ++ stored_run r ∷ [] })
  inserts_run :
      checked ≡ false
      → (r : Run) (db : Database)
      → Change checked max db (record db { runs = db.runs ++ stored_run r ∷ [] })
  writes_runs :
      (w : Write) (p : Run → Bool) (db : Database)
      → ((r : Run) → p r ≡ true → asked w r.state ≡ true)
      → Change checked max db (record db { runs = update_where p (written w) db.runs })
