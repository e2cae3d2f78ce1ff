-- ===== src/ControlPlane/Engine.antt =====
-- controlplane/engine/manager.go: stopping a run, and what the end of its worker does. A worker and
-- its signals, the files and the status endpoint are outside: their answers are arguments.
pub mod Exit
pub mod Rounds
pub mod Actions
pub mod Owned
pub mod Fails
use redis_shake.Prelude.{
  ℕ, ◌+◌, Bool, true, false, ◌&&◌, ◌||◌, not, Option, none, some, List, [], ◌∷◌, Bytes, bytes_eq,
  codes, leb, ◌==◌, if◌then◌else◌,
}
use redis_shake.Prelude.Int.{ℤ, pos, negsuc}
use redis_shake.ControlPlane.Domain.{
  TaskMode, sync, scan, RunState, stopped, succeeded, failed, Run, is_terminal,
}
use redis_shake.ControlPlane.Rows.{update_where, find_where}
use redis_shake.ControlPlane.Store.{
  Database, StoreError, not_found, conflict, Answer, done, refused, get_run,
  create_run_if_no_active,
}
use redis_shake.ControlPlane.Calls.{
  kept, request_run_stop, finalize_run, mark_run_running, mark_run_status_unhealthy,
  update_run_status, mark_active_runs_unknown,
}

-- `managedProcess`, and the part of `Manager` that changes.
pub record Process : Type 0 where
  pub run_id : Bytes
  pub mode : TaskMode
  pub expected_stop : Bool
  pub stop_reason : Bytes
  pub startup_failure : Bytes

pub record Manager : Type 0 where
  pub database : Database
  pub processes : List Process

pub data Reply : Type 0 where
  viewed : Run → Reply
  store_error : StoreError → Reply
  not_managed signal_failed : Reply
  start_failed : Option Run → Reply

pub record ExitResult : Type 0 where
  pub err : Option Bytes
  pub exit_code : ℤ

abbrev pub process_at : Bytes → Process → Bool
process_at id p = bytes_eq p.run_id id

unfoldable pub managed : Bytes → Manager → Option Process
unfolding find_where
managed id m = find_where (process_at id) m.processes

abbrev pub set_expected_stop : Bytes → Process → Process
set_expected_stop reason p = record p { expected_stop = true; stop_reason = reason }

abbrev pub set_startup_failure : Bytes → Process → Process
set_startup_failure reason p = record p { startup_failure = reason }

abbrev pub with_process : Bytes → (Process → Process) → Manager → Manager
with_process id f m = record m { processes = update_where (process_at id) f m.processes }

abbrev pub with_answer : Answer Database → Manager → Manager
with_answer a m = record m { database = kept m.database a }

unfoldable pub get : Bytes → Manager → Reply
get id m = elim (get_run id m.database) [ none ↦ store_error not_found | some r ↦ viewed r ]

-- The answer for a run that no process of this control plane belongs to.
unfoldable pub unmanaged : Bytes → Manager → Reply
unmanaged id m = elim (get_run id m.database) [
  | none ↦ store_error not_found
  | some r ↦ if is_terminal r.state then store_error conflict else not_managed
]

unfoldable pub stop_managed : Bytes → Bytes → ℕ → Bool → Manager → Manager × Reply
unfolding get
stop_managed reason id at signalled m = elim (request_run_stop id at m.database) [
  | refused e ↦ (m, store_error e)
  | done db ↦
      let next = with_process id (set_expected_stop reason) (record m { database = db }) in
      (next, if signalled then get id next else signal_failed)
]

-- `Stop` and `ForceStop` differ in the reason and in the signal, which `signalled` says was sent.
unfoldable pub stop_with : Bytes → Bytes → ℕ → Bool → Manager → Manager × Reply
unfolding stop_managed unmanaged
stop_with reason id at signalled m = elim (managed id m) [
  | none ↦ (m, unmanaged id m)
  | some p ↦ stop_managed reason id at signalled m
]

unfoldable pub stop : Bytes → ℕ → Bool → Manager → Manager × Reply
unfolding stop_with
stop id at signalled m = stop_with (codes "stopped by user") id at signalled m

unfoldable pub force_stop : Bytes → ℕ → Bool → Manager → Manager × Reply
unfolding stop_with
force_stop id at signalled m = stop_with (codes "force-stopped by user") id at signalled m

abbrev pub is_text : Bytes → Bool
is_text [] = false
is_text (c ∷ s) = true

abbrev pub is_scan : TaskMode → Bool
is_scan sync = false
is_scan scan = true

abbrev pub is_zero : ℤ → Bool
is_zero (pos n) = n == 0
is_zero (negsuc n) = false

-- Whether the stored run was asked to stop.
unfoldable pub stop_stored : Bytes → Database → Bool
stop_stored id db = elim (get_run id db) [ none ↦ false | some r ↦ r.stop_requested_by_user ]

unfoldable pub exit_reason : Option Bytes → Bytes
exit_reason none = codes "RedisShake worker exited unexpectedly"
exit_reason (some e) = e

-- The state and the reason that a run ends with.
unfoldable pub exit_state : Process → Bool → ExitResult → RunState × Bytes
unfolding exit_reason
exit_state p stored result =
    if is_text p.startup_failure
    then (failed, p.startup_failure)
    else if p.expected_stop || stored
    then (
      stopped,
      if stored && not (is_text p.stop_reason) then codes "stopped by user" else p.stop_reason,
    )
    else if is_scan p.mode && is_zero result.exit_code
    then (succeeded, codes "scan completed")
    else (failed, exit_reason result.err)

-- `delete(m.processes, process.runID)`.
unfoldable pub delete : Bytes → List Process → List Process
delete id [] = []
delete id (p ∷ ps) = let rest = delete id ps in if process_at id p then rest else p ∷ rest

-- `replace_all n` is `ReplaceAllString` of package regexp by the pattern of that number.
module _ (replace_all : ℕ → Bytes → Bytes) where
  -- secrets/redact.go: the patterns in turn.
  unfoldable pub redact : Bytes → Bytes
  redact value = replace_all 2 (replace_all 1 (replace_all 0 value))

  unfoldable pub finalize_start_failure : Bytes → Bytes → ℕ → Manager → Manager
  unfolding redact
  finalize_start_failure id cause at m =
      with_answer (finalize_run id failed (some (negsuc 0)) (redact cause) at m.database) m

  -- `handleExit` runs once for a process, which is no longer managed then.
  unfoldable pub handle_exit : Bytes → ExitResult → ℕ → Manager → Manager
  unfolding delete redact
  handle_exit id result at m = elim (managed id m) [
    | none ↦ m
    | some p ↦
        let ended = exit_state p (stop_stored id m.database) result in
        record m {
          database =
              kept m.database
                (finalize_run id ended.0 (some result.exit_code) (redact ended.1) at m.database);
          processes = delete id m.processes;
        }
  ]
