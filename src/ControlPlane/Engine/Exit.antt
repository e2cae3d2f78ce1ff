-- ===== src/ControlPlane/Engine/Exit.antt =====
-- controlplane/engine/manager.go: how a run ends with its worker.
use redis_shake.Prelude.{
  ℕ, Bool, true, false, ◌||◌, Option, none, some, List, [], ◌∷◌, Bytes, if◌then◌else◌, ◌==◌, ◌≡◌,
  ◌↔◌, refl, ap, ◌∙◌, Bool-cases, inl, inr, arith,
}
use redis_shake.Prelude.Int.{ℤ}
use redis_shake.ControlPlane.Domain.{
  RunState, stopped, succeeded, Run, is_active, is_terminal, same_run_state,
}
use redis_shake.ControlPlane.Rows.{count_where, find_where}
use redis_shake.ControlPlane.Rows.Laws.{map_some, find-update, find_where-holds}
use redis_shake.ControlPlane.Store.{Database, run_at, get_run}
use redis_shake.ControlPlane.Calls.{kept, write_run, run_in, set_final, finalize_run}
use redis_shake.ControlPlane.Engine.{
  Process, Manager, ExitResult, process_at, managed, is_text, is_scan, is_zero, stop_stored,
  exit_state, delete, handle_exit, redact,
}

delete-find : (id : Bytes) (ps : List Process) → find_where (process_at id) (delete id ps) ≡ none
unfolding delete find_where
delete-find id [] = refl
delete-find id (p ∷ ps) = elim (Bool-cases (process_at id p)) [
  | inl e ↦ rw e (delete-find id ps)
  | inr e ↦ rw (e, e) (delete-find id ps)
]

count_found :
    {A : Type 0} (p q : A → Bool) (xs : List A) (x : A)
    → find_where q xs ≡ some x
    → p x ≡ true
    → (count_where p xs == 0) ≡ false
unfolding count_where find_where
count_found p q [] x e h = ground (arith, e)
count_found p q (y ∷ xs) x e h = elim (Bool-cases (q y)) [
  | inl c ↦ ground (arith, c, e, h)
  | inr c ↦ ground (arith, count_found p q xs x (rw (← e, c) refl) h)
]

-- A run that is active is finalized.
kept-finalize_run :
    (id : Bytes) (state : RunState) (code : Option ℤ) (reason : Bytes) (at : ℕ) (db : Database)
    (r : Run)
    → is_terminal state ≡ true
    → get_run id db ≡ some r
    → is_active r.state ≡ true
    → get_run id (kept db (finalize_run id state code reason at db))
      ≡ some (set_final state code reason at r)
unfolding kept finalize_run write_run get_run
kept-finalize_run id state code reason at db r final found active =
    let this_id : run_at id r ≡ true = find_where-holds (run_at id) db.runs r found in
    let holds : run_in id is_active r ≡ true = ground (arith, this_id, active) in
    rw (final, count_found (run_in id is_active) (run_at id) db.runs r found holds)
      (find-update (run_at id) (run_in id is_active) (set_final state code reason at) (λ x. refl)
          db.runs
        ∙ ap
            (map_some
              (λ (x : Run). if run_in id is_active x then set_final state code reason at x else x))
            found
        ∙ rw holds refl)

pub exit_state-terminal :
    (p : Process) (stored : Bool) (result : ExitResult)
    → is_terminal (exit_state p stored result).0 ≡ true
unfolding exit_state is_terminal
exit_state-terminal p stored result = ground arith

-- What makes a run that ends stopped, and what makes it succeed.
abbrev pub WasStopped : Process → Bool → Type 0
WasStopped p stored = (is_text p.startup_failure ≡ false) × ((p.expected_stop || stored) ≡ true)

abbrev pub WasCompleted : Process → Bool → ExitResult → Type 0
WasCompleted p stored result =
    (is_text p.startup_failure ≡ false)
    × ((p.expected_stop || stored) ≡ false)
    × (is_scan p.mode ≡ true)
    × (is_zero result.exit_code ≡ true)

exit_state-stopped :
    (p : Process) (stored : Bool) (result : ExitResult)
    → (same_run_state (exit_state p stored result).0 stopped ≡ true) ↔ WasStopped p stored
unfolding exit_state
exit_state-stopped p stored result = ground arith

exit_state-succeeded :
    (p : Process) (stored : Bool) (result : ExitResult)
    → (same_run_state (exit_state p stored result).0 succeeded ≡ true)
      ↔ WasCompleted p stored result
unfolding exit_state
exit_state-succeeded p stored result = ground arith

-- When the worker of an active run ends, the run is no longer managed, and it is stored as STOPPED,
-- SUCCEEDED or FAILED with the exit code and the time. It is STOPPED exactly if it did not fail to
-- start and a stop was asked for, of the process or in the database, and SUCCEEDED exactly if it did
-- not fail to start, no stop was asked for, its task is a scan, and the exit code is 0.
pub handle_exit-ends :
    (replace_all : ℕ → Bytes → Bytes) (id : Bytes) (result : ExitResult) (at : ℕ) (m : Manager)
    (p : Process) (r : Run)
    → managed id m ≡ some p
    → get_run id m.database ≡ some r
    → is_active r.state ≡ true
    → (managed id (handle_exit replace_all id result at m) ≡ none)
      × (after : Run) × (get_run id (handle_exit replace_all id result at m).database ≡ some after)
      × (is_terminal after.state ≡ true)
      × (after.exit_code ≡ some result.exit_code)
      × (after.finished_at ≡ some at)
      × ((same_run_state after.state stopped ≡ true) ↔ WasStopped p r.stop_requested_by_user)
      × ((same_run_state after.state succeeded ≡ true)
          ↔ WasCompleted p r.stop_requested_by_user result)
unfolding managed handle_exit stop_stored
handle_exit-ends replace_all id result at m p r is_managed found active =
    let ended = exit_state p r.stop_requested_by_user result in
    rw (handle_exit, is_managed, stop_stored, found)
      (
        delete-find id m.processes,
        set_final ended.0 (some result.exit_code) (redact replace_all ended.1) at r,
        kept-finalize_run id ended.0 (some result.exit_code) (redact replace_all ended.1) at
            m.database r (exit_state-terminal p r.stop_requested_by_user result) found active,
        exit_state-terminal p r.stop_requested_by_user result,
        refl,
        refl,
        exit_state-stopped p r.stop_requested_by_user result,
        exit_state-succeeded p r.stop_requested_by_user result,
      )
