-- ===== src/ControlPlane/Engine/Owned/Launches.antt =====
-- controlplane/engine/manager.go: the run of a start, and its process.
use redis_shake.Prelude.{
  ℕ, true, false, Option, none, some, Bytes, bytes_eq, bytes_eq_iff, if◌then◌else◌, ◌≡◌, refl,
  Bool-cases, inl, inr, Option-cases, arith,
}
use redis_shake.Prelude.Int.{negsuc}
use redis_shake.ControlPlane.Domain.{
  TaskMode, starting, failed, Run, same_run_state, is_active, is_live, is_terminal,
}
use redis_shake.ControlPlane.Rows.{count_where, find_where}
use redis_shake.ControlPlane.Rows.Laws.{find-count, find-append_absent}
use redis_shake.ControlPlane.Store.{
  Database, done, run_at, get_run, get_task, stored_run, insert_run, admit_run,
  create_run_if_no_active,
}
use redis_shake.ControlPlane.Calls.{kept, set_final, finalize_run}
use redis_shake.ControlPlane.Changes.Called.{Answer-cases, inserted}
use redis_shake.ControlPlane.Engine.{
  Process, Manager, process_at, managed, finalize_start_failure, redact,
}
use redis_shake.ControlPlane.Engine.Rounds.{started, launch}
use redis_shake.ControlPlane.Engine.Owned.{Agree, IsOwned, run_found, get-write_run}
use redis_shake.ControlPlane.Engine.Owned.Ends.{delete-find_all, ended-Agree}

-- A run that is created stands behind the others, where none had its id.
pub created :
    (r : Run) (max : ℕ) (db next : Database)
    → create_run_if_no_active r max db ≡ done next
    → insert_run r db ≡ done next
unfolding create_run_if_no_active admit_run
created r max db next e = elim (Option-cases (get_task r.task_id db)) [
  | inl missing ↦ ground (arith, create_run_if_no_active, missing, e)
  | inr (t, found) ↦ ground (arith, create_run_if_no_active, found, e)
]

pub absent :
    (r : Run) (db next : Database)
    → insert_run r db ≡ done next
    → count_where (run_at r.id) db.runs ≡ 0
unfolding insert_run
absent r db next e = ground (arith, e)

get-inserted :
    (id : Bytes) (r : Run) (db next : Database)
    → insert_run r db ≡ done next
    → get_run id next ≡ (if bytes_eq r.id id then some (stored_run r) else get_run id db)
unfolding get_run
get-inserted id r db next e = rw (inserted r db next e) (
    find-append_absent (run_at id) db.runs (stored_run r) (λ c.
      rw (← (bytes_eq_iff r.id id).0 c) (find-count (run_at r.id) db.runs (absent r db next e))))

fresh :
    (id : Bytes) (r : Run) (db next : Database)
    → insert_run r db ≡ done next
    → bytes_eq r.id id ≡ true
    → get_run id db ≡ none
unfolding get_run
fresh id r db next e c =
    rw (← (bytes_eq_iff r.id id).0 c) (find-count (run_at r.id) db.runs (absent r db next e))

started-IsOwned :
    (r : Run) (mode : TaskMode) (m : Manager) (next : Database)
    → same_run_state r.state starting ≡ true
    → r.stop_requested_by_user ≡ false
    → insert_run r m.database ≡ done next
    → IsOwned m
    → IsOwned (started r mode (record m { database = next }))
unfolding started managed find_where is_live
started-IsOwned r mode m next s f e h = λ id.
    rw (get-inserted id r m.database next e, delete-find_all r.id id m.processes)
      (elim (Bool-cases (bytes_eq r.id id)) [
        | inl c ↦ rw c (ground (arith, s, f))
        | inr c ↦ rw c (h id)
      ])

unowned : (q : Option Process) → Agree none q → q ≡ none
unowned none h = refl
unowned (some p) h = absurd h

failed-IsOwned :
    (r : Run) (reason : Bytes) (at : ℕ) (m : Manager) (next : Database)
    → insert_run r m.database ≡ done next
    → IsOwned m
    → IsOwned (record m {
      database = kept next (finalize_run r.id failed (some (negsuc 0)) reason at next);
    })
unfolding finalize_run managed is_active is_live is_terminal
failed-IsOwned r reason at m next e h = λ id.
    let f = set_final failed (some (negsuc 0)) reason at in
    let q = find_where (process_at id) m.processes in
    rw (get-write_run id r.id is_active f next (λ x. refl), get-inserted id r m.database next e)
      (elim (Bool-cases (bytes_eq r.id id)) [
        | inl c ↦
            let none_at : get_run id m.database ≡ none = fresh id r m.database next e c in
            let no_process : q ≡ none = unowned q (rw none_at at (h id)) in
            rw (c, no_process) (ground (arith, (bytes_eq_iff r.id r.id).1 refl))
        | inr c ↦
            let other =
              ended-Agree r.id id failed (some (negsuc 0)) reason at (get_run id m.database) q refl
                (run_found id m.database) (h id) in
            rw c (rw c at other)
      ])

pub launch-IsOwned :
    (replace_all : ℕ → Bytes → Bytes) (max : ℕ) (r : Run) (mode : TaskMode) (failure : Option Bytes)
    (at : ℕ) (m : Manager)
    → same_run_state r.state starting ≡ true
    → r.stop_requested_by_user ≡ false
    → IsOwned m
    → IsOwned (launch replace_all r mode failure at max m).0
unfolding launch finalize_start_failure
launch-IsOwned replace_all max r mode none at m s f h =
    elim (Answer-cases (create_run_if_no_active r max m.database)) [
      | inl (db, e) ↦
          rw (launch, e) (started-IsOwned r mode m db s f (created r max m.database db e) h)
      | inr (error, e) ↦ rw (launch, e) h
    ]
launch-IsOwned replace_all max r mode (some cause) at m s f h =
    elim (Answer-cases (create_run_if_no_active r max m.database)) [
      | inl (db, e) ↦
          rw (launch, e)
            (failed-IsOwned r (redact replace_all cause) at m db (created r max m.database db e) h)
      | inr (error, e) ↦ rw (launch, e) h
    ]
