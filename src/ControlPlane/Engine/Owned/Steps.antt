-- ===== src/ControlPlane/Engine/Owned/Steps.antt =====
-- controlplane/engine/manager.go: what the rounds of the loops, a stop and a shutdown leave.
use redis_shake.Prelude.{
  ℕ, Bool, true, false, not, ◌&&◌, ◌+◌, leb, ltb, Option, none, some, List, [], ◌∷◌, Bytes, codes,
  ◌==◌, ◌≡◌, refl, Bool-cases, inl, inr, Option-cases, arith,
}
use redis_shake.ControlPlane.Domain.{stopping, same_run_state, is_live}
use redis_shake.ControlPlane.Rows.{count_where, find_where}
use redis_shake.ControlPlane.Rows.Laws.{map_some, find-update, find-uncounted}
use redis_shake.ControlPlane.Store.{Database, is_port, run_at, get_run}
use redis_shake.ControlPlane.Calls.{
  run_in, kept, is_starting, is_running_or_stopping, is_stoppable, set_started, set_running,
  set_status, set_unhealthy, set_stopping, update_run_started, mark_run_running, update_run_status,
  mark_run_status_unhealthy, request_run_stop,
}
use redis_shake.ControlPlane.Changes.Called.{Answer-cases}
use redis_shake.ControlPlane.Engine.{
  Process, Manager, with_process, with_answer, set_expected_stop, set_startup_failure, stop_managed,
  stop_with, managed,
}
use redis_shake.ControlPlane.Engine.Rounds.{
  monitor_tick, Wait, ticked, timed_out, canceled, wait_round, write_metadata, record_start,
  stop_each,
}
use redis_shake.ControlPlane.Engine.Owned.{
  IsOwned, changed_run, step-IsOwned, write-IsOwned, flag-IsOwned, managed-with_process,
}

running-IsOwned :
    (id status : Bytes) (at : ℕ) (m : Manager)
    → IsOwned m
    → IsOwned (with_answer (mark_run_running id status at m.database) m)
unfolding mark_run_running is_live
running-IsOwned id status at m h =
    write-IsOwned id is_starting (set_running status at) m (λ r. refl) (λ r p a. ground (arith, a))
      (λ r a. ground (arith, a)) h

status-IsOwned :
    (id status : Bytes) (at : ℕ) (m : Manager)
    → IsOwned m
    → IsOwned (with_answer (update_run_status id status at m.database) m)
unfolding update_run_status
status-IsOwned id status at m h =
    write-IsOwned id is_running_or_stopping (set_status status at) m (λ r. refl)
      (λ r p a. ground (arith, a)) (λ r a. ground (arith, a)) h

unhealthy-IsOwned :
    (id : Bytes) (at : ℕ) (m : Manager)
    → IsOwned m
    → IsOwned (with_answer (mark_run_status_unhealthy id at m.database) m)
unfolding mark_run_status_unhealthy
unhealthy-IsOwned id at m h =
    write-IsOwned id is_live (set_unhealthy at) m (λ r. refl) (λ r p a. ground (arith, a))
      (λ r a. ground (arith, a)) h

failing-IsOwned :
    (id reason : Bytes) (m : Manager)
    → IsOwned m
    → IsOwned (with_process id (set_startup_failure reason) m)
failing-IsOwned id reason m h =
    flag-IsOwned id (set_startup_failure reason) m (λ p. refl) (λ p. refl) h

pub monitor_tick-IsOwned :
    (id : Bytes) (status : Option Bytes) (at failures : ℕ) (m : Manager)
    → IsOwned m
    → IsOwned (monitor_tick id status at failures m).0
unfolding monitor_tick
monitor_tick-IsOwned id none at failures m h = elim (Bool-cases (leb 3 (failures + 1))) [
  | inl e ↦ rw e (unhealthy-IsOwned id at m h)
  | inr e ↦ rw e h
]
monitor_tick-IsOwned id (some status) at failures m h = status-IsOwned id status at m h

pub wait_round-IsOwned :
    (id : Bytes) (w : Wait) (at : ℕ) (m : Manager) → IsOwned m → IsOwned (wait_round id w at m)
unfolding wait_round
wait_round-IsOwned id (ticked none) at m h = h
wait_round-IsOwned id (ticked (some status)) at m h = running-IsOwned id status at m h
wait_round-IsOwned id timed_out at m h = unhealthy-IsOwned id at _ (failing-IsOwned id _ m h)
wait_round-IsOwned id canceled at m h = failing-IsOwned id _ m h

started-IsOwned :
    (id : Bytes) (pid at port : ℕ) (path : Bytes) (m : Manager)
    → IsOwned m
    → IsOwned (with_answer (update_run_started id pid at port path m.database) m)
unfolding update_run_started kept
started-IsOwned id pid at port path m h =
    elim (Bool-cases
      (ltb 0 (count_where (run_in id is_starting) m.database.runs) && not (is_port port))) [
        | inl e ↦ rw e h
        | inr e ↦ rw e (
            write-IsOwned id is_starting (set_started pid at port path) m (λ r. refl)
              (λ r p a. ground (arith, a)) (λ r a. ground (arith, a)) h)
      ]

metadata-IsOwned :
    (id : Bytes) (written : Bool) (m : Manager) → IsOwned m → IsOwned (write_metadata id written m)
unfolding write_metadata
metadata-IsOwned id true m h = h
metadata-IsOwned id false m h = failing-IsOwned id _ m h

pub record_start-IsOwned :
    (id : Bytes) (pid at port : ℕ) (path : Bytes) (written : Bool) (m : Manager)
    → IsOwned m
    → IsOwned (record_start id pid at port path written m)
unfolding record_start kept
record_start-IsOwned id pid at port path written m h =
    let k = started-IsOwned id pid at port path m h in
    elim (Answer-cases (update_run_started id pid at port path m.database)) [
      | inl (db, e) ↦
          rw (record_start, e)
            (metadata-IsOwned id written (record m { database = db }) (rw e at k))
      | inr (error, e) ↦ rw (record_start, e) (failing-IsOwned id _ m h)
    ]

-- A stop that is asked for changes the row or finds it as it should be.
get-request_run_stop :
    (id i : Bytes) (at : ℕ) (db : Database)
    → get_run id (kept db (request_run_stop i at db))
      ≡ map_some (changed_run i is_stoppable (set_stopping at)) (get_run id db)
unfolding request_run_stop kept get_run
get-request_run_stop id i at db =
    let p = run_in i is_stoppable in
    elim (Bool-cases (count_where p db.runs == 0)) [
      | inr e ↦ rw e (find-update (run_at id) p (set_stopping at) (λ x. refl) db.runs)
      | inl e ↦
          let unchanged : find_where (run_at id) db.runs
              ≡ map_some (changed_run i is_stoppable (set_stopping at))
                  (find_where (run_at id) db.runs) =
            elim (Option-cases (find_where (run_at id) db.runs)) [
              | inl missing ↦ rw missing refl
              | inr (r, found) ↦ rw (found, find-uncounted p (run_at id) db.runs r e found) refl
            ] in
          elim (Option-cases (find_where (run_at i) db.runs)) [
            | inl missing ↦ rw (e, missing) unchanged
            | inr (r, found) ↦ elim (Bool-cases (same_run_state r.state stopping)) [
              | inl c ↦ rw (e, found, c) unchanged
              | inr c ↦ rw (e, found, c) unchanged
            ]
          ]
    ]

pub request-IsOwned :
    (reason i : Bytes) (at : ℕ) (m : Manager)
    → IsOwned m
    → IsOwned (
        with_process i
          (set_expected_stop reason)
          (with_answer (request_run_stop i at m.database) m))
unfolding is_live managed
request-IsOwned reason i at m h =
    let asked = with_answer (request_run_stop i at m.database) m in
    step-IsOwned i is_stoppable (set_stopping at) (set_expected_stop reason) m
      (with_process i (set_expected_stop reason) asked) (λ r p a. ground (arith, a))
      (λ r a. ground (arith, a)) (λ id. get-request_run_stop id i at m.database)
      (λ id. managed-with_process i id (set_expected_stop reason) asked (λ p. refl)) h

pub stop_managed-IsOwned :
    (reason id : Bytes) (at : ℕ) (signalled : Bool) (m : Manager)
    → IsOwned m
    → IsOwned (stop_managed reason id at signalled m).0
unfolding stop_managed kept
stop_managed-IsOwned reason id at signalled m h =
    let k = request-IsOwned reason id at m h in
    elim (Answer-cases (request_run_stop id at m.database)) [
      | inl (db, e) ↦ rw (stop_managed, e) (rw e at k)
      | inr (error, e) ↦ rw (stop_managed, e) h
    ]

pub stop_with-IsOwned :
    (reason id : Bytes) (at : ℕ) (signalled : Bool) (m : Manager)
    → IsOwned m
    → IsOwned (stop_with reason id at signalled m).0
unfolding stop_with
stop_with-IsOwned reason id at signalled m h = elim (Option-cases (managed id m)) [
  | inl missing ↦ rw (stop_with, missing) h
  | inr (p, found) ↦ rw (stop_with, found) (stop_managed-IsOwned reason id at signalled m h)
]

pub stop_each-IsOwned :
    (ps : List Process) (at : ℕ) (m : Manager) → IsOwned m → IsOwned (stop_each ps at m)
unfolding stop_each
stop_each-IsOwned [] at m h = h
stop_each-IsOwned (p ∷ ps) at m h =
    stop_each-IsOwned ps at _
      (request-IsOwned (codes "stopped during control-plane shutdown") p.run_id at m h)
