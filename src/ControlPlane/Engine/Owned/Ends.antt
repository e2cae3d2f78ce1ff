-- ===== src/ControlPlane/Engine/Owned/Ends.antt =====
-- controlplane/engine/manager.go: the run of a worker that ends, and its process.
use redis_shake.Prelude.{
  ℕ, true, Option, none, some, List, [], ◌∷◌, Bytes, bytes_eq, bytes_eq_iff, if◌then◌else◌, ◌≡◌,
  refl, Bool-cases, inl, inr, Option-cases, arith,
}
use redis_shake.Prelude.Int.{ℤ}
use redis_shake.ControlPlane.Domain.{RunState, Run, is_active, is_live, is_terminal}
use redis_shake.ControlPlane.Rows.{find_where}
use redis_shake.ControlPlane.Rows.Laws.{map_some}
use redis_shake.ControlPlane.Store.{get_run}
use redis_shake.ControlPlane.Calls.{kept, set_final, finalize_run}
use redis_shake.ControlPlane.Engine.{
  Process, Manager, ExitResult, process_at, managed, stop_stored, exit_state, delete, handle_exit,
  redact,
}
use redis_shake.ControlPlane.Engine.Exit.{exit_state-terminal}
use redis_shake.ControlPlane.Engine.Owned.{Agree, IsOwned, changed_run, run_found, get-write_run}

pub delete-find_all :
    (i id : Bytes) (ps : List Process)
    → find_where (process_at id) (delete i ps)
      ≡ (if bytes_eq i id then none else find_where (process_at id) ps)
unfolding delete find_where
delete-find_all i id [] = elim (Bool-cases (bytes_eq i id)) [
  | inl c ↦ rw c refl
  | inr c ↦ rw c refl
]
delete-find_all i id (p ∷ ps) = ground (
  arith,
  delete-find_all i id ps,
  bytes_eq_iff p.run_id i,
  bytes_eq_iff p.run_id id,
  bytes_eq_iff i id,
)

-- The run of an ended process.
pub ended-Agree :
    (i id : Bytes) (state : RunState) (code : Option ℤ) (reason : Bytes) (at : ℕ) (o : Option Run)
    (q : Option Process)
    → is_terminal state ≡ true
    → ((r : Run) → o ≡ some r → r.id ≡ id)
    → Agree o q
    → Agree
        (map_some (changed_run i is_active (set_final state code reason at)) o)
        (if bytes_eq i id then none else q)
unfolding is_terminal is_active is_live
ended-Agree i id state code reason at none none t same h = ground (arith, h)
ended-Agree i id state code reason at (some r) none t same h = ground (arith, h, t)
ended-Agree i id state code reason at none (some p) t same h = absurd h
ended-Agree i id state code reason at (some r) (some p) t same h =
    let e : r.id ≡ id = same r refl in
    let found : bytes_eq r.id i ≡ bytes_eq i id =
      rw e (ground (arith, bytes_eq_iff id i, bytes_eq_iff i id)) in
    rw found
      (elim (Bool-cases (bytes_eq i id)) [ inl c ↦ rw c (ground (arith, h, t)) | inr c ↦ rw c h ])

ended-IsOwned :
    (i : Bytes) (state : RunState) (code : Option ℤ) (reason : Bytes) (at : ℕ) (m : Manager)
    → is_terminal state ≡ true
    → IsOwned m
    → IsOwned (record m {
      database = kept m.database (finalize_run i state code reason at m.database);
      processes = delete i m.processes;
    })
unfolding managed finalize_run
ended-IsOwned i state code reason at m t h = λ id.
    rw
      (
        t,
        get-write_run id i is_active (set_final state code reason at) m.database (λ x. refl),
        delete-find_all i id m.processes,
      )
      (ended-Agree i id state code reason at (get_run id m.database)
        (find_where (process_at id) m.processes) t (run_found id m.database) (h id))

pub handle_exit-IsOwned :
    (replace_all : ℕ → Bytes → Bytes) (id : Bytes) (result : ExitResult) (at : ℕ) (m : Manager)
    → IsOwned m
    → IsOwned (handle_exit replace_all id result at m)
unfolding handle_exit
handle_exit-IsOwned replace_all id result at m h = elim (Option-cases (managed id m)) [
  | inl missing ↦ rw (handle_exit, missing) h
  | inr (p, found) ↦
      let stored = stop_stored id m.database in
      let ended = exit_state p stored result in
      rw (handle_exit, found)
        (ended-IsOwned id ended.0 (some result.exit_code) (redact replace_all ended.1) at m
          (exit_state-terminal p stored result) h)
]
