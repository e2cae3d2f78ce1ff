-- ===== src/ControlPlane/Engine/Owned.antt =====
-- controlplane/engine/manager.go: the runs in the database against the processes that are managed.
pub mod Steps
pub mod Ends
pub mod Launches
pub mod Held
use redis_shake.Prelude.{
  Bool, true, false, ◌&&◌, Option, none, some, Bytes, bytes_eq, bytes_eq_iff, if◌then◌else◌, ◌==◌,
  ◌≡◌, refl, sym, ap, ◌∙◌, Bool-cases, inl, inr, Option-cases, arith,
}
use redis_shake.ControlPlane.Domain.{RunState, stopping, Run, same_run_state, is_live}
use redis_shake.ControlPlane.Rows.{count_where, find_where}
use redis_shake.ControlPlane.Rows.Laws.{map_some, find-update, find_where-holds, find-uncounted}
use redis_shake.ControlPlane.Store.{Database, run_at, get_run}
use redis_shake.ControlPlane.Calls.{run_in, write_run, kept}
use redis_shake.ControlPlane.Engine.{
  Process, Manager, process_at, managed, with_process, with_answer,
}

-- A run and the process of its id. A run without a process is not live; a run with a process is, and
-- it is STOPPING, and asked to stop, exactly if the process is expected to stop.
abbrev pub Agree : Option Run → Option Process → Type 0
Agree none none = Unit
Agree none (some p) = ⊥
Agree (some r) none = is_live r.state ≡ false
Agree (some r) (some p) =
    (is_live r.state ≡ true)
    × (same_run_state r.state stopping ≡ p.expected_stop)
    × (r.stop_requested_by_user ≡ p.expected_stop)

abbrev pub IsOwned : Manager → Type 0
IsOwned m = (id : Bytes) → Agree (get_run id m.database) (managed id m)

-- What a write for the id `i` leaves of a run and of a process.
abbrev pub changed_run : Bytes → (RunState → Bool) → (Run → Run) → Run → Run
changed_run i test f r = if run_in i test r then f r else r

abbrev pub changed_process : Bytes → (Process → Process) → Process → Process
changed_process i g p = if process_at i p then g p else p

pub run_found : (id : Bytes) (db : Database) (r : Run) → get_run id db ≡ some r → r.id ≡ id
unfolding get_run
run_found id db r e = (bytes_eq_iff r.id id).0 (find_where-holds (run_at id) db.runs r e)

process_found : (id : Bytes) (m : Manager) (p : Process) → managed id m ≡ some p → p.run_id ≡ id
unfolding managed
process_found id m p e =
    (bytes_eq_iff p.run_id id).0 (find_where-holds (process_at id) m.processes p e)

pub get-write_run :
    (id i : Bytes) (test : RunState → Bool) (f : Run → Run) (db : Database)
    → ((x : Run) → run_at id (f x) ≡ run_at id x)
    → get_run id (kept db (write_run i test f db)) ≡ map_some (changed_run i test f) (get_run id db)
unfolding get_run write_run kept
get-write_run id i test f db same = elim (Bool-cases (count_where (run_in i test) db.runs == 0)) [
  | inr e ↦ rw e (find-update (run_at id) (run_in i test) f same db.runs)
  | inl e ↦ rw e (elim (Option-cases (find_where (run_at id) db.runs)) [
    | inl missing ↦ rw missing refl
    | inr (r, found) ↦ rw (found, find-uncounted (run_in i test) (run_at id) db.runs r e found) refl
  ])
]

if_same : {A : Type 0} (b : Bool) (x : A) → (if b then x else x) ≡ x
if_same true x = refl
if_same false x = refl

managed-same :
    (i id : Bytes) (m : Manager)
    → managed id m ≡ map_some (changed_process i (λ p. p)) (managed id m)
managed-same i id m = elim (Option-cases (managed id m)) [
  | inl missing ↦ rw missing refl
  | inr (p, found) ↦ rw (found, if_same (process_at i p) p) refl
]

get-same :
    (i id : Bytes) (db : Database)
    → get_run id db ≡ map_some (changed_run i (λ s. true) (λ r. r)) (get_run id db)
get-same i id db = elim (Option-cases (get_run id db)) [
  | inl missing ↦ rw missing refl
  | inr (r, found) ↦ rw (found, if_same (run_in i (λ s. true) r) r) refl
]

pub managed-with_process :
    (i id : Bytes) (g : Process → Process) (m : Manager)
    → ((p : Process) → (g p).run_id ≡ p.run_id)
    → managed id (with_process i g m) ≡ map_some (changed_process i g) (managed id m)
unfolding managed
managed-with_process i id g m same =
    find-update (process_at id) (process_at i) g (λ p. ap (λ s. bytes_eq s id) (same p)) m.processes

-- A change for one id of the runs and of the processes at once.
module _ (i : Bytes) (test : RunState → Bool) (f : Run → Run) (g : Process → Process) where
  change-Agree :
      ((r : Run) (p : Process)
        → Agree (some r) (some p)
        → Agree (some (if test r.state then f r else r)) (some (g p)))
      → ((r : Run)
          → is_live r.state ≡ false
          → is_live (if test r.state then f r else r).state ≡ false)
      → (o : Option Run) (q : Option Process)
      → ((r : Run) (p : Process) → o ≡ some r → q ≡ some p → p.run_id ≡ r.id)
      → Agree o q
      → Agree (map_some (changed_run i test f) o) (map_some (changed_process i g) q)
  change-Agree both alone none none same h = tt
  change-Agree both alone none (some p) same h = h
  change-Agree both alone (some r) none same h = elim (Bool-cases (bytes_eq r.id i)) [
    | inl c ↦ rw c (alone r h)
    | inr c ↦ rw c h
  ]
  change-Agree both alone (some r) (some p) same h =
      let e = ap (λ s. bytes_eq s i) (same r p refl refl) in
      elim (Bool-cases (bytes_eq r.id i)) [
        | inl c ↦ rw (c, e ∙ c) (both r p h)
        | inr c ↦ rw (c, e ∙ c) h
      ]

  pub step-IsOwned :
      (m next : Manager)
      → ((r : Run) (p : Process)
          → Agree (some r) (some p)
          → Agree (some (if test r.state then f r else r)) (some (g p)))
      → ((r : Run)
          → is_live r.state ≡ false
          → is_live (if test r.state then f r else r).state ≡ false)
      → ((id : Bytes)
          → get_run id next.database ≡ map_some (changed_run i test f) (get_run id m.database))
      → ((id : Bytes) → managed id next ≡ map_some (changed_process i g) (managed id m))
      → IsOwned m
      → IsOwned next
  step-IsOwned m next both alone runs processes h = λ id.
      rw (runs id, processes id)
        (change-Agree both alone (get_run id m.database) (managed id m)
          (λ r p e d. process_found id m p d ∙ sym (run_found id m.database r e)) (h id))

-- A write to the runs alone, and one to the processes alone.
pub write-IsOwned :
    (i : Bytes) (test : RunState → Bool) (f : Run → Run) (m : Manager)
    → ((r : Run) → (f r).id ≡ r.id)
    → ((r : Run) (p : Process)
        → Agree (some r) (some p)
        → Agree (some (if test r.state then f r else r)) (some p))
    → ((r : Run)
        → is_live r.state ≡ false
        → is_live (if test r.state then f r else r).state ≡ false)
    → IsOwned m
    → IsOwned (with_answer (write_run i test f m.database) m)
unfolding managed
write-IsOwned i test f m same both alone h =
    step-IsOwned i test f (λ p. p) m (with_answer (write_run i test f m.database) m) both alone
      (λ id. get-write_run id i test f m.database (λ x. ap (λ s. bytes_eq s id) (same x)))
      (λ id. managed-same i id m) h

pub flag-IsOwned :
    (i : Bytes) (g : Process → Process) (m : Manager)
    → ((p : Process) → (g p).run_id ≡ p.run_id)
    → ((p : Process) → (g p).expected_stop ≡ p.expected_stop)
    → IsOwned m
    → IsOwned (with_process i g m)
flag-IsOwned i g m same flag h =
    step-IsOwned i (λ s. true) (λ r. r) g m (with_process i g m) (λ r p a. rw (flag p) a) (λ r a. a)
      (λ id. get-same i id m.database) (λ id. managed-with_process i id g m same) h
