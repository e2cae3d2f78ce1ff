-- ===== src/ControlPlane/Moves.antt =====
-- The states of runs and tasks in controlplane/store/repositories.go against the tables of
-- controlplane/domain/models.go.
use redis_shake.Prelude.{
  ℕ, Bool, true, false, some, List, [], ◌∷◌, Bytes, bytes_eq, if◌then◌else◌, ◌≡◌, refl, ap, ◌∙◌,
  Bool-cases, ◌⊎◌, inl, inr, arith,
}
use redis_shake.ControlPlane.Domain.{
  archived, RunState, Task, Run, same_task_state, validate_run_transition, allowed_run, is_active,
  is_live, is_terminal,
}
use redis_shake.ControlPlane.Rows.{update_where, find_where}
use redis_shake.ControlPlane.Rows.Laws.{map_some, find-update, find-append}
use redis_shake.ControlPlane.Store.{
  Database, task_at, run_at, get_task, get_run, archivable, set_archived, with_json, stored_run,
}
use redis_shake.ControlPlane.Calls.{Call, call, kept, calls}
use redis_shake.ControlPlane.Changes.{
  Write, write_started, write_running, write_status, write_unhealthy, write_stopping, write_deleted,
  write_final, write_unknown, written, asked, Change, no_change, adds_task, opens_tasks, archives,
  adds_run, inserts_run, writes_runs,
}
use redis_shake.ControlPlane.Changes.Called.{kept-call-Change}
use redis_shake.ControlPlane.Final.{written-run_id}

-- A move of a run: one of the table, or from an active state to a final one.
abbrev pub Moves : RunState → RunState → Type 0
Moves from to =
    (validate_run_transition from to ≡ true) ⊎ ((is_active from ≡ true) × (is_terminal to ≡ true))

stays : (s : RunState) → validate_run_transition s s ≡ true
unfolding validate_run_transition
stays s = ground arith

written-Moves : (w : Write) (r : Run) → asked w r.state ≡ true → Moves r.state (written w r).state
unfolding validate_run_transition allowed_run is_terminal is_active is_live
written-Moves (write_started pid at port path) r e = inl (stays r.state)
written-Moves (write_running status at) r e = inl (ground arith)
written-Moves (write_status status at) r e = inl (stays r.state)
written-Moves (write_unhealthy at) r e = inl (stays r.state)
written-Moves (write_stopping at) r e = inl (ground arith)
written-Moves (write_deleted at) r e = inl (stays r.state)
written-Moves (write_final state code reason at h) r e = inr (e, h)
written-Moves (write_unknown reason at) r e = inl (ground arith)

-- What becomes of the run of an id.
abbrev pub MovesTo : Bytes → Run → Database → Type 0
MovesTo id r db = (after : Run) × (get_run id db ≡ some after) × Moves r.state after.state

changed-Moves :
    (w : Write) (p : Run → Bool) (r : Run)
    → ((x : Run) → p x ≡ true → asked w x.state ≡ true)
    → Moves r.state (if p r then written w r else r).state
changed-Moves w p r guard = elim (Bool-cases (p r)) [
  | inl c ↦ rw c (written-Moves w r (guard r c))
  | inr c ↦ rw c (inl (stays r.state))
]

Change-MovesTo :
    {checked : Bool} {max : ℕ} {db next : Database} (id : Bytes) (r : Run)
    → Change checked max db next
    → get_run id db ≡ some r
    → MovesTo id r next
unfolding get_run
Change-MovesTo id r (no_change db) e = (r, e, inl (stays r.state))
Change-MovesTo id r (adds_task new db absent) e = (r, e, inl (stays r.state))
Change-MovesTo id r (opens_tasks p f db same wide old) e = (r, e, inl (stays r.state))
Change-MovesTo id r (archives i at db) e = (r, e, inl (stays r.state))
Change-MovesTo id r (adds_run new t db found open_task idle below) e =
    (r, find-append (run_at id) db.runs (stored_run new) r e, inl (stays r.state))
Change-MovesTo id r (inserts_run free new db) e =
    (r, find-append (run_at id) db.runs (stored_run new) r e, inl (stays r.state))
Change-MovesTo id r (writes_runs w p db guard) e = (
  if p r then written w r else r,
  find-update (run_at id) p (written w) (written-run_id id w) db.runs
      ∙ ap (map_some (λ (x : Run). if p x then written w x else x)) e,
  changed-Moves w p r guard,
)

-- No call of the store removes a run, and each moves it as `ValidateRunTransition` allows, or from
-- an active state to STOPPED, SUCCEEDED or FAILED.
pub call-MovesTo :
    (max : ℕ) (c : Call) (db : Database) (id : Bytes) (r : Run)
    → get_run id db ≡ some r
    → MovesTo id r (kept db (call max c db))
call-MovesTo max c db id r e = Change-MovesTo id r (kept-call-Change max c db) e

archived_row :
    (p : Task → Bool) (f : Task → Task) (t : Task)
    → (p t ≡ true → same_task_state t.state archived ≡ false)
    → same_task_state t.state archived ≡ true
    → (if p t then f t else t) ≡ t
archived_row p f t old a = elim (Bool-cases (p t)) [
  | inl c ↦ ground (arith, old c, a)
  | inr c ↦ rw c refl
]

archived_update :
    (id : Bytes) (p : Task → Bool) (f : Task → Task) (tasks : List Task) (t : Task)
    → ((x : Task) → (f x).id ≡ x.id)
    → (p t ≡ true → same_task_state t.state archived ≡ false)
    → same_task_state t.state archived ≡ true
    → find_where (task_at id) tasks ≡ some t
    → find_where (task_at id) (update_where p f tasks) ≡ some t
archived_update id p f tasks t same old a e =
    find-update (task_at id) p f (λ x. ap (λ i. bytes_eq i id) (same x)) tasks
    ∙ ap (map_some (λ (x : Task). if p x then f x else x)) e
    ∙ ap some (archived_row p f t old a)

Change-get_task :
    {checked : Bool} {max : ℕ} {db next : Database} (id : Bytes) (t : Task)
    → Change checked max db next
    → same_task_state t.state archived ≡ true
    → get_task id db ≡ some t
    → get_task id next ≡ some t
unfolding get_task
Change-get_task id t (no_change db) a e = e
Change-get_task id t (adds_task new db absent) a e =
    find-append (task_at id) db.tasks (with_json new) t e
Change-get_task id t (opens_tasks p f db same wide old) a e =
    archived_update id p f db.tasks t same (old t) a e
Change-get_task id t (archives i at db) a e =
    archived_update id (archivable i db.runs) (set_archived at) db.tasks t (λ x. refl)
      (λ c. ground (arith, c)) a e
Change-get_task id t (adds_run r new db found open_task idle below) a e = e
Change-get_task id t (inserts_run free r db) a e = e
Change-get_task id t (writes_runs w p db guard) a e = e

-- An archived task stays as it is, whatever calls of the store follow.
pub calls-get_task :
    (max : ℕ) (cs : List Call) (db : Database) (id : Bytes) (t : Task)
    → same_task_state t.state archived ≡ true
    → get_task id db ≡ some t
    → get_task id (calls max cs db) ≡ some t
unfolding calls
calls-get_task max [] db id t a e = e
calls-get_task max (c ∷ cs) db id t a e =
    calls-get_task max cs (kept db (call max c db)) id t a
      (Change-get_task id t (kept-call-Change max c db) a e)
