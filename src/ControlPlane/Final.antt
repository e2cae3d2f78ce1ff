-- ===== src/ControlPlane/Final.antt =====
-- controlplane/store/repositories.go: how the states of runs and tasks move, and where they stay.
use redis_shake.Prelude.{
  ℕ, Bool, true, Option, none, some, List, [], ◌∷◌, ◌++◌, Bytes, if◌then◌else◌, ◌≡◌, refl, sym, ap,
  ◌∙◌, Bool-cases, inl, inr, Option-cases, arith,
}
use redis_shake.Prelude.Int.{ℤ}
use redis_shake.ControlPlane.Domain.{RunState, stopped, Run, is_active, is_live, is_terminal}
use redis_shake.ControlPlane.Rows.{find_where}
use redis_shake.ControlPlane.Rows.Laws.{map_some, find-update, find-append}
use redis_shake.ControlPlane.Store.{Database, run_at, get_run, stored_run}
use redis_shake.ControlPlane.Calls.{Call, call, kept, calls}
use redis_shake.ControlPlane.Changes.{
  Write, write_started, write_running, write_status, write_unhealthy, write_stopping, write_deleted,
  write_final, write_unknown, written, asked, Change, no_change, adds_task, opens_tasks, archives,
  adds_run, inserts_run, writes_runs,
}
use redis_shake.ControlPlane.Changes.Called.{kept-call-Change}

-- How a run ended.
pub record Outcome : Type 0 where
  pub state : RunState
  pub exit_code : Option ℤ
  pub exit_reason : Bytes
  pub finished_at : Option ℕ

abbrev pub outcome : Run → Outcome
outcome r = record {
  state = r.state;
  exit_code = r.exit_code;
  exit_reason = r.exit_reason;
  finished_at = r.finished_at;
}

abbrev pub outcome_of : Bytes → Database → Option Outcome
outcome_of id db = map_some outcome (get_run id db)

abbrev state_or : Option Outcome → RunState
state_or none = stopped
state_or (some o) = o.state

written-outcome :
    (w : Write) (r : Run)
    → asked w r.state ≡ true
    → is_terminal r.state ≡ true
    → outcome (written w r) ≡ outcome r
unfolding is_terminal is_active is_live
written-outcome (write_started pid at port path) r e t = refl
written-outcome (write_running status at) r e t = ground arith
written-outcome (write_status status at) r e t = refl
written-outcome (write_unhealthy at) r e t = refl
written-outcome (write_stopping at) r e t = ground arith
written-outcome (write_deleted at) r e t = refl
written-outcome (write_final state code reason at h) r e t = ground arith
written-outcome (write_unknown reason at) r e t = ground arith

changed-outcome :
    (w : Write) (p : Run → Bool) (o : Option Run) (end : Outcome)
    → ((r : Run) → p r ≡ true → asked w r.state ≡ true)
    → is_terminal end.state ≡ true
    → map_some outcome o ≡ some end
    → map_some outcome (map_some (λ r. if p r then written w r else r) o) ≡ some end
changed-outcome w p none end guard t e = e
changed-outcome w p (some r) end guard t e = elim (Bool-cases (p r)) [
  | inl c ↦ rw (c, written-outcome w r (guard r c) (ap (λ o. is_terminal (state_or o)) e ∙ t)) e
  | inr c ↦ rw c e
]

added-outcome :
    (id : Bytes) (runs : List Run) (r : Run) (end : Outcome)
    → map_some outcome (find_where (run_at id) runs) ≡ some end
    → map_some outcome (find_where (run_at id) (runs ++ r ∷ [])) ≡ some end
added-outcome id runs r end e = elim (Option-cases (find_where (run_at id) runs)) [
  | inl missing ↦ ground (arith, missing, e)
  | inr (old, found) ↦
      rw (find-append (run_at id) runs r old found) (sym (ap (map_some outcome) found) ∙ e)
]

pub written-run_id : (id : Bytes) (w : Write) (r : Run) → run_at id (written w r) ≡ run_at id r
written-run_id id (write_started pid at port path) r = refl
written-run_id id (write_running status at) r = refl
written-run_id id (write_status status at) r = refl
written-run_id id (write_unhealthy at) r = refl
written-run_id id (write_stopping at) r = refl
written-run_id id (write_deleted at) r = refl
written-run_id id (write_final state code reason at h) r = refl
written-run_id id (write_unknown reason at) r = refl

Change-outcome :
    {checked : Bool} {max : ℕ} {db next : Database} (id : Bytes) (end : Outcome)
    → Change checked max db next
    → is_terminal end.state ≡ true
    → outcome_of id db ≡ some end
    → outcome_of id next ≡ some end
unfolding get_run
Change-outcome id end (no_change db) t e = e
Change-outcome id end (adds_task new db absent) t e = e
Change-outcome id end (opens_tasks p f db same wide old) t e = e
Change-outcome id end (archives i at db) t e = e
Change-outcome id end (adds_run r new db found open_task idle below) t e =
    added-outcome id db.runs (stored_run r) end e
Change-outcome id end (inserts_run free r db) t e = added-outcome id db.runs (stored_run r) end e
Change-outcome id end (writes_runs w p db guard) t e =
    rw (find-update (run_at id) p (written w) (written-run_id id w) db.runs)
      (changed-outcome w p (find_where (run_at id) db.runs) end guard t e)

-- A run that is STOPPED, SUCCEEDED or FAILED keeps its state, its exit code, its exit reason and its
-- finishing time, whatever calls of the store follow, `CreateRun` among them.
pub calls-outcome_of :
    (max : ℕ) (cs : List Call) (db : Database) (id : Bytes) (end : Outcome)
    → is_terminal end.state ≡ true
    → outcome_of id db ≡ some end
    → outcome_of id (calls max cs db) ≡ some end
unfolding calls
calls-outcome_of max [] db id end t e = e
calls-outcome_of max (c ∷ cs) db id end t e =
    calls-outcome_of max cs (kept db (call max c db)) id end t
      (Change-outcome id end (kept-call-Change max c db) t e)
