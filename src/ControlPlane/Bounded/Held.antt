-- ===== src/ControlPlane/Bounded/Held.antt =====
-- controlplane/store/repositories.go: the bounds hold after any calls.
use mathlib.Core.Path.{subst}
use redis_shake.Prelude.{ℕ, true, All, List, [], ◌∷◌, ◌≡◌, refl, arith}
use redis_shake.ControlPlane.Store.{Database, archivable, set_archived}
use redis_shake.ControlPlane.Calls.{Call, is_checked, call, kept, calls}
use redis_shake.ControlPlane.Changes.{
  written, Change, no_change, adds_task, opens_tasks, archives, adds_run, inserts_run, writes_runs,
}
use redis_shake.ControlPlane.Changes.Called.{kept-call-Change}
use redis_shake.ControlPlane.Bounded.{
  IsBounded, update_runs-IsBounded, update_tasks-IsBounded, add_task-IsBounded, add_run-IsBounded,
  room_open, room_le, asked-active, written-task_id,
}

Change-IsBounded :
    {max : ℕ} {db next : Database} → Change true max db next → IsBounded max db → IsBounded max next
Change-IsBounded (no_change db) h = h
Change-IsBounded {max} (adds_task t db e) h = add_task-IsBounded max t db e h
Change-IsBounded {max} (opens_tasks p f db same wide old) h =
    update_tasks-IsBounded max p f db same
      (λ t pt le. rw (room_open (f t) (wide t)) (omega (arith, le, room_le t))) h
Change-IsBounded {max} (archives id at db) h =
    update_tasks-IsBounded max (archivable id db.runs) (set_archived at) db (λ t. refl)
      (λ t pt le. ground (arith, pt)) h
Change-IsBounded {max} (adds_run r t db found open_task idle below) h =
    add_run-IsBounded max r t db found open_task idle below h
Change-IsBounded (inserts_run free r db) h = cc
Change-IsBounded {max} (writes_runs w p db guard) h =
    update_runs-IsBounded max p (written w) db (written-task_id w)
      (λ r pr. asked-active w r (guard r pr)) h

-- If no task of a database has more than one active run, an archived task and one that is not there
-- have none, and no more runs are active than a positive `MaxConcurrentRuns` says, then all this
-- still holds after any sequence of calls of the store, refused ones included, in which none is
-- `CreateRun`, the insertion with no check that only tests use.
pub calls-IsBounded :
    (max : ℕ) (cs : List Call) (db : Database)
    → All (λ c. is_checked c ≡ true) cs
    → IsBounded max db
    → IsBounded max (calls max cs db)
unfolding calls
calls-IsBounded max [] db safe h = h
calls-IsBounded max (c ∷ cs) db safe h = calls-IsBounded max cs (kept db (call max c db)) safe.1 (
    Change-IsBounded
      (subst (λ b. Change b max db (kept db (call max c db))) safe.0 (kept-call-Change max c db)) h)
