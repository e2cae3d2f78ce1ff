-- ===== src/ControlPlane/Changes/Called.antt =====
-- controlplane/store/repositories.go: every call makes a change of the relation.
use redis_shake.Prelude.{
  ℕ, ◌+◌, ◌<◌, ◌^◌, Bool, true, false, [], ◌∷◌, ◌++◌, ◌⊎◌, not, ◌&&◌, ◌||◌, Option, some, Bytes,
  ltb, leb, ◌==◌, ==_iff, ◌≡◌, refl, Bool-cases, inl, inr, Option-cases, arith,
}
use redis_shake.Prelude.Int.{ℤ}
use redis_shake.ControlPlane.Domain.{
  draft, ready, archived, RunState, stopping, Task, Run, same_task_state, same_run_state,
  is_terminal,
}
use redis_shake.ControlPlane.Rows.{count_where}
use redis_shake.ControlPlane.Store.{
  Database, Answer, done, refused, Leaves, task_at, get_task, get_run, active_of, active,
  archivable, writable, keys_hold, write_task, create_task, update_task, mark_task_ready,
  save_task_precheck_result, archive_task, insert_run, create_run, admit_run,
  create_run_if_no_active, is_port, stored_run, StoreError, set_task, set_precheck,
}
use redis_shake.ControlPlane.Calls.{
  run_in, write_run, is_stoppable, request_run_stop, live, finalize_run, update_run_started,
  mark_run_running, update_run_status, mark_run_status_unhealthy, mark_active_runs_unknown,
  mark_run_artifacts_deleted, Call, creates_task, updates_task, marks_task_ready, saves_precheck,
  archives_task, creates_run, inserts_run, is_checked, is_starting, starts_run, marks_running,
  updates_status, marks_unhealthy, requests_stop, deletes_artifacts, finalizes, marks_unknown, call,
  kept,
}
use redis_shake.ControlPlane.Changes.{
  Write, write_started, write_running, write_status, write_unhealthy, write_stopping, write_deleted,
  write_final, write_unknown, written, asked, Change, no_change, adds_task, opens_tasks, archives,
  adds_run, writes_runs,
}

write_task-Change :
    (max : ℕ) (id : Bytes) (revision : ℕ) (f : Task → Task) (db : Database)
    → ((t : Task) → (f t).id ≡ t.id)
    → ((t : Task) → same_task_state (f t).state archived ≡ false)
    → Leaves (Change true max db) (write_task id revision f db)
unfolding write_task
write_task-Change max id revision f db same wide =
    elim (Bool-cases (count_where (writable id revision) db.tasks == 0)) [
      | inl e ↦ rw e tt
      | inr e ↦
          rw e (opens_tasks (writable id revision) f db same wide (λ t pt. ground (arith, pt)))
    ]

create_task-Change :
    (max : ℕ) (t : Task) (db : Database) → Leaves (Change true max db) (create_task t db)
unfolding create_task
create_task-Change max t db = elim (Bool-cases (t.config_revision == 0)) [
  | inl e ↦ rw e tt
  | inr e ↦ elim (Bool-cases (count_where (task_at t.id) db.tasks == 0 && keys_hold t db)) [
    | inl c ↦
        rw (e, c)
          (adds_task t db ((==_iff (count_where (task_at t.id) db.tasks) 0).0 (ground (arith, c))))
    | inr c ↦ rw (e, c) tt
  ]
]

update_task-Change :
    (max : ℕ) (t : Task) (revision : ℕ) (db : Database)
    → Leaves (Change true max db) (update_task t revision db)
unfolding update_task
update_task-Change max t revision db =
    elim (Bool-cases (count_where (writable t.id revision) db.tasks == 0)) [
      | inl e ↦ rw e tt
      | inr e ↦ elim (Bool-cases (leb (2 ^ 63) (revision + 1))) [
        | inl c ↦ rw (e, c) tt
        | inr c ↦ elim (Bool-cases (keys_hold t db)) [
          | inl k ↦
              rw (e, c, k)
                (opens_tasks (writable t.id revision) (set_task t (revision + 1)) db (λ x. refl)
                  (λ x. refl) (λ x px. ground (arith, px)))
          | inr k ↦ rw (e, c, k) tt
        ]
      ]
    ]

archive_task-Change :
    (max : ℕ) (id : Bytes) (at : ℕ) (db : Database)
    → Leaves (Change true max db) (archive_task id at db)
unfolding archive_task
archive_task-Change max id at db =
    elim (Bool-cases (count_where (archivable id db.runs) db.tasks == 0)) [
      | inr e ↦ rw e (archives id at db)
      | inl e ↦ elim (Option-cases (get_task id db)) [
        | inl missing ↦ rw (e, missing) tt
        | inr (t, found) ↦ elim (Bool-cases (same_task_state t.state archived)) [
          | inl c ↦ rw (e, found, c) (no_change db)
          | inr c ↦ rw (e, found, c) tt
        ]
      ]
    ]

pub Answer-cases :
    (a : Answer Database) → ((db : Database) × (a ≡ done db)) ⊎ ((e : StoreError) × (a ≡ refused e))
Answer-cases (done db) = inl (db, refl)
Answer-cases (refused e) = inr (e, refl)

-- A run that is inserted stands behind the others.
pub inserted :
    (r : Run) (db next : Database)
    → insert_run r db ≡ done next
    → next ≡ record db { runs = db.runs ++ stored_run r ∷ [] }
unfolding insert_run
inserted r db next e = ground (arith, e)

insert_run-Change :
    (max : ℕ) (r : Run) (t : Task) (db : Database)
    → get_task r.task_id db ≡ some t
    → same_task_state t.state archived ≡ false
    → count_where (active_of r.task_id) db.runs ≡ 0
    → (0 < max → count_where active db.runs < max)
    → Leaves (Change true max db) (insert_run r db)
insert_run-Change max r t db found open_task idle below = elim (Answer-cases (insert_run r db)) [
  | inr (error, e) ↦ rw e tt
  | inl (next, e) ↦ rw (e, inserted r db next e) (adds_run r t db found open_task idle below)
]

create_run-Change :
    (max : ℕ) (r : Run) (db : Database) → Leaves (Change false max db) (create_run r db)
unfolding create_run
create_run-Change max r db = elim (Answer-cases (insert_run r db)) [
  | inr (error, e) ↦ rw (create_run, e) tt
  | inl (next, e) ↦ rw (create_run, e, inserted r db next e) (Change.inserts_run refl r db)
]

admit_run-Change :
    (max : ℕ) (r : Run) (t : Task) (db : Database)
    → get_task r.task_id db ≡ some t
    → Leaves (Change true max db) (admit_run t r max db)
unfolding admit_run
admit_run-Change max r t db found =
    elim (Bool-cases
      (not (same_task_state t.state ready) || not (t.config_revision == r.config_revision))) [
        | inl a ↦ rw a tt
        | inr a ↦ elim (Bool-cases (ltb 0 (count_where (active_of r.task_id) db.runs))) [
          | inl b ↦ rw (a, b) tt
          | inr b ↦ elim (Bool-cases (ltb 0 max && leb max (count_where active db.runs))) [
            | inl c ↦ rw (a, b, c) tt
            | inr c ↦
                rw (a, b, c)
                  (insert_run-Change max r t db found (ground (arith, a)) (ground (arith, b))
                    (λ pos_max. ground (arith, c)))
          ]
        ]
      ]

admitted_run-Change :
    (max : ℕ) (r : Run) (db : Database)
    → Leaves (Change true max db) (create_run_if_no_active r max db)
unfolding create_run_if_no_active
admitted_run-Change max r db = elim (Option-cases (get_task r.task_id db)) [
  | inl missing ↦ rw (create_run_if_no_active, missing) tt
  | inr (t, found) ↦ rw (create_run_if_no_active, found) (admit_run-Change max r t db found)
]

write_run-Change :
    (max : ℕ) (id : Bytes) (w : Write) (db : Database)
    → Leaves (Change true max db) (write_run id (asked w) (written w) db)
unfolding write_run
write_run-Change max id w db = elim (Bool-cases (count_where (run_in id (asked w)) db.runs == 0)) [
  | inl e ↦ rw e tt
  | inr e ↦ rw e (writes_runs w (run_in id (asked w)) db (λ r pr. ground (arith, pr)))
]

request_run_stop-Change :
    (max : ℕ) (id : Bytes) (at : ℕ) (db : Database)
    → Leaves (Change true max db) (request_run_stop id at db)
unfolding request_run_stop
request_run_stop-Change max id at db =
    elim (Bool-cases (count_where (run_in id is_stoppable) db.runs == 0)) [
      | inr e ↦
          rw e (
            writes_runs (write_stopping at) (run_in id is_stoppable) db
              (λ r pr. ground (arith, pr)))
      | inl e ↦ elim (Option-cases (get_run id db)) [
        | inl missing ↦ rw (e, missing) tt
        | inr (r, found) ↦ elim (Bool-cases (same_run_state r.state stopping)) [
          | inl c ↦ rw (e, found, c) (no_change db)
          | inr c ↦ rw (e, found, c) tt
        ]
      ]
    ]

finalize_run-Change :
    (max : ℕ) (id : Bytes) (state : RunState) (code : Option ℤ) (reason : Bytes) (at : ℕ)
    (db : Database)
    → Leaves (Change true max db) (finalize_run id state code reason at db)
unfolding finalize_run
finalize_run-Change max id state code reason at db = elim (Bool-cases (is_terminal state)) [
  | inl e ↦ rw e (write_run-Change max id (write_final state code reason at e) db)
  | inr e ↦ rw e tt
]

call-Change :
    (max : ℕ) (c : Call) (db : Database) → Leaves (Change (is_checked c) max db) (call max c db)
unfolding call mark_task_ready save_task_precheck_result update_run_started mark_run_running
    update_run_status mark_run_status_unhealthy mark_active_runs_unknown mark_run_artifacts_deleted
call-Change max (creates_task t) db = create_task-Change max t db
call-Change max (updates_task t revision) db = update_task-Change max t revision db
call-Change max (marks_task_ready id rev at result) db =
    write_task-Change max id rev (set_precheck ready at result) db (λ t. refl) (λ t. refl)
call-Change max (saves_precheck id rev at result) db =
    write_task-Change max id rev (set_precheck draft at result) db (λ t. refl) (λ t. refl)
call-Change max (archives_task id at) db = archive_task-Change max id at db
call-Change max (creates_run r) db = admitted_run-Change max r db
call-Change max (inserts_run r) db = create_run-Change max r db
call-Change max (starts_run id pid at port path) db =
    elim (Bool-cases (ltb 0 (count_where (run_in id is_starting) db.runs) && not (is_port port))) [
      | inl e ↦ rw e tt
      | inr e ↦ rw e (write_run-Change max id (write_started pid at port path) db)
    ]
call-Change max (marks_running id status at) db =
    write_run-Change max id (write_running status at) db
call-Change max (updates_status id status at) db =
    write_run-Change max id (write_status status at) db
call-Change max (marks_unhealthy id at) db = write_run-Change max id (write_unhealthy at) db
call-Change max (requests_stop id at) db = request_run_stop-Change max id at db
call-Change max (deletes_artifacts id at) db = write_run-Change max id (write_deleted at) db
call-Change max (finalizes id state code reason at) db =
    finalize_run-Change max id state code reason at db
call-Change max (marks_unknown reason at) db =
    writes_runs (write_unknown reason at) live db (λ r pr. pr)

kept-Change :
    (checked : Bool) (max : ℕ) (db : Database) (a : Answer Database)
    → Leaves (Change checked max db) a
    → Change checked max db (kept db a)
unfolding kept
kept-Change checked max db (done next) c = c
kept-Change checked max db (refused e) c = no_change db

-- A call changes the database by a step of `Change`, or not at all.
pub kept-call-Change :
    (max : ℕ) (c : Call) (db : Database) → Change (is_checked c) max db (kept db (call max c db))
kept-call-Change max c db = kept-Change (is_checked c) max db (call max c db) (call-Change max c db)
