-- ===== src/ControlPlane/Stale.antt =====
-- controlplane/store/repositories.go: writes that go by an old revision of a task.
use redis_shake.Prelude.{
  ℕ, ◌+◌, ◌≤◌, ◌^◌, Bool, true, false, some, List, [], ◌∷◌, Bytes, leb, ◌==◌, if◌then◌else◌, ◌≡◌,
  refl, ap, ◌∙◌, Bool-cases, inl, inr, arith,
}
use redis_shake.ControlPlane.Domain.{draft, Task, Run}
use redis_shake.ControlPlane.Rows.{update_where, count_where, find_where}
use redis_shake.ControlPlane.Rows.Laws.{map_some, find-update}
use redis_shake.ControlPlane.Store.{
  Database, done, refused, revision_conflict, task_not_ready, task_at, get_task, writable,
  task_write_miss, set_task, write_task, update_task, mark_task_ready, save_task_precheck_result,
  keys_hold, admit_run, create_run_if_no_active,
}

count_none :
    {A : Type 0} (p q : A → Bool)
    → ((x : A) → p x ≡ true → q x ≡ true)
    → (xs : List A) → count_where q xs ≡ 0
    → count_where p xs ≡ 0
unfolding count_where
count_none p q h [] e = refl
count_none p q h (x ∷ xs) e = elim (Bool-cases (p x)) [
  | inl c ↦ ground (arith, h x c, e)
  | inr c ↦ rw c (ground (arith, count_none p q h xs (ground (arith, e))))
]

-- Where one row at most passes a test, and one passes a narrower test, that is the row found.
found_of_count :
    {A : Type 0} (p q : A → Bool)
    → ((x : A) → p x ≡ true → q x ≡ true)
    → (xs : List A) → count_where q xs ≤ 1
    → (count_where p xs == 0) ≡ false
    → (x : A) × (find_where q xs ≡ some x) × (p x ≡ true)
unfolding count_where find_where
found_of_count p q h [] le e = ground (arith, e)
found_of_count p q h (x ∷ xs) le e = elim (Bool-cases (q x)) [
  | inl c ↦ elim (Bool-cases (p x)) [
    | inl d ↦ (x, rw c refl, d)
    | inr d ↦
        let none_left : count_where p xs ≡ 0 = count_none p q h xs (ground (arith, c, le)) in
        ground (arith, none_left, d, e)
  ]
  | inr c ↦
      let not_this : p x ≡ false = ground (arith, h x, c) in
      let (y, found, holds) =
        found_of_count p q h xs (ground (arith, le)) (ground (arith, e, not_this)) in
      (y, rw c found, holds)
]

-- After an UPDATE no row has the old revision that had it.
no_writable :
    (id : Bytes) (revision : ℕ) (new : Task) (tasks : List Task)
    → count_where
        (writable id revision)
        (update_where (writable id revision) (set_task new (revision + 1)) tasks)
      ≡ 0
unfolding count_where update_where
no_writable id revision new [] = refl
no_writable id revision new (t ∷ tasks) = elim (Bool-cases (writable id revision t)) [
  | inl c ↦ rw c (ground (arith, no_writable id revision new tasks))
  | inr c ↦ rw (c, c) (omega (arith, no_writable id revision new tasks))
]

-- What an update of a task leaves.
abbrev updated : Task → ℕ → Database → Database
updated new revision db = record db {
  tasks = update_where (writable new.id revision) (set_task new (revision + 1)) db.tasks;
}

update_task-done :
    (new : Task) (revision : ℕ) (db next : Database)
    → update_task new revision db ≡ done next
    → ((count_where (writable new.id revision) db.tasks == 0) ≡ false)
      × (next ≡ updated new revision db)
unfolding update_task
update_task-done new revision db next e =
    elim (Bool-cases (count_where (writable new.id revision) db.tasks == 0)) [
      | inl a ↦ ground (arith, a, e)
      | inr a ↦ elim (Bool-cases (leb (2 ^ 63) (revision + 1))) [
        | inl b ↦ ground (arith, a, b, e)
        | inr b ↦ elim (Bool-cases (keys_hold new db)) [
          | inl c ↦ (a, ground (arith, a, b, c, e))
          | inr c ↦ ground (arith, a, b, c, e)
        ]
      ]
    ]

-- The task that is found after the update.
updated_task :
    (new : Task) (revision : ℕ) (db : Database)
    → count_where (task_at new.id) db.tasks ≤ 1
    → (count_where (writable new.id revision) db.tasks == 0) ≡ false
    → (t : Task) × (get_task new.id (updated new revision db)
        ≡ some (set_task new (revision + 1) t))
unfolding get_task
updated_task new revision db key e =
    let (t, found, holds) =
      found_of_count (writable new.id revision) (task_at new.id) (λ x h. ground (arith, h)) db.tasks
        key e in
    (
      t,
      find-update (task_at new.id) (writable new.id revision) (set_task new (revision + 1))
            (λ x. refl) db.tasks
          ∙ ap
              (map_some (λ (x : Task).
                if writable new.id revision x then set_task new (revision + 1) x else x))
              found
          ∙ rw holds refl,
    )

miss_found :
    (id : Bytes) (revision : ℕ) (db : Database) (t : Task)
    → get_task id db ≡ some t
    → (t.config_revision == revision) ≡ false
    → task_write_miss id revision db ≡ revision_conflict
unfolding task_write_miss
miss_found id revision db t found e = rw (task_write_miss, found, e) refl

draft_refused :
    (r : Run) (max : ℕ) (db : Database) (t : Task)
    → get_task r.task_id db ≡ some t
    → t.state ≡ draft
    → create_run_if_no_active r max db ≡ refused task_not_ready
unfolding create_run_if_no_active admit_run
draft_refused r max db t found e = rw (create_run_if_no_active, found, admit_run, e) refl

miss_updated :
    (new : Task) (revision : ℕ) (db : Database)
    → count_where (task_at new.id) db.tasks ≤ 1
    → (count_where (writable new.id revision) db.tasks == 0) ≡ false
    → task_write_miss new.id revision (updated new revision db) ≡ revision_conflict
unfolding task_write_miss
miss_updated new revision db key e =
    let (t, found) = updated_task new revision db key e in
    miss_found new.id revision (updated new revision db) (set_task new (revision + 1) t) found
      (ground arith)

-- Once a task is updated, a second writer that still goes by the old revision is told of the
-- conflict, be it an update of the task or the result of a precheck, and no run of the task is
-- created, whatever revision it names, since the task waits for a precheck again. The id of a task is
-- a primary key.
pub update_task-revision_conflict :
    (new : Task) (revision : ℕ) (db next : Database)
    → count_where (task_at new.id) db.tasks ≤ 1
    → update_task new revision db ≡ done next
    → ((other : Task)
        → other.id ≡ new.id
        → update_task other revision next ≡ refused revision_conflict)
      × ((at : ℕ) (result : Bytes)
          → (mark_task_ready new.id revision at result next ≡ refused revision_conflict)
            × (save_task_precheck_result new.id revision at result next
                ≡ refused revision_conflict))
      × ((r : Run) (max : ℕ)
          → r.task_id ≡ new.id
          → create_run_if_no_active r max next ≡ refused task_not_ready)
unfolding update_task mark_task_ready save_task_precheck_result write_task
update_task-revision_conflict new revision db next key e =
    let (matched, is_next) = update_task-done new revision db next e in
    let miss = miss_updated new revision db key matched in
    let gone = no_writable new.id revision new db.tasks in
    let (t, found) = updated_task new revision db key matched in
    rw is_next (
      λ other same. rw (same, gone) (ap refused miss),
      λ at result. (rw gone (ap refused miss), rw gone (ap refused miss)),
      λ r max same.
          draft_refused r max (updated new revision db) (set_task new (revision + 1) t)
            (ap (λ id. get_task id (updated new revision db)) same ∙ found) refl,
    )
