-- ===== src/ControlPlane/Bounded.antt =====
-- controlplane/store/repositories.go: how many runs are active at a time.
pub mod Held
use redis_shake.Prelude.{
  ℕ, ◌+◌, ◌≤◌, ◌<◌, Bool, true, false, ◌&&◌, Option, none, some, List, [], ◌∷◌, ◌++◌, Bytes,
  bytes_eq, bytes_eq_iff, if◌then◌else◌, ◌≡◌, refl, ap, Bool-cases, inl, inr, Option-cases, arith,
}
use redis_shake.ControlPlane.Domain.{
  archived, Task, Run, same_task_state, is_active, is_live, is_terminal,
}
use redis_shake.ControlPlane.Rows.{update_where, count_where, find_where}
use redis_shake.ControlPlane.Rows.Laws.{
  map_some, one_if, count-update_le, count-append, find-update, find-append, find_where-holds,
}
use redis_shake.ControlPlane.Store.{
  Database, task_at, get_task, active_of, active, archivable, with_json, set_archived,
}
use redis_shake.ControlPlane.Store.{stored_run}
use redis_shake.ControlPlane.Calls.{Call, call, kept, calls}
use redis_shake.ControlPlane.Changes.{
  Write, write_started, write_running, write_status, write_unhealthy, write_stopping, write_deleted,
  write_final, write_unknown, written, asked, Change, no_change, adds_task, opens_tasks, archives,
  adds_run, writes_runs,
}
use redis_shake.ControlPlane.Changes.Called.{kept-call-Change}

-- The active runs that a task may have: none where it is archived or not there, else one.
abbrev pub room : Option Task → ℕ
room none = 0
room (some t) = if same_task_state t.state archived then 0 else 1

abbrev pub IsBounded : ℕ → Database → Type 0
IsBounded max db =
    ((id : Bytes) → count_where (active_of id) db.runs ≤ room (get_task id db))
    × (0 < max → count_where active db.runs ≤ max)

-- An UPDATE of the runs that makes none active that is not.
pub update_runs-IsBounded :
    (max : ℕ) (p : Run → Bool) (f : Run → Run) (db : Database)
    → ((r : Run) → (f r).task_id ≡ r.task_id)
    → ((r : Run) → p r ≡ true → is_active (f r).state ≡ true → is_active r.state ≡ true)
    → IsBounded max db
    → IsBounded max (record db { runs = update_where p f db.runs })
unfolding get_task
update_runs-IsBounded max p f db same h (per_task, all) = (
  λ id. omega (
    arith,
    per_task id,
    count-update_le (active_of id) p f (λ r pr q. ground (arith, same r, h r pr, q)) db.runs,
  ),
  λ pos_max. omega (arith, all pos_max, count-update_le active p f h db.runs),
)

-- What an UPDATE of the tasks leaves of the room of each.
changed_room :
    (n : ℕ) (p : Task → Bool) (f : Task → Task) (t : Task)
    → (p t ≡ true → n ≤ room (some t) → n ≤ room (some (f t)))
    → n ≤ room (some t)
    → n ≤ room (some (if p t then f t else t))
changed_room n p f t h le = elim (Bool-cases (p t)) [ inl e ↦ rw e (h e le) | inr e ↦ rw e le ]

found_room :
    (n : ℕ) (p : Task → Bool) (f : Task → Task) (o : Option Task)
    → ((t : Task) → o ≡ some t → p t ≡ true → n ≤ room (some t) → n ≤ room (some (f t)))
    → n ≤ room o
    → n ≤ room (map_some (λ t. if p t then f t else t) o)
found_room n p f none h le = le
found_room n p f (some t) h le = changed_room n p f t (h t refl) le

pub update_tasks-IsBounded :
    (max : ℕ) (p : Task → Bool) (f : Task → Task) (db : Database)
    → ((t : Task) → (f t).id ≡ t.id)
    → ((t : Task)
        → p t ≡ true
        → count_where (active_of t.id) db.runs ≤ room (some t)
        → count_where (active_of t.id) db.runs ≤ room (some (f t)))
    → IsBounded max db
    → IsBounded max (record db { tasks = update_where p f db.tasks })
unfolding get_task
update_tasks-IsBounded max p f db same h (per_task, all) = (
  λ id. rw (find-update (task_at id) p f (λ t. ap (λ i. bytes_eq i id) (same t)) db.tasks) (
      found_room (count_where (active_of id) db.runs) p f (find_where (task_at id) db.tasks)
        (λ t e pt.
          rw (← (bytes_eq_iff t.id id).0 (find_where-holds (task_at id) db.tasks t e)) (h t pt))
        (per_task id)),
  all,
)

pub add_task-IsBounded :
    (max : ℕ) (t : Task) (db : Database)
    → count_where (task_at t.id) db.tasks ≡ 0
    → IsBounded max db
    → IsBounded max (record db { tasks = db.tasks ++ with_json t ∷ [] })
unfolding get_task
add_task-IsBounded max t db e (per_task, all) = (
  λ id. elim (Option-cases (find_where (task_at id) db.tasks)) [
    | inl missing ↦ omega (arith, per_task id, ap room missing)
    | inr (other, found) ↦
        rw (find-append (task_at id) db.tasks (with_json t) other found)
          (omega (arith, per_task id, ap room found))
  ],
  all,
)

pub room_open : (t : Task) → same_task_state t.state archived ≡ false → room (some t) ≡ 1
room_open t e = rw e refl

pub room_le : (t : Task) → room (some t) ≤ 1
room_le t = elim (Bool-cases (same_task_state t.state archived)) [
  | inl e ↦ rw e (omega arith)
  | inr e ↦ rw e (omega arith)
]

one_if_le : (b : Bool) → one_if b ≤ 1
one_if_le true = omega arith
one_if_le false = omega arith

added_count :
    (id : Bytes) (r : Run) (runs : List Run) (n : ℕ)
    → (bytes_eq r.task_id id ≡ true → count_where (active_of id) runs + 1 ≤ n)
    → count_where (active_of id) runs ≤ n
    → count_where (active_of id) (runs ++ r ∷ []) ≤ n
added_count id r runs n more le = elim (Bool-cases (bytes_eq r.task_id id)) [
  | inl c ↦ omega (
    arith,
    more c,
    count-append (active_of id) runs r,
    one_if_le (is_active r.state && bytes_eq r.task_id id),
  )
  | inr c ↦
      let no_more : one_if (is_active r.state && bytes_eq r.task_id id) ≡ 0 = ground (arith, c) in
      omega (arith, le, count-append (active_of id) runs r, no_more)
]

-- The states that a write asks for are active where it leaves an active run.
pub asked-active :
    (w : Write) (r : Run)
    → asked w r.state ≡ true
    → is_active (written w r).state ≡ true
    → is_active r.state ≡ true
unfolding is_active is_live is_terminal
asked-active (write_started pid at port path) r e h = h
asked-active (write_running status at) r e h = ground arith
asked-active (write_status status at) r e h = h
asked-active (write_unhealthy at) r e h = h
asked-active (write_stopping at) r e h = ground arith
asked-active (write_deleted at) r e h = h
asked-active (write_final state code reason at done_with) r e h = e
asked-active (write_unknown reason at) r e h = ground arith

pub written-task_id : (w : Write) (r : Run) → (written w r).task_id ≡ r.task_id
written-task_id (write_started pid at port path) r = refl
written-task_id (write_running status at) r = refl
written-task_id (write_status status at) r = refl
written-task_id (write_unhealthy at) r = refl
written-task_id (write_stopping at) r = refl
written-task_id (write_deleted at) r = refl
written-task_id (write_final state code reason at done_with) r = refl
written-task_id (write_unknown reason at) r = refl

pub add_run-IsBounded :
    (max : ℕ) (r : Run) (t : Task) (db : Database)
    → get_task r.task_id db ≡ some t
    → same_task_state t.state archived ≡ false
    → count_where (active_of r.task_id) db.runs ≡ 0
    → (0 < max → count_where active db.runs < max)
    → IsBounded max db
    → IsBounded max (record db { runs = db.runs ++ stored_run r ∷ [] })
unfolding get_task
add_run-IsBounded max r t db found open_task idle below (per_task, all) = (
  λ id.
      added_count id (stored_run r) db.runs (room (get_task id db))
        (λ c.
          rw (← (bytes_eq_iff r.task_id id).0 c)
            (omega (arith, idle, ap room found, room_open t open_task)))
        (per_task id),
  λ pos_max. omega (
    arith,
    below pos_max,
    count-append active db.runs (stored_run r),
    one_if_le (is_active r.state),
  ),
)
