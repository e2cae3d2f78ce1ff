-- ===== src/ControlPlane/Store.antt =====
-- controlplane/store/repositories.go: the tasks and runs of the database, and the calls that write
-- them. A call that answers with an error leaves the database as it is.
use redis_shake.Prelude.{
  ℕ, ◌+◌, ◌^◌, Bool, true, ◌&&◌, ◌||◌, not, Option, none, some, List, [], ◌∷◌, ◌++◌, Bytes,
  bytes_eq, codes, ltb, leb, ◌==◌, if◌then◌else◌,
}
use redis_shake.Go.Strings.{to_upper, contains}
use redis_shake.ControlPlane.Domain.{
  TaskState, draft, ready, archived, Task, Run, same_task_state, is_active,
}
use redis_shake.ControlPlane.Rows.{update_where, count_where, find_where}

-- The ids of the connections, the tasks and the runs.
pub record Database : Type 0 where
  pub connections : List Bytes
  pub tasks : List Task
  pub runs : List Run

-- The errors of the package, a failed CHECK of a column, and a final state that is none.
pub data StoreError : Type 0 where
  not_found conflict revision_conflict task_not_ready active_run concurrency_limit in_use
        check_failed invalid_final_state :
      StoreError

pub data Answer (A : Type 0) : Type 0 where
  done : A → Answer A
  refused : StoreError → Answer A

-- A property of the database that a call leaves, where it is not refused.
abbrev pub Leaves : (Database → Type 0) → Answer Database → Type 0
Leaves P (done db) = P db
Leaves P (refused e) = Unit

abbrev pub task_at : Bytes → Task → Bool
task_at id t = bytes_eq t.id id

abbrev pub run_at : Bytes → Run → Bool
run_at id r = bytes_eq r.id id

unfoldable pub get_task : Bytes → Database → Option Task
unfolding find_where
get_task id db = find_where (task_at id) db.tasks

unfoldable pub get_run : Bytes → Database → Option Run
unfolding find_where
get_run id db = find_where (run_at id) db.runs

-- The active runs of a task, and the active runs of all tasks.
abbrev pub active_of : Bytes → Run → Bool
active_of task_id r = is_active r.state && bytes_eq r.task_id task_id

abbrev pub active : Run → Bool
active r = is_active r.state

unfoldable pub empty_json : Bytes → Bytes
empty_json [] = codes "{}"
empty_json (c ∷ s) = c ∷ s

-- FOREIGN KEY of a connection's id, which is NULL where it is empty.
unfoldable pub has_connection : Database → Bytes → Bool
has_connection db [] = true
has_connection db (c ∷ s) = contains db.connections (c ∷ s)

-- UNIQUE of `name COLLATE NOCASE`, beside the row of the same id.
abbrev pub same_name : Task → Task → Bool
same_name t other = bytes_eq (to_upper other.name) (to_upper t.name) && not (bytes_eq other.id t.id)

unfoldable pub keys_hold : Task → Database → Bool
keys_hold t db =
    count_where (same_name t) db.tasks == 0
    && has_connection db t.source_connection_id
    && has_connection db t.target_connection_id

abbrev pub with_json : Task → Task
with_json t = record t {
  reader_options = empty_json t.reader_options;
  filter_options = empty_json t.filter_options;
  advanced_options = empty_json t.advanced_options;
}

unfoldable pub create_task : Task → Database → Answer Database
create_task t db =
    if t.config_revision == 0
    then refused check_failed
    else if count_where (task_at t.id) db.tasks == 0 && keys_hold t db
    then done (record db { tasks = db.tasks ++ with_json t ∷ [] })
    else refused conflict

-- Why an UPDATE of a task has changed no row.
unfoldable pub task_write_miss : Bytes → ℕ → Database → StoreError
task_write_miss id expected_revision db = elim (get_task id db) [
  | none ↦ not_found
  | some t ↦ if t.config_revision == expected_revision then conflict else revision_conflict
]

-- `WHERE id = ? AND config_revision = ? AND state <> 'ARCHIVED'`.
abbrev pub writable : Bytes → ℕ → Task → Bool
writable id revision t =
    bytes_eq t.id id && t.config_revision == revision && not (same_task_state t.state archived)

abbrev pub set_task : Task → ℕ → Task → Task
set_task new new_revision t = record t {
  name = new.name;
  description = new.description;
  mode = new.mode;
  source_connection_id = new.source_connection_id;
  target_connection_id = new.target_connection_id;
  reader_options = empty_json new.reader_options;
  filter_options = empty_json new.filter_options;
  advanced_options = empty_json new.advanced_options;
  state = draft;
  config_revision = new_revision;
  updated_at = new.updated_at;
  last_prechecked_at = none;
  last_precheck_result = [];
}

-- The UPDATE of a task that one of `writable` stands for; no row, no change.
unfoldable pub write_task : Bytes → ℕ → (Task → Task) → Database → Answer Database
write_task id revision f db =
    if count_where (writable id revision) db.tasks == 0
    then refused (task_write_miss id revision db)
    else done (record db { tasks = update_where (writable id revision) f db.tasks })

-- The new revision is an `int64`: from 2 ^ 63 on it is negative, which the column refuses.
unfoldable pub update_task : Task → ℕ → Database → Answer Database
update_task task expected_revision db =
    if count_where (writable task.id expected_revision) db.tasks == 0
    then refused (task_write_miss task.id expected_revision db)
    else if leb (2 ^ 63) (expected_revision + 1)
    then refused check_failed
    else if keys_hold task db
    then done (record db {
      tasks =
          update_where (writable task.id expected_revision) (set_task task (expected_revision + 1))
            db.tasks;
    })
    else refused conflict

abbrev pub set_precheck : TaskState → ℕ → Bytes → Task → Task
set_precheck state checked_at result t = record t {
  state = state;
  updated_at = checked_at;
  last_prechecked_at = some checked_at;
  last_precheck_result = result;
}

unfoldable pub mark_task_ready : Bytes → ℕ → ℕ → Bytes → Database → Answer Database
unfolding write_task
mark_task_ready id revision checked_at result db =
    write_task id revision (set_precheck ready checked_at result) db

unfoldable pub save_task_precheck_result : Bytes → ℕ → ℕ → Bytes → Database → Answer Database
unfolding write_task
save_task_precheck_result id revision checked_at result db =
    write_task id revision (set_precheck draft checked_at result) db

-- `WHERE id = ? AND state <> 'ARCHIVED' AND NOT EXISTS (SELECT 1 FROM runs …)`.
abbrev pub archivable : Bytes → List Run → Task → Bool
archivable id runs t =
    bytes_eq t.id id
    && not (same_task_state t.state archived)
    && count_where (active_of t.id) runs == 0

abbrev pub set_archived : ℕ → Task → Task
set_archived at t = record t { state = archived; updated_at = at }

unfoldable pub archive_task : Bytes → ℕ → Database → Answer Database
archive_task id at db =
    if count_where (archivable id db.runs) db.tasks == 0
    then elim (get_task id db) [
      | none ↦ refused not_found
      | some t ↦ if same_task_state t.state archived then done db else refused in_use
    ]
    else done
        (record db { tasks = update_where (archivable id db.runs) (set_archived at) db.tasks })

-- The row that a run is stored as.
abbrev pub stored_run : Run → Run
stored_run r = record r {
  config_snapshot = empty_json r.config_snapshot;
  updated_at = if r.updated_at == 0 then r.started_at else r.updated_at;
}

-- CHECK of `status_port`, which may be NULL.
abbrev pub is_port : ℕ → Bool
is_port port = ltb 0 port && ltb port 65536

abbrev port_holds : Option ℕ → Bool
port_holds none = true
port_holds (some port) = is_port port

-- The CHECKs of a new row, then PRIMARY KEY and FOREIGN KEY.
unfoldable pub insert_run : Run → Database → Answer Database
insert_run r db =
    if r.config_revision == 0 || not (port_holds r.status_port)
    then refused check_failed
    else if count_where (run_at r.id) db.runs == 0
        && ltb 0 (count_where (task_at r.task_id) db.tasks)
    then done (record db { runs = db.runs ++ stored_run r ∷ [] })
    else refused conflict

-- No check of the task and of the other runs.
unfoldable pub create_run : Run → Database → Answer Database
unfolding insert_run
create_run r db = insert_run r db

-- The checks of `CreateRunIfNoActive` on the run's task.
unfoldable pub admit_run : Task → Run → ℕ → Database → Answer Database
unfolding insert_run
admit_run t r max_concurrent db =
    if not (same_task_state t.state ready) || not (t.config_revision == r.config_revision)
    then refused task_not_ready
    else if ltb 0 (count_where (active_of r.task_id) db.runs)
    then refused active_run
    else if ltb 0 max_concurrent && leb max_concurrent (count_where active db.runs)
    then refused concurrency_limit
    else insert_run r db

unfoldable pub create_run_if_no_active : Run → ℕ → Database → Answer Database
unfolding admit_run
create_run_if_no_active r max_concurrent db = elim (get_task r.task_id db) [
  | none ↦ refused not_found
  | some t ↦ admit_run t r max_concurrent db
]
