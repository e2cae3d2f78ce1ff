-- ===== src/ControlPlane/Domain.antt =====
-- controlplane/domain/models.go: tasks, runs, their states and the tables of allowed transitions.
use redis_shake.Prelude.{ℕ, Bool, true, false, Option, Bytes, ◌==◌, if◌then◌else◌, ◌||◌}
use redis_shake.Prelude.Int.{ℤ}

pub data TaskMode : Type 0 where
  sync scan : TaskMode

pub data TaskState : Type 0 where
  draft ready archived : TaskState

pub data RunState : Type 0 where
  starting running stopping stopped succeeded failed unknown : RunState

-- `==` on the states, which are strings.
abbrev pub task_code : TaskState → ℕ
task_code draft = 0
task_code ready = 1
task_code archived = 2

abbrev pub run_code : RunState → ℕ
run_code starting = 0
run_code running = 1
run_code stopping = 2
run_code stopped = 3
run_code succeeded = 4
run_code failed = 5
run_code unknown = 6

abbrev pub same_task_state : TaskState → TaskState → Bool
same_task_state a b = task_code a == task_code b

abbrev pub same_run_state : RunState → RunState → Bool
same_run_state a b = run_code a == run_code b

pub record Task : Type 0 where
  pub id : Bytes
  pub name : Bytes
  pub description : Bytes
  pub mode : TaskMode
  pub source_connection_id : Bytes
  pub target_connection_id : Bytes
  pub reader_options : Bytes
  pub filter_options : Bytes
  pub advanced_options : Bytes
  pub state : TaskState
  pub config_revision : ℕ
  pub created_at : ℕ
  pub updated_at : ℕ
  pub last_prechecked_at : Option ℕ
  pub last_precheck_result : Bytes

pub record Run : Type 0 where
  pub id : Bytes
  pub task_id : Bytes
  pub config_revision : ℕ
  pub config_snapshot : Bytes
  pub state : RunState
  pub pid : Option ℕ
  pub process_started_at : Option ℕ
  pub status_port : Option ℕ
  pub runtime_dir : Bytes
  pub started_at : ℕ
  pub finished_at : Option ℕ
  pub exit_code : Option ℤ
  pub exit_reason : Bytes
  pub last_heartbeat_at : Option ℕ
  pub stop_requested_by_user : Bool
  pub status_json : Bytes
  pub status_healthy : Bool
  pub worker_path : Bytes
  pub updated_at : ℕ
  pub artifacts_deleted_at : Option ℕ

-- `allowed[from][to]` of the tasks.
unfoldable pub allowed_task : TaskState → TaskState → Bool
allowed_task draft ready = true
allowed_task draft archived = true
allowed_task ready draft = true
allowed_task ready archived = true
allowed_task _ _ = false

-- Whether `ValidateTaskTransition` returns no error.
unfoldable pub validate_task_transition : TaskState → TaskState → Bool
unfolding allowed_task
validate_task_transition from to = if same_task_state from to then true else allowed_task from to

-- `allowed[from][to]` of the runs.
unfoldable pub allowed_run : RunState → RunState → Bool
allowed_run starting running = true
allowed_run starting stopping = true
allowed_run starting failed = true
allowed_run starting unknown = true
allowed_run running stopping = true
allowed_run running succeeded = true
allowed_run running failed = true
allowed_run running unknown = true
allowed_run stopping stopped = true
allowed_run stopping failed = true
allowed_run stopping unknown = true
allowed_run unknown running = true
allowed_run unknown stopping = true
allowed_run unknown stopped = true
allowed_run unknown failed = true
allowed_run _ _ = false

-- Whether `ValidateRunTransition` returns no error.
unfoldable pub validate_run_transition : RunState → RunState → Bool
unfolding allowed_run
validate_run_transition from to = if same_run_state from to then true else allowed_run from to

-- `state IN ('STARTING', 'RUNNING', 'STOPPING', 'UNKNOWN')`.
unfoldable pub is_active : RunState → Bool
is_active starting = true
is_active running = true
is_active stopping = true
is_active unknown = true
is_active _ = false

-- `state IN ('STARTING', 'RUNNING', 'STOPPING')`.
unfoldable pub is_live : RunState → Bool
is_live starting = true
is_live running = true
is_live stopping = true
is_live _ = false

-- `isTerminal` of engine/manager.go.
unfoldable pub is_terminal : RunState → Bool
is_terminal state =
    same_run_state state stopped || same_run_state state succeeded || same_run_state state failed
