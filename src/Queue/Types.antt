-- ===== src/Queue/Types.antt =====
-- The rows of pkg/models/task_info.go, the tables of
-- db/migrations/20230410105610_add_jobqueue.up.sql, the requests and errors of
-- pkg/tasks/queue/queue.go and the constants of pkg/config/tasks.go. An identifier (uuid) is a
-- number with 0 for uuid.Nil; a time is a number of nanoseconds; NULL is `none`.
use content_sources_backend.Common.{ℕ, Bool, Option, List, [], ◌∷◌, String, str_eq, any, Text}

-- The texts that the code writes to tasks.status.
pub data Status : Type 0 where
  pending running completed failed canceled : Status

pub Status-discrete : Discrete Status
Status-discrete = hlevel

pub record TaskInfo : Type 0 where
  pub id : ℕ
  pub typename : String
  pub payload : String
  pub org_id : String
  pub account_id : String
  pub object_uuid : Option String
  pub object_type : Option String
  pub token : Option ℕ
  pub queued_at : ℕ
  pub started_at : Option ℕ
  pub finished_at : Option ℕ
  pub error : Option Text
  pub status : Status
  pub request_id : String
  pub retries : ℕ
  pub next_retry_time : Option ℕ
  pub priority : ℕ
  pub cancel_attempted : Bool

-- A request to Enqueue.
pub record Task : Type 0 where
  pub typename : String
  pub payload : String
  pub dependencies : List ℕ
  pub org_id : String
  pub account_id : String
  pub object_uuid : Option String
  pub object_type : Option String
  pub request_id : String
  pub priority : ℕ

pub record Dependency : Type 0 where
  pub task_id : ℕ
  pub dependency_id : ℕ

pub record Heartbeat : Type 0 where
  pub token : ℕ
  pub id : ℕ
  pub heartbeat : ℕ

-- What NOTIFY tasks and pg_notify('cancel_task', id) send.
pub data Notification : Type 0 where
  tasks_changed : Notification
  cancel_task : ℕ → Notification

pub record Db : Type 0 where
  pub tasks : List TaskInfo
  pub dependencies : List Dependency
  pub heartbeats : List Heartbeat
  pub notifications : List Notification

-- The sentinels that a caller can find in an error; `db_error` is any other error of the
-- database, and `context_done` the end of the caller's context.
pub data Error : Type 0 where
  not_exist not_running task_canceled context_canceled rows_not_affected : Error
  max_retries_exceeded not_cancellable no_rows db_error context_done : Error

abbrev pub max_task_retries : ℕ
max_task_retries = 3

abbrev pub repository_snapshot_task : String
repository_snapshot_task = "snapshot"

abbrev pub delete_repository_snapshots_task : String
delete_repository_snapshots_task = "delete-repository-snapshots"

abbrev pub delete_snapshots_task : String
delete_snapshots_task = "delete-snapshots"

abbrev pub introspect_task : String
introspect_task = "introspect"

abbrev pub delete_templates_task : String
delete_templates_task = "delete-templates"

abbrev pub update_template_content_task : String
update_template_content_task = "update-template-content"

unfoldable pub contains : List String → String → Bool
contains names name = any (λ n. str_eq n name) names

abbrev pub requeueable_tasks : List String
requeueable_tasks =
    delete_templates_task ∷ delete_repository_snapshots_task ∷ update_template_content_task
    ∷ delete_snapshots_task ∷ []

abbrev pub cancellable_tasks : List String
cancellable_tasks = introspect_task ∷ repository_snapshot_task ∷ update_template_content_task ∷ []
