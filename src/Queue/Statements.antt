-- ===== src/Queue/Statements.antt =====
-- The SQL texts of pkg/tasks/queue/pgqueue.go, each as a function on the tables.
use content_sources_backend.Common.{
  ℕ, ◌+◌, Bool, true, false, not, ◌&&◌, ◌||◌, Option, none, some, List, [], ◌∷◌, ◌++◌, map, String,
  ltb, leb, ◌==◌, if◌then◌else◌, is_none, is_some, any, take, Text, str_eq,
}
use content_sources_backend.Table.{update, delete, matching}
use content_sources_backend.Queue.Types.{
  Status, pending, running, failed, canceled, TaskInfo, Task, Dependency, Notification, Db,
  contains, max_task_retries,
}

abbrev pub is_running : Status → Bool
is_running running = true
is_running _ = false

abbrev pub is_canceled : Status → Bool
is_canceled canceled = true
is_canceled _ = false

abbrev pub is_failed : Status → Bool
is_failed failed = true
is_failed _ = false

abbrev pub has_id : ℕ → TaskInfo → Bool
has_id id t = t.id == id

-- The columns of taskInfoReturning: all of a row but its account_id, which stays empty in what the
-- statement returns.
abbrev pub returning : TaskInfo → TaskInfo
returning t = record t { account_id = "" }

unfoldable pub new_row : Task → ℕ → ℕ → TaskInfo
new_row task id now = record {
  id = id;
  typename = task.typename;
  payload = task.payload;
  org_id = task.org_id;
  account_id = task.account_id;
  object_uuid = task.object_uuid;
  object_type = task.object_type;
  token = none;
  queued_at = now;
  started_at = none;
  finished_at = none;
  error = none;
  status = pending;
  request_id = task.request_id;
  retries = 0;
  next_retry_time = none;
  priority = task.priority;
  cancel_attempted = false;
}

abbrev pub nil_uuid : String
nil_uuid = "00000000-0000-0000-0000-000000000000"

-- The constraint non_null_obj_type_if_uuid: an object has a type, and the nil object has none. It
-- passes where there is no object.
abbrev pub breaks_object_constraint : Task → Bool
breaks_object_constraint task = elim task.object_uuid [
  | none ↦ false
  | some uuid ↦ if str_eq uuid nil_uuid then is_some task.object_type else is_none task.object_type
]

-- sqlEnqueue; the primary key refuses an identifier that is taken.
unfoldable pub insert_task : Task → ℕ → ℕ → Db → Option Db
unfolding new_row
insert_task task id now d =
    if any (has_id id) d.tasks || breaks_object_constraint task
    then none
    else some (record d { tasks = new_row task id now ∷ d.tasks })

-- sqlInsertDependency; both identifiers are foreign keys.
unfoldable pub insert_dependency : ℕ → ℕ → Db → Option Db
insert_dependency id on d =
    if any (has_id id) d.tasks && any (has_id on) d.tasks
    then some
        (record d { dependencies = record { task_id = id; dependency_id = on } ∷ d.dependencies })
    else none

-- The NOT EXISTS of sqlDequeue: a task waits for a dependency that is not finished.
unfoldable pub waits : List TaskInfo → List Dependency → ℕ → Bool
waits tasks deps id =
    any
      (λ td.
        td.task_id == id
        && any (λ dep. dep.id == td.dependency_id && is_none dep.finished_at) tasks)
      deps

-- The WHERE of sqlDequeue, and SKIP LOCKED.
unfoldable pub is_ready : (ℕ → Bool) → List String → Db → TaskInfo → Bool
is_ready locked types d t =
    is_none t.started_at
    && not (is_canceled t.status)
    && contains types t.typename
    && not (waits d.tasks d.dependencies t.id)
    && not (locked t.id)

-- ORDER BY priority DESC, queued_at ASC.
unfoldable pub precedes : TaskInfo → TaskInfo → Bool
precedes a b =
    ltb b.priority a.priority || (a.priority == b.priority && ltb a.queued_at b.queued_at)

abbrev pub first_of_two : TaskInfo → Option TaskInfo → TaskInfo
first_of_two t none = t
first_of_two t (some u) = if precedes u t then u else t

-- LIMIT 1 over the rows that match.
unfoldable pub select_first : (TaskInfo → Bool) → List TaskInfo → Option TaskInfo
select_first p [] = none
select_first p (t ∷ ts) =
    if p t then some (first_of_two t (select_first p ts)) else select_first p ts

unfoldable pub start : ℕ → ℕ → TaskInfo → TaskInfo
start token now t = record t { token = some token; started_at = some now; status = running }

-- sqlInsertHeartbeat; the token is the primary key, and never uuid_nil.
unfoldable pub insert_heartbeat : ℕ → ℕ → ℕ → Db → Option Db
insert_heartbeat token id now d =
    if token == 0 || any (λ h. h.token == token) d.heartbeats
    then none
    else some (record d {
      heartbeats = record { token = token; id = id; heartbeat = now } ∷ d.heartbeats;
    })

-- sqlQueryDependencies and sqlQueryDependents.
unfoldable pub dependencies_of : ℕ → Db → List ℕ
dependencies_of id d =
    map (λ td. td.dependency_id) (matching (λ td. td.task_id == id) d.dependencies)

unfoldable pub dependents_of : ℕ → Db → List ℕ
dependents_of id d = map (λ td. td.task_id) (matching (λ td. td.dependency_id == id) d.dependencies)

unfoldable pub delete_heartbeat : ℕ → Db → Db
delete_heartbeat id d = record d { heartbeats = delete (λ h. h.id == id) d.heartbeats }

-- The length that left($2, 4000) leaves of an error.
abbrev pub max_error_length : ℕ
max_error_length = 4000

abbrev pub left : Option Text → Option Text
left none = none
left (some s) = some (take max_error_length s)

abbrev pub unfinished : ℕ → TaskInfo → Bool
unfinished id t = has_id id t && is_none t.finished_at

unfoldable pub finish_row : Status → Option Text → Option ℕ → ℕ → TaskInfo → TaskInfo
finish_row status error next now t = record t {
  finished_at = some now;
  status = status;
  error = left error;
  next_retry_time = next;
}

-- sqlFinishTask.
unfoldable pub finish_task : Status → Option Text → Option ℕ → ℕ → ℕ → Db → Db
finish_task status error next now id d = record d {
  tasks = update (unfinished id) (finish_row status error next now) d.tasks;
}

unfoldable pub cancel_row : Text → TaskInfo → TaskInfo
cancel_row message t = record t {
  status = canceled;
  error = left (some message);
  cancel_attempted = true;
}

-- sqlCancelTask.
unfoldable pub cancel_unfinished : Text → ℕ → Db → Db
cancel_unfinished message id d = record d {
  tasks = update (unfinished id) (cancel_row message) d.tasks;
}

-- sqlSetCancelAttempted.
unfoldable pub set_cancel_attempted : ℕ → Db → Db
set_cancel_attempted id d = record d {
  tasks = update (has_id id) (λ t. record t { cancel_attempted = true }) d.tasks;
}

-- The SET of sqlRequeue.
unfoldable pub requeue_row : ℕ → TaskInfo → TaskInfo
requeue_row now t = record t {
  started_at = none;
  token = none;
  status = pending;
  retries = t.retries + 1;
  queued_at = now;
}

abbrev pub in_progress : ℕ → TaskInfo → Bool
in_progress id t = has_id id t && (is_some t.started_at && is_none t.finished_at)

-- sqlRequeue.
unfoldable pub requeue_task : ℕ → ℕ → Db → Db
requeue_task now id d = record d { tasks = update (in_progress id) (requeue_row now) d.tasks }

abbrev pub is_due : ℕ → Option ℕ → Bool
is_due now none = false
is_due now (some at) = leb at now

-- A failed task that sqlRequeueFailedTasks retries by itself.
unfoldable pub is_retryable : List String → ℕ → TaskInfo → Bool
is_retryable types now t =
    is_some t.started_at
    && is_some t.finished_at
    && is_failed t.status
    && ltb t.retries max_task_retries
    && is_due now t.next_retry_time
    && contains types t.typename
    && not t.cancel_attempted

-- A task that sqlRequeueFailedTasks takes along with a dependency of it.
unfoldable pub depends_on_retryable : List String → ℕ → Db → ℕ → Bool
depends_on_retryable types now d id =
    any
      (λ td.
        td.task_id == id
        && any (λ dep. dep.id == td.dependency_id && is_retryable types now dep) d.tasks)
      d.dependencies

unfoldable pub retry_row : ℕ → TaskInfo → TaskInfo
retry_row now t = record t {
  started_at = none;
  finished_at = none;
  token = none;
  status = pending;
  retries = t.retries + 1;
  queued_at = now;
}

-- sqlRequeueFailedTasks.
unfoldable pub requeue_failed : List String → ℕ → Db → Db
requeue_failed types now d = record d {
  tasks =
      update (λ t. depends_on_retryable types now d t.id || is_retryable types now t)
        (retry_row now) d.tasks;
}

-- sqlUpdatePayload.
unfoldable pub set_payload : String → ℕ → Db → Db
set_payload payload id d = record d {
  tasks = update (has_id id) (λ t. record t { payload = payload }) d.tasks;
}

-- sqlRefreshHeartbeat.
unfoldable pub touch : ℕ → ℕ → Db → Db
touch now token d = record d {
  heartbeats = update (λ h. h.token == token) (λ h. record h { heartbeat = now }) d.heartbeats;
}

-- sqlNotify and the pg_notify of sendCancelNotification.
abbrev pub notify : Notification → Db → Db
notify n d = record d { notifications = d.notifications ++ n ∷ [] }
