-- ===== src/Queue/Finish.antt =====
-- PgQueue.Finish, finishWithTx, Cancel, Requeue and RequeueFailedTasks
-- (pkg/tasks/queue/pgqueue.go). The text of an error is taken after strings.ToValidUTF8.
pub mod Cascade
pub mod Steps
pub mod Outcomes
pub mod Requeues
pub mod Cancels
pub mod Retries
use content_sources_backend.Common.{
  ℕ, ◌+◌, ◌-◌, ◌*◌, ◌/◌, Bool, true, false, not, ◌&&◌, ◌||◌, Option, none, some, List, [], ◌∷◌,
  String, ltb, ◌==◌, if◌then◌else◌, is_none, is_some, Text, codes,
}
use content_sources_backend.Table.{affected}
use content_sources_backend.Queue.Types.{
  Status, completed, failed, TaskInfo, tasks_changed, cancel_task, Db, Error, not_exist,
  not_running, task_canceled, max_retries_exceeded, contains, requeueable_tasks, max_task_retries,
}
use content_sources_backend.Queue.Transaction.{
  Link, M, ◌>>=◌, ◌>>◌, pure, throw, statement, query, exec, begin, commit, Result, done, fails,
  transact,
}
use content_sources_backend.Queue.Statements.{
  is_running, is_failed, dependents_of, delete_heartbeat, unfinished, finish_task,
  cancel_unfinished, set_cancel_attempted, in_progress, requeue_task, requeue_failed, notify,
}
use content_sources_backend.Queue.Enqueue.{Info, status_with_conn}

abbrev pub second : ℕ
second = 1000000000

-- timeToWait: the upper bound in whole seconds, over one more than the retries that are left.
unfoldable pub time_to_wait : ℕ → ℕ → ℕ
time_to_wait upper_bound retries = second * (upper_bound / ((max_task_retries - retries) + 1))

abbrev pub finish_status : Option Text → Status
finish_status none = completed
finish_status (some s) = failed

unfoldable pub next_retry : ℕ → ℕ → Status → TaskInfo → Option ℕ
unfolding time_to_wait
next_retry upper_bound now status t =
    if is_failed status && ltb t.retries max_task_retries && contains requeueable_tasks t.typename
    then some (now + time_to_wait upper_bound t.retries)
    else none

-- The loops that cancel the dependents of a task.
unfoldable pub cancel_all : Text → List ℕ → M (Unit {0})
cancel_all message [] = pure tt
cancel_all message (id ∷ ids) = exec (cancel_unfinished message id) >> cancel_all message ids

unfoldable pub cancel_dependents : Text → ℕ → M (Unit {0})
unfolding cancel_all
cancel_dependents message id = do ids ← query (dependents_of id); cancel_all message ids

unfoldable pub parent_failed : Text
parent_failed = codes "parent task failed"

abbrev pub not_started_or_finished : TaskInfo → Bool
not_started_or_finished t = is_none t.started_at || is_some t.finished_at

-- finishWithTx from the check of the row on.
unfoldable pub finish_found : ℕ → ℕ → Option Text → ℕ → TaskInfo → M (Unit {0})
unfolding next_retry cancel_dependents
finish_found upper_bound now error id t = do
  let status = finish_status error
  exec (delete_heartbeat id)
  rows ←
      statement (λ d. affected (unfinished id) d.tasks)
        (finish_task status error (next_retry upper_bound now status t) now id)
  if rows == 0 then throw not_exist else pure tt
  if is_failed status then cancel_dependents parent_failed id else pure tt
  exec (notify tasks_changed)

unfoldable pub finish_with_tx : ℕ → ℕ → ℕ → Option Text → M (Unit {0})
unfolding status_with_conn finish_found
finish_with_tx upper_bound now id error = do
  info ← status_with_conn id
  if not_started_or_finished info.task
      then throw not_running
      else finish_found upper_bound now error id info.task

unfoldable pub finish : ℕ → ℕ → ℕ → Option Text → Db → Link → Result (Unit {0}) × Db
unfolding finish_with_tx
finish upper_bound now id error = transact do begin; finish_with_tx upper_bound now id error; commit

unfoldable pub task_canceled_text : Text
task_canceled_text = codes "task canceled"

unfoldable pub parent_canceled : Text
parent_canceled = codes "parent task canceled"

unfoldable pub cancel : ℕ → Db → Link → Result (Unit {0}) × Db
unfolding cancel_dependents
cancel id = transact do
  begin
  exec (notify (cancel_task id))
  exec (delete_heartbeat id)
  exec (cancel_unfinished task_canceled_text id)
  exec (set_cancel_attempted id)
  cancel_dependents parent_canceled id
  exec (notify tasks_changed)
  commit

unfoldable pub max_retries_text : Text
max_retries_text = codes "task has exceeded the maximum amount of retries"

-- The branch of Requeue for a task with no retry left. The transaction is committed, and the error
-- that comes back is the method's.
unfoldable pub requeue_spent : ℕ → ℕ → ℕ → M (Option Error)
unfolding finish_with_tx
requeue_spent upper_bound now id = do
  finish_with_tx upper_bound now id (some max_retries_text)
  commit
  pure (some max_retries_exceeded)

unfoldable pub requeue_again : ℕ → ℕ → M (Option Error)
requeue_again now id = do
  exec (delete_heartbeat id)
  rows ← statement (λ d. affected (in_progress id) d.tasks) (requeue_task now id)
  if rows == 1 then pure tt else throw not_exist
  exec (notify tasks_changed)
  commit
  pure none

-- Requeue from the checks of the row on.
unfoldable pub requeue_found : ℕ → ℕ → ℕ → TaskInfo → M (Option Error)
unfolding requeue_spent requeue_again
requeue_found upper_bound now id t =
    if t.cancel_attempted && not (is_running t.status)
    then throw task_canceled
    else if not_started_or_finished t
    then throw not_running
    else if t.retries == max_task_retries
    then requeue_spent upper_bound now id
    else requeue_again now id

unfoldable pub requeue_tx : ℕ → ℕ → ℕ → M (Option Error)
unfolding status_with_conn requeue_found
requeue_tx upper_bound now id = do
  begin
  info ← status_with_conn id
  requeue_found upper_bound now id info.task

abbrev pub report : Result (Option Error) × Db → Result (Unit {0}) × Db
report (done none, d) = (done tt, d)
report (done (some e), d) = (fails e, d)
report (fails e, d) = (fails e, d)

unfoldable pub requeue : ℕ → ℕ → ℕ → Db → Link → Result (Unit {0}) × Db
unfolding requeue_tx
requeue upper_bound now id db link = report (transact (requeue_tx upper_bound now id) db link)

unfoldable pub requeue_failed_tasks : List String → ℕ → Db → Link → Result (Unit {0}) × Db
requeue_failed_tasks types now =
    transact do begin; exec (requeue_failed types now); exec (notify tasks_changed); commit
