-- ===== src/Queue/Finish/Retries.antt =====
-- When RequeueFailedTasks retries a task that Finish has failed, and what it takes along.
use mathlib.Core.List.{Memᴰ}
use content_sources_backend.Common.{
  ℕ, zero, suc, ◌+◌, ◌*◌, ◌-◌, ◌/◌, ◌≤◌, ◌<◌, ◌≡◌, refl, ◌∙◌, true, not, ◌&&◌, ◌||◌, Option, none,
  some, List, String, Text, arith, any, if◌then◌else◌, ◌==◌, ltb, leb, is_some,
}
use content_sources_backend.Table.{find}
use content_sources_backend.Table.Laws.{any-mem, find_sound}
use content_sources_backend.Queue.Types.{
  pending, failed, TaskInfo, Dependency, tasks_changed, Db, Error, contains, requeueable_tasks,
  max_task_retries,
}
use content_sources_backend.Queue.Transaction.{◌>>◌, exec, begin, commit, done}
use content_sources_backend.Queue.Transaction.Runs.{
  serving, exec-Runs, exec_then-Runs, transact-Runs,
}
use content_sources_backend.Queue.Statements.{
  has_id, finish_row, is_retryable, depends_on_retryable, retry_row, requeue_failed, notify,
}
use content_sources_backend.Queue.Finish.{time_to_wait, next_retry, requeue_failed_tasks}
use content_sources_backend.Queue.Finish.Cascade.{through, through-update}

-- For fewer retries than the limit, the wait before a retry is the greatest number of whole seconds
-- that fits into the configured upper bound once for each retry that is left and once more; so it
-- does not fall from one retry to the next.
pub time_to_wait_bounds :
    (upper_bound retries : ℕ)
    → suc retries ≤ 3
    → (seconds : ℕ) × (time_to_wait upper_bound retries ≡ 1000000000 * seconds)
      × (seconds * (4 - retries) ≤ upper_bound)
      × (upper_bound < suc seconds * (4 - retries))
      × (time_to_wait upper_bound retries ≤ time_to_wait upper_bound (suc retries))
unfolding time_to_wait
time_to_wait_bounds upper_bound zero h =
    (upper_bound / 4, refl, omega arith, omega arith, omega arith)
time_to_wait_bounds upper_bound (suc zero) h =
    (upper_bound / 3, refl, omega arith, omega arith, omega arith)
time_to_wait_bounds upper_bound (suc (suc zero)) h =
    (upper_bound / 2, refl, omega arith, omega arith, omega arith)
time_to_wait_bounds upper_bound (suc (suc (suc r))) h = absurd (omega arith)

-- A started task that Finish fails at one instant is one that RequeueFailedTasks retries by itself
-- at a later instant exactly when it had retries left, is of a type that may be retried, its
-- cancellation was never attempted, and the wait of its retry is over.
pub is_retryable-finish_row :
    (upper_bound now later : ℕ) (error : Option Text) (t : TaskInfo)
    → is_some t.started_at ≡ true
    → is_retryable requeueable_tasks later
        (finish_row failed error (next_retry upper_bound now failed t) now t)
      ≡ (ltb t.retries max_task_retries
          && contains requeueable_tasks t.typename
          && not t.cancel_attempted
          && leb (now + time_to_wait upper_bound t.retries) later)
unfolding is_retryable finish_row next_retry
is_retryable-finish_row upper_bound now later error t started = ground arith

-- The rows after RequeueFailedTasks.
requeue_failed-find :
    (types : List String) (now : ℕ) (d : Db) (j : ℕ)
    → find (has_id j) (requeue_failed types now d).tasks
      ≡ through
          (λ u.
            if depends_on_retryable types now d u.id || is_retryable types now u
            then retry_row now u
            else u)
          (find (has_id j) d.tasks)
unfolding requeue_failed retry_row
requeue_failed-find types now d j = through-update j _ (retry_row now) d.tasks (λ u. refl)

-- Over a connection that serves four statements RequeueFailedTasks succeeds, and a task that
-- depends on a task which it retries is made pending with one retry more whatever its state was,
-- so also a task that was canceled by its user; its cancel_attempted stays as it was.
pub requeue_failed_tasks-revives :
    (types : List String) (now k : ℕ) (fault : Error) (d : Db) (u parent : TaskInfo)
    (td : Dependency)
    → find (has_id td.task_id) d.tasks ≡ some u
    → Memᴰ td d.dependencies
    → Memᴰ parent d.tasks
    → parent.id ≡ td.dependency_id
    → is_retryable types now parent ≡ true
    → (e : Db) × (u' : TaskInfo) × (requeue_failed_tasks types now d (serving (4 + k) fault)
        ≡ (done tt, e))
      × (find (has_id td.task_id) e.tasks ≡ some u')
      × (u'.status ≡ pending)
      × (u'.started_at ≡ none)
      × (u'.finished_at ≡ none)
      × (u'.retries ≡ u.retries + 1)
      × (u'.cancel_attempted ≡ u.cancel_attempted)
unfolding requeue_failed_tasks
requeue_failed_tasks-revives types now k fault d u parent td e link mem same due = (
  notify tasks_changed (requeue_failed types now d),
  retry_row now u,
  transact-Runs
      (begin >> (exec (requeue_failed types now) >> (exec (notify tasks_changed) >> commit))) d 4 tt
      (notify tasks_changed (requeue_failed types now d)) k fault
      (exec_then-Runs (λ x. x)
        (exec (requeue_failed types now) >> (exec (notify tasks_changed) >> commit)) d 3 tt _
        (exec_then-Runs (requeue_failed types now) (exec (notify tasks_changed) >> commit) d 2 tt _
          (exec_then-Runs (notify tasks_changed) commit (requeue_failed types now d) 1 tt _
            (exec-Runs (λ x. x) (notify tasks_changed (requeue_failed types now d)))))),
  requeue_failed-find types now d td.task_id ∙ (rw e (rw taken)),
  unfold retry_row in refl,
  unfold retry_row in refl,
  unfold retry_row in refl,
  unfold retry_row in refl,
  unfold retry_row in refl,
)
  where
    id_eq : td.task_id ≡ u.id
    id_eq = ground (arith, find_sound (has_id td.task_id) d.tasks e)

    parent_found :
        any (λ dep. dep.id == td.dependency_id && is_retryable types now dep) d.tasks ≡ true
    parent_found =
        any-mem (λ dep. dep.id == td.dependency_id && is_retryable types now dep) d.tasks parent mem
          (ground arith)

    taken : depends_on_retryable types now d u.id ≡ true
    taken =
        unfold depends_on_retryable in
        any-mem
          (λ (x : Dependency).
            x.task_id == u.id
            && any (λ dep. dep.id == x.dependency_id && is_retryable types now dep) d.tasks)
          d.dependencies td link (ground (arith, id_eq, parent_found))
