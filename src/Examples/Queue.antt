-- ===== src/Examples/Queue.antt =====
-- Runs of the queue: what its methods do to the example tables.
use mathlib.Core.List.{Memᴰ}
use content_sources_backend.Common.{
  ℕ, suc, refl, Bool, true, false, not, none, some, List, String, codes, any, length, inl, arith,
  ltb, leb, ◌+◌, ◌*◌, ◌-◌, ◌≤◌, ◌≡◌, ◌&&◌, ◌++◌, ◌==◌, ◌∷◌, if◌then◌else◌, [], ◌<◌,
}
use content_sources_backend.Examples.Tables.{
  busy, busy-IsWellFormed, canceled_task, failed_tables, failed_task, follower, snapshot, spent,
  spent-IsWellFormed, spent_task, waiting_on,
}
use content_sources_backend.Table.{affected, delete, find, matching, update}
use content_sources_backend.Queue.Types.{
  Db, Heartbeat, Task, TaskInfo, cancel_task, completed, contains, db_error, delete_snapshots_task,
  failed, max_retries_exceeded, max_task_retries, pending, requeueable_tasks, tasks_changed,
}
use content_sources_backend.Queue.Transaction.{done, fails}
use content_sources_backend.Queue.Transaction.Runs.{serving}
use content_sources_backend.Queue.Statements.{
  cancel_row, cancel_unfinished, delete_heartbeat, dependencies_of, dependents_of, finish_row,
  finish_task, has_id, insert_heartbeat, insert_task, is_ready, is_retryable, new_row, precedes,
  select_first, set_cancel_attempted, start, waits,
}
use content_sources_backend.Queue.Enqueue.{enqueue, insert_dependencies, status_with_conn}
use content_sources_backend.Queue.Dequeue.{claim, dequeue_maybe, take_first}
use content_sources_backend.Queue.Finish.{
  cancel, cancel_all, cancel_dependents, finish, finish_found, finish_with_tx, max_retries_text,
  next_retry, parent_canceled, requeue, requeue_failed_tasks, time_to_wait,
}
use content_sources_backend.Queue.Finish.Cascade.{canceled_dependent, through}
use content_sources_backend.Queue.Finish.Steps.{finish_tx_cost, finished}
use content_sources_backend.Queue.Finish.Outcomes.{finish-ends, finish_view}
use content_sources_backend.Queue.Finish.Requeues.{requeue-again, requeue-spent}
use content_sources_backend.Queue.Finish.Cancels.{cancel-ends, cancel_self}
use content_sources_backend.Queue.Finish.Retries.{
  is_retryable-finish_row, requeue_failed_tasks-revives, time_to_wait_bounds,
}
use content_sources_backend.Queue.Invariant.{IsWellFormed}
use content_sources_backend.Queue.Invariant.History.{
  Event, cancels, dequeues, enqueues, finishes, history, history-IsWellFormed, no_tasks, perform,
  requeues_failed,
}
use content_sources_backend.Queue.Lifecycle.{Becomes}
use content_sources_backend.Queue.Lifecycle.Histories.{history-Becomes}

abbrev unlocked : ℕ → Bool
unlocked id = false

abbrev snapshot_types : List String
snapshot_types = delete_snapshots_task ∷ []

abbrev first_request : Task
first_request = record {
  typename = delete_snapshots_task;
  payload = "";
  dependencies = [];
  org_id = "org";
  account_id = "";
  object_uuid = none;
  object_type = none;
  request_id = "";
  priority = 0;
}

abbrev second_request : Task
second_request = record first_request { dependencies = 1 ∷ []; priority = 1 }

found_snapshot : find (has_id 1) busy.tasks ≡ some snapshot
unfolding find
found_snapshot = refl

found_follower : find (has_id 2) busy.tasks ≡ some follower
unfolding find
found_follower = refl

found_spent : find (has_id 1) spent.tasks ≡ some spent_task
unfolding find
found_spent = refl

found_canceled : find (has_id 2) failed_tables.tasks ≡ some canceled_task
unfolding find
found_canceled = refl

due : is_retryable snapshot_types 90 failed_task ≡ true
unfolding is_retryable contains
due = refl

-- Two tasks are enqueued, the first is dequeued and finishes with an error.
abbrev events : List Event
events =
    record { call = enqueues first_request 1; now = 5; link = serving 9 db_error }
    ∷ record { call = enqueues second_request 2; now = 6; link = serving 9 db_error }
    ∷ record {
      call = dequeues 7 unlocked (delete_snapshots_task ∷ []);
      now = 8;
      link = serving 9 db_error;
    }
    ∷ record { call = finishes 60 1 (some (codes "no")); now = 9; link = serving 20 db_error }
    ∷ []

history-IsWellFormed_example : IsWellFormed (history events no_tasks)
history-IsWellFormed_example = history-IsWellFormed events

-- A task that is dequeued, canceled and then finished by its worker.
abbrev canceled_events : List Event
canceled_events =
    record { call = enqueues first_request 1; now = 5; link = serving 9 db_error }
    ∷ record {
      call = dequeues 7 unlocked (delete_snapshots_task ∷ []);
      now = 8;
      link = serving 9 db_error;
    }
    ∷ record { call = cancels 1; now = 9; link = serving 20 db_error }
    ∷ record { call = finishes 60 1 none; now = 10; link = serving 20 db_error }
    ∷ []

abbrev later_events : List Event
later_events =
    record {
      call = requeues_failed (delete_snapshots_task ∷ []);
      now = 90;
      link = serving 9 db_error;
    }
    ∷ []

abbrev canceled_done : TaskInfo
canceled_done = record {
  id = 1;
  typename = "delete-snapshots";
  payload = "";
  org_id = "org";
  account_id = "";
  object_uuid = none;
  object_type = none;
  token = some 7;
  queued_at = 5;
  started_at = some 8;
  finished_at = some 10;
  error = none;
  status = completed;
  request_id = "";
  retries = 0;
  next_retry_time = none;
  priority = 0;
  cancel_attempted = true;
}

found_done : find (has_id 1) (history canceled_events no_tasks).tasks ≡ some canceled_done
unfolding find history perform enqueue dequeue_maybe finish cancel dependents_of matching
    set_cancel_attempted cancel_unfinished delete_heartbeat select_first insert_task
    insert_dependencies is_ready contains waits insert_heartbeat update start cancel_row affected
    finish_task finish_row delete next_retry finish_found finish_with_tx status_with_conn take_first
    claim cancel_dependents cancel_all precedes new_row dependencies_of time_to_wait
found_done = refl

history-Becomes_example :
    (u : TaskInfo) × (find
        (has_id 1)
        (history later_events (history canceled_events no_tasks)).tasks
      ≡ some u)
    × Becomes canceled_done u
history-Becomes_example = history-Becomes canceled_events later_events 1 canceled_done found_done

finish-ends_example :
    (e : Db) × (finish 60 90 1 none busy (serving (2 + finish_tx_cost none 1 busy + 0) db_error)
      ≡ (done tt, e))
    × ((j : ℕ)
        → find (has_id j) e.tasks
          ≡ through
              (finish_view 60 90 1 none snapshot busy.dependencies)
              (find (has_id j) busy.tasks))
    × (any (λ (h : Heartbeat). h.id == 1) e.heartbeats ≡ false)
    × (e.notifications ≡ busy.notifications ++ tasks_changed ∷ [])
finish-ends_example =
    finish-ends 60 90 1 none snapshot busy 0 db_error busy-IsWellFormed found_snapshot refl refl

requeue-again_example :
    (e' : Db) × (requeue 60 90 1 busy (serving (7 + 0) db_error) ≡ (done tt, e'))
    × ((j : ℕ)
        → find (has_id j) e'.tasks
          ≡ through
              (λ u.
                if u.id == 1
                then record u {
                  started_at = none;
                  token = none;
                  status = pending;
                  retries = u.retries + 1;
                  queued_at = 90;
                }
                else u)
              (find (has_id j) busy.tasks))
    × (any (λ (h : Heartbeat). h.id == 1) e'.heartbeats ≡ false)
    × (e'.notifications ≡ busy.notifications ++ tasks_changed ∷ [])
requeue-again_example =
    requeue-again 60 90 1 snapshot busy found_snapshot 0 db_error busy-IsWellFormed (inl refl) refl
      refl (ground arith)

cancel-ends_example :
    (e : Db) × (cancel 1 busy (serving (8 + length (dependents_of 1 busy) + 0) db_error)
      ≡ (done tt, e))
    × ((j : ℕ)
        → find (has_id j) e.tasks
          ≡ through
              (λ u. canceled_dependent parent_canceled 1 busy.dependencies (cancel_self 1 u))
              (find (has_id j) busy.tasks))
    × (any (λ (h : Heartbeat). h.id == 1) e.heartbeats ≡ false)
    × (e.notifications ≡ (busy.notifications ++ cancel_task 1 ∷ []) ++ tasks_changed ∷ [])
cancel-ends_example = cancel-ends 1 busy 0 db_error

requeue-spent_example :
    requeue 60 90 1 spent
      (serving (4 + finish_tx_cost (some max_retries_text) 1 spent + 0) db_error)
    ≡ (fails max_retries_exceeded, finished 60 90 1 (some max_retries_text) spent_task spent)
requeue-spent_example =
    requeue-spent 60 90 1 spent_task spent found_spent 0 db_error spent-IsWellFormed (inl refl) refl
      refl refl

time_to_wait_bounds_example :
    (seconds : ℕ) × (time_to_wait 60 1 ≡ 1000000000 * seconds)
    × (seconds * (4 - 1) ≤ 60)
    × (60 < suc seconds * (4 - 1))
    × (time_to_wait 60 1 ≤ time_to_wait 60 (suc 1))
time_to_wait_bounds_example = time_to_wait_bounds 60 1 (ground arith)

is_retryable-finish_row_example :
    is_retryable requeueable_tasks 1000
      (finish_row failed none (next_retry 60 90 failed snapshot) 90 snapshot)
    ≡ (ltb snapshot.retries max_task_retries
        && contains requeueable_tasks snapshot.typename
        && not snapshot.cancel_attempted
        && leb (90 + time_to_wait 60 snapshot.retries) 1000)
is_retryable-finish_row_example = is_retryable-finish_row 60 90 1000 none snapshot refl

requeue_failed_tasks-revives_example :
    (e : Db) × (u' : TaskInfo) × (requeue_failed_tasks snapshot_types 90 failed_tables
        (serving (4 + 0) db_error)
      ≡ (done tt, e))
    × (find (has_id waiting_on.task_id) e.tasks ≡ some u')
    × (u'.status ≡ pending)
    × (u'.started_at ≡ none)
    × (u'.finished_at ≡ none)
    × (u'.retries ≡ canceled_task.retries + 1)
    × (u'.cancel_attempted ≡ canceled_task.cancel_attempted)
requeue_failed_tasks-revives_example =
    requeue_failed_tasks-revives snapshot_types 90 0 db_error failed_tables canceled_task
      failed_task waiting_on found_canceled (Memᴰ.head refl) (Memᴰ.head refl) refl due
