-- ===== src/Queue/Lifecycle/Histories.antt =====
-- Every history of calls is a run of the abstract machine for each task.
use content_sources_backend.Common.{ℕ, ◌≡◌, some, List}
use content_sources_backend.Table.{find}
use content_sources_backend.Queue.Types.{TaskInfo, Db}
use content_sources_backend.Queue.Statements.{has_id}
use content_sources_backend.Queue.Invariant.{IsWellFormed}
use content_sources_backend.Queue.Invariant.History.{
  Event, history, no_tasks, history-IsWellFormed, history-Keeps,
}
use content_sources_backend.Queue.Lifecycle.{Becomes}
use content_sources_backend.Queue.Lifecycle.Growth.{Found, Grows, Becomes-refl}
use content_sources_backend.Queue.Lifecycle.Statements.{IsKept-Grows}

history_from-Becomes :
    (es : List Event) (d : Db)
    → IsWellFormed d
    → (id : ℕ) (t : TaskInfo) → find (has_id id) d.tasks ≡ some t
    → Found id t (history es d)
history_from-Becomes es d w =
    (history-Keeps (Grows d) (IsKept-Grows d) es d
      (record { well = w; rows = λ id t h. (t, h, Becomes-refl t) })).rows

-- The queue refines the abstract machine. Take any calls of Enqueue, dequeueMaybe, Finish, Cancel,
-- Requeue, RequeueFailedTasks, UpdatePayload and RefreshHeartbeat on empty tables, with any
-- arguments, at any instants and over connections that may fail at any statement, and a task that
-- is then in the table. After any further such calls it is still there, with the same identifier,
-- type, organisation, account, object, request and priority, and the machine allows a run from its
-- stage, retries and cancel_attempted before these calls to those after them.
pub history-Becomes :
    (before after : List Event) (id : ℕ) (t : TaskInfo)
    → find (has_id id) (history before no_tasks).tasks ≡ some t
    → (u : TaskInfo) × (find (has_id id) (history after (history before no_tasks)).tasks ≡ some u)
      × Becomes t u
history-Becomes before after id t h =
    history_from-Becomes after (history before no_tasks) (history-IsWellFormed before) id t h
