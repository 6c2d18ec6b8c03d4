-- ===== src/Queue/Invariant/History.antt =====
-- Histories: any sequence of calls, each at its own instant and over its own connection, from any
-- number of clients. A call is a transaction (or a statement), so calls do not overlap.
use content_sources_backend.Common.{ℕ, Bool, Option, List, [], ◌∷◌, String, Text}
use content_sources_backend.Queue.Types.{Task, Db}
use content_sources_backend.Queue.Transaction.{Link}
use content_sources_backend.Queue.Enqueue.{enqueue, update_payload}
use content_sources_backend.Queue.Dequeue.{dequeue_maybe}
use content_sources_backend.Queue.Finish.{finish, cancel, requeue, requeue_failed_tasks}
use content_sources_backend.Queue.Heartbeats.{refresh_heartbeat}
use content_sources_backend.Queue.Invariant.{IsWellFormed}
use content_sources_backend.Queue.Invariant.Kept.{IsKept}
use content_sources_backend.Queue.Invariant.WellFormed.{IsKept-IsWellFormed}
use content_sources_backend.Queue.Invariant.Methods.{enqueue-Keeps, dequeue_maybe-Keeps}
use content_sources_backend.Queue.Invariant.Endings.{
  finish-Keeps, cancel-Keeps, requeue-Keeps, requeue_failed_tasks-Keeps, update_payload-Keeps,
  refresh_heartbeat-Keeps,
}

pub data Call : Type 0 where
  enqueues : Task → ℕ → Call
  dequeues : ℕ → (ℕ → Bool) → List String → Call
  finishes : ℕ → ℕ → Option Text → Call
  cancels : ℕ → Call
  requeues : ℕ → ℕ → Call
  requeues_failed : List String → Call
  updates_payload : ℕ → String → Call
  refreshes : ℕ → Call

-- A call with its instant and its connection.
pub record Event : Type 0 where
  pub call : Call
  pub now : ℕ
  pub link : Link

unfoldable pub perform : Call → ℕ → Link → Db → Db
perform (enqueues task id) now link d = (enqueue task id now d link).1
perform (dequeues token locked types) now link d = (dequeue_maybe token now locked types d link).1
perform (finishes upper_bound id error) now link d = (finish upper_bound now id error d link).1
perform (cancels id) now link d = (cancel id d link).1
perform (requeues upper_bound id) now link d = (requeue upper_bound now id d link).1
perform (requeues_failed types) now link d = (requeue_failed_tasks types now d link).1
perform (updates_payload id payload) now link d = (update_payload id payload d link).1
perform (refreshes token) now link d = (refresh_heartbeat now token d link).1

unfoldable pub history : List Event → Db → Db
unfolding perform
history [] d = d
history (e ∷ es) d = history es (perform e.call e.now e.link d)

-- The tables after the migrations.
abbrev pub no_tasks : Db
no_tasks = record { tasks = []; dependencies = []; heartbeats = []; notifications = [] }

module _ (I : Db → Type 0) (kept : IsKept I) where
  perform-Keeps : (call : Call) (now : ℕ) (link : Link) (d : Db) → I d → I (perform call now link d)
  unfolding perform
  perform-Keeps (enqueues task id) now link d = enqueue-Keeps I kept task id now d link
  perform-Keeps (dequeues token locked types) now link d =
      dequeue_maybe-Keeps I kept token now locked types d link
  perform-Keeps (finishes upper_bound id error) now link d =
      finish-Keeps I kept upper_bound now id error d link
  perform-Keeps (cancels id) now link d = cancel-Keeps I kept id d link
  perform-Keeps (requeues upper_bound id) now link d =
      requeue-Keeps I kept upper_bound now id d link
  perform-Keeps (requeues_failed types) now link d =
      requeue_failed_tasks-Keeps I kept types now d link
  perform-Keeps (updates_payload id payload) now link d =
      update_payload-Keeps I kept id payload d link
  perform-Keeps (refreshes token) now link d = refresh_heartbeat-Keeps I kept now token d link

  pub history-Keeps : (es : List Event) (d : Db) → I d → I (history es d)
  unfolding history
  history-Keeps [] d i = i
  history-Keeps (e ∷ es) d i = history-Keeps es _ (perform-Keeps e.call e.now e.link d i)

-- After every sequence of calls of Enqueue, dequeueMaybe, Finish, Cancel, Requeue,
-- RequeueFailedTasks, UpdatePayload and RefreshHeartbeat on empty tables, with any arguments, at
-- any instants and over connections that may fail at any statement: identifiers of tasks differ,
-- tokens of heartbeats differ, the status of every task fits its started_at, finished_at and
-- cancel_attempted, and a task has a token exactly when it is started.
pub history-IsWellFormed : (es : List Event) → IsWellFormed (history es no_tasks)
history-IsWellFormed es =
    history-Keeps IsWellFormed IsKept-IsWellFormed es no_tasks
      (record { distinct = tt; consistent = tt; beats = tt })
