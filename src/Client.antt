-- ===== src/Client.antt =====
-- The client of the task queue (pkg/tasks/client/client.go). uuid.Parse is an argument; each call of
-- the queue has a connection of its own.
pub mod Refusals
use content_sources_backend.Common.{
  ℕ, Bool, true, false, not, Option, none, some, List, Text, String, if◌then◌else◌,
}
use content_sources_backend.Queue.Types.{
  Task, Db, Error, not_cancellable, contains, cancellable_tasks,
}
use content_sources_backend.Queue.Transaction.{Link, Result, done, fails}
use content_sources_backend.Queue.Enqueue.{Info}
use content_sources_backend.Queue.Enqueue
use content_sources_backend.Queue.Finish

-- What a method of the client returns: the queue's error, or uuid.Parse's.
pub data Response (A : Type 0) : Type 0 where
  accepted : A → Response A
  rejected : Error → Response A
  bad_uuid : Response A

abbrev pub respond : {A : Type 0} → Result A → Response A
respond (done a) = accepted a
respond (fails e) = rejected e

unfoldable pub enqueue : Task → ℕ → ℕ → Db → Link → Response ℕ × Db
enqueue task id now d link =
    let (result, d') = Enqueue.enqueue task id now d link in (respond result, d')

-- Cancel once the status of the task is known.
unfoldable pub cancel_found : ℕ → Link → Result Info × Db → Response (Unit {0}) × Db
unfolding contains
cancel_found id link (fails e, d) = (rejected e, d)
cancel_found id link (done info, d) =
    if not (contains cancellable_tasks info.task.typename)
    then (rejected not_cancellable, d)
    else (let (result, d') = Finish.cancel id d link in (respond result, d'))

unfoldable pub cancel : (Text → Option ℕ) → Text → Db → Link → Link → Response (Unit {0}) × Db
unfolding cancel_found
cancel parse task_id d status_link cancel_link = elim (parse task_id) [
  | none ↦ (bad_uuid, d)
  | some id ↦ cancel_found id cancel_link (Enqueue.status id d status_link)
]
