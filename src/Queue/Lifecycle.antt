-- ===== src/Queue/Lifecycle.antt =====
-- An abstract machine for one task, as the comments of pkg/tasks/queue/queue.go tell its life:
-- a task is dequeued, finished, canceled and requeued; who does so and when is left open.
pub mod Progress
pub mod Steps
pub mod Growth
pub mod Statements
pub mod Histories
use content_sources_backend.Common.{ℕ, suc, ◌≡◌, Bool, true, false, Option, none, some, String}
use content_sources_backend.Queue.Types.{TaskInfo}

-- In the queue, with a worker, or finished.
pub data Stage : Type 0 where
  waiting working over : Stage

pub record Life : Type 0 where
  pub stage : Stage
  pub retries : ℕ
  pub cancel_attempted : Bool

-- What may happen to a task. Only a waiting task is started and only a started one is finished;
-- the way back to the queue, of itself or with a dependency of it, costs a retry.
pub data Move : Life → Life → Type 0 where
  starts : (l : Life) → l.stage ≡ waiting → Move l (record l { stage = working })
  finishes : (l : Life) → l.stage ≡ working → Move l (record l { stage = over })
  is_retried : (l : Life) → Move l (record l { stage = waiting; retries = suc l.retries })
  is_canceled : (l : Life) → Move l (record l { cancel_attempted = true })

pub data Moves (l : Life) : Life → Type 0 where
  here : Moves l l
  next : {m n : Life} → Moves l m → Move m n → Moves l n

abbrev pub stage_of : Option ℕ → Option ℕ → Stage
stage_of started (some at) = over
stage_of (some at) none = working
stage_of none none = waiting

-- What the machine sees of a row of the table tasks.
abbrev pub life : TaskInfo → Life
life t = record {
  stage = stage_of t.started_at t.finished_at;
  retries = t.retries;
  cancel_attempted = t.cancel_attempted;
}

-- The columns that no statement writes after sqlEnqueue.
abbrev pub IsSameTask : TaskInfo → TaskInfo → Type 0
IsSameTask t u =
    (u.id ≡ t.id)
    × (u.typename ≡ t.typename)
    × (u.org_id ≡ t.org_id)
    × (u.account_id ≡ t.account_id)
    × (u.object_uuid ≡ t.object_uuid)
    × (u.object_type ≡ t.object_type)
    × (u.request_id ≡ t.request_id)
    × (u.priority ≡ t.priority)

-- What may become of a row: it is the same task, further on in its life.
pub record Becomes (t u : TaskInfo) : Type 0 where
  pub same : IsSameTask t u
  pub moves : Moves (life t) (life u)
