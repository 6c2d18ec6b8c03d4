-- ===== src/Pool.antt =====
-- The pool of workers (pkg/tasks/worker/worker_pool.go): the handlers it registers, and a tick of its
-- heartbeat listener. A handler is a number.
pub mod Registered
pub mod Listener
use content_sources_backend.Common.{
  ℕ, suc, Bool, true, false, not, Option, none, some, List, [], ◌∷◌, ◌++◌, Text, if◌then◌else◌,
  text_eq,
}
use content_sources_backend.Slices
use content_sources_backend.TextMap
use content_sources_backend.Queue.Types.{Db}
use content_sources_backend.Queue.Transaction.{Link, Result, done, fails}
use content_sources_backend.Queue.Heartbeats.{heartbeats, id_from_token}
use content_sources_backend.Queue.Finish

pub record WorkerPool : Type 0 where
  pub handlers : List (Text × ℕ)
  pub task_types : List Text

abbrev pub new_task_worker_pool : WorkerPool
new_task_worker_pool = record { handlers = []; task_types = [] }

unfoldable pub register_handler : Text → ℕ → WorkerPool → WorkerPool
register_handler task_type handler w = record {
  handlers = TextMap.assign w.handlers task_type handler;
  task_types =
      if not (Slices.contains text_eq w.task_types task_type)
      then w.task_types ++ (task_type ∷ [])
      else w.task_types;
}

-- The instant, the bound of the retry's delay and the connections that a token's turn has.
pub record Turn : Type 0 where
  pub now : ℕ
  pub upper_bound : ℕ
  pub identify_link : Link
  pub requeue_link : Link

abbrev pub requeue_identified : Turn → Result (ℕ × Bool) → Db → Db
requeue_identified turn (fails e) d = d
requeue_identified turn (done (id, false)) d = d
requeue_identified turn (done (id, true)) d =
    (Finish.requeue turn.upper_bound turn.now id d turn.requeue_link).1

-- The loop over the tokens; the turns are numbered.
unfoldable pub requeue_tokens : (ℕ → Turn) → ℕ → List ℕ → Db → Db
requeue_tokens turns i [] d = d
requeue_tokens turns i (token ∷ tokens) d =
    requeue_tokens turns (suc i) tokens
      (requeue_identified (turns i) (id_from_token token d (turns i).identify_link) d)

-- One tick of HeartbeatListener.
unfoldable pub heartbeat_tick : ℕ → ℕ → Link → (ℕ → Turn) → Db → Db
unfolding requeue_tokens
heartbeat_tick heartbeat now link turns d =
    requeue_tokens turns 0 (heartbeats heartbeat now d link) d
