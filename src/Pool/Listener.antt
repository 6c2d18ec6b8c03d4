-- ===== src/Pool/Listener.antt =====
-- The heartbeat listener keeps the queue well formed (pkg/tasks/worker/worker_pool.go).
use content_sources_backend.Common.{ℕ, suc, Bool, true, false, List, [], ◌∷◌}
use content_sources_backend.Queue.Types.{Db}
use content_sources_backend.Queue.Transaction.{Link, Result, done, fails}
use content_sources_backend.Queue.Heartbeats.{heartbeats, id_from_token}
use content_sources_backend.Queue.Invariant.{IsWellFormed}
use content_sources_backend.Queue.Invariant.Endings.{requeue-Keeps}
use content_sources_backend.Queue.Invariant.WellFormed.{IsKept-IsWellFormed}
use content_sources_backend.Pool.{Turn, requeue_identified, requeue_tokens, heartbeat_tick}

requeue_identified-IsWellFormed :
    (turn : Turn) (r : Result (ℕ × Bool)) (d : Db)
    → IsWellFormed d
    → IsWellFormed (requeue_identified turn r d)
requeue_identified-IsWellFormed turn (fails e) d w = w
requeue_identified-IsWellFormed turn (done (id, false)) d w = w
requeue_identified-IsWellFormed turn (done (id, true)) d w =
    requeue-Keeps IsWellFormed IsKept-IsWellFormed turn.upper_bound turn.now id d turn.requeue_link
      w

requeue_tokens-IsWellFormed :
    (turns : ℕ → Turn) (i : ℕ) (tokens : List ℕ) (d : Db)
    → IsWellFormed d
    → IsWellFormed (requeue_tokens turns i tokens d)
unfolding requeue_tokens
requeue_tokens-IsWellFormed turns i [] d w = w
requeue_tokens-IsWellFormed turns i (token ∷ tokens) d w =
    requeue_tokens-IsWellFormed turns (suc i) tokens _ (
      requeue_identified-IsWellFormed (turns i) (id_from_token token d (turns i).identify_link) d w)

-- A tick of the heartbeat listener keeps the tables well formed, whichever of its queries and
-- transactions fail.
pub heartbeat_tick-IsWellFormed :
    (heartbeat now : ℕ) (link : Link) (turns : ℕ → Turn) (d : Db)
    → IsWellFormed d
    → IsWellFormed (heartbeat_tick heartbeat now link turns d)
unfolding heartbeat_tick
heartbeat_tick-IsWellFormed heartbeat now link turns d w =
    requeue_tokens-IsWellFormed turns 0 (heartbeats heartbeat now d link) d w
