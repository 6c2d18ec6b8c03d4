-- ===== src/Queue/Lifecycle/Steps.antt =====
-- The SET of each statement is a step of the abstract machine, or leaves a life as it was.
use content_sources_backend.Common.{
  ℕ, ◌≡◌, refl, subst, true, Option, String, is_none, is_some, Text, arith,
}
use content_sources_backend.Queue.Types.{TaskInfo}
use content_sources_backend.Queue.Statements.{start, finish_row, cancel_row, requeue_row, retry_row}
use content_sources_backend.Queue.Finish.{finish_status}
use content_sources_backend.Queue.Invariant.{IsConsistent}
use content_sources_backend.Queue.Lifecycle.{
  Life, Move, starts, finishes, is_retried, is_canceled, Moves, here, next, life, IsSameTask,
  Becomes,
}

by_move : {l m n : Life} → Move l m → m ≡ n → Moves l n
by_move {l} step e = subst (Moves l) e (next here step)

-- The columns of a row that is written over are its own.
pub IsSameTask_refl : (t : TaskInfo) → IsSameTask t t
IsSameTask_refl t = (refl, refl, refl, refl, refl, refl, refl, refl)

pub start-Becomes :
    (token now : ℕ) (t : TaskInfo)
    → IsConsistent t
    → is_none t.started_at ≡ true
    → Becomes t (start token now t)
unfolding start
start-Becomes token now t c h = record {
  same = IsSameTask_refl t;
  moves = by_move (starts (life t) (ground arith)) (ground arith);
}

pub finish_row-Becomes :
    (status_error : Option Text) (next_retry : Option ℕ) (now : ℕ) (t : TaskInfo)
    → is_some t.started_at ≡ true
    → is_none t.finished_at ≡ true
    → Becomes t (finish_row (finish_status status_error) status_error next_retry now t)
unfolding finish_row
finish_row-Becomes status_error next_retry now t s f = record {
  same = IsSameTask_refl t;
  moves = by_move (finishes (life t) (ground arith)) refl;
}

pub cancel_row-Becomes : (message : Text) (t : TaskInfo) → Becomes t (cancel_row message t)
unfolding cancel_row
cancel_row-Becomes message t = record {
  same = IsSameTask_refl t;
  moves = by_move (is_canceled (life t)) refl;
}

pub set_cancel_attempted-Becomes : (t : TaskInfo) → Becomes t (record t { cancel_attempted = true })
set_cancel_attempted-Becomes t = record {
  same = IsSameTask_refl t;
  moves = by_move (is_canceled (life t)) refl;
}

pub requeue_row-Becomes :
    (now : ℕ) (t : TaskInfo) → is_none t.finished_at ≡ true → Becomes t (requeue_row now t)
unfolding requeue_row
requeue_row-Becomes now t f = record {
  same = IsSameTask_refl t;
  moves = by_move (is_retried (life t)) (ground arith);
}

pub retry_row-Becomes : (now : ℕ) (t : TaskInfo) → Becomes t (retry_row now t)
unfolding retry_row
retry_row-Becomes now t = record {
  same = IsSameTask_refl t;
  moves = by_move (is_retried (life t)) (ground arith);
}

pub set_payload-Becomes :
    (payload : String) (t : TaskInfo) → Becomes t (record t { payload = payload })
set_payload-Becomes payload t = record { same = IsSameTask_refl t; moves = here }
