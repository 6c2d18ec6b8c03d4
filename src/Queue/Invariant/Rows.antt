-- ===== src/Queue/Invariant/Rows.antt =====
-- Each SET of a statement keeps a row consistent.
use content_sources_backend.Common.{
  ℕ, ◌≡◌, true, false, Option, none, is_none, is_some, Text, arith,
}
use content_sources_backend.Queue.Types.{TaskInfo}
use content_sources_backend.Queue.Statements.{start, finish_row, cancel_row, requeue_row, retry_row}
use content_sources_backend.Queue.Finish.{finish_status}
use content_sources_backend.Queue.Invariant.{IsConsistent}

pub start-IsConsistent :
    (token now : ℕ) (t : TaskInfo)
    → t.started_at ≡ none
    → IsConsistent t
    → is_some t.finished_at ≡ false
    → IsConsistent (start token now t)
unfolding start
start-IsConsistent token now t s c f = ground arith

pub finish_row-IsConsistent :
    (error : Option Text) (next : Option ℕ) (now : ℕ) (t : TaskInfo)
    → is_some t.started_at ≡ true
    → IsConsistent t
    → IsConsistent (finish_row (finish_status error) error next now t)
unfolding finish_row
finish_row-IsConsistent error next now t s c = ground arith

pub cancel_row-IsConsistent :
    (message : Text) (t : TaskInfo)
    → is_none t.finished_at ≡ true
    → IsConsistent t
    → IsConsistent (cancel_row message t)
unfolding cancel_row
cancel_row-IsConsistent message t f c = ground arith

pub requeue_row-IsConsistent :
    (now : ℕ) (t : TaskInfo) → is_none t.finished_at ≡ true → IsConsistent (requeue_row now t)
unfolding requeue_row
requeue_row-IsConsistent now t f = ground arith

pub retry_row-IsConsistent : (now : ℕ) (t : TaskInfo) → IsConsistent (retry_row now t)
unfolding retry_row
retry_row-IsConsistent now t = ground arith

pub set_cancel_attempted-IsConsistent :
    (t : TaskInfo) → IsConsistent t → IsConsistent (record t { cancel_attempted = true })
set_cancel_attempted-IsConsistent t c = ground arith
