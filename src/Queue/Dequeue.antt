-- ===== src/Queue/Dequeue.antt =====
-- PgQueue.Dequeue and dequeueMaybe (pkg/tasks/queue/pgqueue.go). The token of uuid.New, the clock
-- and the rows that other transactions hold locked are arguments.
pub mod Selection
pub mod Outcomes
pub mod Loop
use content_sources_backend.Common.{ℕ, Bool, Option, none, some, List, [], ◌∷◌, String}
use content_sources_backend.Table.{update}
use content_sources_backend.Queue.Types.{
  TaskInfo, Db, Error, context_canceled, no_rows, db_error, context_done,
}
use content_sources_backend.Queue.Transaction.{
  Link, Conn, Outcome, ok, M, ◌>>=◌, ◌>>◌, pure, query, exec_checked, begin, commit, Result, done,
  fails, transact,
}
use content_sources_backend.Queue.Statements.{
  has_id, returning, is_ready, select_first, start, insert_heartbeat, dependencies_of,
}
use content_sources_backend.Queue.Enqueue.{Info, found}

-- The SET of sqlDequeue on the chosen row, and its RETURNING.
unfoldable pub claim : ℕ → ℕ → TaskInfo → M TaskInfo
claim token now t c =
    ok (returning (start token now t)) (record c { db = record d { tasks = tasks } })
  where
    d : Db
    d = c.db

    tasks : List TaskInfo
    tasks = update (has_id t.id) (start token now) d.tasks

-- sqlDequeue.
unfoldable pub take_first : ℕ → ℕ → (ℕ → Bool) → List String → M TaskInfo
unfolding claim
take_first token now locked types = do
  chosen ← query (λ d. select_first (is_ready locked types d) d.tasks)
  t ← found chosen no_rows
  claim token now t

unfoldable pub dequeue_maybe_tx : ℕ → ℕ → (ℕ → Bool) → List String → M Info
unfolding take_first
dequeue_maybe_tx token now locked types = do
  begin
  t ← take_first token now locked types
  exec_checked (insert_heartbeat token t.id now)
  deps ← query (dependencies_of t.id)
  commit
  pure (record { task = t; dependencies = deps })

unfoldable pub dequeue_maybe : ℕ → ℕ → (ℕ → Bool) → List String → Db → Link → Result Info × Db
unfolding dequeue_maybe_tx
dequeue_maybe token now locked types = transact (dequeue_maybe_tx token now locked types)

-- One round of the loop of Dequeue: the database, the instant, the locks of others and the
-- connection that the round meets.
pub record Round : Type 0 where
  pub db : Db
  pub now : ℕ
  pub locked : ℕ → Bool
  pub link : Link

-- What ends a wait: a notification on the dequeuer's channel, with the round that follows, or the
-- end of the context.
pub data Wake : Type 0 where
  notified : Round → Wake
  context_ends : Wake

-- What an error of a round makes of the loop: `none` waits.
unfoldable pub dequeue_error : Error → Option Error
dequeue_error no_rows = none
dequeue_error context_done = some context_canceled
dequeue_error _ = some db_error

abbrev pub conclude : Result Info × Db → Option (Result Info × Db) → Option (Result Info × Db)
conclude (done info, d) later = some (done info, d)
conclude (fails e, d) later = elim (dequeue_error e) [ some e' ↦ some (fails e', d) | none ↦ later ]

-- The loop of Dequeue, over what wakes it; `none` is a call that still waits.
unfoldable pub dequeue : ℕ → List String → Round → List Wake → Option (Result Info × Db)
dequeue token types r [] = conclude (dequeue_maybe token r.now r.locked types r.db r.link) none
dequeue token types r (notified next ∷ wakes) =
    let later = dequeue token types next wakes in
    conclude (dequeue_maybe token r.now r.locked types r.db r.link) later
dequeue token types r (context_ends ∷ wakes) =
    conclude (dequeue_maybe token r.now r.locked types r.db r.link)
      (some (fails context_canceled, r.db))
