-- ===== src/Queue/Enqueue.antt =====
-- PgQueue.Enqueue, UpdatePayload and Status (pkg/tasks/queue/pgqueue.go). The result of uuid.New
-- and the clock are arguments; a transaction runs at one instant.
use content_sources_backend.Common.{ℕ, Option, none, some, List, [], ◌∷◌, String}
use content_sources_backend.Table.{find}
use content_sources_backend.Queue.Types.{TaskInfo, Task, tasks_changed, Db, Error, no_rows}
use content_sources_backend.Queue.Transaction.{
  Link, M, ◌>>=◌, ◌>>◌, pure, throw, query, exec, exec_checked, begin, commit, Result, transact,
}
use content_sources_backend.Queue.Statements.{
  has_id, returning, insert_task, insert_dependency, dependencies_of, set_payload, notify,
}

-- A row with its dependencies, as Status and Dequeue return it.
pub record Info : Type 0 where
  pub task : TaskInfo
  pub dependencies : List ℕ

abbrev pub found : {A : Type 0} → Option A → Error → M A
found none e = throw e
found (some a) e = pure a

-- The loop of Enqueue over task.Dependencies.
unfoldable pub insert_dependencies : ℕ → List ℕ → M (Unit {0})
insert_dependencies id [] = pure tt
insert_dependencies id (on ∷ rest) =
    exec_checked (insert_dependency id on) >> insert_dependencies id rest

unfoldable pub enqueue_tx : Task → ℕ → ℕ → M ℕ
enqueue_tx task id now = do
  begin
  exec_checked (insert_task task id now)
  insert_dependencies id task.dependencies
  exec (notify tasks_changed)
  commit
  pure id

unfoldable pub enqueue : Task → ℕ → ℕ → Db → Link → Result ℕ × Db
unfolding enqueue_tx
enqueue task id now = transact (enqueue_tx task id now)

unfoldable pub update_payload : ℕ → String → Db → Link → Result (Unit {0}) × Db
update_payload id payload = transact (exec (set_payload payload id))

unfoldable pub status_with_conn : ℕ → M Info
status_with_conn id = do
  row ← query (λ d. find (has_id id) d.tasks)
  t ← found row no_rows
  deps ← query (dependencies_of id)
  pure (record { task = returning t; dependencies = deps })

unfoldable pub status : ℕ → Db → Link → Result Info × Db
unfolding status_with_conn
status id = transact (status_with_conn id)
