-- ===== src/Queue/Finish/Requeues.antt =====
-- What Requeue does on each of its branches.
use content_sources_backend.Common.{
  ℕ, ◌+◌, ◌≡◌, refl, ap, ◌∙◌, ◌≢◌, true, false, not, ◌&&◌, ◌⊎◌, inl, inr, Option, none, some, [],
  ◌∷◌, ◌++◌, arith, any, if◌then◌else◌, ◌==◌, is_none, is_some, Bool-cases, ==_iff,
}
use content_sources_backend.Table.{find, affected}
use content_sources_backend.Table.Laws.{any-delete_self, affected-key}
use content_sources_backend.Queue.Types.{
  pending, running, TaskInfo, Heartbeat, tasks_changed, Db, Error, not_exist, not_running,
  task_canceled, max_retries_exceeded, max_task_retries,
}
use content_sources_backend.Queue.Transaction.{
  ok, ◌>>◌, pure, throw, statement, exec, begin, commit, done, fails,
}
use content_sources_backend.Queue.Transaction.Runs.{
  Runs, Stops, serving, over, bind-Runs, bind-Stops, statement-Runs, exec-Runs, pure-Runs,
  transact-Runs, transact-Stops,
}
use content_sources_backend.Queue.Statements.{
  is_running, has_id, returning, in_progress, delete_heartbeat, requeue_task, requeue_row,
  dependencies_of, notify,
}
use content_sources_backend.Queue.Enqueue.{status_with_conn}
use content_sources_backend.Queue.Finish.{
  finish_with_tx, not_started_or_finished, max_retries_text, requeue_spent, requeue_again,
  requeue_found, requeue_tx, requeue, report,
}
use content_sources_backend.Queue.Finish.Cascade.{through, through-update, through-eq, found_eq}
use content_sources_backend.Queue.Finish.Steps.{
  finished, finish_tx_cost, finish_with_tx-Runs, status_with_conn-Runs,
}
use content_sources_backend.Queue.Invariant.{IsWellFormed}

requeued : ℕ → ℕ → Db → Db
requeued now id d = notify tasks_changed (requeue_task now id (delete_heartbeat id d))

requeue_again-Runs :
    (now id : ℕ) (t : TaskInfo) (d : Db)
    → IsWellFormed d
    → find (has_id id) d.tasks ≡ some t
    → (is_some t.started_at && is_none t.finished_at) ≡ true
    → Runs (requeue_again now id) d 4 none (requeued now id d)
unfolding requeue_again requeued requeue_task delete_heartbeat
requeue_again-Runs now id t d w e running_row =
    let d1 = delete_heartbeat id d in
    let d2 = requeue_task now id d1 in
    let d3 = notify tasks_changed d2 in
    bind-Runs (exec (delete_heartbeat id)) _ d 1 tt d1 3 none d3 (exec-Runs (delete_heartbeat id) d)
      (bind-Runs (statement (λ d. affected (in_progress id) d.tasks) (requeue_task now id))
        (λ rows.
          (if rows == 1 then pure tt else throw not_exist)
          >> (exec (notify tasks_changed) >> (commit >> pure none)))
        d1 1 1 d2 2 none d3 one_row
        (bind-Runs (pure tt) (λ _. exec (notify tasks_changed) >> (commit >> pure none)) d2 0 tt d2
          2 none d3 (pure-Runs tt d2)
          (bind-Runs (exec (notify tasks_changed)) (λ _. commit >> pure none) d2 1 tt d3 1 none d3
            (exec-Runs (notify tasks_changed) d2)
            (bind-Runs commit (λ _. pure none) d3 1 tt d3 0 none d3 (exec-Runs (λ x. x) d3)
              (pure-Runs none d3)))))
  where
    one_row :
        Runs
          (statement (λ d. affected (in_progress id) d.tasks) (requeue_task now id))
          (delete_heartbeat id d)
          1
          1
          (requeue_task now id (delete_heartbeat id d))
    one_row k fault =
        let row =
          affected-key (λ (u : TaskInfo). u.id) id
            (λ u. is_some u.started_at && is_none u.finished_at) d.tasks w.distinct e running_row in
        statement-Runs (λ d. affected (in_progress id) d.tasks) (requeue_task now id)
          (delete_heartbeat id d) k fault
        ∙ ap (λ (n : ℕ). ok n (over (requeue_task now id (delete_heartbeat id d)) k fault)) row

canceled_test :
    (t : TaskInfo)
    → t.cancel_attempted ≡ true
    → t.status ≢ running
    → (t.cancel_attempted && not (is_running t.status)) ≡ true
canceled_test t attempted idle = ground arith

free_test :
    (t : TaskInfo)
    → (t.cancel_attempted ≡ false) ⊎ (t.status ≡ running)
    → (t.cancel_attempted && not (is_running t.status)) ≡ false
free_test t free = ground arith

closed_test :
    (t : TaskInfo)
    → (t.started_at ≡ none) ⊎ (is_some t.finished_at ≡ true)
    → not_started_or_finished t ≡ true
closed_test t closed = ground arith

open_test :
    (t : TaskInfo)
    → is_some t.started_at ≡ true
    → is_none t.finished_at ≡ true
    → not_started_or_finished t ≡ false
open_test t started open_row = ground arith

left_test : (t : TaskInfo) → t.retries ≢ max_task_retries → (t.retries == max_task_retries) ≡ false
left_test t left = ground arith

spent_test : (t : TaskInfo) → t.retries ≡ max_task_retries → (t.retries == max_task_retries) ≡ true
spent_test t spent = ground arith

one_test :
    (now id : ℕ) (t u : TaskInfo)
    → is_some t.started_at ≡ true
    → is_none t.finished_at ≡ true
    → (u.id ≡ id → u ≡ t)
    → (if in_progress id u then requeue_row now u else u)
      ≡ (if u.id == id then requeue_row now u else u)
one_test now id t u started open_row same = elim (Bool-cases (u.id == id)) [
  | inl e ↦ (let eq = same ((==_iff _ _).0 e) in rw e (ground arith))
  | inr e ↦ rw e
]

module _ (upper_bound now id : ℕ) (t : TaskInfo) (d : Db)
    (e : find (has_id id) d.tasks ≡ some t) where
  tx-Runs :
      (n : ℕ) (r : Option Error) (d' : Db)
      → Runs (requeue_found upper_bound now id t) d n r d'
      → Runs (requeue_tx upper_bound now id) d (1 + (2 + n)) r d'
  unfolding requeue_tx
  tx-Runs n r d' h = bind-Runs begin _ d 1 tt d (2 + n) r d' (exec-Runs (λ x. x) d) (
      bind-Runs (status_with_conn id) (λ info. requeue_found upper_bound now id info.task) d 2
        (record { task = returning t; dependencies = dependencies_of id d }) d n r d'
        (status_with_conn-Runs id t d e) h)

  tx-Stops :
      (x : Error)
      → Stops (requeue_found upper_bound now id t) d 0 x
      → Stops (requeue_tx upper_bound now id) d 3 x
  unfolding requeue_tx
  tx-Stops x h = bind-Stops begin _ d 1 tt d 2 x (exec-Runs (λ x. x) d) (
      bind-Stops (status_with_conn id) (λ info. requeue_found upper_bound now id info.task) d 2
        (record { task = returning t; dependencies = dependencies_of id d }) d 0 x
        (status_with_conn-Runs id t d e) h)

  requeue_refusals :
      (k : ℕ) (fault : Error)
      → (t.cancel_attempted ≡ true
          → t.status ≢ running
          → requeue upper_bound now id d (serving (3 + k) fault) ≡ (fails task_canceled, d))
        × ((t.cancel_attempted ≡ false) ⊎ (t.status ≡ running)
            → (t.started_at ≡ none) ⊎ (is_some t.finished_at ≡ true)
            → requeue upper_bound now id d (serving (3 + k) fault) ≡ (fails not_running, d))
  unfolding requeue requeue_found
  requeue_refusals k fault = (
    λ attempted idle. rw (
        transact-Stops (requeue_tx upper_bound now id) d 3 task_canceled k fault
          (tx-Stops task_canceled (λ k' fault'. rw (canceled_test t attempted idle)))),
    λ free closed. rw (
        transact-Stops (requeue_tx upper_bound now id) d 3 not_running k fault
          (tx-Stops not_running (λ k' fault'. rw (free_test t free) (rw (closed_test t closed))))),
  )

  -- Where the connection serves three statements, Requeue refuses a task whose cancellation was
  -- attempted and whose status is not running with ErrTaskCanceled, and changes nothing.
  pub requeue-refuses_canceled :
      (k : ℕ) (fault : Error)
      → t.cancel_attempted ≡ true
      → t.status ≢ running
      → requeue upper_bound now id d (serving (3 + k) fault) ≡ (fails task_canceled, d)
  requeue-refuses_canceled k fault = (requeue_refusals k fault).0

  -- Over well-formed tables and a connection that serves as many statements as it sends, Requeue
  -- of a task that is started, not finished, runs or had no cancellation attempted, and has used
  -- up its retries fails with ErrMaxRetriesExceeded; what it leaves is what finishWithTx leaves
  -- of the task failed.
  pub requeue-spent :
      (k : ℕ) (fault : Error)
      → IsWellFormed d
      → (t.cancel_attempted ≡ false) ⊎ (t.status ≡ running)
      → is_some t.started_at ≡ true
      → is_none t.finished_at ≡ true
      → t.retries ≡ max_task_retries
      → requeue upper_bound now id d
          (serving (4 + finish_tx_cost (some max_retries_text) id d + k) fault)
        ≡ (fails max_retries_exceeded, finished upper_bound now id (some max_retries_text) t d)
  unfolding requeue requeue_found requeue_spent
  requeue-spent k fault w free started open_row spent =
      let c = finish_tx_cost (some max_retries_text) id d in
      let out = finished upper_bound now id (some max_retries_text) t d in
      let sums : 4 + c ≡ 1 + (2 + (c + (1 + 0))) = omega arith in
      rw sums (
        ap report (
          transact-Runs (requeue_tx upper_bound now id) d (1 + (2 + (c + (1 + 0))))
            (some max_retries_exceeded) out k fault
            (tx-Runs (c + (1 + 0)) (some max_retries_exceeded) out (λ k' fault'.
              rw (free_test t free) (
                rw (open_test t started open_row) (
                  rw (spent_test t spent) (
                    bind-Runs (finish_with_tx upper_bound now id (some max_retries_text))
                      (λ _. commit >> pure (some max_retries_exceeded)) d c tt out (1 + 0)
                      (some max_retries_exceeded) out
                      (finish_with_tx-Runs upper_bound now id (some max_retries_text) t d w e
                        started open_row)
                      (bind-Runs commit (λ _. pure (some max_retries_exceeded)) out 1 tt out 0
                        (some max_retries_exceeded) out (exec-Runs (λ x. x) out)
                        (pure-Runs (some max_retries_exceeded) out))
                      k' fault')))))))

  -- Over well-formed tables and a connection that serves seven statements, Requeue of a task that
  -- is started, not finished, runs or had no cancellation attempted, and whose retries are not
  -- exactly the limit succeeds: the task's row becomes pending, without token and start, queued at
  -- this instant with one retry more, and is otherwise as it was, as is every other row; no
  -- heartbeat of the task is left, and the workers are notified.
  pub requeue-again :
      (k : ℕ) (fault : Error)
      → IsWellFormed d
      → (t.cancel_attempted ≡ false) ⊎ (t.status ≡ running)
      → is_some t.started_at ≡ true
      → is_none t.finished_at ≡ true
      → t.retries ≢ max_task_retries
      → (e' : Db) × (requeue upper_bound now id d (serving (7 + k) fault) ≡ (done tt, e'))
        × ((j : ℕ)
            → find (has_id j) e'.tasks
              ≡ through
                  (λ u.
                    if u.id == id
                    then record u {
                      started_at = none;
                      token = none;
                      status = pending;
                      retries = u.retries + 1;
                      queued_at = now;
                    }
                    else u)
                  (find (has_id j) d.tasks))
        × (any (λ (h : Heartbeat). h.id == id) e'.heartbeats ≡ false)
        × (e'.notifications ≡ d.notifications ++ tasks_changed ∷ [])
  unfolding requeue requeue_found requeued requeue_task delete_heartbeat requeue_row
  requeue-again k fault w free started open_row left = (
    requeued now id d,
    ap report (
        transact-Runs (requeue_tx upper_bound now id) d 7 none (requeued now id d) k fault (
          tx-Runs 4 none (requeued now id d) (λ k' fault'. rw (free_test t free) (
            rw (open_test t started open_row) (
              rw (left_test t left)
                (requeue_again-Runs now id t d w e (ground arith) k' fault')))))),
    λ j.
        through-update j (in_progress id) (requeue_row now) d.tasks (λ u. refl)
        ∙ through-eq (λ u. if in_progress id u then requeue_row now u else u)
            (λ u. if u.id == id then requeue_row now u else u) (find (has_id j) d.tasks)
            (λ u f. one_test now id t u started open_row (found_eq id j d.tasks t u e f)),
    any-delete_self _ d.heartbeats,
    refl,
  )
