-- ===== src/Queue/Finish/Steps.antt =====
-- finishWithTx over a connection that serves enough statements: the tables that it leaves.
use content_sources_backend.Common.{
  ℕ, ◌+◌, ◌≡◌, refl, ap, ◌∙◌, true, false, Option, none, some, Text, arith, length, if◌then◌else◌,
  ◌==◌, is_none, is_some,
}
use content_sources_backend.Table.{find, affected}
use content_sources_backend.Table.Laws.{affected-key}
use content_sources_backend.Queue.Types.{
  TaskInfo, tasks_changed, Db, not_exist, not_running, no_rows,
}
use content_sources_backend.Queue.Transaction.{M, ok, ◌>>◌, pure, throw, statement, query, exec}
use content_sources_backend.Queue.Transaction.Runs.{
  Runs, Stops, over, bind-Runs, bind-Stops, statement-Runs, query-Runs, exec-Runs, pure-Runs,
}
use content_sources_backend.Queue.Statements.{
  is_failed, has_id, returning, unfinished, finish_task, delete_heartbeat, dependents_of,
  dependencies_of, notify,
}
use content_sources_backend.Queue.Enqueue.{status_with_conn}
use content_sources_backend.Queue.Finish.{
  finish_status, next_retry, cancel_dependents, parent_failed, finish_found, finish_with_tx,
  not_started_or_finished,
}
use content_sources_backend.Queue.Finish.Cascade.{cancel_each, cancel_dependents-Runs}
use content_sources_backend.Queue.Invariant.{IsWellFormed}

module _ (upper_bound now id : ℕ) (error : Option Text) (t : TaskInfo) where
  unfoldable pub closed : Db → Db
  closed d =
      finish_task (finish_status error) error (next_retry upper_bound now (finish_status error) t)
        now id (delete_heartbeat id d)

  abbrev pub cascade : Option Text → Db → Db
  cascade none d = d
  cascade (some s) d = cancel_each parent_failed (dependents_of id d) d

  abbrev pub cascade_cost : Option Text → Db → ℕ
  cascade_cost none d = 0
  cascade_cost (some s) d = 1 + length (dependents_of id d)

  unfoldable pub finished : Db → Db
  unfolding closed
  finished d = notify tasks_changed (cascade error (closed d))

-- The statements that finishWithTx needs over a row that it may finish.
abbrev pub finish_tx_cost : Option Text → ℕ → Db → ℕ
finish_tx_cost none id d = 5
finish_tx_cost (some s) id d = 6 + length (dependents_of id d)

pub status_with_conn-Runs :
    (id : ℕ) (t : TaskInfo) (d : Db)
    → find (has_id id) d.tasks ≡ some t
    → Runs
        (status_with_conn id)
        d
        2
        (record { task = returning t; dependencies = dependencies_of id d })
        d
unfolding status_with_conn
status_with_conn-Runs id t d e =
    bind-Runs (query (λ d. find (has_id id) d.tasks)) _ d 1 (some t) d 1 _ d
      (λ k fault. query-Runs (λ d. find (has_id id) d.tasks) d k fault ∙ rw e)
      (bind-Runs (query (dependencies_of id)) _ d 1 (dependencies_of id d) d 0 _ d
        (query-Runs (dependencies_of id) d) (pure-Runs _ d))

pub status_with_conn-Stops :
    (id : ℕ) (d : Db) → find (has_id id) d.tasks ≡ none → Stops (status_with_conn id) d 1 no_rows
unfolding status_with_conn
status_with_conn-Stops id d e =
    bind-Stops (query (λ d. find (has_id id) d.tasks)) _ d 1 none d 0 no_rows
      (λ k fault. query-Runs (λ d. find (has_id id) d.tasks) d k fault ∙ rw e) (λ k fault. refl)

cascade-Runs :
    (upper_bound now id : ℕ) (error : Option Text) (t : TaskInfo) (d : Db)
    → Runs
        (if is_failed (finish_status error) then cancel_dependents parent_failed id else pure tt)
        d
        (cascade_cost upper_bound now id error t error d)
        tt
        (cascade upper_bound now id error t error d)
cascade-Runs upper_bound now id none t d = pure-Runs tt d
cascade-Runs upper_bound now id (some s) t d = cancel_dependents-Runs parent_failed id d

finish_found-Runs :
    (upper_bound now id : ℕ) (error : Option Text) (t : TaskInfo) (d : Db)
    → IsWellFormed d
    → find (has_id id) d.tasks ≡ some t
    → is_none t.finished_at ≡ true
    → Runs
        (finish_found upper_bound now error id t)
        d
        (1
          + (1
              + (0
                  + (cascade_cost upper_bound now id error t error
                        (closed upper_bound now id error t d)
                      + 1))))
        tt
        (finished upper_bound now id error t d)
unfolding finish_found closed finished finish_task delete_heartbeat
finish_found-Runs upper_bound now id error t d w e open_row =
    let d1 = delete_heartbeat id d in
    let d2 = closed upper_bound now id error t d in
    let d3 = cascade upper_bound now id error t error d2 in
    let cascades : M (Unit {0}) =
      if is_failed (finish_status error) then cancel_dependents parent_failed id else pure tt in
    let ending : M (Unit {0}) = exec (notify tasks_changed) in
    let cost = cascade_cost upper_bound now id error t error d2 in
    bind-Runs (exec (delete_heartbeat id)) _ d 1 tt d1 _ tt _ (exec-Runs (delete_heartbeat id) d) (
      bind-Runs
        (statement (λ d. affected (unfinished id) d.tasks)
          (finish_task (finish_status error) error
            (next_retry upper_bound now (finish_status error) t) now id))
        (λ rows. (if rows == 0 then throw not_exist else pure tt) >> (cascades >> ending)) d1 1 1 d2
        _ tt _ one_row
        (bind-Runs (pure tt) (λ _. cascades >> ending) d2 0 tt d2 (cost + 1) tt _ (pure-Runs tt d2)
          (bind-Runs cascades (λ _. ending) d2 cost tt d3 1 tt _
            (cascade-Runs upper_bound now id error t d2) (exec-Runs (notify tasks_changed) d3))))
  where
    one_row :
        Runs
          (statement
            (λ d. affected (unfinished id) d.tasks)
            (finish_task
              (finish_status error)
              error
              (next_retry upper_bound now (finish_status error) t)
              now
              id))
          (delete_heartbeat id d)
          1
          1
          (closed upper_bound now id error t d)
    one_row k fault =
        let row =
          affected-key (λ (u : TaskInfo). u.id) id (λ u. is_none u.finished_at) d.tasks w.distinct e
            open_row in
        statement-Runs (λ d. affected (unfinished id) d.tasks)
          (finish_task (finish_status error) error
            (next_retry upper_bound now (finish_status error) t) now id)
          (delete_heartbeat id d) k fault
        ∙ ap (λ (n : ℕ). ok n (over (closed upper_bound now id error t d) k fault)) row

pub finish_with_tx-Runs :
    (upper_bound now id : ℕ) (error : Option Text) (t : TaskInfo) (d : Db)
    → IsWellFormed d
    → find (has_id id) d.tasks ≡ some t
    → is_some t.started_at ≡ true
    → is_none t.finished_at ≡ true
    → Runs
        (finish_with_tx upper_bound now id error)
        d
        (finish_tx_cost error id d)
        tt
        (finished upper_bound now id error t d)
unfolding finish_with_tx
finish_with_tx-Runs upper_bound now id error t d w e started open_row k fault = rw (cost_eq error) (
    bind-Runs (status_with_conn id) _ d 2
      (record { task = returning t; dependencies = dependencies_of id d }) d _ tt _
      (status_with_conn-Runs id t d e) (checked (ground arith)) k fault)
  where
    inner : ℕ
    inner =
        1
        + (1
            + (0
                + (cascade_cost upper_bound now id error t error
                      (closed upper_bound now id error t d)
                    + 1)))

    cost_eq :
        (o : Option Text)
        → finish_tx_cost o id d
          ≡ 2
            + (1
                + (1
                    + (0
                        + (cascade_cost upper_bound now id error t o
                              (closed upper_bound now id error t d)
                            + 1))))
    cost_eq none = refl
    cost_eq (some s) = unfold closed finish_task delete_heartbeat dependents_of in omega arith

    checked :
        not_started_or_finished t ≡ false
        → Runs
            (if not_started_or_finished t
              then throw not_running
              else finish_found upper_bound now error id t)
            d
            inner
            tt
            (finished upper_bound now id error t d)
    checked h = rw h (finish_found-Runs upper_bound now id error t d w e open_row)
