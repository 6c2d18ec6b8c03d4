-- ===== src/Queue/Finish/Outcomes.antt =====
-- What Finish does to every row, and what it refuses.
use content_sources_backend.Common.{
  ℕ, ◌+◌, ◌-◌, ◌*◌, ◌/◌, ◌&&◌, ltb, String, str_eq, ◌≡◌, refl, ap, ◌∙◌, true, false, ◌⊎◌, Option,
  none, some, List, [], ◌∷◌, ◌++◌, Text, arith, any, if◌then◌else◌, ◌==◌, is_none, is_some,
}
use content_sources_backend.Table.{find}
use content_sources_backend.Table.Laws.{find_sound, any-delete_self}
use content_sources_backend.Queue.Types.{
  completed, failed, canceled, contains, Dependency, TaskInfo, Heartbeat, Notification,
  tasks_changed, Db, Error, not_running, no_rows,
}
use content_sources_backend.Queue.Transaction.{M, ◌>>◌, throw, begin, commit, done, fails}
use content_sources_backend.Queue.Transaction.Runs.{
  Runs, Stops, serving, bind-Runs, bind-Stops, Stops-first, exec-Runs, transact-Runs,
  transact-Stops,
}
use content_sources_backend.Queue.Statements.{
  has_id, returning, unfinished, left, finish_row, finish_task, delete_heartbeat, dependents_of,
  dependencies_of,
}
use content_sources_backend.Queue.Enqueue.{Info, status_with_conn}
use content_sources_backend.Queue.Finish.{
  finish_status, next_retry, time_to_wait, parent_failed, finish_found, finish_with_tx, finish,
  not_started_or_finished,
}
use content_sources_backend.Queue.Finish.Cascade.{
  cancel_view, cancel_view-dependents_of, depends_on, through, through-through, through-update,
  find-cancel_each, cancel_each-rest,
}
use content_sources_backend.Queue.Finish.Steps.{
  closed, cascade, finished, finish_tx_cost, finish_with_tx-Runs, status_with_conn-Runs,
  status_with_conn-Stops,
}
use content_sources_backend.Queue.Invariant.{IsWellFormed}

-- What Finish makes of a row `u`, over a task that failed or not, the time of its next retry and what
-- becomes of the rows of others.
abbrev finish_listed : ℕ → ℕ → Option Text → Option ℕ → (TaskInfo → TaskInfo) → TaskInfo → TaskInfo
finish_listed now id error next other u =
    if u.id == id
    then record u {
      finished_at = some now;
      status = finish_status error;
      error = left error;
      next_retry_time = next;
    }
    else if is_some error
    then other u
    else u

-- The types whose tasks are retried.
abbrev pub retried_types : List String
retried_types =
    "delete-templates" ∷ "delete-repository-snapshots" ∷ "update-template-content"
    ∷ "delete-snapshots" ∷ []

-- What Finish makes of a row `u`, where `t` is the row of the task and `deps` are the dependencies.
abbrev pub finish_view : ℕ → ℕ → ℕ → Option Text → TaskInfo → List Dependency → TaskInfo → TaskInfo
finish_view upper_bound now id error t deps u =
    if u.id == id
    then record u {
      finished_at = some now;
      status = if is_some error then failed else completed;
      error = left error;
      next_retry_time =
          if is_some error && (ltb t.retries 3 && any (λ n. str_eq n t.typename) retried_types)
          then some (now + 1000000000 * (upper_bound / ((3 - t.retries) + 1)))
          else none;
    }
    else if is_some error && (depends_on deps u.id id && is_none u.finished_at)
    then record u { status = canceled; error = left (some parent_failed); cancel_attempted = true }
    else u

closed_then_cascade :
    (upper_bound now id : ℕ) (error : Option Text) (t : TaskInfo) (deps : List ℕ) (u : TaskInfo)
    → (u.id ≡ id → is_none u.finished_at ≡ true)
    → (if is_some error
        then cancel_view parent_failed deps (
            if unfinished id u
            then finish_row
                (finish_status error)
                error
                (next_retry upper_bound now (finish_status error) t)
                now
                u
            else u)
        else if unfinished id u
        then finish_row
            (finish_status error)
            error
            (next_retry upper_bound now (finish_status error) t)
            now
            u
        else u)
      ≡ finish_listed now id error
          (next_retry upper_bound now (finish_status error) t)
          (cancel_view parent_failed deps)
          u
unfolding finish_row
closed_then_cascade upper_bound now id error t deps u h = ground arith

finish_listed-view :
    (upper_bound now id : ℕ) (error : Option Text) (t : TaskInfo) (d : Db) (u : TaskInfo)
    → finish_listed now id error
        (next_retry upper_bound now (finish_status error) t)
        (cancel_view parent_failed (dependents_of id d))
        u
      ≡ finish_view upper_bound now id error t d.dependencies u
unfolding next_retry time_to_wait contains
finish_listed-view upper_bound now id none t d u = refl
finish_listed-view upper_bound now id (some s) t d u =
    ap
      (λ (other : TaskInfo → TaskInfo).
        finish_listed now id (some s) (next_retry upper_bound now failed t) other u)
      (cancel_view-dependents_of parent_failed id d)

-- The rows after finishWithTx, each by its identifier.
pub finished-find :
    (upper_bound now id : ℕ) (error : Option Text) (t : TaskInfo) (d : Db)
    → find (has_id id) d.tasks ≡ some t
    → is_none t.finished_at ≡ true
    → (j : ℕ)
    → find (has_id j) (finished upper_bound now id error t d).tasks
      ≡ through (finish_view upper_bound now id error t d.dependencies) (find (has_id j) d.tasks)
unfolding finished closed finish_task delete_heartbeat dependents_of finish_row
finished-find upper_bound now id error t d e open_row j =
    cascaded error ∙ at_row (find (has_id j) d.tasks) refl
  where
    next : Option ℕ
    next = next_retry upper_bound now (finish_status error) t

    close : TaskInfo → TaskInfo
    close = finish_row (finish_status error) error next now

    close_if : TaskInfo → TaskInfo
    close_if u = if unfinished id u then close u else u

    both : Option Text → TaskInfo → TaskInfo
    both o u =
        if is_some o
        then cancel_view parent_failed (dependents_of id d) (close_if u)
        else close_if u

    updated :
        find (has_id j) (closed upper_bound now id error t d).tasks
        ≡ through close_if (find (has_id j) d.tasks)
    updated = through-update j (unfinished id) close d.tasks (λ u. refl)

    cascaded :
        (o : Option Text)
        → find
            (has_id j)
            (cascade upper_bound now id error t o (closed upper_bound now id error t d)).tasks
          ≡ through (both o) (find (has_id j) d.tasks)
    cascaded none = updated
    cascaded (some s) =
        find-cancel_each parent_failed (dependents_of id d) j (closed upper_bound now id error t d)
        ∙ ap (through (cancel_view parent_failed (dependents_of id d))) updated
        ∙ through-through close_if (cancel_view parent_failed (dependents_of id d))
            (find (has_id j) d.tasks)

    at_row :
        (o : Option TaskInfo)
        → find (has_id j) d.tasks ≡ o
        → through (both error) o ≡ through (finish_view upper_bound now id error t d.dependencies) o
    at_row none f = refl
    at_row (some u) f = ap some (
        closed_then_cascade upper_bound now id error t (dependents_of id d) u
          (λ same. ground (arith, find_sound (has_id j) d.tasks f))
        ∙ finish_listed-view upper_bound now id error t d u)

-- Where the task is started and not finished, tables are well formed and the connection serves as
-- many statements as Finish sends, Finish succeeds, and of each row it makes this: the task itself
-- gets its end, its status and error, and a time of retry exactly if it failed, has retries left
-- and is of a type that may be retried; if it failed, each task that depends on it and is not
-- finished is canceled; every other row is as it was. No heartbeat of the task is left, and the
-- workers are notified.
pub finish-ends :
    (upper_bound now id : ℕ) (error : Option Text) (t : TaskInfo) (d : Db) (k : ℕ) (fault : Error)
    → IsWellFormed d
    → find (has_id id) d.tasks ≡ some t
    → is_some t.started_at ≡ true
    → is_none t.finished_at ≡ true
    → (e : Db) × (finish upper_bound now id error d
          (serving (2 + finish_tx_cost error id d + k) fault)
        ≡ (done tt, e))
      × ((j : ℕ)
          → find (has_id j) e.tasks
            ≡ through
                (finish_view upper_bound now id error t d.dependencies)
                (find (has_id j) d.tasks))
      × (any (λ (h : Heartbeat). h.id == id) e.heartbeats ≡ false)
      × (e.notifications ≡ d.notifications ++ tasks_changed ∷ [])
unfolding finish
finish-ends upper_bound now id error t d k fault w e started open_row = (
  finished upper_bound now id error t d,
  transact-Runs (begin >> (finish_with_tx upper_bound now id error >> commit)) d
      (2 + finish_tx_cost error id d) tt _ k fault ended,
  finished-find upper_bound now id error t d e open_row,
  unfold finished closed in (rest error).0,
  unfold finished closed in (rest error).1,
)
  where
    ended :
        Runs
          (begin >> (finish_with_tx upper_bound now id error >> commit))
          d
          (2 + finish_tx_cost error id d)
          tt
          (finished upper_bound now id error t d)
    ended k' fault' =
        let sums : 2 + finish_tx_cost error id d ≡ 1 + (finish_tx_cost error id d + 1) =
          omega arith in
        rw sums (
          bind-Runs begin (λ _. finish_with_tx upper_bound now id error >> commit) d 1 tt d
            (finish_tx_cost error id d + 1) tt (finished upper_bound now id error t d)
            (exec-Runs (λ x. x) d)
            (bind-Runs (finish_with_tx upper_bound now id error) (λ _. commit) d
              (finish_tx_cost error id d) tt (finished upper_bound now id error t d) 1 tt
              (finished upper_bound now id error t d)
              (finish_with_tx-Runs upper_bound now id error t d w e started open_row)
              (exec-Runs (λ x. x) (finished upper_bound now id error t d)))
            k' fault')

    after : Option Text → Db
    after o = cascade upper_bound now id error t o (closed upper_bound now id error t d)

    rest :
        (o : Option Text)
        → (any (λ (h : Heartbeat). h.id == id) (after o).heartbeats ≡ false)
          × ((after o).notifications ++ tasks_changed ∷ [] ≡ d.notifications ++ tasks_changed ∷ [])
    rest none = unfold closed finish_task delete_heartbeat in (any-delete_self _ d.heartbeats, refl)
    rest (some s) =
        unfold closed finish_task delete_heartbeat in
        let same =
          cancel_each-rest parent_failed (dependents_of id (closed upper_bound now id error t d))
            (closed upper_bound now id error t d) in
        (
          rw (same.0) (any-delete_self _ d.heartbeats),
          ap (λ (ns : List Notification). ns ++ tasks_changed ∷ []) same.1,
        )

finish_refusals :
    (upper_bound now id : ℕ) (error : Option Text) (d : Db) (k : ℕ) (fault : Error)
    → ((t : TaskInfo)
        → find (has_id id) d.tasks ≡ some t
        → (t.started_at ≡ none) ⊎ (is_some t.finished_at ≡ true)
        → finish upper_bound now id error d (serving (3 + k) fault) ≡ (fails not_running, d))
      × (find (has_id id) d.tasks ≡ none
          → finish upper_bound now id error d (serving (3 + k) fault) ≡ (fails no_rows, d))
unfolding finish finish_with_tx
finish_refusals upper_bound now id error d k fault = (not_running_now, missing)
  where
    body : M (Unit {0})
    body = finish_with_tx upper_bound now id error >> commit

    not_running_now :
        (t : TaskInfo)
        → find (has_id id) d.tasks ≡ some t
        → (t.started_at ≡ none) ⊎ (is_some t.finished_at ≡ true)
        → finish upper_bound now id error d (serving (3 + k) fault) ≡ (fails not_running, d)
    not_running_now t e closed_row = transact-Stops (begin >> body) d 3 not_running k fault (
        bind-Stops begin (λ _. body) d 1 tt d 2 not_running (exec-Runs (λ x. x) d)
          (Stops-first (finish_with_tx upper_bound now id error) (λ _. commit) d 2 not_running
            (bind-Stops (status_with_conn id) checked d 2
              (record { task = returning t; dependencies = dependencies_of id d }) d 0 not_running
              (status_with_conn-Runs id t d e) (stop (ground arith)))))
      where
        checked : Info → M (Unit {0})
        checked info =
            if not_started_or_finished info.task
            then throw not_running
            else finish_found upper_bound now error id info.task

        stop :
            not_started_or_finished t ≡ true
            → Stops
                (checked (record { task = returning t; dependencies = dependencies_of id d }))
                d
                0
                not_running
        stop h = rw h (λ k' fault'. refl)

    missing :
        find (has_id id) d.tasks ≡ none
        → finish upper_bound now id error d (serving (3 + k) fault) ≡ (fails no_rows, d)
    missing e =
        let sums : 3 + k ≡ 2 + (1 + k) = omega arith in
        rw sums (
          transact-Stops (begin >> body) d 2 no_rows (1 + k) fault (
            bind-Stops begin (λ _. body) d 1 tt d 1 no_rows (exec-Runs (λ x. x) d)
              (Stops-first (finish_with_tx upper_bound now id error) (λ _. commit) d 1 no_rows
                (Stops-first (status_with_conn id) _ d 1 no_rows (status_with_conn-Stops id d e)))))

-- Where the connection serves three statements, Finish refuses a task that is not started or is
-- already finished with ErrNotRunning, and leaves the tables as they are.
pub finish-refuses :
    (upper_bound now id : ℕ) (error : Option Text) (d : Db) (k : ℕ) (fault : Error) (t : TaskInfo)
    → find (has_id id) d.tasks ≡ some t
    → (t.started_at ≡ none) ⊎ (is_some t.finished_at ≡ true)
    → finish upper_bound now id error d (serving (3 + k) fault) ≡ (fails not_running, d)
finish-refuses upper_bound now id error d k fault =
    (finish_refusals upper_bound now id error d k fault).0
