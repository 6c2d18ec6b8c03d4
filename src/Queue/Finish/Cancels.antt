-- ===== src/Queue/Finish/Cancels.antt =====
-- What Cancel does to every row.
use content_sources_backend.Common.{
  ℕ, ◌+◌, ◌≡◌, refl, ap, ◌∙◌, true, false, some, List, [], ◌∷◌, ◌++◌, arith, any, length,
  if◌then◌else◌, ◌==◌, is_none,
}
use content_sources_backend.Table.{find}
use content_sources_backend.Table.Laws.{any-delete_self}
use content_sources_backend.Queue.Types.{
  canceled, TaskInfo, Heartbeat, Notification, tasks_changed, cancel_task, Db, Error,
}
use content_sources_backend.Queue.Transaction.{◌>>◌, M, exec, begin, commit, done}
use content_sources_backend.Queue.Transaction.Runs.{
  Runs, serving, bind-Runs, exec-Runs, exec_then-Runs, transact-Runs,
}
use content_sources_backend.Queue.Statements.{
  has_id, unfinished, left, cancel_row, cancel_unfinished, set_cancel_attempted, delete_heartbeat,
  dependents_of, notify,
}
use content_sources_backend.Queue.Finish.{
  cancel, cancel_dependents, task_canceled_text, parent_canceled,
}
use content_sources_backend.Queue.Finish.Cascade.{
  cancel_each, cancel_view, canceled_dependent, cancel_view-dependents_of, through, through-through,
  through-update, through-eq, find-cancel_each, cancel_each-rest, cancel_dependents-Runs,
}

-- What Cancel makes of the row of its task, before the dependents are canceled.
abbrev pub cancel_self : ℕ → TaskInfo → TaskInfo
cancel_self id u =
    if u.id == id
    then if is_none u.finished_at
      then record u {
        status = canceled;
        error = left (some task_canceled_text);
        cancel_attempted = true;
      }
      else record u { cancel_attempted = true }
    else u

module _ (id : ℕ) (d : Db) where
  told : Db
  told = notify (cancel_task id) d

  marked : Db
  unfolding told
  marked =
      set_cancel_attempted id (cancel_unfinished task_canceled_text id (delete_heartbeat id told))

  canceled_db : Db
  unfolding marked
  canceled_db = notify tasks_changed (cancel_each parent_canceled (dependents_of id d) marked)

  marked-find :
      (j : ℕ) → find (has_id j) marked.tasks ≡ through (cancel_self id) (find (has_id j) d.tasks)
  unfolding marked set_cancel_attempted cancel_unfinished delete_heartbeat cancel_row
  marked-find j =
      through-update j (has_id id) attempt
        (cancel_unfinished task_canceled_text id (delete_heartbeat id told)).tasks (λ u. refl)
      ∙ ap (through (λ u. if has_id id u then attempt u else u))
          (through-update j (unfinished id) (cancel_row task_canceled_text) d.tasks (λ u. refl))
      ∙ through-through (λ u. if unfinished id u then cancel_row task_canceled_text u else u)
          (λ u. if has_id id u then attempt u else u) (find (has_id j) d.tasks)
      ∙ through-eq _ (cancel_self id) (find (has_id j) d.tasks) (λ u _. ground arith)
    where
      attempt : TaskInfo → TaskInfo
      attempt t = record t { cancel_attempted = true }

  canceled-Runs :
      Runs
        (cancel_dependents parent_canceled id)
        marked
        (1 + length (dependents_of id d))
        tt
        (cancel_each parent_canceled (dependents_of id d) marked)
  unfolding marked set_cancel_attempted cancel_unfinished delete_heartbeat dependents_of
  canceled-Runs = cancel_dependents-Runs parent_canceled id marked

  -- Over a connection that serves as many statements as Cancel sends, Cancel succeeds, also for a
  -- task that is finished or does not exist. The task's cancel_attempted is set, and it is
  -- canceled unless it is finished; each task that depends on it and is not finished is canceled;
  -- every other row is as it was. No heartbeat of the task is left, and the cancel_task channel
  -- and then the workers are notified.
  pub cancel-ends :
      (k : ℕ) (fault : Error)
      → (e : Db) × (cancel id d (serving (8 + length (dependents_of id d) + k) fault)
          ≡ (done tt, e))
        × ((j : ℕ)
            → find (has_id j) e.tasks
              ≡ through
                  (λ u. canceled_dependent parent_canceled id d.dependencies (cancel_self id u))
                  (find (has_id j) d.tasks))
        × (any (λ (h : Heartbeat). h.id == id) e.heartbeats ≡ false)
        × (e.notifications ≡ (d.notifications ++ cancel_task id ∷ []) ++ tasks_changed ∷ [])
  unfolding cancel canceled_db
  cancel-ends k fault = (
    canceled_db,
    rw sums (transact-Runs (begin >> tell) d cost tt canceled_db k fault ended),
    λ j.
        find-cancel_each parent_canceled (dependents_of id d) j marked
        ∙ ap (through (cancel_view parent_canceled (dependents_of id d))) (marked-find j)
        ∙ through-through (cancel_self id) (cancel_view parent_canceled (dependents_of id d))
            (find (has_id j) d.tasks)
        ∙ ap
            (λ (f : TaskInfo → TaskInfo).
              through (λ u. f (cancel_self id u)) (find (has_id j) d.tasks))
            (cancel_view-dependents_of parent_canceled id d),
    rw (cancel_each-rest parent_canceled (dependents_of id d) marked).0 cleared,
    ap (λ (ns : List Notification). ns ++ tasks_changed ∷ [])
        ((cancel_each-rest parent_canceled (dependents_of id d) marked).1 ∙ notes),
  )
    where
      n : ℕ
      n = length (dependents_of id d)

      cost : ℕ
      cost = 1 + (1 + (1 + (1 + (1 + ((1 + n) + (1 + 1))))))

      sums : 8 + n ≡ cost
      sums = omega arith

      last : M (Unit {0})
      last = exec (notify tasks_changed) >> commit

      cascade : M (Unit {0})
      cascade = cancel_dependents parent_canceled id >> last

      mark : M (Unit {0})
      mark = exec (set_cancel_attempted id) >> cascade

      own : M (Unit {0})
      own = exec (cancel_unfinished task_canceled_text id) >> mark

      beats : M (Unit {0})
      beats = exec (delete_heartbeat id) >> own

      tell : M (Unit {0})
      tell = exec (notify (cancel_task id)) >> beats

      d2 : Db
      d2 = delete_heartbeat id told

      d3 : Db
      d3 = cancel_unfinished task_canceled_text id d2

      d5 : Db
      d5 = cancel_each parent_canceled (dependents_of id d) marked

      ended : Runs (begin >> tell) d cost tt canceled_db
      ended =
          exec_then-Runs (λ x. x) tell d _ tt canceled_db
            (exec_then-Runs (notify (cancel_task id)) beats d _ tt canceled_db (
              exec_then-Runs (delete_heartbeat id) own told _ tt canceled_db (
                exec_then-Runs (cancel_unfinished task_canceled_text id) mark d2 _ tt canceled_db (
                  exec_then-Runs (set_cancel_attempted id) cascade d3 _ tt canceled_db (
                    bind-Runs (cancel_dependents parent_canceled id) (λ _. last) marked (1 + n) tt
                      d5 (1 + 1) tt canceled_db canceled-Runs
                      (exec_then-Runs (notify tasks_changed) commit d5 1 tt canceled_db
                        (exec-Runs (λ x. x) canceled_db)))))))

      cleared : any (λ (h : Heartbeat). h.id == id) marked.heartbeats ≡ false
      cleared =
          unfold marked set_cancel_attempted cancel_unfinished delete_heartbeat in
          any-delete_self (λ (h : Heartbeat). h.id == id) d.heartbeats

      notes : marked.notifications ≡ d.notifications ++ cancel_task id ∷ []
      notes = unfold marked told set_cancel_attempted cancel_unfinished delete_heartbeat in refl
