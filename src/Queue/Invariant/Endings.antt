-- ===== src/Queue/Invariant/Endings.antt =====
-- Finish, Cancel, Requeue, RequeueFailedTasks, UpdatePayload and RefreshHeartbeat keep what the
-- statements keep, whatever the connection does.
use content_sources_backend.Common.{
  ℕ, ◌≡◌, ap, refl, true, not, ◌&&◌, Option, none, some, List, [], ◌∷◌, String, if◌then◌else◌, ◌==◌,
  is_some, Text, arith,
}
use content_sources_backend.Table.{find, affected}
use content_sources_backend.Queue.Types.{
  TaskInfo, Db, Error, tasks_changed, cancel_task, max_task_retries, not_exist, no_rows,
}
use content_sources_backend.Queue.Transaction.{
  Link, ◌>>=◌, pure, throw, query, exec, begin, commit, statement, transact, Result, done, fails,
}
use content_sources_backend.Queue.Transaction.Rules.{
  Triple, Keeps, bind-Triple, statement-Triple, if-Triple, weaken-Triple, then-Keeps,
  statement-Keeps, transact-Keeps,
}
use content_sources_backend.Queue.Statements.{
  has_id, returning, dependencies_of, delete_heartbeat, dependents_of, cancel_unfinished,
  set_cancel_attempted, notify, is_failed, is_running, finish_task, unfinished, in_progress,
  requeue_task, requeue_failed, touch,
}
use content_sources_backend.Queue.Enqueue.{Info, found, update_payload, status_with_conn}
use content_sources_backend.Queue.Finish.{
  finish_status, next_retry, cancel_all, cancel_dependents, parent_failed, finish_found,
  finish_with_tx, finish, not_started_or_finished, cancel, task_canceled_text, parent_canceled,
  requeue_spent, requeue_again, requeue_found, requeue_tx, requeue, max_retries_text, report,
  requeue_failed_tasks,
}
use content_sources_backend.Queue.Heartbeats.{refresh_heartbeat}
use content_sources_backend.Queue.Invariant.Kept.{IsKept}
use content_sources_backend.Queue.Invariant.Methods.{query-Keeps, notify-Keeps}

report-snd : (r : Result (Option Error) × Db) → (report r).1 ≡ r.1
report-snd (done none, d) = refl
report-snd (done (some e), d) = refl
report-snd (fails e, d) = refl

module _ (I : Db → Type 0) (kept : IsKept I) where
  exec-Keeps : (write : Db → Db) → ((d : Db) → I d → I (write d)) → Keeps I (exec write)
  exec-Keeps write h = statement-Keeps I (λ _. tt) write h

  cancel_all-Keeps : (message : Text) (ids : List ℕ) → Keeps I (cancel_all message ids)
  unfolding cancel_all
  cancel_all-Keeps message [] c w = w
  cancel_all-Keeps message (id ∷ ids) c w =
      then-Keeps I (exec (cancel_unfinished message id)) (λ _. cancel_all message ids)
        (exec-Keeps _ (kept.by_cancel_unfinished message id)) (λ _. cancel_all-Keeps message ids) c
        w

  cancel_dependents-Keeps : (message : Text) (id : ℕ) → Keeps I (cancel_dependents message id)
  unfolding cancel_dependents
  cancel_dependents-Keeps message id =
      then-Keeps I (query (dependents_of id)) _ ((query-Keeps I kept) _) (cancel_all-Keeps message)

  -- What a look at the row by identifier has told.
  abbrev Seen : ℕ → TaskInfo → Db → Type 0
  Seen id t d = I d × (u : TaskInfo) × (find (has_id id) d.tasks ≡ some u) × (returning u ≡ t)

  pub status_with_conn-Seen :
      (id : ℕ) → Triple I (status_with_conn id) (λ info d. Seen id info.task d)
  unfolding status_with_conn
  status_with_conn-Seen id =
      bind-Triple I (λ row d. I d × (find (has_id id) d.tasks ≡ row))
        (λ info d. Seen id info.task d) (query (λ d. find (has_id id) d.tasks)) _
        (statement-Triple I _ _ (λ d. d) (λ d w. (w, refl))) look
    where
      look :
          (row : Option TaskInfo)
          → Triple {A = Info}
              (λ d. I d × (find (has_id id) d.tasks ≡ row))
              (found row no_rows >>= λ t. query (dependencies_of id) >>= λ deps.
                pure (record { task = returning t; dependencies = deps }))
              (λ info d. Seen id info.task d)
      look none c w = tt
      look (some t) c w =
          bind-Triple (Seen id (returning t)) (λ _. Seen id (returning t))
            (λ info d. Seen id info.task d) (query (dependencies_of id)) _
            (statement-Triple (Seen id (returning t)) _ _ (λ d. d) (λ d w. w)) (λ deps c w. w) c
            (w.0, t, w.1, refl)

  finish_found-Keeps :
      (upper_bound now : ℕ) (error : Option Text) (id : ℕ) (t : TaskInfo)
      → is_some t.started_at ≡ true
      → Triple (Seen id t) (finish_found upper_bound now error id t) (λ _ d. I d)
  unfolding finish_found delete_heartbeat
  finish_found-Keeps upper_bound now error id t started =
      bind-Triple (Seen id t) (λ _. Seen id t) (λ _ d. I d) (exec (delete_heartbeat id)) _
        (statement-Triple (Seen id t) _ _ _
          (λ d s. (kept.by_delete_heartbeat id d s.0, s.1, s.2, s.3)))
        λ _.
          bind-Triple (Seen id t) (λ _ d. I d) (λ _ d. I d)
            (statement (λ d. affected (unfinished id) d.tasks)
              (finish_task (finish_status error) error
                (next_retry upper_bound now (finish_status error) t) now id))
            _
            (statement-Triple (Seen id t) _ _ _ (λ d s.
              let same : s.1.started_at ≡ t.started_at = ap (λ (x : TaskInfo). x.started_at) s.3 in
              kept.by_finish_task error _ now id s.1 d s.2 (rw same started) s.0))
            λ rows.
              then-Keeps I (if rows == 0 then throw not_exist else pure tt) _
                (if-Triple I (λ _ d. I d) (rows == 0) _ _ (λ _ c w. tt) (λ _ c w. w))
                λ _.
                  then-Keeps I
                    (if is_failed (finish_status error)
                      then cancel_dependents parent_failed id
                      else pure tt)
                    _
                    (if-Triple I (λ _ d. I d) (is_failed (finish_status error)) _ _
                      (λ _. cancel_dependents-Keeps parent_failed id) (λ _ c w. w))
                    λ _. exec-Keeps _ (kept.by_notify tasks_changed)

  finish_with_tx-Keeps :
      (upper_bound now id : ℕ) (error : Option Text)
      → Keeps I (finish_with_tx upper_bound now id error)
  unfolding finish_with_tx
  finish_with_tx-Keeps upper_bound now id error =
      bind-Triple I (λ info d. Seen id info.task d) (λ _ d. I d) (status_with_conn id) _
        (status_with_conn-Seen id)
        λ info.
          if-Triple (Seen id info.task) (λ _ d. I d) (not_started_or_finished info.task) _ _
            (λ _ c s. tt)
            (λ h. finish_found-Keeps upper_bound now error id info.task (ground arith))

  pub finish-Keeps :
      (upper_bound now id : ℕ) (error : Option Text) (d : Db) (link : Link)
      → I d
      → I (finish upper_bound now id error d link).1
  unfolding finish
  finish-Keeps upper_bound now id error d link = transact-Keeps I _ d link (
      then-Keeps I begin _ ((query-Keeps I kept) _) λ _.
        then-Keeps I (finish_with_tx upper_bound now id error) _
          (finish_with_tx-Keeps upper_bound now id error) (λ _. (query-Keeps I kept) _))

  pub cancel-Keeps : (id : ℕ) (d : Db) (link : Link) → I d → I (cancel id d link).1
  unfolding cancel
  cancel-Keeps id d link = transact-Keeps I _ d link (
      then-Keeps I begin _ ((query-Keeps I kept) _) λ _.
        then-Keeps I (exec (notify (cancel_task id))) _
          (exec-Keeps _ (kept.by_notify (cancel_task id)))
          λ _.
            then-Keeps I (exec (delete_heartbeat id)) _ (exec-Keeps _ (kept.by_delete_heartbeat id))
              λ _.
                then-Keeps I (exec (cancel_unfinished task_canceled_text id)) _
                  (exec-Keeps _ (kept.by_cancel_unfinished task_canceled_text id))
                  λ _.
                    then-Keeps I (exec (set_cancel_attempted id)) _
                      (exec-Keeps _ (kept.by_set_cancel_attempted id))
                      λ _.
                        then-Keeps I (cancel_dependents parent_canceled id) _
                          (cancel_dependents-Keeps parent_canceled id)
                          λ _. notify-Keeps I kept commit ((query-Keeps I kept) _))

  requeue_again-Keeps : (now id : ℕ) → Keeps I (requeue_again now id)
  unfolding requeue_again
  requeue_again-Keeps now id =
      then-Keeps I (exec (delete_heartbeat id)) _ (exec-Keeps _ (kept.by_delete_heartbeat id)) λ _.
        then-Keeps I (statement (λ d. affected (in_progress id) d.tasks) (requeue_task now id)) _
          (statement-Keeps I _ _ (kept.by_requeue_task now id))
          λ rows.
            then-Keeps I (if rows == 1 then pure tt else throw not_exist) _
              (if-Triple I (λ _ d. I d) (rows == 1) _ _ (λ _ c w. w) (λ _ c w. tt))
              λ _.
                notify-Keeps I kept _ (then-Keeps I commit _ ((query-Keeps I kept) _) (λ _ c w. w))

  requeue_found-Keeps :
      (upper_bound now id : ℕ) (t : TaskInfo) → Keeps I (requeue_found upper_bound now id t)
  unfolding requeue_found requeue_spent
  requeue_found-Keeps upper_bound now id t =
      if-Triple I (λ _ d. I d) (t.cancel_attempted && not (is_running t.status)) _ _ (λ _ c w. tt)
        λ _.
          if-Triple I (λ _ d. I d) (not_started_or_finished t) _ _ (λ _ c w. tt)
            λ _.
              if-Triple I (λ _ d. I d) (t.retries == max_task_retries) _ _
                (λ _.
                  then-Keeps I (finish_with_tx upper_bound now id (some max_retries_text)) _
                    (finish_with_tx-Keeps upper_bound now id (some max_retries_text))
                    λ _. then-Keeps I commit _ ((query-Keeps I kept) _) (λ _ c w. w))
                (λ _. requeue_again-Keeps now id)

  pub requeue-Keeps :
      (upper_bound now id : ℕ) (d : Db) (link : Link)
      → I d
      → I (requeue upper_bound now id d link).1
  unfolding requeue requeue_tx
  requeue-Keeps upper_bound now id d link w =
      rw (report-snd (transact (requeue_tx upper_bound now id) d link)) (
        transact-Keeps I (requeue_tx upper_bound now id) d link
          (then-Keeps I begin _ ((query-Keeps I kept) _) λ _.
            then-Keeps I (status_with_conn id) _ seen
              λ info. requeue_found-Keeps upper_bound now id info.task)
          w)
    where
      seen : Keeps I (status_with_conn id)
      seen =
          weaken-Triple I (λ info d. Seen id info.task d) (λ _ d. I d) (status_with_conn id)
            (status_with_conn-Seen id) (λ info d s. s.0)

  pub requeue_failed_tasks-Keeps :
      (types : List String) (now : ℕ) (d : Db) (link : Link)
      → I d
      → I (requeue_failed_tasks types now d link).1
  unfolding requeue_failed_tasks
  requeue_failed_tasks-Keeps types now d link = transact-Keeps I _ d link (
      then-Keeps I begin _ ((query-Keeps I kept) _) λ _.
        then-Keeps I (exec (requeue_failed types now)) _
          (exec-Keeps _ (kept.by_requeue_failed types now))
          λ _. notify-Keeps I kept commit ((query-Keeps I kept) _))

  pub update_payload-Keeps :
      (id : ℕ) (payload : String) (d : Db) (link : Link)
      → I d
      → I (update_payload id payload d link).1
  unfolding update_payload
  update_payload-Keeps id payload d link =
      transact-Keeps I _ d link (exec-Keeps _ (kept.by_set_payload payload id))

  pub refresh_heartbeat-Keeps :
      (now token : ℕ) (d : Db) (link : Link) → I d → I (refresh_heartbeat now token d link).1
  unfolding refresh_heartbeat
  refresh_heartbeat-Keeps now token d link w = ground (
    arith,
    kept.by_touch now token d w,
    kept.by_touch now token (touch now token d) (kept.by_touch now token d w),
  )
