-- ===== src/Queue/Invariant/Methods.antt =====
-- Enqueue and dequeueMaybe keep what the statements keep, whatever the connection does.
use content_sources_backend.Common.{
  ℕ, ◌≡◌, refl, sym, Bool, Option, none, some, List, [], ◌∷◌, String,
}
use content_sources_backend.Queue.Types.{TaskInfo, Task, Db, tasks_changed, no_rows}
use content_sources_backend.Queue.Transaction.{
  Link, M, ◌>>=◌, ◌>>◌, query, exec, exec_checked, begin, commit,
}
use content_sources_backend.Queue.Transaction.Rules.{
  Triple, Keeps, bind-Triple, statement-Triple, then-Keeps, statement-Keeps, exec_checked-Keeps,
  transact-Keeps,
}
use content_sources_backend.Queue.Statements.{
  insert_task, insert_dependency, dependencies_of, notify, is_ready, select_first, insert_heartbeat,
}
use content_sources_backend.Queue.Enqueue.{found, insert_dependencies, enqueue}
use content_sources_backend.Queue.Dequeue.{claim, take_first, dequeue_maybe}
use content_sources_backend.Queue.Invariant.Kept.{IsKept}

module _ (I : Db → Type 0) (kept : IsKept I) where
  pub query-Keeps : {A : Type 0} (read : Db → A) → Keeps I (query read)
  query-Keeps read = statement-Keeps I read (λ d. d) (λ d w. w)

  insert_dependencies-Keeps : (id : ℕ) (ids : List ℕ) → Keeps I (insert_dependencies id ids)
  unfolding insert_dependencies
  insert_dependencies-Keeps id [] c w = w
  insert_dependencies-Keeps id (on ∷ rest) c w =
      then-Keeps I (exec_checked (insert_dependency id on)) (λ _. insert_dependencies id rest)
        (exec_checked-Keeps I _ (λ d e w h. kept.by_insert_dependency id on d e h w))
        (λ _. insert_dependencies-Keeps id rest) c w

  pub notify-Keeps : {A : Type 0} (m : M A) → Keeps I m → Keeps I (exec (notify tasks_changed) >> m)
  notify-Keeps m h =
      then-Keeps I (exec (notify tasks_changed)) (λ _. m)
        (statement-Keeps I _ _ (kept.by_notify tasks_changed)) (λ _. h)

  pub enqueue-Keeps :
      (task : Task) (id now : ℕ) (d : Db) (link : Link) → I d → I (enqueue task id now d link).1
  unfolding enqueue
  enqueue-Keeps task id now d link = transact-Keeps I _ d link (
      then-Keeps I begin _ (query-Keeps _) λ _.
        then-Keeps I (exec_checked (insert_task task id now)) _
          (exec_checked-Keeps I _ (λ d e w h. kept.by_insert_task task id now d e h w))
          λ _.
            then-Keeps I (insert_dependencies id task.dependencies) _
              (insert_dependencies-Keeps id task.dependencies)
              λ _. notify-Keeps _ (then-Keeps I commit _ (query-Keeps _) (λ _ c w. w)))

  take_first-Keeps :
      (token now : ℕ) (locked : ℕ → Bool) (types : List String)
      → Keeps I (take_first token now locked types)
  unfolding take_first claim
  take_first-Keeps token now locked types =
      bind-Triple I (λ chosen d. I d × (chosen ≡ select_first (is_ready locked types d) d.tasks))
        (λ _ d. I d) (query (λ d. select_first (is_ready locked types d) d.tasks)) _
        (statement-Triple I _ _ (λ d. d) (λ d w. (w, refl))) start_chosen
    where
      start_chosen :
          (chosen : Option TaskInfo)
          → Triple
              (λ d. I d × (chosen ≡ select_first (is_ready locked types d) d.tasks))
              (found chosen no_rows >>= claim token now)
              (λ _ d. I d)
      start_chosen none c w = tt
      start_chosen (some t) c w = kept.by_start token now locked types c.db t (sym w.1) w.0

  pub dequeue_maybe-Keeps :
      (token now : ℕ) (locked : ℕ → Bool) (types : List String) (d : Db) (link : Link)
      → I d
      → I (dequeue_maybe token now locked types d link).1
  unfolding dequeue_maybe
  dequeue_maybe-Keeps token now locked types d link = transact-Keeps I _ d link (
      then-Keeps I begin _ (query-Keeps _) λ _.
        then-Keeps I (take_first token now locked types) _ (take_first-Keeps token now locked types)
          λ t.
            then-Keeps I (exec_checked (insert_heartbeat token t.id now)) _
              (exec_checked-Keeps I _ (λ d e w h. kept.by_insert_heartbeat token t.id now d e h w))
              λ _.
                then-Keeps I (query (dependencies_of t.id)) _ (query-Keeps _)
                  λ _. then-Keeps I commit _ (query-Keeps _) (λ _ c w. w))
