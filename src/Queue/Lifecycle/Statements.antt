-- ===== src/Queue/Lifecycle/Statements.antt =====
-- Each statement of the queue lets the tables grow, where the methods run it.
use content_sources_backend.Common.{
  ℕ, ◌≡◌, refl, sym, ◌∙◌, Bool, true, Option, some, List, ◌∷◌, String, is_some, Text, arith, any,
  ◌==◌, Bool-cases, inl, inr, ==_iff, subst,
}
use content_sources_backend.Table.{update, find}
use content_sources_backend.Table.Laws.{find_sound, find-any, All-find}
use content_sources_backend.Queue.Types.{TaskInfo, Task, Db}
use content_sources_backend.Queue.Statements.{
  new_row, has_id, insert_task, insert_dependency, insert_heartbeat, delete_heartbeat, is_ready,
  select_first, start, finish_task, finish_row, cancel_unfinished, cancel_row, set_cancel_attempted,
  requeue_task, requeue_row, requeue_failed, retry_row, set_payload, touch,
}
use content_sources_backend.Queue.Finish.{finish_status}
use content_sources_backend.Queue.Dequeue.Selection.{select_first-mem, find-mem}
use content_sources_backend.Queue.Invariant.{IsConsistent, IsWellFormed}
use content_sources_backend.Queue.Invariant.Kept.{IsKept}
use content_sources_backend.Queue.Invariant.WellFormed.{IsKept-IsWellFormed}
use content_sources_backend.Queue.Lifecycle.{Becomes}
use content_sources_backend.Queue.Lifecycle.Steps.{
  start-Becomes, finish_row-Becomes, cancel_row-Becomes, set_cancel_attempted-Becomes,
  requeue_row-Becomes, retry_row-Becomes, set_payload-Becomes,
}
use content_sources_backend.Queue.Lifecycle.Growth.{
  Grows, Becomes-refl, then-Grows, aside-Grows, update-Grows,
}

-- Two rows that a SELECT by identifier finds are one.
found_once :
    (i j : ℕ) (d : Db) {t u : TaskInfo}
    → find (has_id i) d.tasks ≡ some t
    → find (has_id j) d.tasks ≡ some u
    → t.id ≡ u.id
    → t ≡ u
found_once i j d {t = t} {u = u} e f same =
    let ti : t.id ≡ i = (==_iff t.id i).0 (find_sound (has_id i) d.tasks e) in
    let uj : u.id ≡ j = (==_iff u.id j).0 (find_sound (has_id j) d.tasks f) in
    let at : i ≡ j = sym ti ∙ (same ∙ uj) in
    let g : find (has_id j) d.tasks ≡ some t = (rw (← at) e) in cc

-- sqlEnqueue hides no row, since the new identifier is free.
insert_task-find :
    (task : Task) (id now j : ℕ) (d e : Db) (t : TaskInfo)
    → insert_task task id now d ≡ some e
    → find (has_id j) d.tasks ≡ some t
    → find (has_id j) e.tasks ≡ some t
unfolding insert_task new_row find
insert_task-find task id now j d e t h f = elim (Bool-cases (any (has_id id) d.tasks)) [
  | inl taken ↦ ground arith
  | inr free ↦
      let none_found = find-any (has_id id) d.tasks free in
      let made : record d { tasks = new_row task id now ∷ d.tasks } ≡ e = ground arith in
      subst (λ (x : Db). find (has_id j) x.tasks ≡ some t) made
        (elim (Bool-cases (id == j)) [
          | inl same ↦ (let eq = (==_iff id j).0 same in absurd (ground arith))
          | inr other ↦ rw other f
        ])
]

insert_dependency-tasks :
    (id on : ℕ) (d e : Db) → insert_dependency id on d ≡ some e → e.tasks ≡ d.tasks
unfolding insert_dependency
insert_dependency-tasks id on d e h = ground arith

insert_heartbeat-tasks :
    (token id now : ℕ) (d e : Db) → insert_heartbeat token id now d ≡ some e → e.tasks ≡ d.tasks
unfolding insert_heartbeat
insert_heartbeat-tasks token id now d e h = ground arith

abbrev well_kept : IsKept IsWellFormed
well_kept = IsKept-IsWellFormed

module _ (old : Db) where
  start-Grows :
      (token now : ℕ) (locked : ℕ → Bool) (types : List String) (d : Db) (t : TaskInfo)
      → select_first (is_ready locked types d) d.tasks ≡ some t
      → Grows old d
      → Grows old (record d { tasks = update (has_id t.id) (start token now) d.tasks })
  unfolding start is_ready
  start-Grows token now locked types d t e g =
      let (mem, ready) = select_first-mem (is_ready locked types d) d.tasks t e in
      let row = find-mem d.tasks t g.well.distinct mem in
      let fits = All-find IsConsistent (has_id t.id) d.tasks g.well.consistent row in
      let own = start-Becomes token now t fits (ground arith) in
      update-Grows old (has_id t.id) (start token now) d
        (well_kept.by_start token now locked types d t e g.well) (λ u. refl)
        (λ id u f h.
          subst (λ (v : TaskInfo). Becomes v (start token now v))
            (sym (found_once id t.id d f row ((==_iff u.id t.id).0 h))) own)
        g

  finish_task-Grows :
      (error : Option Text) (next_retry : Option ℕ) (now id : ℕ) (t : TaskInfo) (d : Db)
      → find (has_id id) d.tasks ≡ some t
      → is_some t.started_at ≡ true
      → Grows old d
      → Grows old (finish_task (finish_status error) error next_retry now id d)
  unfolding finish_task finish_row
  finish_task-Grows error next_retry now id t d e s g =
      update-Grows old _ _ d (well_kept.by_finish_task error next_retry now id t d e s g.well)
        (λ u. refl)
        (λ j u f h.
          let same : t.id ≡ u.id = ground (arith, find_sound (has_id id) d.tasks e) in
          let eq : t ≡ u = found_once id j d e f same in
          finish_row-Becomes error next_retry now u
            (subst (λ (v : TaskInfo). is_some v.started_at ≡ true) eq s) (ground arith))
        g

  -- An UPDATE by a WHERE that tells enough of the row.
  cancel_unfinished-Grows :
      (message : Text) (id : ℕ) (d : Db) → Grows old d → Grows old (cancel_unfinished message id d)
  unfolding cancel_unfinished cancel_row
  cancel_unfinished-Grows message id d g =
      update-Grows old _ _ d (well_kept.by_cancel_unfinished message id d g.well) (λ u. refl)
        (λ j u f h. cancel_row-Becomes message u) g

  set_cancel_attempted-Grows :
      (id : ℕ) (d : Db) → Grows old d → Grows old (set_cancel_attempted id d)
  unfolding set_cancel_attempted
  set_cancel_attempted-Grows id d g =
      update-Grows old _ _ d (well_kept.by_set_cancel_attempted id d g.well) (λ u. refl)
        (λ j u f h. set_cancel_attempted-Becomes u) g

  requeue_task-Grows : (now id : ℕ) (d : Db) → Grows old d → Grows old (requeue_task now id d)
  unfolding requeue_task requeue_row
  requeue_task-Grows now id d g =
      update-Grows old _ _ d (well_kept.by_requeue_task now id d g.well) (λ u. refl)
        (λ j u f h. requeue_row-Becomes now u (ground arith)) g

  requeue_failed-Grows :
      (types : List String) (now : ℕ) (d : Db)
      → Grows old d
      → Grows old (requeue_failed types now d)
  unfolding requeue_failed retry_row
  requeue_failed-Grows types now d g =
      update-Grows old _ _ d (well_kept.by_requeue_failed types now d g.well) (λ u. refl)
        (λ j u f h. retry_row-Becomes now u) g

  set_payload-Grows :
      (payload : String) (id : ℕ) (d : Db) → Grows old d → Grows old (set_payload payload id d)
  unfolding set_payload
  set_payload-Grows payload id d g =
      update-Grows old _ _ d (well_kept.by_set_payload payload id d g.well) (λ u. refl)
        (λ j u f h. set_payload-Becomes payload u) g

  delete_heartbeat-Grows : (id : ℕ) (d : Db) → Grows old d → Grows old (delete_heartbeat id d)
  unfolding delete_heartbeat
  delete_heartbeat-Grows id d g =
      aside-Grows old d _ (well_kept.by_delete_heartbeat id d g.well) refl g

  touch-Grows : (now token : ℕ) (d : Db) → Grows old d → Grows old (touch now token d)
  unfolding touch
  touch-Grows now token d g = aside-Grows old d _ (well_kept.by_touch now token d g.well) refl g

  pub IsKept-Grows : IsKept (Grows old)
  IsKept-Grows = record {
    by_insert_task = λ task id now d e h g.
        then-Grows old d e (well_kept.by_insert_task task id now d e h g.well)
          (λ j t f. (t, insert_task-find task id now j d e t h f, Becomes-refl t)) g;
    by_insert_dependency = λ id on d e h g.
        aside-Grows old d e (well_kept.by_insert_dependency id on d e h g.well)
          (insert_dependency-tasks id on d e h) g;
    by_insert_heartbeat = λ token id now d e h g.
        aside-Grows old d e (well_kept.by_insert_heartbeat token id now d e h g.well)
          (insert_heartbeat-tasks token id now d e h) g;
    by_delete_heartbeat = delete_heartbeat-Grows;
    by_start = start-Grows;
    by_finish_task = finish_task-Grows;
    by_cancel_unfinished = cancel_unfinished-Grows;
    by_set_cancel_attempted = set_cancel_attempted-Grows;
    by_requeue_task = requeue_task-Grows;
    by_requeue_failed = requeue_failed-Grows;
    by_set_payload = set_payload-Grows;
    by_touch = touch-Grows;
    by_notify = λ n d g. aside-Grows old d _ (well_kept.by_notify n d g.well) refl g;
  }
