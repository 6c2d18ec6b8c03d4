-- ===== src/Queue/Invariant/Statements.antt =====
-- Each statement of the queue keeps the tables well formed.
use content_sources_backend.Common.{
  ℕ, ◌≡◌, refl, subst, Bool, true, Option, some, List, ◌∷◌, String, is_some, Text, arith, any,
  Bool-cases, inl, inr,
}
use content_sources_backend.Table.{update, find}
use content_sources_backend.Table.Laws.{
  All-update, All-update_with, All-key, DistinctBy-update, DistinctBy-delete,
}
use content_sources_backend.Queue.Types.{TaskInfo, Task, Notification, Db}
use content_sources_backend.Queue.Statements.{
  new_row, has_id, insert_task, insert_dependency, insert_heartbeat, delete_heartbeat, finish_task,
  finish_row, cancel_unfinished, cancel_row, set_cancel_attempted, requeue_task, requeue_row,
  requeue_failed, retry_row, set_payload, touch, notify,
}
use content_sources_backend.Queue.Finish.{finish_status}
use content_sources_backend.Queue.Invariant.{IsConsistent, IsWellFormed}
use content_sources_backend.Queue.Invariant.Rows.{
  finish_row-IsConsistent, cancel_row-IsConsistent, requeue_row-IsConsistent,
  retry_row-IsConsistent, set_cancel_attempted-IsConsistent,
}

-- An UPDATE that keeps identifiers and consistency.
pub update-IsWellFormed :
    (p : TaskInfo → Bool) (f : TaskInfo → TaskInfo) (d : Db)
    → ((t : TaskInfo) → (f t).id ≡ t.id)
    → ((t : TaskInfo) → p t ≡ true → IsConsistent t → IsConsistent (f t))
    → IsWellFormed d
    → IsWellFormed (record d { tasks = update p f d.tasks })
update-IsWellFormed p f d keeps fits w = record {
  distinct = DistinctBy-update (λ t. t.id) p f d.tasks keeps w.distinct;
  consistent = All-update IsConsistent p f d.tasks fits w.consistent;
  beats = w.beats;
}

-- The row that a SELECT by identifier finds is the one that an UPDATE by identifier changes.
pub update_found-IsWellFormed :
    (p : TaskInfo → Bool) (f : TaskInfo → TaskInfo) (d : Db) (id : ℕ) (found : TaskInfo)
    → ((t : TaskInfo) → (f t).id ≡ t.id)
    → ((t : TaskInfo) → p t ≡ true → has_id id t ≡ true)
    → (p found ≡ true → IsConsistent found → IsConsistent (f found))
    → find (has_id id) d.tasks ≡ some found
    → IsWellFormed d
    → IsWellFormed (record d { tasks = update p f d.tasks })
update_found-IsWellFormed p f d id found keeps only fits e w = record {
  distinct = DistinctBy-update (λ t. t.id) p f d.tasks keeps w.distinct;
  consistent =
      All-update_with (λ t. has_id id t ≡ true → t ≡ found) IsConsistent p f d.tasks row
        (All-key (λ t. t.id) id d.tasks w.distinct e) w.consistent;
  beats = w.beats;
}
  where
    row :
        (t : TaskInfo)
        → (has_id id t ≡ true → t ≡ found)
        → p t ≡ true
        → IsConsistent t
        → IsConsistent (f t)
    row t same pt c =
        let eq : t ≡ found = same (only t pt) in
        rw eq (fits (rw eq at pt) (subst IsConsistent eq c))

pub insert_task-IsWellFormed :
    (task : Task) (id now : ℕ) (d : Db) {e : Db}
    → insert_task task id now d ≡ some e
    → IsWellFormed d
    → IsWellFormed e
unfolding insert_task new_row
insert_task-IsWellFormed task id now d {e} h w = elim (Bool-cases (any (has_id id) d.tasks)) [
  | inl taken ↦ ground arith
  | inr free ↦
      let made : Db = record d { tasks = new_row task id now ∷ d.tasks } in
      let same : made ≡ e = ground arith in
      subst IsWellFormed same (record {
        distinct = (free, w.distinct);
        consistent = (((refl, refl), refl), w.consistent);
        beats = w.beats;
      })
]

pub insert_dependency-IsWellFormed :
    (id on : ℕ) (d : Db) {e : Db}
    → insert_dependency id on d ≡ some e
    → IsWellFormed d
    → IsWellFormed e
unfolding insert_dependency
insert_dependency-IsWellFormed id on d h w = ground arith

pub insert_heartbeat-IsWellFormed :
    (token id now : ℕ) (d : Db) {e : Db}
    → insert_heartbeat token id now d ≡ some e
    → IsWellFormed d
    → IsWellFormed e
unfolding insert_heartbeat
insert_heartbeat-IsWellFormed token id now d h w = ground arith

pub delete_heartbeat-IsWellFormed :
    (id : ℕ) (d : Db) → IsWellFormed d → IsWellFormed (delete_heartbeat id d)
unfolding delete_heartbeat
delete_heartbeat-IsWellFormed id d w = record {
  distinct = w.distinct;
  consistent = w.consistent;
  beats = DistinctBy-delete _ _ d.heartbeats w.beats;
}

pub touch-IsWellFormed :
    (now token : ℕ) (d : Db) → IsWellFormed d → IsWellFormed (touch now token d)
unfolding touch
touch-IsWellFormed now token d w = record {
  distinct = w.distinct;
  consistent = w.consistent;
  beats = DistinctBy-update _ _ _ d.heartbeats (λ h. refl) w.beats;
}

pub finish_task-IsWellFormed :
    (error : Option Text) (next : Option ℕ) (now id : ℕ) (t : TaskInfo) (d : Db)
    → find (has_id id) d.tasks ≡ some t
    → is_some t.started_at ≡ true
    → IsWellFormed d
    → IsWellFormed (finish_task (finish_status error) error next now id d)
unfolding finish_task finish_row
finish_task-IsWellFormed error next now id t d e s w =
    update_found-IsWellFormed _ _ d id t (λ u. refl) (λ u h. ground arith)
      (λ _. finish_row-IsConsistent error next now t s) e w

pub cancel_unfinished-IsWellFormed :
    (message : Text) (id : ℕ) (d : Db)
    → IsWellFormed d
    → IsWellFormed (cancel_unfinished message id d)
unfolding cancel_unfinished cancel_row
cancel_unfinished-IsWellFormed message id d =
    update-IsWellFormed _ _ d (λ t. refl) (λ t h. cancel_row-IsConsistent message t (ground arith))

pub set_cancel_attempted-IsWellFormed :
    (id : ℕ) (d : Db) → IsWellFormed d → IsWellFormed (set_cancel_attempted id d)
unfolding set_cancel_attempted
set_cancel_attempted-IsWellFormed id d =
    update-IsWellFormed _ _ d (λ t. refl) (λ t h. set_cancel_attempted-IsConsistent t)

pub requeue_task-IsWellFormed :
    (now id : ℕ) (d : Db) → IsWellFormed d → IsWellFormed (requeue_task now id d)
unfolding requeue_task requeue_row
requeue_task-IsWellFormed now id d =
    update-IsWellFormed _ _ d (λ t. refl) (λ t h c. requeue_row-IsConsistent now t (ground arith))

pub requeue_failed-IsWellFormed :
    (types : List String) (now : ℕ) (d : Db)
    → IsWellFormed d
    → IsWellFormed (requeue_failed types now d)
unfolding requeue_failed retry_row
requeue_failed-IsWellFormed types now d =
    update-IsWellFormed _ _ d (λ t. refl) (λ t h c. retry_row-IsConsistent now t)

pub set_payload-IsWellFormed :
    (payload : String) (id : ℕ) (d : Db) → IsWellFormed d → IsWellFormed (set_payload payload id d)
unfolding set_payload
set_payload-IsWellFormed payload id d = update-IsWellFormed _ _ d (λ t. refl) (λ t h c. c)

pub notify-IsWellFormed : (n : Notification) (d : Db) → IsWellFormed d → IsWellFormed (notify n d)
notify-IsWellFormed n d w = record {
  distinct = w.distinct;
  consistent = w.consistent;
  beats = w.beats;
}
