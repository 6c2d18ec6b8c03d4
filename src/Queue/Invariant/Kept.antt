-- ===== src/Queue/Invariant/Kept.antt =====
-- What a property of the tables needs so that every method of the queue keeps it: that the
-- statements do, each at the tables at which the methods run it.
use content_sources_backend.Common.{ℕ, ◌≡◌, true, Bool, Option, some, List, String, is_some, Text}
use content_sources_backend.Table.{update, find}
use content_sources_backend.Queue.Types.{TaskInfo, Task, Notification, Db}
use content_sources_backend.Queue.Statements.{
  has_id, insert_task, insert_dependency, insert_heartbeat, delete_heartbeat, is_ready,
  select_first, start, finish_task, cancel_unfinished, set_cancel_attempted, requeue_task,
  requeue_failed, set_payload, touch, notify,
}
use content_sources_backend.Queue.Finish.{finish_status}

pub record IsKept (I : Db → Type 0) : Type 0 where
  pub by_insert_task :
      (task : Task) (id now : ℕ) (d e : Db) → insert_task task id now d ≡ some e → I d → I e
  pub by_insert_dependency : (id on : ℕ) (d e : Db) → insert_dependency id on d ≡ some e → I d → I e
  pub by_insert_heartbeat :
      (token id now : ℕ) (d e : Db) → insert_heartbeat token id now d ≡ some e → I d → I e
  pub by_delete_heartbeat : (id : ℕ) (d : Db) → I d → I (delete_heartbeat id d)
  pub by_start :
      (token now : ℕ) (locked : ℕ → Bool) (types : List String) (d : Db) (t : TaskInfo)
      → select_first (is_ready locked types d) d.tasks ≡ some t
      → I d
      → I (record d { tasks = update (has_id t.id) (start token now) d.tasks })
  pub by_finish_task :
      (error : Option Text) (next : Option ℕ) (now id : ℕ) (t : TaskInfo) (d : Db)
      → find (has_id id) d.tasks ≡ some t
      → is_some t.started_at ≡ true
      → I d
      → I (finish_task (finish_status error) error next now id d)
  pub by_cancel_unfinished :
      (message : Text) (id : ℕ) (d : Db) → I d → I (cancel_unfinished message id d)
  pub by_set_cancel_attempted : (id : ℕ) (d : Db) → I d → I (set_cancel_attempted id d)
  pub by_requeue_task : (now id : ℕ) (d : Db) → I d → I (requeue_task now id d)
  pub by_requeue_failed :
      (types : List String) (now : ℕ) (d : Db) → I d → I (requeue_failed types now d)
  pub by_set_payload : (payload : String) (id : ℕ) (d : Db) → I d → I (set_payload payload id d)
  pub by_touch : (now token : ℕ) (d : Db) → I d → I (touch now token d)
  pub by_notify : (n : Notification) (d : Db) → I d → I (notify n d)
