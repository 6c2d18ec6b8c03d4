-- ===== src/Queue/Invariant/WellFormed.antt =====
-- Each statement of the queue keeps the tables well formed, where the methods run it.
use content_sources_backend.Common.{ℕ, ◌≡◌, refl, Bool, some, List, String, arith}
use content_sources_backend.Table.{update}
use content_sources_backend.Table.Laws.{All-find}
use content_sources_backend.Queue.Types.{TaskInfo, Db}
use content_sources_backend.Queue.Statements.{has_id, is_ready, select_first, start}
use content_sources_backend.Queue.Dequeue.Selection.{select_first-mem, find-mem}
use content_sources_backend.Queue.Invariant.{IsConsistent, IsWellFormed}
use content_sources_backend.Queue.Invariant.Kept.{IsKept}
use content_sources_backend.Queue.Invariant.Rows.{start-IsConsistent}
use content_sources_backend.Queue.Invariant.Statements.{
  update_found-IsWellFormed, insert_task-IsWellFormed, insert_dependency-IsWellFormed,
  insert_heartbeat-IsWellFormed, delete_heartbeat-IsWellFormed, finish_task-IsWellFormed,
  cancel_unfinished-IsWellFormed, set_cancel_attempted-IsWellFormed, requeue_task-IsWellFormed,
  requeue_failed-IsWellFormed, set_payload-IsWellFormed, touch-IsWellFormed, notify-IsWellFormed,
}

-- The row that sqlDequeue may start is idle, so it stays consistent once it is running.
claim-IsWellFormed :
    (token now : ℕ) (locked : ℕ → Bool) (types : List String) (d : Db) (t : TaskInfo)
    → select_first (is_ready locked types d) d.tasks ≡ some t
    → IsWellFormed d
    → IsWellFormed (record d { tasks = update (has_id t.id) (start token now) d.tasks })
unfolding is_ready start
claim-IsWellFormed token now locked types d t e w =
    let (mem, ready) = select_first-mem (is_ready locked types d) d.tasks t e in
    let row = find-mem d.tasks t w.distinct mem in
    let fits = All-find IsConsistent (has_id t.id) d.tasks w.consistent row in
    update_found-IsWellFormed (has_id t.id) (start token now) d t.id t (λ u. refl) (λ u h. h)
      (λ _ c. start-IsConsistent token now t (ground arith) c (ground arith)) row w

pub IsKept-IsWellFormed : IsKept IsWellFormed
IsKept-IsWellFormed = record {
  by_insert_task = λ task id now d e h. insert_task-IsWellFormed task id now d h;
  by_insert_dependency = λ id on d e h. insert_dependency-IsWellFormed id on d h;
  by_insert_heartbeat = λ token id now d e h. insert_heartbeat-IsWellFormed token id now d h;
  by_delete_heartbeat = delete_heartbeat-IsWellFormed;
  by_start = claim-IsWellFormed;
  by_finish_task = finish_task-IsWellFormed;
  by_cancel_unfinished = cancel_unfinished-IsWellFormed;
  by_set_cancel_attempted = set_cancel_attempted-IsWellFormed;
  by_requeue_task = requeue_task-IsWellFormed;
  by_requeue_failed = requeue_failed-IsWellFormed;
  by_set_payload = set_payload-IsWellFormed;
  by_touch = touch-IsWellFormed;
  by_notify = notify-IsWellFormed;
}
