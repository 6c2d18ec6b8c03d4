-- ===== src/Client/Refusals.antt =====
-- Which tasks the client cancels (pkg/tasks/client/client.go).
use content_sources_backend.Common.{
  ℕ, ◌+◌, ◌≡◌, refl, ap, ◌∙◌, Bool, true, false, not, Option, none, some, Text, arith,
  if◌then◌else◌,
}
use content_sources_backend.Table.{find}
use content_sources_backend.Queue.Types.{
  TaskInfo, Db, Error, not_cancellable, no_rows, contains, cancellable_tasks,
}
use content_sources_backend.Queue.Transaction.{Link}
use content_sources_backend.Queue.Transaction.Runs.{serving, transact-Runs, transact-Stops}
use content_sources_backend.Queue.Statements.{has_id}
use content_sources_backend.Queue.Enqueue
use content_sources_backend.Queue.Enqueue.{status_with_conn}
use content_sources_backend.Queue.Finish
use content_sources_backend.Queue.Finish.Steps.{status_with_conn-Runs, status_with_conn-Stops}
use content_sources_backend.Client.{rejected, respond, cancel, cancel_found}

if_not : {A : Type 0} (b : Bool) (x y : A) → (if not b then x else y) ≡ (if b then y else x)
if_not true x y = refl
if_not false x y = refl

two : (k : ℕ) → 2 + k ≡ 1 + (1 + k)
two k = omega arith

-- Where the identifier parses and the connection serves the two statements of Status, the client
-- cancels a task through the queue only where its type may be canceled; a task of another type
-- and an identifier without a task are refused, and nothing changes.
pub cancel-guarded :
    (parse : Text → Option ℕ) (text : Text) (id : ℕ) (d : Db) (k : ℕ) (fault : Error) (link : Link)
    → parse text ≡ some id
    → cancel parse text d (serving (2 + k) fault) link ≡ elim (find (has_id id) d.tasks) [
      | none ↦ (rejected no_rows, d)
      | some t ↦
          if contains cancellable_tasks t.typename
          then (respond (Finish.cancel id d link).0, (Finish.cancel id d link).1)
          else (rejected not_cancellable, d)
    ]
unfolding cancel cancel_found Enqueue.status
cancel-guarded parse text id d k fault link p =
    rw (p, cancel) (known (find (has_id id) d.tasks) refl)
  where
    known :
        (o : Option TaskInfo)
        → find (has_id id) d.tasks ≡ o
        → cancel_found id link (Enqueue.status id d (serving (2 + k) fault)) ≡ elim o [
          | none ↦ (rejected no_rows, d)
          | some t ↦
              if contains cancellable_tasks t.typename
              then (respond (Finish.cancel id d link).0, (Finish.cancel id d link).1)
              else (rejected not_cancellable, d)
        ]
    known none e =
        ap (λ n. cancel_found id link (Enqueue.status id d (serving n fault))) (two k)
        ∙ ap (cancel_found id link) (
            transact-Stops (status_with_conn id) d 1 no_rows (1 + k) fault
              (status_with_conn-Stops id d e))
    known (some t) e =
        ap (cancel_found id link)
          (transact-Runs (status_with_conn id) d 2 _ d k fault (status_with_conn-Runs id t d e))
        ∙ if_not (contains cancellable_tasks t.typename) _ _
