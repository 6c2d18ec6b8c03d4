-- ===== src/Worker/Panics.antt =====
-- A handler that panics (recoverOnPanic of pkg/tasks/worker/worker.go).
use content_sources_backend.Common.{
  ℕ, ◌<◌, ◌≡◌, ◌≢◌, true, false, Option, none, some, [], ◌∷◌, Text, arith,
}
use content_sources_backend.ConcurrentMap
use content_sources_backend.ConcurrentMap.{get-set-remove, get, set, remove}
use content_sources_backend.Queue.Types.{TaskInfo}
use content_sources_backend.Worker.{
  Worker, task_canceled, dequeued, panicked, becomes_ready, handler_ends, cancel_arrives,
  cancel_called, returned, step, run,
}

-- Where a worker's loop runs, and the map leads to it from the task it processes, whose
-- identifier is not nil: after the handler has panicked over that task, and the worker has gone
-- on to another one with a context that was not canceled, a notification that cancels the first
-- task, which the idle listener handles then, cancels the context of the second.
pub panic-misdirects :
    (w : Worker) (t u : TaskInfo) (error : Option Text) (c : ℕ)
    → w.looping ≡ true
    → w.processing ≡ some t
    → ConcurrentMap.get w.worker_map t.id ≡ some w.me
    → w.chosen ≡ false
    → t.id ≢ 0
    → t.id ≢ u.id
    → w.cancel_func ≡ some c
    → c < w.contexts
    → ConcurrentMap.get w.causes w.contexts ≡ none
    → let w' =
        (run
          (handler_ends (panicked error)
            ∷ becomes_ready (dequeued u)
            ∷ cancel_arrives t.id
            ∷ cancel_called
            ∷ [])
          w).0 in
      (w'.processing ≡ some u)
      × (w'.cancel_func ≡ some w.contexts)
      × (ConcurrentMap.get w'.causes w.contexts ≡ some task_canceled)
unfolding run step get
panic-misdirects w t u error c l p m idle nil other f below fresh = ground (
  arith,
  get-set-remove (ConcurrentMap.remove w.worker_map 0) u.id t.id w.me,
  get-set-remove w.worker_map 0 t.id w.me,
)

-- Where a worker's loop runs, the map leads to it from the task it processes, and the listener of
-- cancellations is idle: a notification that cancels the task chooses the worker, and if the
-- handler returns and the worker goes on to another task, with a context that was not canceled,
-- before the listener calls the cancel function, then it cancels the context of the other task.
pub cancel_called-misdirects :
    (w : Worker) (t u : TaskInfo) (error : Option Text) (c : ℕ)
    → w.looping ≡ true
    → w.processing ≡ some t
    → ConcurrentMap.get w.worker_map t.id ≡ some w.me
    → w.chosen ≡ false
    → w.cancel_func ≡ some c
    → c < w.contexts
    → ConcurrentMap.get w.causes w.contexts ≡ none
    → let w' =
        (run
          (cancel_arrives t.id
            ∷ handler_ends (returned error)
            ∷ becomes_ready (dequeued u)
            ∷ cancel_called
            ∷ [])
          w).0 in
      (w'.processing ≡ some u)
      × (w'.cancel_func ≡ some w.contexts)
      × (ConcurrentMap.get w'.causes w.contexts ≡ some task_canceled)
unfolding run step get
cancel_called-misdirects w t u error c l p m idle f below fresh = ground arith
