-- ===== src/Worker.antt =====
-- A worker of the pool (pkg/tasks/worker/worker.go) and the listener that cancels its task
-- (ListenForCancelledTasks of worker_pool.go), as a state machine. What the queue, the handler and
-- the clock do is an argument of each step; the calls of the queue come out as a list.
pub mod Invariant
pub mod Panics
pub mod Beats
use content_sources_backend.Common.{
  ℕ, suc, ◌+◌, Bool, true, false, ◌&&◌, Option, none, some, List, [], ◌∷◌, ◌++◌, String, Text,
  if◌then◌else◌, ◌==◌,
}
use content_sources_backend.ConcurrentMap
use content_sources_backend.Queue.Types.{TaskInfo}

pub record RunningTask : Type 0 where
  pub id : ℕ
  pub token : ℕ
  pub typename : String
  pub request_id : String
  pub cancelled : Bool

-- Why a task's context was canceled: ErrNotRunning or ErrTaskCanceled.
pub data Cause : Type 0 where
  not_running task_canceled : Cause

-- A worker. Contexts are numbered as they are made, and `causes` has those that were canceled;
-- `worker_map` is shared by the workers of the pool, each of which is a number. `chosen` tells that
-- the listener has found the worker in the map and has not yet read its cancel function.
pub record Worker : Type 0 where
  pub me : ℕ
  pub running : RunningTask
  pub cancel_func : Option ℕ
  pub contexts : ℕ
  pub causes : List (ℕ × Cause)
  pub ready : Bool
  pub armed : Bool
  pub looping : Bool
  pub processing : Option TaskInfo
  pub worker_map : List (ℕ × ℕ)
  pub chosen : Bool

-- What a worker asks of the queue.
pub data QueueCall : Type 0 where
  requeue : ℕ → QueueCall
  finish : ℕ → Option Text → QueueCall
  refresh_heartbeat : ℕ → QueueCall

abbrev pub no_task : RunningTask
no_task = record { id = 0; token = 0; typename = ""; request_id = ""; cancelled = false }

-- uuid.Nil where the row has no token.
abbrev pub token_of : Option ℕ → ℕ
token_of none = 0
token_of (some token) = token

unfoldable pub set_task_info : TaskInfo → RunningTask → RunningTask
set_task_info t r = record r {
  id = t.id;
  token = token_of t.token;
  typename = t.typename;
  request_id = t.request_id;
}

-- newWorker, and what start does before its loop.
unfoldable pub start : ℕ → List (ℕ × ℕ) → Worker
start me shared = record {
  me = me;
  running = no_task;
  cancel_func = none;
  contexts = 0;
  causes = [];
  ready = true;
  armed = true;
  looping = true;
  processing = none;
  worker_map = shared;
  chosen = false;
}

-- The first cause of a context stays.
unfoldable pub cancel_context : ℕ → Cause → List (ℕ × Cause) → List (ℕ × Cause)
cancel_context c cause causes = elim (ConcurrentMap.get causes c) [
  | none ↦ (c, cause) ∷ causes
  | some old ↦ causes
]

unfoldable pub call_cancel_func : Cause → Worker → Worker
unfolding cancel_context
call_cancel_func cause w = elim w.cancel_func [
  | none ↦ w
  | some c ↦ record w { causes = cancel_context c cause w.causes }
]

unfoldable pub clear : Worker → Worker
clear w = record w { running = no_task }

unfoldable pub remove_from_map : ℕ → Worker → Worker
remove_from_map id w = record w { worker_map = ConcurrentMap.remove w.worker_map id }

-- What Dequeue returns to the loop.
pub data Dequeued : Type 0 where
  context_ended : Dequeued
  dequeue_failed : Dequeued
  dequeued : TaskInfo → Dequeued

-- The case of readyChan.
unfoldable pub on_ready : Dequeued → Worker → Worker × List QueueCall
unfolding set_task_info
on_ready result w =
    let w' = record w { ready = false; cancel_func = some w.contexts; contexts = suc w.contexts } in
    elim result [
      | context_ended ↦ (w', [])
      | dequeue_failed ↦ (record w' { ready = true }, [])
      | dequeued t ↦ (
        record w' {
          running = set_task_info t w.running;
          processing = some t;
          worker_map = ConcurrentMap.set w.worker_map t.id w.me;
        },
        [],
      )
    ]

-- What RefreshHeartbeat returns to the loop.
pub data Refreshed : Type 0 where
  refreshed rows_not_affected refresh_failed : Refreshed

-- The `continue` of ErrRowsNotAffected skips beat.Reset.
abbrev rearms : Refreshed → Bool
rearms rows_not_affected = false
rearms _ = true

-- The case of the timer, which fires once for each Reset.
unfoldable pub on_beat : Refreshed → Worker → Worker × List QueueCall
on_beat result w =
    if w.running.token == 0
    then (w, [])
    else (record w { armed = rearms result }, refresh_heartbeat w.running.token ∷ [])

-- The case of stopChan.
unfoldable pub on_stop : Worker → Worker × List QueueCall
on_stop w =
    (record w { looping = false }, if w.running.id == 0 then [] else requeue w.running.id ∷ [])

-- How the handler of a task ends: there is none for its type, it returns ErrServerExited, a
-- cancellation (context.Canceled, ErrTaskCanceled or sql.ErrTxDone) or any other result, or it
-- panics with a value that may be no error.
pub data Handled : Type 0 where
  no_handler server_exited handler_canceled : Handled
  returned : Option Text → Handled
  panicked : Option Text → Handled

abbrev pub make_ready : Worker → Worker
make_ready w = record w { ready = true; processing = none }

-- process, and recoverOnPanic for a handler that panics.
unfoldable pub process : Handled → TaskInfo → Worker → Worker × List QueueCall
unfolding call_cancel_func clear remove_from_map
process no_handler t w =
    (make_ready (call_cancel_func not_running (remove_from_map t.id (clear w))), [])
process server_exited t w = (record (call_cancel_func not_running w) { processing = none }, [])
process handler_canceled t w =
    (make_ready (remove_from_map t.id (clear (call_cancel_func not_running w))), [])
process (returned error) t w = (
  make_ready (call_cancel_func not_running (remove_from_map t.id (clear w))),
  finish t.id error ∷ [],
)
process (panicked error) t w =
    let cleared = clear (call_cancel_func not_running w) in
    (make_ready (remove_from_map cleared.running.id cleared), finish w.running.id error ∷ [])

-- ListenForCancelledTasks, for one notification: the look into the map.
unfoldable pub on_cancel : ℕ → Worker → Worker
on_cancel id w = elim (ConcurrentMap.get w.worker_map id) [
  | none ↦ w
  | some wrk ↦ if wrk == w.me then record w { chosen = true } else w
]

-- And its call of the worker's cancel function, which it reads without a lock: it is that of the
-- task that the worker has by then.
unfoldable pub on_call : Worker → Worker
unfolding call_cancel_func
on_call w = record (call_cancel_func task_canceled w) { chosen = false }

-- What happens to a worker, in the order in which it happens.
pub data Event : Type 0 where
  becomes_ready : Dequeued → Event
  beats : Refreshed → Event
  stops : Event
  handler_ends : Handled → Event
  cancel_arrives : ℕ → Event
  cancel_called : Event

abbrev when_processing : Option TaskInfo → Handled → Worker → Worker × List QueueCall
when_processing none result w = (w, [])
when_processing (some t) result w = process result t w

-- One step; an event that cannot happen in a state changes nothing.
unfoldable pub step : Event → Worker → Worker × List QueueCall
unfolding on_ready on_beat on_stop process on_cancel on_call
step (becomes_ready result) w = if w.looping && w.ready then on_ready result w else (w, [])
step (beats result) w = if w.looping && w.armed then on_beat result w else (w, [])
step stops w = if w.looping then on_stop w else (w, [])
step (handler_ends result) w = when_processing w.processing result w
step (cancel_arrives id) w = (if w.chosen then w else on_cancel id w, [])
step cancel_called w = (if w.chosen then on_call w else w, [])

unfoldable pub run : List Event → Worker → Worker × List QueueCall
unfolding step
run [] w = (w, [])
run (e ∷ es) w = let (w', calls) = step e w in let (w'', later) = run es w' in (w'', calls ++ later)
