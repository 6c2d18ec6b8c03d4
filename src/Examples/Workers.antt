-- ===== src/Examples/Workers.antt =====
-- Runs of a worker.
use content_sources_backend.Common.{
  ℕ, refl, true, false, none, some, List, false, any, arith, ◌≡◌, ◌≢◌, ◌⊎◌, ◌∷◌, [],
}
use content_sources_backend.ConcurrentMap
use content_sources_backend.ConcurrentMap.{get-set-remove}
use content_sources_backend.Examples.Tables.{loner, snapshot}
use content_sources_backend.Worker.{
  Event, Worker, beats, becomes_ready, cancel_arrives, cancel_called, returned, dequeued,
  handler_canceled, handler_ends, panicked, refresh_heartbeat, rows_not_affected, run, start, step,
  task_canceled,
}
use content_sources_backend.Worker.Invariant.{cancel_arrives-hits_own, has_task}
use content_sources_backend.Worker.Beats.{is_refresh, missed_beat-silences}
use content_sources_backend.Worker.Panics.{cancel_called-misdirects, panic-misdirects}

-- What another worker, 2, has entered.
abbrev others : List (ℕ × ℕ)
others = (9, 2) ∷ []

outside : (key : ℕ) → ConcurrentMap.get others key ≢ some 1
unfolding ConcurrentMap.get
outside key = ground arith

-- A task comes, is canceled and ends, and another comes.
abbrev first_cancel : List Event
first_cancel =
    becomes_ready (dequeued snapshot)
    ∷ cancel_arrives 1
    ∷ cancel_called
    ∷ handler_ends handler_canceled
    ∷ becomes_ready (dequeued loner)
    ∷ []

-- Worker 1 while it works on the snapshot.
abbrev working : Worker
working = record {
  me = 1;
  running = record { id = 1; token = 7; typename = "snapshot"; request_id = ""; cancelled = false };
  cancel_func = some 0;
  contexts = 1;
  causes = [];
  ready = false;
  armed = true;
  looping = true;
  processing = some snapshot;
  worker_map = (1, 1) ∷ others;
  chosen = false;
}

idle_after : (run first_cancel (start 1 others)).0.chosen ≡ false
unfolding run step start ConcurrentMap.get ConcurrentMap.set
idle_after = refl

mapped : ConcurrentMap.get working.worker_map 1 ≡ some 1
unfolding ConcurrentMap.get
mapped = refl

fresh : ConcurrentMap.get working.causes 1 ≡ none
unfolding ConcurrentMap.get
fresh = refl

cancel_arrives-hits_own_example :
    let w = (run first_cancel (start 1 others)).0 in
    ((run (cancel_arrives 1 ∷ cancel_called ∷ []) w).0 ≡ w) ⊎ (has_task w.processing 1 ≡ true)
cancel_arrives-hits_own_example =
    cancel_arrives-hits_own 1 others first_cancel 1 outside refl idle_after

cancel_called-misdirects_example :
    let w' =
      (run
        (cancel_arrives snapshot.id
          ∷ handler_ends (returned none)
          ∷ becomes_ready (dequeued loner)
          ∷ cancel_called
          ∷ [])
        working).0 in
    (w'.processing ≡ some loner)
    × (w'.cancel_func ≡ some working.contexts)
    × (ConcurrentMap.get w'.causes working.contexts ≡ some task_canceled)
cancel_called-misdirects_example =
    cancel_called-misdirects working snapshot loner none 0 refl refl mapped refl refl (ground arith)
      fresh

missed_beat-silences_example :
    ((step (beats rows_not_affected) working).1 ≡ refresh_heartbeat working.running.token ∷ [])
    × (any is_refresh (run first_cancel (step (beats rows_not_affected) working).0).1 ≡ false)
missed_beat-silences_example = missed_beat-silences working first_cancel refl refl (ground arith)

panic-misdirects_example :
    let w' =
      (run
        (handler_ends (panicked none)
          ∷ becomes_ready (dequeued loner)
          ∷ cancel_arrives snapshot.id
          ∷ cancel_called
          ∷ [])
        working).0 in
    (w'.processing ≡ some loner)
    × (w'.cancel_func ≡ some working.contexts)
    × (ConcurrentMap.get w'.causes working.contexts ≡ some task_canceled)
panic-misdirects_example =
    panic-misdirects working snapshot loner none 0 refl refl mapped refl (ground arith)
      (ground arith) refl (ground arith) fresh
