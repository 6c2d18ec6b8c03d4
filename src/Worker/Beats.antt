-- ===== src/Worker/Beats.antt =====
-- The heartbeat timer of a worker (the loop of start in pkg/tasks/worker/worker.go).
use content_sources_backend.Common.{
  ◌≡◌, refl, ◌≢◌, Bool, true, false, Option, none, some, List, [], ◌∷◌, ◌++◌, arith, any,
}
use content_sources_backend.Queue.Types.{TaskInfo}
use content_sources_backend.Worker.{
  Worker, QueueCall, refresh_heartbeat, Handled, no_handler, server_exited, handler_canceled,
  returned, panicked, rows_not_affected, Event, becomes_ready, beats, stops, handler_ends,
  cancel_arrives, cancel_called, step, run, process, when_processing,
}

abbrev pub is_refresh : QueueCall → Bool
is_refresh (refresh_heartbeat token) = true
is_refresh _ = false

any-join :
    (xs ys : List QueueCall)
    → any is_refresh xs ≡ false
    → any is_refresh ys ≡ false
    → any is_refresh (xs ++ ys) ≡ false
any-join [] ys h k = k
any-join (x ∷ xs) ys h k = ground (arith, any-join xs ys)

-- No step arms the timer again, nor refreshes without it.
process-unarmed :
    (h : Handled) (t : TaskInfo) (w : Worker)
    → w.armed ≡ false
    → ((process h t w).0.armed ≡ false) × (any is_refresh (process h t w).1 ≡ false)
unfolding process
process-unarmed no_handler t w u = (ground arith, refl)
process-unarmed server_exited t w u = (ground arith, refl)
process-unarmed handler_canceled t w u = (ground arith, refl)
process-unarmed (returned e) t w u = (ground arith, refl)
process-unarmed (panicked e) t w u = (ground arith, refl)

step-unarmed :
    (e : Event) (w : Worker)
    → w.armed ≡ false
    → ((step e w).0.armed ≡ false) × (any is_refresh (step e w).1 ≡ false)
unfolding step
step-unarmed (becomes_ready r) w u = (ground arith, ground arith)
step-unarmed (beats r) w u = (ground arith, ground arith)
step-unarmed stops w u = (ground arith, ground arith)
step-unarmed (handler_ends h) w u = ended w.processing
  where
    ended :
        (o : Option TaskInfo)
        → ((when_processing o h w).0.armed ≡ false)
          × (any is_refresh (when_processing o h w).1 ≡ false)
    ended none = (u, refl)
    ended (some t) = process-unarmed h t w u
step-unarmed (cancel_arrives id) w u = (ground arith, refl)
step-unarmed cancel_called w u = (ground arith, refl)

run-unarmed : (es : List Event) (w : Worker) → w.armed ≡ false → any is_refresh (run es w).1 ≡ false
unfolding run
run-unarmed [] w u = refl
run-unarmed (e ∷ es) w u =
    let (still, quiet) = step-unarmed e w u in
    any-join (step e w).1 (run es (step e w).0).1 quiet (run-unarmed es (step e w).0 still)

-- Where a worker's loop runs, its timer is armed and its token is not nil, a beat refreshes the
-- heartbeat; once that refresh has affected no row, the worker refreshes no heartbeat again,
-- whatever happens to it and whichever tasks it takes.
pub missed_beat-silences :
    (w : Worker) (es : List Event)
    → w.looping ≡ true
    → w.armed ≡ true
    → w.running.token ≢ 0
    → ((step (beats rows_not_affected) w).1 ≡ refresh_heartbeat w.running.token ∷ [])
      × (any is_refresh (run es (step (beats rows_not_affected) w).0).1 ≡ false)
unfolding step
missed_beat-silences w es l a held =
    (ground arith, run-unarmed es (step (beats rows_not_affected) w).0 (ground arith))
