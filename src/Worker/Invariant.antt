-- ===== src/Worker/Invariant.antt =====
-- What the map of a pool's workers says of a worker whose handlers neither panic nor leave with
-- ErrServerExited (pkg/tasks/worker/worker.go and worker_pool.go).
use content_sources_backend.Common.{
  ℕ, ◌≡◌, refl, ap, ◌∙◌, inl, inr, ◌≢◌, ◌⊎◌, Bool, true, false, ◌&&◌, Option, none, some, List, [],
  ◌∷◌, arith, is_some, if◌then◌else◌, ◌==◌,
}
use content_sources_backend.ConcurrentMap
use content_sources_backend.ConcurrentMap.{get-set-remove, get, set, remove}
use content_sources_backend.Queue.Types.{TaskInfo}
use content_sources_backend.Worker.{
  Worker, Dequeued, context_ended, dequeue_failed, dequeued, Handled, no_handler, server_exited,
  handler_canceled, returned, panicked, Event, becomes_ready, beats, Refreshed, refresh_heartbeat,
  rearms, task_canceled, QueueCall, stops, handler_ends, cancel_arrives, cancel_called, start,
  not_running, Cause, call_cancel_func, clear, remove_from_map, on_beat, on_stop, step, run,
  process, when_processing, on_ready, on_cancel, on_call,
}

abbrev pub returns : Handled → Bool
returns server_exited = false
returns (panicked error) = false
returns _ = true

-- The events of a worker whose handlers return.
abbrev pub orderly : List Event → Bool
orderly [] = true
orderly (handler_ends h ∷ es) = returns h && orderly es
orderly (_ ∷ es) = orderly es

abbrev pub has_task : Option TaskInfo → ℕ → Bool
has_task none id = false
has_task (some t) id = t.id == id

-- A ready worker processes nothing, and the map leads to a worker only from the task it processes.
pub IsFocused : Worker → Type 0
IsFocused w =
    ((w.ready && is_some w.processing) ≡ false)
    × ((id : ℕ) → ConcurrentMap.get w.worker_map id ≡ some w.me → has_task w.processing id ≡ true)

IsFocused-ready :
    (r : Dequeued) (w : Worker) → w.ready ≡ true → IsFocused w → IsFocused (on_ready r w).0
unfolding on_ready IsFocused
IsFocused-ready context_ended w a f = (refl, f.1)
IsFocused-ready dequeue_failed w a f = (ground arith, f.1)
IsFocused-ready (dequeued t) w a f =
    (refl, λ id. ground (arith, f.0, f.1 id, get-set-remove w.worker_map t.id id w.me))

call_cancel_func-frame :
    (cause : Cause) (w : Worker)
    → ((call_cancel_func cause w).worker_map ≡ w.worker_map)
      × ((call_cancel_func cause w).me ≡ w.me)
      × ((call_cancel_func cause w).processing ≡ w.processing)
      × ((call_cancel_func cause w).ready ≡ w.ready)
unfolding call_cancel_func
call_cancel_func-frame cause w = (ground arith, ground arith, ground arith, ground arith)

-- Nothing but the task that ends leads to the worker, so nothing does after it is removed.
removed :
    (t : TaskInfo) (w : Worker) (id : ℕ)
    → w.processing ≡ some t
    → IsFocused w
    → ConcurrentMap.get (ConcurrentMap.remove w.worker_map t.id) id ≢ some w.me
unfolding IsFocused
removed t w id p f = ground (arith, f.1 id, p, get-set-remove w.worker_map t.id id w.me)

IsFocused-process :
    (h : Handled) (t : TaskInfo) (w : Worker)
    → returns h ≡ true
    → w.processing ≡ some t
    → IsFocused w
    → IsFocused (process h t w).0
unfolding process IsFocused clear remove_from_map
IsFocused-process no_handler t w a p f = (
  refl,
  λ id. ground (
    arith,
    removed t w id p f,
    call_cancel_func-frame not_running (remove_from_map t.id (clear w)),
  ),
)
IsFocused-process server_exited t w a p f = ground arith
IsFocused-process handler_canceled t w a p f =
    (refl, λ id. ground (arith, removed t w id p f, call_cancel_func-frame not_running w))
IsFocused-process (returned e) t w a p f = (
  refl,
  λ id. ground (
    arith,
    removed t w id p f,
    call_cancel_func-frame not_running (remove_from_map t.id (clear w)),
  ),
)
IsFocused-process (panicked e) t w a p f = ground arith

IsFocused-call : (cause : Cause) (w : Worker) → IsFocused w → IsFocused (call_cancel_func cause w)
unfolding IsFocused
IsFocused-call cause w f = (
  ground (arith, f.0, call_cancel_func-frame cause w),
  λ id. ground (arith, f.1 id, call_cancel_func-frame cause w),
)

IsFocused-cancel : (id : ℕ) (w : Worker) → IsFocused w → IsFocused (on_cancel id w)
unfolding on_cancel IsFocused
IsFocused-cancel id w f = listed (ConcurrentMap.get w.worker_map id)
  where
    picked : (b : Bool) → IsFocused (if b then record w { chosen = true } else w)
    picked true = f
    picked false = f

    listed :
        (o : Option ℕ)
        → IsFocused
            (elim o [ none ↦ w | some wrk ↦ if wrk == w.me then record w { chosen = true } else w ])
    listed none = f
    listed (some wrk) = picked (wrk == w.me)

IsFocused-on_call : (w : Worker) → IsFocused w → IsFocused (on_call w)
unfolding on_call IsFocused
IsFocused-on_call w f = IsFocused-call task_canceled w f

one_of-IsFocused :
    (b : Bool) (x y : Worker) → IsFocused x → IsFocused y → IsFocused (if b then x else y)
one_of-IsFocused true x y f g = f
one_of-IsFocused false x y f g = g

if-IsFocused :
    (b : Bool) (x y : Worker × List QueueCall)
    → (b ≡ true → IsFocused x.0)
    → IsFocused y.0
    → IsFocused (if b then x else y).0
if-IsFocused true x y f g = f refl
if-IsFocused false x y f g = g

IsFocused-beat : (r : Refreshed) (w : Worker) → IsFocused w → IsFocused (on_beat r w).0
unfolding on_beat IsFocused
IsFocused-beat r w f =
    if-IsFocused (w.running.token == 0) (w, [])
      (record w { armed = rearms r }, refresh_heartbeat w.running.token ∷ []) (λ b. f) f

IsFocused-stop : (w : Worker) → IsFocused w → IsFocused (on_stop w).0
unfolding IsFocused on_stop
IsFocused-stop w f = f

IsFocused-step :
    (e : Event) (w : Worker) → orderly (e ∷ []) ≡ true → IsFocused w → IsFocused (step e w).0
unfolding step
IsFocused-step (becomes_ready r) w a f =
    if-IsFocused (w.looping && w.ready) (on_ready r w) (w, [])
      (λ b. IsFocused-ready r w (ground arith) f) f
IsFocused-step (beats r) w a f =
    if-IsFocused (w.looping && w.armed) (on_beat r w) (w, []) (λ b. IsFocused-beat r w f) f
IsFocused-step stops w a f = if-IsFocused w.looping (on_stop w) (w, []) (λ b. IsFocused-stop w f) f
IsFocused-step (handler_ends h) w a f = ended w.processing refl
  where
    ended : (o : Option TaskInfo) → w.processing ≡ o → IsFocused (when_processing o h w).0
    ended none p = f
    ended (some t) p = IsFocused-process h t w (ground arith) p f
IsFocused-step (cancel_arrives id) w a f =
    one_of-IsFocused w.chosen w (on_cancel id w) f (IsFocused-cancel id w f)
IsFocused-step cancel_called w a f =
    one_of-IsFocused w.chosen (on_call w) w (IsFocused-on_call w f) f

first_orderly :
    (e : Event) (es : List Event)
    → orderly (e ∷ es) ≡ true
    → (orderly (e ∷ []) ≡ true) × (orderly es ≡ true)
first_orderly (handler_ends h) es a = (ground arith, ground arith)
first_orderly (becomes_ready r) es a = (refl, a)
first_orderly (beats r) es a = (refl, a)
first_orderly stops es a = (refl, a)
first_orderly (cancel_arrives id) es a = (refl, a)
first_orderly cancel_called es a = (refl, a)

run-IsFocused :
    (es : List Event) (w : Worker) → orderly es ≡ true → IsFocused w → IsFocused (run es w).0
unfolding run
run-IsFocused [] w a f = f
run-IsFocused (e ∷ es) w a f =
    let (now, later) = first_orderly e es a in
    run-IsFocused es (step e w).0 later (IsFocused-step e w now f)

start-IsFocused :
    (me : ℕ) (shared : List (ℕ × ℕ))
    → ((key : ℕ) → ConcurrentMap.get shared key ≢ some me)
    → IsFocused (start me shared)
unfolding start IsFocused
start-IsFocused me shared outside = (refl, λ key. ground (arith, outside key))

-- The two steps of a cancellation that does not find the worker.
unfound :
    (id : ℕ) (w : Worker)
    → w.chosen ≡ false
    → on_cancel id w ≡ w
    → (run (cancel_arrives id ∷ cancel_called ∷ []) w).0 ≡ w
unfolding run step
unfound id w free same =
    let looked : (if w.chosen then w else on_cancel id w) ≡ w =
      ap (λ (b : Bool). if b then w else on_cancel id w) free ∙ same in
    ap (λ (x : Worker). if x.chosen then on_call x else x) looked
    ∙ ap (λ (b : Bool). if b then on_call w else w) free

IsFocused-hits_own :
    (id : ℕ) (w : Worker) → IsFocused w → (on_cancel id w ≡ w) ⊎ (has_task w.processing id ≡ true)
unfolding IsFocused on_cancel
IsFocused-hits_own id w f = ground (arith, f.1 id)

-- A worker starts with a map in which no task leads to it. After any events in which its handlers
-- return, and not with ErrServerExited, and where the listener of cancellations is idle: a
-- notification that cancels a task, whose two steps in the listener nothing comes between, leaves the
-- worker as it is, unless the worker processes that very task.
pub cancel_arrives-hits_own :
    (me : ℕ) (shared : List (ℕ × ℕ)) (es : List Event) (id : ℕ)
    → ((key : ℕ) → ConcurrentMap.get shared key ≢ some me)
    → orderly es ≡ true
    → (run es (start me shared)).0.chosen ≡ false
    → let w = (run es (start me shared)).0 in
      ((run (cancel_arrives id ∷ cancel_called ∷ []) w).0 ≡ w) ⊎ (has_task w.processing id ≡ true)
cancel_arrives-hits_own me shared es id outside a free =
    elim (IsFocused-hits_own id (run es (start me shared)).0
      (run-IsFocused es (start me shared) a (start-IsFocused me shared outside))) [
        | inl same ↦ inl (unfound id (run es (start me shared)).0 free same)
        | inr own ↦ inr own
      ]
