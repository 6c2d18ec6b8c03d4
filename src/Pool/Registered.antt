-- ===== src/Pool/Registered.antt =====
-- The task types that a pool has registered (pkg/tasks/worker/worker_pool.go).
use content_sources_backend.Common.{
  ℕ, ◌≡◌, refl, true, false, ◌||◌, is_some, List, [], ◌∷◌, ◌++◌, Text, arith, text_eq, text_eq_iff,
}
use content_sources_backend.Slices
use content_sources_backend.Slices.Laws.{is_distinct}
use content_sources_backend.TextMap
use content_sources_backend.TextMap.{lookup-assign}
use content_sources_backend.Pool.{WorkerPool, new_task_worker_pool, register_handler}

unfoldable pub register_all : List (Text × ℕ) → WorkerPool → WorkerPool
unfolding register_handler
register_all [] w = w
register_all ((task_type, handler) ∷ rest) w =
    register_all rest (register_handler task_type handler w)

contains-append :
    (s : List Text) (x y : Text)
    → Slices.contains text_eq (s ++ (x ∷ [])) y ≡ (Slices.contains text_eq s y || text_eq y x)
unfolding Slices.contains
contains-append [] x y = ground arith
contains-append (z ∷ s) x y = ground (arith, contains-append s x y)

distinct-append :
    (s : List Text) (x : Text)
    → Slices.contains text_eq s x ≡ false
    → is_distinct text_eq s ≡ true
    → is_distinct text_eq (s ++ (x ∷ [])) ≡ true
unfolding is_distinct Slices.contains
distinct-append [] x h k = refl
distinct-append (z ∷ s) x h k =
    ground (arith, distinct-append s x, contains-append s x z, text_eq_iff x z, text_eq_iff z x)

-- No type comes twice, and a type is in the list exactly when it has a handler.
pub IsRegistered : WorkerPool → Type 0
IsRegistered w =
    (is_distinct text_eq w.task_types ≡ true)
    × ((k : Text) → Slices.contains text_eq w.task_types k ≡ is_some (TextMap.lookup w.handlers k))

register_handler-IsRegistered :
    (task_type : Text) (handler : ℕ) (w : WorkerPool)
    → IsRegistered w
    → IsRegistered (register_handler task_type handler w)
unfolding register_handler IsRegistered
register_handler-IsRegistered task_type handler w (d, r) = (
  ground (arith, d, distinct-append w.task_types task_type),
  λ k. ground (
    arith,
    r k,
    r task_type,
    contains-append w.task_types task_type k,
    lookup-assign w.handlers task_type k handler,
    text_eq_iff task_type k,
    text_eq_iff k task_type,
  ),
)

new-IsRegistered : IsRegistered new_task_worker_pool
unfolding IsRegistered Slices.contains TextMap.lookup is_distinct
new-IsRegistered = (refl, λ k. refl)

-- After any registrations the pool asks the queue for each task type once, and for exactly the types
-- that have a handler.
pub register_all-IsRegistered :
    (registrations : List (Text × ℕ))
    → IsRegistered (register_all registrations new_task_worker_pool)
unfolding register_all
register_all-IsRegistered registrations = from registrations new_task_worker_pool new-IsRegistered
  where
    from :
        (registrations : List (Text × ℕ)) (w : WorkerPool)
        → IsRegistered w
        → IsRegistered (register_all registrations w)
    from [] w r = r
    from ((task_type, handler) ∷ rest) w r =
        from rest (register_handler task_type handler w)
          (register_handler-IsRegistered task_type handler w r)
