-- ===== src/Queue/Finish/Cascade.antt =====
-- The cancellation of the dependents of a task, and what it does to each row.
use content_sources_backend.Common.{
  ℕ, ◌+◌, ◌≡◌, refl, ap, ◌∙◌, Bool, true, ◌&&◌, Option, none, some, List, [], ◌∷◌, Text, arith, any,
  length, if◌then◌else◌, ◌==◌, is_none, map,
}
use content_sources_backend.Table.{find, update, matching}
use content_sources_backend.Table.Laws.{find-update, find_sound}
use content_sources_backend.Queue.Types.{canceled, TaskInfo, Dependency, Db}
use content_sources_backend.Queue.Transaction.{query, exec}
use content_sources_backend.Queue.Transaction.Runs.{
  Runs, bind-Runs, query-Runs, exec-Runs, pure-Runs,
}
use content_sources_backend.Queue.Statements.{
  has_id, unfinished, left, cancel_row, cancel_unfinished, dependents_of,
}
use content_sources_backend.Queue.Finish.{cancel_all, cancel_dependents}

-- The tables after the loop.
unfoldable pub cancel_each : Text → List ℕ → Db → Db
cancel_each message [] d = d
cancel_each message (id ∷ ids) d = cancel_each message ids (cancel_unfinished message id d)

abbrev pub among : ℕ → List ℕ → Bool
among j ids = any (λ id. j == id) ids

-- A row after the loop: canceled if it is listed and not finished, and else as it was.
abbrev pub cancel_view : Text → List ℕ → TaskInfo → TaskInfo
cancel_view message ids u =
    if among u.id ids && is_none u.finished_at
    then record u { status = canceled; error = left (some message); cancel_attempted = true }
    else u

-- Whether a dependency of the task `j` on the task `id` is listed.
abbrev pub depends_on : List Dependency → ℕ → ℕ → Bool
depends_on deps j id = any (λ td. td.task_id == j && td.dependency_id == id) deps

-- The dependents that are listed are the tasks with such a dependency.
among-dependents_of :
    (id j : ℕ) (d : Db) → among j (dependents_of id d) ≡ depends_on d.dependencies j id
unfolding dependents_of matching
among-dependents_of id j d = over d.dependencies
  where
    over :
        (deps : List Dependency)
        → among j (map (λ td. td.task_id) (matching (λ td. td.dependency_id == id) deps))
          ≡ depends_on deps j id
    over [] = refl
    over (td ∷ deps) = ground (arith, over deps)

-- A row after the dependents of the task `id` are canceled: canceled if it is not finished and a
-- dependency of its task on that one is listed, and else as it was.
abbrev pub canceled_dependent : Text → ℕ → List Dependency → TaskInfo → TaskInfo
canceled_dependent message id deps u =
    if depends_on deps u.id id && is_none u.finished_at
    then record u { status = canceled; error = left (some message); cancel_attempted = true }
    else u

pub cancel_view-dependents_of :
    (message : Text) (id : ℕ) (d : Db)
    → cancel_view message (dependents_of id d) ≡ canceled_dependent message id d.dependencies
cancel_view-dependents_of message id d i u =
    if among-dependents_of id u.id d i && is_none u.finished_at
    then record u { status = canceled; error = left (some message); cancel_attempted = true }
    else u

abbrev pub through : (TaskInfo → TaskInfo) → Option TaskInfo → Option TaskInfo
through f none = none
through f (some u) = some (f u)

pub through-through :
    (f g : TaskInfo → TaskInfo) (o : Option TaskInfo)
    → through g (through f o) ≡ through (λ u. g (f u)) o
through-through f g none = refl
through-through f g (some u) = refl

pub through-update :
    (j : ℕ) (p : TaskInfo → Bool) (f : TaskInfo → TaskInfo) (ts : List TaskInfo)
    → ((u : TaskInfo) → (f u).id ≡ u.id)
    → find (has_id j) (update p f ts) ≡ through (λ u. if p u then f u else u) (find (has_id j) ts)
through-update j p f ts keeps =
    find-update (has_id j) p f ts (λ u. rw (keeps u)) ∙ same (find (has_id j) ts)
  where
    same :
        (o : Option TaskInfo)
        → ◌≡◌ {A = Option TaskInfo}
            (elim o [ none ↦ none | some u ↦ some (if p u then f u else u) ])
            (through (λ u. if p u then f u else u) o)
    same none = refl
    same (some u) = refl

pub through-eq :
    (f g : TaskInfo → TaskInfo) (o : Option TaskInfo)
    → ((u : TaskInfo) → o ≡ some u → f u ≡ g u)
    → through f o ≡ through g o
through-eq f g none h = refl
through-eq f g (some u) h = ap some (h u refl)

-- Two rows that one identifier finds are one.
pub found_eq :
    (id j : ℕ) (ts : List TaskInfo) (t u : TaskInfo)
    → find (has_id id) ts ≡ some t
    → find (has_id j) ts ≡ some u
    → u.id ≡ id
    → u ≡ t
found_eq id j ts t u e f same = ground (arith, find_sound (has_id j) ts f)

cancel_view-step :
    (message : Text) (id : ℕ) (ids : List ℕ) (u : TaskInfo)
    → cancel_view message ids (if unfinished id u then cancel_row message u else u)
      ≡ cancel_view message (id ∷ ids) u
unfolding cancel_row
cancel_view-step message id ids u = ground arith

pub find-cancel_each :
    (message : Text) (ids : List ℕ) (j : ℕ) (d : Db)
    → find (has_id j) (cancel_each message ids d).tasks
      ≡ through (cancel_view message ids) (find (has_id j) d.tasks)
unfolding cancel_each cancel_unfinished cancel_row
find-cancel_each message [] j d = same (find (has_id j) d.tasks)
  where
    same : (o : Option TaskInfo) → o ≡ through (cancel_view message []) o
    same none = refl
    same (some u) = refl
find-cancel_each message (id ∷ ids) j d =
    find-cancel_each message ids j (cancel_unfinished message id d)
    ∙ ap (through (cancel_view message ids))
        (through-update j (unfinished id) (cancel_row message) d.tasks (λ u. refl))
    ∙ through-through (λ u. if unfinished id u then cancel_row message u else u)
        (cancel_view message ids) (find (has_id j) d.tasks)
    ∙ ap (λ f. through f (find (has_id j) d.tasks)) (λ i u. cancel_view-step message id ids u i)

-- The loop writes to no other table.
pub cancel_each-rest :
    (message : Text) (ids : List ℕ) (d : Db)
    → ((cancel_each message ids d).heartbeats ≡ d.heartbeats)
      × ((cancel_each message ids d).notifications ≡ d.notifications)
unfolding cancel_each cancel_unfinished
cancel_each-rest message [] d = (refl, refl)
cancel_each-rest message (id ∷ ids) d =
    cancel_each-rest message ids (cancel_unfinished message id d)

cancel_all-Runs :
    (message : Text) (ids : List ℕ) (d : Db)
    → Runs (cancel_all message ids) d (length ids) tt (cancel_each message ids d)
unfolding cancel_all cancel_each
cancel_all-Runs message [] d k fault = pure-Runs tt d k fault
cancel_all-Runs message (id ∷ ids) d k fault =
    let d' = cancel_unfinished message id d in
    let sums : 1 + length ids ≡ length (id ∷ ids) = omega arith in
    rw (← sums) (
      bind-Runs (exec (cancel_unfinished message id)) (λ _. cancel_all message ids) d 1 tt d'
        (length ids) tt (cancel_each message ids d') (exec-Runs (cancel_unfinished message id) d)
        (cancel_all-Runs message ids d') k fault)

pub cancel_dependents-Runs :
    (message : Text) (id : ℕ) (d : Db)
    → Runs
        (cancel_dependents message id)
        d
        (1 + length (dependents_of id d))
        tt
        (cancel_each message (dependents_of id d) d)
unfolding cancel_dependents
cancel_dependents-Runs message id d =
    bind-Runs (query (dependents_of id)) (cancel_all message) d 1 (dependents_of id d) d
      (length (dependents_of id d)) tt (cancel_each message (dependents_of id d) d)
      (query-Runs (dependents_of id) d) (cancel_all-Runs message (dependents_of id d) d)
