-- ===== src/Queue/Dequeue/Outcomes.antt =====
-- Which task dequeueMaybe starts, and what it does to the tables.

use content_sources_backend.Common.{
  ℕ, ◌+◌, ◌≡◌, refl, ap, sym, subst, ◌∙◌, ◌≢◌, Bool, true, false, ◌&&◌, ◌⊎◌, inl, inr, none, some,
  List, [], ◌∷◌, String, arith, any, All, if◌then◌else◌, ◌==◌, is_none, is_some, Option-cases,
}
use content_sources_backend.Table.{find, update}
use content_sources_backend.Table.Laws.{All-find}
use content_sources_backend.Queue.Types.{
  pending, running, TaskInfo, Heartbeat, Dependency, Db, Error, no_rows, contains,
}
use content_sources_backend.Queue.Transaction.{
  M, ok, ◌>>=◌, ◌>>◌, pure, query, exec_checked, begin, commit, done, fails,
}
use content_sources_backend.Queue.Transaction.Runs.{
  Runs, Stops, serving, over, bind-Runs, bind-Stops, Stops-first, query-Runs, exec-Runs,
  exec_then-Runs, exec_checked-Runs, pure-Runs, transact-Runs, transact-Stops,
}
use content_sources_backend.Queue.Statements.{
  has_id, returning, is_ready, precedes, select_first, start, insert_heartbeat, dependencies_of,
  waits,
}
use content_sources_backend.Queue.Enqueue.{Info, found}
use content_sources_backend.Queue.Dequeue.{claim, take_first, dequeue_maybe_tx, dequeue_maybe}
use content_sources_backend.Queue.Dequeue.Selection.{
  select_first-mem, select_first-first, first-and, select_first-eq-none, find-mem,
}
use content_sources_backend.Queue.Finish.Cascade.{through, through-update}
use content_sources_backend.Queue.Invariant.{IsConsistent, IsWellFormed}

abbrev pub started_rows : ℕ → ℕ → TaskInfo → Db → Db
started_rows token now t d = record d { tasks = update (has_id t.id) (start token now) d.tasks }

abbrev pub started_db : ℕ → ℕ → TaskInfo → Db → Db
started_db token now t d = record (started_rows token now t d) {
  heartbeats = record { token = token; id = t.id; heartbeat = now } ∷ d.heartbeats;
}

abbrev pub started_info : ℕ → ℕ → TaskInfo → Db → Info
started_info token now t d = record {
  task = record t { token = some token; started_at = some now; status = running; account_id = "" };
  dependencies = dependencies_of t.id d;
}

insert_heartbeat-fresh :
    (token id now : ℕ) (d : Db)
    → token ≢ 0
    → any (λ (h : Heartbeat). h.token == token) d.heartbeats ≡ false
    → insert_heartbeat token id now d
      ≡ some (record d {
        heartbeats = record { token = token; id = id; heartbeat = now } ∷ d.heartbeats;
      })
unfolding insert_heartbeat
insert_heartbeat-fresh token id now d nil fresh = ground arith

-- Every task that the task depends on is finished.
abbrev pub DependenciesFinished : Db → ℕ → Type 0
DependenciesFinished d id =
    All
      (λ td.
        td.task_id ≡ id
        → All (λ dep. dep.id ≡ td.dependency_id → is_some dep.finished_at ≡ true) d.tasks)
      d.dependencies

All-finished :
    (id : ℕ) (ts : List TaskInfo)
    → any (λ dep. dep.id == id && is_none dep.finished_at) ts ≡ false
    → All (λ dep. dep.id ≡ id → is_some dep.finished_at ≡ true) ts
All-finished id [] h = tt
All-finished id (t ∷ ts) h = (λ e. ground arith, All-finished id ts (ground arith))

waits-false :
    (id : ℕ) (ts : List TaskInfo) (deps : List Dependency)
    → waits ts deps id ≡ false
    → All
        (λ td.
          td.task_id ≡ id
          → All (λ dep. dep.id ≡ td.dependency_id → is_some dep.finished_at ≡ true) ts)
        deps
unfolding waits
waits-false id ts [] h = tt
waits-false id ts (td ∷ deps) h =
    (λ e. All-finished td.dependency_id ts (ground arith), waits-false id ts deps (ground arith))

ready_parts :
    (locked : ℕ → Bool) (types : List String) (d : Db) (t : TaskInfo)
    → is_ready locked types d t ≡ true
    → IsConsistent t
    → (t.status ≡ pending)
      × (contains types t.typename ≡ true)
      × (locked t.id ≡ false)
      × (waits d.tasks d.dependencies t.id ≡ false)
unfolding is_ready
ready_parts locked types d t ready fits = ground arith

module _ (token now : ℕ) (locked : ℕ → Bool) (types : List String) (d : Db) where
  take_first-Runs :
      (t : TaskInfo)
      → select_first (is_ready locked types d) d.tasks ≡ some t
      → Runs
          (take_first token now locked types)
          d
          1
          (returning (start token now t))
          (started_rows token now t d)
  unfolding take_first claim
  take_first-Runs t e =
      bind-Runs (query (λ d. select_first (is_ready locked types d) d.tasks))
        (λ chosen. found chosen no_rows >>= claim token now) d 1 (some t) d 0
        (returning (start token now t)) (started_rows token now t d)
        (λ k fault.
          query-Runs (λ d. select_first (is_ready locked types d) d.tasks) d k fault ∙ rw e)
        (pure-Runs (returning (start token now t)) (started_rows token now t d))

  take_first-Stops :
      select_first (is_ready locked types d) d.tasks ≡ none
      → Stops (take_first token now locked types) d 1 no_rows
  unfolding take_first claim
  take_first-Stops e =
      bind-Stops (query (λ d. select_first (is_ready locked types d) d.tasks))
        (λ chosen. found chosen no_rows >>= claim token now) d 1 none d 0 no_rows
        (λ k fault.
          query-Runs (λ d. select_first (is_ready locked types d) d.tasks) d k fault ∙ rw e)
        (λ k fault. refl)

  abbrev after_claim : TaskInfo → M Info
  after_claim t = do
    exec_checked (insert_heartbeat token t.id now)
    deps ← query (dependencies_of t.id)
    commit
    pure (record { task = t; dependencies = deps })

  dequeue-Runs :
      (t : TaskInfo)
      → token ≢ 0
      → any (λ (h : Heartbeat). h.token == token) d.heartbeats ≡ false
      → select_first (is_ready locked types d) d.tasks ≡ some t
      → Runs
          (dequeue_maybe_tx token now locked types)
          d
          5
          (started_info token now t d)
          (started_db token now t d)
  unfolding dequeue_maybe_tx start
  dequeue-Runs t nil fresh e =
      exec_then-Runs (λ x. x) (take_first token now locked types >>= after_claim) d 4 _ _
        (bind-Runs (take_first token now locked types) after_claim d 1
          (returning (start token now t)) (started_rows token now t d) 3 _ _ (take_first-Runs t e)
          rest)
    where
      hb : Unit {0} → M Info
      hb _ = query (dependencies_of t.id) >>= λ deps.
          commit >> pure (record { task = returning (start token now t); dependencies = deps })

      deps_then : List ℕ → M Info
      deps_then deps =
          commit >> pure (record { task = returning (start token now t); dependencies = deps })

      out : Db
      out = started_db token now t d

      ids : List ℕ
      ids = dependencies_of t.id d

      same_ids : dependencies_of t.id out ≡ ids
      same_ids = unfold dependencies_of in refl

      rest :
          Runs
            (after_claim (returning (start token now t)))
            (started_rows token now t d)
            3
            (started_info token now t d)
            out
      rest =
          unfold start in
          bind-Runs (exec_checked (insert_heartbeat token t.id now)) hb (started_rows token now t d)
            1 tt out 2 (started_info token now t d) out
            (exec_checked-Runs (insert_heartbeat token t.id now) (started_rows token now t d) out
              (insert_heartbeat-fresh token t.id now (started_rows token now t d) nil fresh))
            (bind-Runs (query (dependencies_of t.id)) deps_then out 1 ids out 1
              (started_info token now t d) out
              (λ k fault.
                query-Runs (dependencies_of t.id) out k fault
                ∙ ap (λ (is : List ℕ). ok is (over out k fault)) same_ids)
              (exec_then-Runs (λ x. x) (pure (started_info token now t d)) out 0
                (started_info token now t d) out (pure-Runs (started_info token now t d) out)))

  dequeue-Stops :
      select_first (is_ready locked types d) d.tasks ≡ none
      → Stops (dequeue_maybe_tx token now locked types) d 2 no_rows
  unfolding dequeue_maybe_tx
  dequeue-Stops e =
      bind-Stops begin (λ _. take_first token now locked types >>= after_claim) d 1 tt d 1 no_rows
        (exec-Runs (λ x. x) d)
        (Stops-first (take_first token now locked types) after_claim d 1 no_rows
          (take_first-Stops e))

  pub dequeue_maybe-starts :
      (k : ℕ) (fault : Error)
      → IsWellFormed d
      → token ≢ 0
      → any (λ (h : Heartbeat). h.token == token) d.heartbeats ≡ false
      → (All (λ u. is_ready locked types d u ≡ false) d.tasks
          × (dequeue_maybe token now locked types d (serving (5 + k) fault) ≡ (fails no_rows, d)))
        ⊎ ((t : TaskInfo) × (find (has_id t.id) d.tasks ≡ some t)
            × (t.status ≡ pending)
            × (contains types t.typename ≡ true)
            × (locked t.id ≡ false)
            × DependenciesFinished d t.id
            × (is_ready locked types d t ≡ true)
            × All (λ u. (is_ready locked types d u && precedes u t) ≡ false) d.tasks
            × (dequeue_maybe token now locked types d (serving (5 + k) fault)
                ≡ (done (started_info token now t d), started_db token now t d))
            × ((j : ℕ)
                → find (has_id j) (started_db token now t d).tasks
                  ≡ through
                      (λ u.
                        if u.id == t.id
                        then record u {
                          token = some token;
                          started_at = some now;
                          status = running;
                        }
                        else u)
                      (find (has_id j) d.tasks)))
  unfolding dequeue_maybe start
  dequeue_maybe-starts k fault w nil fresh =
      elim (Option-cases (select_first (is_ready locked types d) d.tasks)) [
        | inl e ↦ inl (
          select_first-eq-none (is_ready locked types d) d.tasks e,
          stop_early (
              transact-Stops (dequeue_maybe_tx token now locked types) d 2 no_rows (3 + k) fault
                (dequeue-Stops e)),
        )
        | inr (t, e) ↦
            let (mem, ready) = select_first-mem (is_ready locked types d) d.tasks t e in
            let row = find-mem d.tasks t w.distinct mem in
            let fits = All-find IsConsistent (has_id t.id) d.tasks w.consistent row in
            let parts = ready_parts locked types d t ready fits in
            inr (
              t,
              row,
              parts.0,
              parts.1,
              parts.2,
              waits-false t.id d.tasks d.dependencies parts.3,
              ready,
              first-and (is_ready locked types d) d.tasks t
                  (select_first-first (is_ready locked types d) d.tasks t e),
              transact-Runs (dequeue_maybe_tx token now locked types) d 5
                  (started_info token now t d) (started_db token now t d) k fault
                  (dequeue-Runs t nil fresh e),
              λ j.
                  through-update j (has_id t.id) (start token now) d.tasks
                    (λ u. unfold start in refl),
            )
      ]
    where
      stop_early :
          dequeue_maybe token now locked types d (serving (2 + (3 + k)) fault) ≡ (fails no_rows, d)
          → dequeue_maybe token now locked types d (serving (5 + k) fault) ≡ (fails no_rows, d)
      stop_early h =
          let sums : 5 + k ≡ 2 + (3 + k) = omega arith in
          subst (λ n. dequeue_maybe token now locked types d (serving n fault) ≡ (fails no_rows, d))
            (sym sums) h
