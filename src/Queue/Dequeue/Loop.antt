-- ===== src/Queue/Dequeue/Loop.antt =====
-- The loop of Dequeue, and two workers that dequeue one after the other.
use content_sources_backend.Common.{
  ℕ, ◌+◌, ◌≡◌, refl, ap, sym, ◌∙◌, subst, ◌≢◌, Bool, false, ◌⊎◌, inl, inr, none, some, List, [],
  ◌∷◌, String, arith, any, All, if◌then◌else◌, ◌==◌, ==_refl,
}
use content_sources_backend.Table.{find}
use content_sources_backend.Queue.Types.{
  pending, TaskInfo, Heartbeat, Db, Error, context_canceled, db_error, no_rows,
}
use content_sources_backend.Queue.Transaction.{Result, done, fails}
use content_sources_backend.Queue.Transaction.Runs.{serving}
use content_sources_backend.Queue.Statements.{has_id, is_ready, start}
use content_sources_backend.Queue.Enqueue.{Info}
use content_sources_backend.Queue.Dequeue.{
  dequeue_maybe, Round, Wake, notified, context_ends, dequeue_error, conclude, dequeue,
}
use content_sources_backend.Queue.Dequeue.Outcomes.{dequeue_maybe-starts, started_info, started_db}
use content_sources_backend.Queue.Finish.Cascade.{through}
use content_sources_backend.Queue.Invariant.{IsWellFormed}
use content_sources_backend.Queue.Invariant.Methods.{dequeue_maybe-Keeps}
use content_sources_backend.Queue.Invariant.WellFormed.{IsKept-IsWellFormed}
use content_sources_backend.Table.Laws.{All-find}

info_of : Info → Result Info × Db → Info
info_of other (done i, d) = i
info_of other (fails e, d) = other

info_eq : {i j : Info} {d e : Db} → ◌≡◌ {A = Result Info × Db} (done i, d) (done j, e) → i ≡ j
unfolding info_of
info_eq {i} h = ap (info_of i) h

-- Two calls of dequeueMaybe, one after the other, by any workers, for any types and with any locks,
-- never start the same task: over well-formed tables, with fresh tokens that are not nil and
-- connections that serve five statements.
pub dequeue_maybe-distinct :
    (token token' now now' : ℕ) (locked locked' : ℕ → Bool) (types types' : List String)
    (d e e' : Db) (i i' : Info) (k k' : ℕ) (fault fault' : Error)
    → IsWellFormed d
    → token ≢ 0
    → any (λ (h : Heartbeat). h.token == token) d.heartbeats ≡ false
    → token' ≢ 0
    → any (λ (h : Heartbeat). h.token == token') e.heartbeats ≡ false
    → dequeue_maybe token now locked types d (serving (5 + k) fault) ≡ (done i, e)
    → dequeue_maybe token' now' locked' types' e (serving (5 + k') fault') ≡ (done i', e')
    → i.task.id ≢ i'.task.id
unfolding start
dequeue_maybe-distinct token token' now now' locked locked' types types' d e e' i i' k k' fault
      fault' w nil fresh nil' fresh' first second same =
    elim (dequeue_maybe-starts token now locked types d k fault w nil fresh) [
      | inl (_, none_ready) ↦ cc
      | inr (t, row, _, _, _, _, _, _, run, rows) ↦
          elim (dequeue_maybe-starts token' now' locked' types' e k' fault' kept nil' fresh') [
            | inl (_, none_ready) ↦ cc
            | inr (t', row', idle, _, _, _, _, _, run', _) ↦
                let i_eq = info_eq (sym first ∙ run) in
                let e_eq : e ≡ started_db token now t d = ap (λ r. r.1) (sym first ∙ run) in
                let i'_eq = info_eq (sym second ∙ run') in
                let ids : t.id ≡ t'.id = ids_eq t t' i_eq i'_eq in
                restarted t t' row ids idle (rows t'.id)
                  (subst (λ x. find (has_id t'.id) x.tasks ≡ some t') e_eq row')
          ]
    ]
  where
    kept : IsWellFormed e
    kept =
        subst (λ (r : Result Info × Db). IsWellFormed r.1) first
          (dequeue_maybe-Keeps IsWellFormed IsKept-IsWellFormed token now locked types d
            (serving (5 + k) fault) w)

    ids_eq :
        (t t' : TaskInfo)
        → i ≡ started_info token now t d
        → i' ≡ started_info token' now' t' e
        → t.id ≡ t'.id
    ids_eq t t' a b =
        let left : i.task.id ≡ t.id = ap (λ (x : Info). x.task.id) a ∙ unfold start in refl in
        let right : i'.task.id ≡ t'.id = ap (λ (x : Info). x.task.id) b ∙ unfold start in refl in
        sym left ∙ same ∙ right

    restarted :
        (t t' : TaskInfo)
        → find (has_id t.id) d.tasks ≡ some t
        → t.id ≡ t'.id
        → t'.status ≡ pending
        → find (has_id t'.id) (started_db token now t d).tasks
          ≡ through
              (λ u. if u.id == t.id then start token now u else u)
              (find (has_id t'.id) d.tasks)
        → find (has_id t'.id) (started_db token now t d).tasks ≡ some t'
        → ⊥
    restarted t t' row ids idle rows row' =
        let found_t : find (has_id t'.id) d.tasks ≡ some t =
          subst (λ n. find (has_id n) d.tasks ≡ some t) ids row in
        let now_running : some (start token now t) ≡ some t' =
          sym (rows ∙ rw found_t (rw (==_refl t.id))) ∙ row' in
        unfold start in cc

-- A call of Dequeue that returns an error returns ErrContextCanceled or an error of the database,
-- never that there was no task.
pub dequeue-errors :
    (token : ℕ) (types : List String) (r : Round) (wakes : List Wake) (x : Error) (d : Db)
    → dequeue token types r wakes ≡ some (fails x, d)
    → (x ≡ context_canceled) ⊎ (x ≡ db_error)
unfolding dequeue dequeue_error
dequeue-errors token types r [] x d h = ground arith
dequeue-errors token types r (notified next ∷ wakes) x d h =
    ground (arith, dequeue-errors token types next wakes x d)
dequeue-errors token types r (context_ends ∷ wakes) x d h = ground arith

-- Over well-formed tables, with a fresh token that is not nil and a connection that serves five
-- statements, a call of Dequeue that finds no ready task waits, and after a notification does
-- what a call that begins then does.
pub dequeue-waits :
    (token : ℕ) (types : List String) (r next : Round) (wakes : List Wake) (k : ℕ) (fault : Error)
    → IsWellFormed r.db
    → token ≢ 0
    → any (λ (h : Heartbeat). h.token == token) r.db.heartbeats ≡ false
    → All (λ u. is_ready r.locked types r.db u ≡ false) r.db.tasks
    → r.link ≡ serving (5 + k) fault
    → (dequeue token types r [] ≡ none)
      × (dequeue token types r (notified next ∷ wakes) ≡ dequeue token types next wakes)
unfolding dequeue dequeue_error
dequeue-waits token types r next wakes k fault w nil fresh idle served =
    elim (dequeue_maybe-starts token r.now r.locked types r.db k fault w nil fresh) [
      | inl (_, stop) ↦
          let stops : dequeue_maybe token r.now r.locked types r.db r.link ≡ (fails no_rows, r.db) =
            rw served stop in
          (
            ap (λ x. conclude x none) stops,
            ap (λ x. conclude x (dequeue token types next wakes)) stops,
          )
      | inr (t, row, _, _, _, _, ready, _, _, _) ↦
          let never =
            All-find (λ u. is_ready r.locked types r.db u ≡ false) (has_id t.id) r.db.tasks idle
              row in
          cc
    ]
