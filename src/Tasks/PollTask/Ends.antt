-- ===== src/Tasks/PollTask/Ends.antt =====
-- PollTask ends when the task does, and gives up only after five errors in a row.
use content_sources_backend.Common.{
  ℕ, zero, suc, ◌+◌, ◌≤◌, ◌<◌, ◌≡◌, ◌≢◌, refl, Option, none, some, List, [], ◌∷◌, Text, codes,
  text_eq, text_eq_sound, false, arith, ◌==◌, Bool-cases, Option-cases, inl, inr, ◌⊎◌, ◌∙◌, ap, sym,
  subst, ==_iff,
}
use content_sources_backend.Slices
use content_sources_backend.Tasks.PollTask.{
  max_get_task_attempts, sleep_with_backoff, Phase, in_progress, stopped, failed, phase, Outcome,
  ended, task_failed, get_failed, out_of_fuel, poll, poll_task,
}

Phase-cases : (p : Phase) → (p ≡ in_progress) ⊎ ((p ≡ stopped) ⊎ (p ≡ failed))
Phase-cases in_progress = inl refl
Phase-cases stopped = inr (inl refl)
Phase-cases failed = inr (inr refl)

abbrev pub in_progress_states : List Text
in_progress_states = codes "waiting" ∷ codes "running" ∷ codes "canceling" ∷ []

-- What the switch tells of a state.
stopped_state :
    (state : Text)
    → phase state ≡ stopped
    → (Slices.contains text_eq in_progress_states state ≡ false)
      × (text_eq state (codes "failed") ≡ false)
stopped_state state h = (
  elim (Bool-cases (Slices.contains text_eq in_progress_states state)) [
    | inl e ↦ absurd (unfold phase in (let q : in_progress ≡ stopped = (rw e at h) in ground arith))
    | inr e ↦ e
  ],
  elim (Bool-cases (text_eq state (codes "failed"))) [
    | inl e ↦
        (let q : phase (codes "failed") ≡ stopped =
            subst (λ t. phase t ≡ stopped) (text_eq_sound state (codes "failed") e) h in
          absurd (unfold phase Slices.contains text_eq in ground arith))
    | inr e ↦ e
  ],
)

failed_state : (state : Text) → phase state ≡ failed → state ≡ codes "failed"
unfolding phase
failed_state state h = text_eq_sound state (codes "failed") (ground arith)

open_state :
    (state : Text)
    → Slices.contains text_eq in_progress_states state ≡ false
    → phase state ≢ in_progress
unfolding phase
open_state state h = ground arith

module _ (get_task : ℕ → Option Text) where
  -- So many calls from this one on fail.
  abbrev pub Fails : ℕ → ℕ → Type 0
  Fails zero i = Unit
  Fails (suc n) i = (get_task i ≡ none) × Fails n (suc i)

  Fails-snoc : (n i : ℕ) → Fails n i → get_task (i + n) ≡ none → Fails (suc n) i
  Fails-snoc zero i f e = (ap get_task (omega arith) ∙ e, tt)
  Fails-snoc (suc n) i f e = (f.0, Fails-snoc n (suc i) f.1 (ap get_task (omega arith) ∙ e))

  -- What an outcome says of the answers of GetTask.
  abbrev pub Justified : Outcome → Type 0
  Justified (ended state slept) =
      (call : ℕ) × (get_task call ≡ some state)
      × (Slices.contains text_eq in_progress_states state ≡ false)
      × (text_eq state (codes "failed") ≡ false)
  Justified (task_failed state slept) =
      (call : ℕ) × (get_task call ≡ some state) × (state ≡ codes "failed")
  Justified (get_failed slept) = (call : ℕ) × Fails max_get_task_attempts call
  Justified out_of_fuel = ⊥

  before_last : (call last : ℕ) → call ≤ last → get_task call ≢ get_task last → suc call ≤ last
  before_last call last h d = elim (Bool-cases (call == last)) [
    | inl same ↦ absurd (d (ap get_task ((==_iff call last).0 same)))
    | inr other ↦ ground arith
  ]

  poll-Justified :
      (last : ℕ) (state : Text) (fuel n start attempt call poll_count slept : ℕ)
      → get_task last ≡ some state
      → phase state ≢ in_progress
      → call ≤ last
      → last < call + fuel
      → attempt ≡ suc n
      → call ≡ start + n
      → Fails n start
      → Justified (poll get_task fuel attempt call poll_count slept)
  unfolding poll
  poll-Justified last state zero n start attempt call poll_count slept e p h k a c f =
      absurd (omega arith)
  poll-Justified last state (suc fuel) n start attempt call poll_count slept e p h k a c f =
      elim (Option-cases (get_task call)) [
        | inl missing ↦
            let more : Fails (suc n) start = Fails-snoc n start f (ap get_task (sym c) ∙ missing) in
            rw (missing, poll)
              (elim (Bool-cases (attempt == max_get_task_attempts)) [
                | inl given_up ↦
                    let five : n ≡ 4 = ground arith in
                    rw given_up (start, subst (λ (m : ℕ). Fails (suc m) start) five more)
                | inr again ↦
                    let earlier : suc call ≤ last = before_last call last h (λ q. cc) in
                    rw again (
                      poll-Justified last state fuel (suc n) start (attempt + 1) (call + 1)
                        (poll_count + 1) (slept + sleep_with_backoff poll_count) e p (omega arith)
                        (omega arith) (omega arith) (omega arith) more)
              ])
        | inr (s, got) ↦
            rw (got, poll)
              (elim (Phase-cases (phase s)) [
                | inl going ↦
                    let earlier : suc call ≤ last = before_last call last h (λ q.
                      p (ap phase (let r : some s ≡ some state = cc in ground arith) ∙ going)) in
                    rw going (
                      poll-Justified last state fuel 0 (call + 1) 1 (call + 1) (poll_count + 1)
                        (slept + sleep_with_backoff poll_count) e p (omega arith) (omega arith)
                        (omega arith) (omega arith) tt)
                | inr (inl ends) ↦ (let q = stopped_state s ends in rw ends (call, got, q.0, q.1))
                | inr (inr fails) ↦ rw fails (call, got, failed_state s fails)
              ])
      ]

-- PollTask terminates with a justified outcome: if some call of GetTask answers with a task that is
-- neither waiting, running nor canceling, as many rounds as there are calls up to that one are
-- enough, whatever the calls before it answer. A task that is returned as a success was answered and
-- is neither waiting, running, canceling nor failed, so it may also be canceled; one that is returned
-- with an error was answered as failed; and PollTask gives up with the error of GetTask only if five
-- calls in a row failed.
pub poll_task-Justified :
    (get_task : ℕ → Option Text) (last fuel : ℕ) (state : Text)
    → get_task last ≡ some state
    → Slices.contains text_eq in_progress_states state ≡ false
    → last < fuel
    → Justified get_task (poll_task get_task fuel)
unfolding poll_task
poll_task-Justified get_task last fuel state e p h =
    poll-Justified get_task last state fuel 0 0 1 0 1 0 e (open_state state p) (omega arith)
      (omega arith) refl refl tt
