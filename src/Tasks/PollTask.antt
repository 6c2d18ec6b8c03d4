-- ===== src/Tasks/PollTask.antt =====
-- PollTask of pkg/clients/pulp_client/task.go: asks for a task of Pulp until it has ended. The
-- answers of GetTask are an argument, by the number of the call; `none` is an error. The loop has
-- fuel, one unit for each call.
pub mod Ends
use content_sources_backend.Common.{
  ℕ, zero, suc, ◌+◌, ◌≤◌, ◌≡◌, Bool, true, false, ◌&&◌, Option, none, some, List, [], ◌∷◌, Text,
  codes, if◌then◌else◌, text_eq, leb, ltb, ◌==◌,
}
use content_sources_backend.Slices

abbrev pub max_get_task_attempts : ℕ
max_get_task_attempts = 5

-- The seconds that SleepWithBackoff sleeps.
unfoldable pub sleep_with_backoff : ℕ → ℕ
sleep_with_backoff iteration =
    if leb iteration 5
    then 1
    else if ltb 5 iteration && leb iteration 10
    then 5
    else if ltb 10 iteration && leb iteration 20
    then 10
    else 30

pub data Phase : Type 0 where
  in_progress stopped failed : Phase

-- The switch on the state of the task; an unexpected state stops the loop as a stopped one does.
unfoldable pub phase : Text → Phase
unfolding Slices.contains
phase state =
    if Slices.contains text_eq (codes "waiting" ∷ codes "running" ∷ codes "canceling" ∷ []) state
    then in_progress
    else if Slices.contains text_eq (codes "completed" ∷ codes "skipped" ∷ codes "canceled" ∷ [])
        state
    then stopped
    else if text_eq state (codes "failed")
    then failed
    else stopped

-- The final task, the failed task with its error, or the error of GetTask; and the seconds slept.
pub data Outcome : Type 0 where
  ended task_failed : Text → ℕ → Outcome
  get_failed : ℕ → Outcome
  out_of_fuel : Outcome

module _ (get_task : ℕ → Option Text) where
  -- attempt counts from 1 within one round of the outer loop, and call from 0 over all rounds.
  unfoldable pub poll : ℕ → ℕ → ℕ → ℕ → ℕ → Outcome
  unfolding sleep_with_backoff phase
  poll zero attempt call poll_count slept = out_of_fuel
  poll (suc fuel) attempt call poll_count slept =
      let later = slept + sleep_with_backoff poll_count in
      elim (get_task call) [
        | none ↦ elim (attempt == max_get_task_attempts) [
          | true ↦ get_failed slept
          | false ↦ poll fuel (attempt + 1) (call + 1) (poll_count + 1) later
        ]
        | some state ↦ elim (phase state) [
          | in_progress ↦ poll fuel 1 (call + 1) (poll_count + 1) later
          | stopped ↦ ended state slept
          | failed ↦ task_failed state slept
        ]
      ]

  unfoldable pub poll_task : ℕ → Outcome
  unfolding poll
  poll_task fuel = poll fuel 1 0 1 0
