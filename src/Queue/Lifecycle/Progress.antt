-- ===== src/Queue/Lifecycle/Progress.antt =====
-- What the abstract machine allows and what it rules out.
use content_sources_backend.Common.{ℕ, ◌≤◌, ◌<◌, ◌≡◌, refl, true, ◌⊎◌, inl, inr, arith}
use content_sources_backend.Queue.Lifecycle.{
  Life, Stage, waiting, working, over, Move, starts, finishes, is_retried, is_canceled, Moves, here,
  next,
}

pub Moves-trans : {l m n : Life} → Moves l m → Moves m n → Moves l n
Moves-trans r here = r
Moves-trans r (next s step) = next (Moves-trans r s) step

-- Retries are never taken back.
Move-retries : {l m : Life} → Move l m → l.retries ≤ m.retries
Move-retries (starts l h) = omega arith
Move-retries (finishes l h) = omega arith
Move-retries (is_retried l) = omega arith
Move-retries (is_canceled l) = omega arith

pub Moves-retries : {l m : Life} → Moves l m → l.retries ≤ m.retries
Moves-retries here = omega arith
Moves-retries (next r step) = omega (arith, Moves-retries r, Move-retries step)

-- Nor is an attempt to cancel.
Move-cancel_attempted :
    {l m : Life} → Move l m → l.cancel_attempted ≡ true → m.cancel_attempted ≡ true
Move-cancel_attempted (starts l h) c = c
Move-cancel_attempted (finishes l h) c = c
Move-cancel_attempted (is_retried l) c = c
Move-cancel_attempted (is_canceled l) c = refl

pub Moves-cancel_attempted :
    {l m : Life} → Moves l m → l.cancel_attempted ≡ true → m.cancel_attempted ≡ true
Moves-cancel_attempted here c = c
Moves-cancel_attempted (next r step) c = Move-cancel_attempted step (Moves-cancel_attempted r c)

-- How far a life has come between two retries.
abbrev pub rank : Stage → ℕ
rank waiting = 0
rank working = 1
rank over = 2

-- A life goes forward, or a retry was spent.
abbrev pub Forward : Life → Life → Type 0
Forward l m = (l.retries < m.retries) ⊎ (rank l.stage ≤ rank m.stage)

Move-Forward : {l m : Life} → Move l m → Forward l m
Move-Forward (starts l h) = inr (rw h (omega arith))
Move-Forward (finishes l h) = inr (rw h (omega arith))
Move-Forward (is_retried l) = inl (omega arith)
Move-Forward (is_canceled l) = inr (omega arith)

pub Moves-Forward : {l m : Life} → Moves l m → Forward l m
Moves-Forward here = inr (omega arith)
Moves-Forward (next r step) = elim (Moves-Forward r) [
  | inl spent ↦ inl (omega (arith, Move-retries step))
  | inr forward ↦ elim (Move-Forward step) [
    | inl spent ↦ inl (omega (arith, Moves-retries r))
    | inr on ↦ inr (omega arith)
  ]
]
