-- ===== src/Table.antt =====
-- The SQL statements that pkg/tasks/queue/pgqueue.go runs on a table, as functions on the list of
-- its rows: UPDATE, DELETE, EXISTS and SELECT of one row.
pub mod Laws
use content_sources_backend.Common.{
  ℕ, suc, ◌+◌, ◌≤◌, ◌≡◌, refl, ◌≢◌, Bool, true, false, not, Option, none, some, List, [], ◌∷◌,
  arith, if◌then◌else◌, All, ◌⊎◌, Bool-cases, inl, inr,
}

module _ {ℓ} {A : Type ℓ} where
  -- UPDATE … SET f WHERE p.
  unfoldable pub update : (A → Bool) → (A → A) → List A → List A
  update p f [] = []
  update p f (x ∷ xs) = (if p x then f x else x) ∷ update p f xs

  -- DELETE … WHERE p.
  unfoldable pub delete : (A → Bool) → List A → List A
  delete p [] = []
  delete p (x ∷ xs) = if p x then delete p xs else x ∷ delete p xs

  -- The rows that a WHERE matches, and their number (RowsAffected).
  unfoldable pub matching : (A → Bool) → List A → List A
  matching p [] = []
  matching p (x ∷ xs) = if p x then x ∷ matching p xs else matching p xs

  unfoldable pub affected : (A → Bool) → List A → ℕ
  affected p [] = 0
  affected p (x ∷ xs) = if p x then suc (affected p xs) else affected p xs

  -- The first row that matches, for a SELECT of one row.
  unfoldable pub find : (A → Bool) → List A → Option A
  find p [] = none
  find p (x ∷ xs) = if p x then some x else find p xs
