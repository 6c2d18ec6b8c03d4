-- ===== src/Tasks/Effects.antt =====
-- What a task does to the world outside: each call of a service reads and changes the world, gives a
-- value or fails, and what it changed stays when a later call fails.
pub mod Rules
use content_sources_backend.Common.{ℕ, Bool, Option, none, some, List, [], ◌∷◌, Text, if◌then◌else◌}

-- The errors that a task makes itself, by their messages, and those of the services. `not_found` is
-- gorm.ErrRecordNotFound and `canceled` context.Canceled; an error that %w wraps is the error
-- itself, since errors.Is sees through it.
pub data Error : Type 0 where
  not_found canceled : Error
  service : ℕ → Error
  no_distribution_href no_publication_href no_publication_task refusing_unpublished : Error
  no_snapshot_found not_partner no_repo_configs empty_domain no_distribution : Error
  no_queue nil_dereference : Error

pub data Result (A : Type 0) : Type 0 where
  ok : A → Result A
  err : Error → Result A

abbrev pub Action : Type 0 → Type 0 → Type 0
Action W A = W → Result A × W

module _ {W : Type 0} where
  abbrev pub pure : {A : Type 0} → A → Action W A
  pure a w = (ok a, w)

  abbrev pub throw : {A : Type 0} → Error → Action W A
  throw e w = (err e, w)

  abbrev pub run_on : {A B : Type 0} → Result A × W → (A → Action W B) → Result B × W
  run_on (ok a, w) f = f a w
  run_on (err e, w) f = (err e, w)

  infixl 5 ◌>>=◌ ◌>>◌
  abbrev pub ◌>>=◌ : {A B : Type 0} → Action W A → (A → Action W B) → Action W B
  ◌>>=◌ m f w = run_on (m w) f

  abbrev pub ◌>>◌ : {A B : Type 0} → Action W A → Action W B → Action W B
  m >> k = m >>= λ _. k

  -- A look at the error, for the code that goes on after one.
  abbrev pub run_try : {A B : Type 0} → Result A × W → (Result A → Action W B) → Result B × W
  run_try (r, w) f = f r w

  abbrev pub try : {A B : Type 0} → Action W A → (Result A → Action W B) → Action W B
  try m f w = run_try (m w) f

  -- What is done only for a pointer that is not nil.
  abbrev pub when_some : {A : Type 0} → Option A → (A → Action W (Unit {0})) → Action W (Unit {0})
  when_some none f = pure tt
  when_some (some a) f = f a

  -- A pointer that is followed without a look.
  abbrev pub deref : {A : Type 0} → Option A → Action W A
  deref none = throw nil_dereference
  deref (some a) = pure a

  -- A pointer that must not be nil.
  abbrev pub require : {A : Type 0} → Option A → Error → Action W A
  require none e = throw e
  require (some a) e = pure a

  -- A pure part that may fail.
  abbrev pub lift_result : {A : Type 0} → Result A → Action W A
  lift_result r w = (r, w)

  -- A loop over a slice that ends at the first error.
  unfoldable pub for_each : {A : Type 0} → List A → (A → Action W (Unit {0})) → Action W (Unit {0})
  for_each [] f = pure tt
  for_each (a ∷ rest) f = f a >> for_each rest f
