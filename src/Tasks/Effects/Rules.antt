-- ===== src/Tasks/Effects/Rules.antt =====
-- Rules for what a task has done when it succeeds.
use content_sources_backend.Common.{
  ◌≡◌, refl, subst, Bool, true, false, Option, none, some, if◌then◌else◌,
}
use content_sources_backend.Tasks.Effects.{Error, Result, ok, err, Action, run_on, ◌>>=◌, require}

module _ {W : Type 0} where
  -- What holds of the value and the world after a success; a failure promises nothing.
  abbrev pub Ends : {A : Type 0} → (A → W → Type 0) → Result A × W → Type 0
  Ends Q (ok a, w) = Q a w
  Ends Q (err e, w) = Unit

  pub bind-Ends :
      {A B : Type 0} (R : A → W → Type 0) (Q : B → W → Type 0) (m : Action W A) (f : A → Action W B)
      (w : W)
      → Ends R (m w)
      → ((a : A) (v : W) → R a v → Ends Q (f a v))
      → Ends Q ((m >>= f) w)
  bind-Ends {A} {B} R Q m f w h k = go (m w) h
    where
      go : (o : Result A × W) → Ends R o → Ends Q (run_on o f)
      go (ok a, v) r = k a v r
      go (err e, v) r = tt

  pub if-Ends :
      {A : Type 0} (Q : A → W → Type 0) (b : Bool) (m k : Action W A) (w : W)
      → (b ≡ true → Ends Q (m w))
      → (b ≡ false → Ends Q (k w))
      → Ends Q ((if b then m else k) w)
  if-Ends Q true m k w h l = h refl
  if-Ends Q false m k w h l = l refl

  pub Ends-ok :
      {A : Type 0} (Q : A → W → Type 0) (o : Result A × W) {a : A} {v : W}
      → Ends Q o
      → o ≡ (ok a, v)
      → Q a v
  Ends-ok Q o h e = subst (Ends Q) e h

  pub weaken-Ends :
      {A : Type 0} (Q R : A → W → Type 0) (o : Result A × W)
      → ((a : A) (v : W) → Q a v → R a v)
      → Ends Q o
      → Ends R o
  weaken-Ends Q R (ok a, v) h q = h a v q
  weaken-Ends Q R (err e, v) h q = tt

  pub any-Ends : {A : Type 0} (o : Result A × W) → Ends (λ a v. Unit) o
  any-Ends (ok a, v) = tt
  any-Ends (err e, v) = tt

  pub and-Ends :
      {A : Type 0} (Q R : A → W → Type 0) (o : Result A × W)
      → Ends Q o
      → Ends R o
      → Ends (λ a v. Q a v × R a v) o
  and-Ends Q R (ok a, v) q r = (q, r)
  and-Ends Q R (err e, v) q r = tt

  pub require-Ends :
      {A : Type 0} (o : Option A) (e : Error) (w : W)
      → Ends (λ a v. (o ≡ some a)) (require {W = W} o e w)
  require-Ends none e w = tt
  require-Ends (some a) e w = refl
