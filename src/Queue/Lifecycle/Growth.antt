-- ===== src/Queue/Lifecycle/Growth.antt =====
-- Each statement of the queue is a step of the abstract machine for the rows that it changes.
use content_sources_backend.Common.{
  ℕ, ◌≡◌, ap, ◌∙◌, Bool, true, some, arith, Bool-cases, inl, inr, if◌then◌else◌,
}
use content_sources_backend.Table.{update, find}
use content_sources_backend.Queue.Types.{TaskInfo, Db}
use content_sources_backend.Queue.Statements.{has_id}
use content_sources_backend.Queue.Finish.Cascade.{through, through-update}
use content_sources_backend.Queue.Invariant.{IsWellFormed}
use content_sources_backend.Queue.Lifecycle.{here, Becomes}
use content_sources_backend.Queue.Lifecycle.Progress.{Moves-trans}
use content_sources_backend.Queue.Lifecycle.Steps.{IsSameTask_refl}

-- The row of a task of the old tables, wherever it has got to.
abbrev pub Found : ℕ → TaskInfo → Db → Type 0
Found id t d = (u : TaskInfo) × (find (has_id id) d.tasks ≡ some u) × Becomes t u

-- Tables that other tables may grow into.
pub record Grows (d e : Db) : Type 0 where
  pub well : IsWellFormed e
  pub rows : (id : ℕ) (t : TaskInfo) → find (has_id id) d.tasks ≡ some t → Found id t e

pub Becomes-refl : (t : TaskInfo) → Becomes t t
Becomes-refl t = record { same = IsSameTask_refl t; moves = here }

Becomes-trans : {t u v : TaskInfo} → Becomes t u → Becomes u v → Becomes t v
Becomes-trans a b = record {
  same = ground (arith, a.same, b.same);
  moves = Moves-trans a.moves b.moves;
}

-- An UPDATE that is a step of the machine for each row that it finds by identifier.
update-rows :
    (p : TaskInfo → Bool) (f : TaskInfo → TaskInfo) (d : Db)
    → ((t : TaskInfo) → (f t).id ≡ t.id)
    → ((id : ℕ) (t : TaskInfo) → find (has_id id) d.tasks ≡ some t → p t ≡ true → Becomes t (f t))
    → (id : ℕ) (t : TaskInfo) → find (has_id id) d.tasks ≡ some t
    → Found id t (record d { tasks = update p f d.tasks })
update-rows p f d keeps step id t e = (
  if p t then f t else t,
  through-update id p f d.tasks keeps ∙ ap (through (λ u. if p u then f u else u)) e,
  elim (Bool-cases (p t)) [ inl h ↦ rw h (step id t e h) | inr h ↦ rw h (Becomes-refl t) ],
)

module _ (old : Db) where
  -- The tables have grown, where a statement takes each row a step further.
  pub then-Grows :
      (d e : Db)
      → IsWellFormed e
      → ((id : ℕ) (t : TaskInfo) → find (has_id id) d.tasks ≡ some t → Found id t e)
      → Grows old d
      → Grows old e
  then-Grows d e w step g = record {
    well = w;
    rows = λ id t h.
        let (u, found, a) = g.rows id t h in
        let (v, found', b) = step id u found in (v, found', Becomes-trans a b);
  }

  -- A statement on the other tables.
  pub aside-Grows : (d e : Db) → IsWellFormed e → e.tasks ≡ d.tasks → Grows old d → Grows old e
  aside-Grows d e w same =
      then-Grows d e w (λ id t h. (t, ap (find (has_id id)) same ∙ h, Becomes-refl t))

  pub update-Grows :
      (p : TaskInfo → Bool) (f : TaskInfo → TaskInfo) (d : Db)
      → IsWellFormed (record d { tasks = update p f d.tasks })
      → ((t : TaskInfo) → (f t).id ≡ t.id)
      → ((id : ℕ) (t : TaskInfo) → find (has_id id) d.tasks ≡ some t → p t ≡ true → Becomes t (f t))
      → Grows old d
      → Grows old (record d { tasks = update p f d.tasks })
  update-Grows p f d w keeps step = then-Grows d _ w (update-rows p f d keeps step)
