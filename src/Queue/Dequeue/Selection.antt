-- ===== src/Queue/Dequeue/Selection.antt =====
-- Which row sqlDequeue selects (ORDER BY priority DESC, queued_at ASC LIMIT 1).
use mathlib.Core.List.{Memᴰ}
use mathlib.Core.List.Memᴰ
use content_sources_backend.Common.{
  ◌≡◌, refl, sym, Bool, true, false, ◌&&◌, Option, none, some, List, [], ◌∷◌, arith, All, ◌==◌,
  ==_refl, Bool-cases, Option-cases, inl, inr, subst, ◌⊎◌,
}
use content_sources_backend.Table.{find}
use content_sources_backend.Table.Laws.{DistinctBy, All-map_imp, any-mem}
use content_sources_backend.Queue.Types.{TaskInfo}
use content_sources_backend.Queue.Statements.{has_id, precedes, select_first, first_of_two}

precedes-asymm : (a b : TaskInfo) → precedes a b ≡ true → precedes b a ≡ false
unfolding precedes
precedes-asymm a b h = ground arith

precedes-neg_trans :
    (a b c : TaskInfo) → precedes a b ≡ false → precedes b c ≡ false → precedes a c ≡ false
unfolding precedes
precedes-neg_trans a b c h k = ground arith

precedes_irrefl : (a : TaskInfo) → precedes a a ≡ false
unfolding precedes
precedes_irrefl a = ground arith

first_of_two-cases :
    (x : TaskInfo) (o : Option TaskInfo)
    → ((first_of_two x o ≡ x) × ((y : TaskInfo) → o ≡ some y → precedes y x ≡ false))
      ⊎ ((y : TaskInfo) × (o ≡ some y) × (first_of_two x o ≡ y) × (precedes y x ≡ true))
first_of_two-cases x none = inl (refl, λ y e. cc)
first_of_two-cases x (some y) = elim (Bool-cases (precedes y x)) [
  | inl e ↦ inr (y, refl, rw e, e)
  | inr e ↦ inl (rw e, λ z same. ground arith)
]

-- The selected row is one of the rows, and matches.
pub select_first-mem :
    (p : TaskInfo → Bool) (ts : List TaskInfo) (t : TaskInfo)
    → select_first p ts ≡ some t
    → Memᴰ t ts × (p t ≡ true)
unfolding select_first
select_first-mem p [] t h = cc
select_first-mem p (x ∷ xs) t h = elim (Bool-cases (p x)) [
  | inr out ↦ let rest = select_first-mem p xs t (rw out at h) in (Memᴰ.tail rest.0, rest.1)
  | inl match ↦ elim (first_of_two-cases x (select_first p xs)) [
    | inl (own, _) ↦ let same : t ≡ x = ground arith in (Memᴰ.head same, rw same match)
    | inr (y, e, own, _) ↦
        let same : y ≡ t = ground arith in
        let rest = select_first-mem p xs t (subst (λ u. select_first p xs ≡ some u) same e) in
        (Memᴰ.tail rest.0, rest.1)
  ]
]

-- A selection from no match finds nothing, and from a match finds something.
pub select_first-eq-none :
    (p : TaskInfo → Bool) (ts : List TaskInfo)
    → select_first p ts ≡ none
    → All (λ u. p u ≡ false) ts
unfolding select_first
select_first-eq-none p [] h = tt
select_first-eq-none p (x ∷ xs) h = elim (Bool-cases (p x)) [
  | inl match ↦ ground arith
  | inr out ↦ (out, select_first-eq-none p xs (rw out at h))
]

not_before :
    (p : TaskInfo → Bool) (x : TaskInfo) (xs : List TaskInfo)
    → ((y : TaskInfo)
        → select_first p xs ≡ some y
        → All (λ u. p u ≡ true → precedes u y ≡ false) xs)
    → ((y : TaskInfo) → select_first p xs ≡ some y → precedes y x ≡ false)
    → All (λ u. p u ≡ true → precedes u x ≡ false) xs
not_before p x xs ih first = elim (Option-cases (select_first p xs)) [
  | inl e ↦
      All-map_imp (λ u. p u ≡ false) (λ u. p u ≡ true → precedes u x ≡ false) xs (λ u out match. cc)
        (select_first-eq-none p xs e)
  | inr (y, e) ↦
      All-map_imp (λ u. p u ≡ true → precedes u y ≡ false) (λ u. p u ≡ true → precedes u x ≡ false)
        xs (λ u h match. precedes-neg_trans u y x (h match) (first y e)) (ih y e)
]

-- No row that matches comes before the selected one.
pub select_first-first :
    (p : TaskInfo → Bool) (ts : List TaskInfo) (t : TaskInfo)
    → select_first p ts ≡ some t
    → All (λ u. p u ≡ true → precedes u t ≡ false) ts
unfolding select_first
select_first-first p [] t h = cc
select_first-first p (x ∷ xs) t h = elim (Bool-cases (p x)) [
  | inr out ↦ (λ e. cc, select_first-first p xs t (rw out at h))
  | inl match ↦ elim (first_of_two-cases x (select_first p xs)) [
    | inl (own, first) ↦
        let same : t ≡ x = ground arith in
        subst (λ v. All (λ u. p u ≡ true → precedes u v ≡ false) (x ∷ xs)) (sym same)
          (λ _. precedes_irrefl x, not_before p x xs (select_first-first p xs) first)
    | inr (y, e, own, before) ↦
        let same : y ≡ t = ground arith in
        (
          λ _. rw (← same) (precedes-asymm y x before),
          select_first-first p xs t (subst (λ u. select_first p xs ≡ some u) same e),
        )
  ]
]

pub first-and :
    (p : TaskInfo → Bool) (ts : List TaskInfo) (t : TaskInfo)
    → All (λ u. p u ≡ true → precedes u t ≡ false) ts
    → All (λ u. (p u && precedes u t) ≡ false) ts
first-and p [] t h = tt
first-and p (x ∷ xs) t h = (ground (arith, h.0), first-and p xs t h.1)

-- Where identifiers differ, a row of the table is the one that its identifier finds.
pub find-mem :
    (ts : List TaskInfo) (t : TaskInfo)
    → DistinctBy (λ (u : TaskInfo). u.id) ts
    → Memᴰ t ts
    → find (has_id t.id) ts ≡ some t
unfolding find
find-mem [] t d m = absurd (Memᴰ.not-nil m)
find-mem (x ∷ xs) t d m = elim (Memᴰ.cases_cons m) [
  | inl e ↦ rw e (rw (==_refl x.id))
  | inr later ↦ elim (Bool-cases (x.id == t.id)) [
    | inl e ↦ let hit = any-mem (λ y. y.id == x.id) xs t later (ground arith) in ground arith
    | inr e ↦ rw e (find-mem xs t d.1 later)
  ]
]
