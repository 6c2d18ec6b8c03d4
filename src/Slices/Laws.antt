-- ===== src/Slices/Laws.antt =====
-- What the functions on slices compute (pkg/utils/utils.go).
use content_sources_backend.Common.{
  ◌≤◌, ◌≡◌, refl, ap, ◌↔◌, Bool, true, false, not, ◌&&◌, ◌==◌, List, [], ◌∷◌, arith, subst, length,
  if◌then◌else◌,
}
use content_sources_backend.Slices

module _ {T : Type 0} (eq : T → T → Bool) where
  -- Does each element come once?
  unfoldable pub is_distinct : List T → Bool
  is_distinct [] = true
  is_distinct (x ∷ s) = not (Slices.contains eq s x) && is_distinct s

module _ {T : Type 0} (eq : T → T → Bool) (eq-iff : (a b : T) → (eq a b ≡ true) ↔ (a ≡ b)) where
  -- Two elements that the test identifies are in the same slices.
  contains-same :
      (s : List T) (x y : T) → eq x y ≡ true → Slices.contains eq s x ≡ Slices.contains eq s y
  contains-same s x y h = ap (Slices.contains eq s) ((eq-iff x y).0 h)

  -- SubtractSlices keeps exactly the elements of the first slice that the second has not.
  pub contains-subtract_slices :
      (s1 s2 : List T) (x : T)
      → Slices.contains eq (Slices.subtract_slices eq s1 s2) x
        ≡ (Slices.contains eq s1 x && not (Slices.contains eq s2 x))
  unfolding Slices.subtract_slices
  contains-subtract_slices [] s2 x = refl
  contains-subtract_slices (e ∷ s1) s2 x =
      ground (arith, contains-subtract_slices s1 s2 x, contains-same s2 x e)

  contains-deduplicate_after :
      (seen s : List T) (x : T)
      → Slices.contains eq (Slices.deduplicate_after eq seen s) x
        ≡ (Slices.contains eq s x && not (Slices.contains eq seen x))
  unfolding Slices.deduplicate_after
  contains-deduplicate_after seen [] x = refl
  contains-deduplicate_after seen (e ∷ s) x = ground (
    arith,
    contains-deduplicate_after seen s x,
    contains-deduplicate_after (e ∷ seen) s x,
    contains-same seen x e,
  )

  deduplicate_after-distinct :
      (seen s : List T) → is_distinct eq (Slices.deduplicate_after eq seen s) ≡ true
  unfolding is_distinct Slices.deduplicate_after
  deduplicate_after-distinct seen [] = refl
  deduplicate_after-distinct seen (e ∷ s) = ground (
    arith,
    deduplicate_after-distinct seen s,
    deduplicate_after-distinct (e ∷ seen) s,
    contains-deduplicate_after (e ∷ seen) s e,
    (eq-iff e e).1 refl,
  )

  -- Deduplicate keeps the elements of a slice and has each of them once.
  pub deduplicate-distinct :
      (s : List T)
      → (is_distinct eq (Slices.deduplicate eq s) ≡ true)
        × ((x : T) → Slices.contains eq (Slices.deduplicate eq s) x ≡ Slices.contains eq s x)
  unfolding Slices.deduplicate
  deduplicate-distinct s =
      (deduplicate_after-distinct [] s, λ x. ground (arith, contains-deduplicate_after [] s x))

  equal-length : (s1 s2 : List T) → s1 ≡ s2 → length s1 ≡ length s2
  equal-length s1 s2 e = ap length e

  same_elements_refl : (s : List T) → Slices.same_elements eq s s ≡ true
  unfolding Slices.same_elements
  same_elements_refl [] = refl
  same_elements_refl (x ∷ s) = ground (arith, same_elements_refl s, (eq-iff x x).1 refl)

  same_elements-eq :
      (s1 s2 : List T) → length s1 ≡ length s2 → Slices.same_elements eq s1 s2 ≡ true → s1 ≡ s2
  unfolding Slices.same_elements
  same_elements-eq [] [] l h = refl
  same_elements-eq [] (y ∷ s2) l h = ground arith
  same_elements-eq (x ∷ s1) [] l h = ground arith
  same_elements-eq (x ∷ s1) (y ∷ s2) l h = ground (arith, same_elements-eq s1 s2, (eq-iff x y).0)

  -- SlicesEqual decides the equality of slices.
  pub slices_equal_iff : (s1 s2 : List T) → (Slices.slices_equal eq s1 s2 ≡ true) ↔ (s1 ≡ s2)
  unfolding Slices.slices_equal
  slices_equal_iff s1 s2 = (
    λ h. same_elements-eq s1 s2 (ground arith) (ground arith),
    λ e.
        subst
          (λ s.
            (if not (length s1 == length s) then false else Slices.same_elements eq s1 s) ≡ true)
          e (ground (arith, same_elements_refl s1)),
  )

  -- AllStringsIn holds exactly when nothing of the first slice is left without the second, and
  -- ContainsAny when taking the second out of the first leaves out something.
  pub all_strings_in-subtract_slices :
      (s1 s2 : List T)
      → (Slices.all_strings_in eq s1 s2 ≡ (length (Slices.subtract_slices eq s1 s2) == 0))
        × (Slices.contains_any eq s1 s2
            ≡ not (length (Slices.subtract_slices eq s1 s2) == length s1))
        × (length (Slices.subtract_slices eq s1 s2) ≤ length s1)
  unfolding Slices.subtract_slices Slices.all_strings_in Slices.contains_any
  all_strings_in-subtract_slices [] s2 = (refl, refl, ground arith)
  all_strings_in-subtract_slices (e ∷ s1) s2 =
      let ih = all_strings_in-subtract_slices s1 s2 in
      (ground (arith, ih), ground (arith, ih), ground (arith, ih))
