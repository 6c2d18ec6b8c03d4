-- ===== src/Distributions/Labels.antt =====
-- The first label that is not valid (pkg/config/value_constraints.go).
use content_sources_backend.Common.{
  ◌≡◌, refl, ap, ◌⊎◌, inl, inr, true, false, List, [], ◌∷◌, ◌++◌, Text, All, Bool-cases,
}
use content_sources_backend.Distributions.{
  distribution_versions, has_label, valid_distribution_version_labels,
}

-- Either every label is of the table, or the labels split around the one that is returned, which is
-- not in the table while all before it are.
pub valid_distribution_version_labels-first :
    (labels : List Text)
    → ((valid_distribution_version_labels labels ≡ (true, []))
        × All (λ l. has_label distribution_versions l ≡ true) labels)
      ⊎ ((before : List Text) × (label : Text) × (after : List Text) × (labels
            ≡ before ++ (label ∷ after))
          × (valid_distribution_version_labels labels ≡ (false, label))
          × (has_label distribution_versions label ≡ false)
          × All (λ l. has_label distribution_versions l ≡ true) before)
unfolding valid_distribution_version_labels
valid_distribution_version_labels-first [] = inl (refl, tt)
valid_distribution_version_labels-first (label ∷ labels) =
    elim (Bool-cases (has_label distribution_versions label)) [
      | inr h ↦ inr ([], label, labels, refl, rw (h, valid_distribution_version_labels) refl, h, tt)
      | inl h ↦ elim (valid_distribution_version_labels-first labels) [
        | inl (v, known) ↦ inl (rw (h, valid_distribution_version_labels) v, (h, known))
        | inr (before, bad, after, e, v, unknown, known) ↦ inr (
          label ∷ before,
          bad,
          after,
          ap (λ ls. label ∷ ls) e,
          rw (h, valid_distribution_version_labels) v,
          unknown,
          (h, known),
        )
      ]
    ]
