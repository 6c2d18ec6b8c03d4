-- ===== src/Tasks/Features/Sorted.antt =====
-- The features that a text names: sorted, distinct, none empty, and each one a token of the text.
use content_sources_backend.Common.{
  ◌≡◌, refl, true, false, not, ◌&&◌, ◌||◌, List, [], ◌∷◌, Text, arith, text_eq, text_eq_sound,
  text_eq_refl, Bool-cases, inl, inr, ◌∙◌, split,
}
use content_sources_backend.Slices
use content_sources_backend.Tasks.Features.{
  text_lt, insert_sorted, sort, features_after, parse_features, trim_space, replace_all,
}

-- Each text is before the next ones.
abbrev pub Ascends : List Text → Type 0
Ascends [] = Unit
Ascends (t ∷ []) = Unit
Ascends (t ∷ u ∷ us) = (text_lt t u ≡ true) × Ascends (u ∷ us)

text_lt_trichotomy : (s t : Text) → (text_eq s t || (text_lt s t || text_lt t s)) ≡ true
unfolding text_lt text_eq
text_lt_trichotomy [] [] = refl
text_lt_trichotomy [] (d ∷ t) = refl
text_lt_trichotomy (c ∷ s) [] = refl
text_lt_trichotomy (c ∷ s) (d ∷ t) = ground (arith, text_lt_trichotomy s t)

insert_sorted-listed :
    (t x : Text) (us : List Text)
    → Slices.contains text_eq (insert_sorted t us) x ≡ (text_eq x t || Slices.contains text_eq us x)
unfolding insert_sorted Slices.contains
insert_sorted-listed t x [] = ground arith
insert_sorted-listed t x (u ∷ us) = ground (arith, insert_sorted-listed t x us)

pub sort-listed :
    (x : Text) (ts : List Text) → Slices.contains text_eq (sort ts) x ≡ Slices.contains text_eq ts x
unfolding sort Slices.contains
sort-listed x [] = refl
sort-listed x (t ∷ ts) = insert_sorted-listed t x (sort ts) ∙ ground (arith, sort-listed x ts)

-- A text that is not there goes in before those that are after it.
insert_sorted-Ascends :
    (t : Text) (us : List Text)
    → Ascends us
    → Slices.contains text_eq us t ≡ false
    → Ascends (insert_sorted t us)
unfolding insert_sorted Slices.contains
insert_sorted-Ascends t [] a h = tt
insert_sorted-Ascends t (u ∷ []) a h = ground (arith, text_lt_trichotomy t u)
insert_sorted-Ascends t (u ∷ v ∷ us) a h =
    ground
      (arith, text_lt_trichotomy t u, text_lt_trichotomy t v, insert_sorted-Ascends t (v ∷ us) a.1)

abbrev pub Distinct : List Text → Type 0
Distinct [] = Unit
Distinct (t ∷ ts) = (Slices.contains text_eq ts t ≡ false) × Distinct ts

pub sort-Ascends : (ts : List Text) → Distinct ts → Ascends (sort ts)
unfolding sort
sort-Ascends [] d = tt
sort-Ascends (t ∷ ts) d =
    insert_sorted-Ascends t (sort ts) (sort-Ascends ts d.1) (sort-listed t ts ∙ d.0)

-- The tokens that the loop looks at.
abbrev pub tokens : List Text → List Text
tokens [] = []
tokens (p ∷ parts) = trim_space p ∷ tokens parts

features_after-listed :
    (x : Text) (seen parts : List Text)
    → Slices.contains text_eq (features_after seen parts) x ≡ (
        not (text_eq x [])
        && (not (Slices.contains text_eq seen x) && Slices.contains text_eq (tokens parts) x))
unfolding features_after Slices.contains
features_after-listed x seen [] = ground arith
features_after-listed x seen (p ∷ parts) = elim (Bool-cases (text_eq x (trim_space p))) [
  | inl e ↦
      let same : x ≡ trim_space p = text_eq_sound x (trim_space p) e in
      rw (← same) (
        ground (
          arith,
          text_eq_refl x,
          features_after-listed x (x ∷ seen) parts,
          features_after-listed x seen parts,
        ))
  | inr other ↦ ground (
    arith,
    features_after-listed x (trim_space p ∷ seen) parts,
    features_after-listed x seen parts,
  )
]

features_after-Distinct : (seen parts : List Text) → Distinct (features_after seen parts)
unfolding features_after Slices.contains
features_after-Distinct seen [] = tt
features_after-Distinct seen (p ∷ parts) =
    elim (Bool-cases (text_eq (trim_space p) [] || Slices.contains text_eq seen (trim_space p))) [
      | inl skipped ↦ rw skipped (features_after-Distinct seen parts)
      | inr fresh ↦ rw fresh (
        ground (
          arith,
          text_eq_refl (trim_space p),
          features_after-listed (trim_space p) (trim_space p ∷ seen) parts,
        ),
        features_after-Distinct (trim_space p ∷ seen) parts,
      )
    ]

-- The names that ParseFeatures gives are in ascending order, so no name stands twice, and a text is
-- among them exactly if it is not empty and is one of the parts between commas and plus signs,
-- trimmed: order, repetition and blanks in the text make no difference.
pub parse_features-Ascends :
    (feature_names x : Text)
    → Ascends (parse_features feature_names)
      × (Slices.contains text_eq (parse_features feature_names) x ≡ (
          not (text_eq x [])
          && Slices.contains text_eq (tokens (split b',' (replace_all b'+' b',' feature_names))) x))
unfolding parse_features text_eq
parse_features-Ascends [] x = (tt, ground arith)
parse_features-Ascends (c ∷ t) x = (
  sort-Ascends _ (features_after-Distinct [] (split b',' (replace_all b'+' b',' (c ∷ t)))),
  sort-listed x (features_after [] (split b',' (replace_all b'+' b',' (c ∷ t))))
      ∙ features_after-listed x [] (split b',' (replace_all b'+' b',' (c ∷ t))),
)
