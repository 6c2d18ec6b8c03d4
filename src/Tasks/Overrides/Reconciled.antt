-- ===== src/Tasks/Overrides/Reconciled.antt =====
-- Which overrides of an environment UnneededOverrides gives to be removed.
use content_sources_backend.Common.{
  ◌≡◌, refl, ap, ◌∙◌, Bool, true, false, not, ◌&&◌, ◌||◌, List, [], ◌∷◌, Text, arith, text_eq,
  text_eq_sound, any, if◌then◌else◌,
}
use content_sources_backend.Tasks.Overrides.{Override, same_override, unneeded_overrides}

abbrev for_key : Override → List Override → Bool
for_key o overrides = any (same_override o) overrides

-- Overrides of one name and label have the same counterparts.
same_key :
    (o p : Override)
    → same_override o p ≡ true
    → (q : Override) → same_override o q ≡ same_override p q
same_key o p h q =
    let n : o.name ≡ p.name = text_eq_sound o.name p.name (ground arith) in
    let l : o.content_label ≡ p.content_label =
      text_eq_sound o.content_label p.content_label (ground arith) in
    ap (λ (t : Text). text_eq t q.name && text_eq o.content_label q.content_label) n
    ∙ ap (λ (t : Text). text_eq p.name q.name && text_eq t q.content_label) l

for_key-same :
    (o p : Override) (overrides : List Override)
    → same_override o p ≡ true
    → for_key o overrides ≡ for_key p overrides
for_key-same o p [] h = refl
for_key-same o p (q ∷ overrides) h =
    ap (λ b. b || for_key o overrides) (same_key o p h q)
    ∙ ap (λ b. same_override p q || b) (for_key-same o p overrides h)

kept_or_dropped :
    (wanted same kept there own : Bool)
    → (same ≡ true → own ≡ wanted)
    → kept ≡ (there && not own)
    → (if not wanted then same || kept else kept) ≡ ((same || there) && not own)
kept_or_dropped true true kept there own h e = let q = h refl in ground arith
kept_or_dropped true false kept there own h e = ground arith
kept_or_dropped false true kept there own h e = let q = h refl in ground arith
kept_or_dropped false false kept there own h e = ground arith

for_key-if :
    (o p : Override) (overrides : List Override) (b : Bool)
    → for_key o (if b then p ∷ overrides else overrides)
      ≡ (if b then same_override o p || for_key o overrides else for_key o overrides)
for_key-if o p overrides true = refl
for_key-if o p overrides false = refl

for_key-unneeded_overrides :
    (o : Override) (existing expected : List Override)
    → for_key o (unneeded_overrides existing expected)
      ≡ (for_key o existing && not (for_key o expected))
unfolding unneeded_overrides
for_key-unneeded_overrides o [] expected = refl
for_key-unneeded_overrides o (p ∷ existing) expected =
    for_key-if o p (unneeded_overrides existing expected) (not (for_key p expected))
    ∙ kept_or_dropped (for_key p expected) (same_override o p)
        (for_key o (unneeded_overrides existing expected)) (for_key o existing) (for_key o expected)
        (for_key-same o p expected) (for_key-unneeded_overrides o existing expected)

-- An override of that name and that label of a content is listed.
abbrev pub overrides_key : Text → Text → List Override → Bool
overrides_key name label overrides =
    any (λ o. text_eq name o.name && text_eq label o.content_label) overrides

-- UnneededOverrides chooses exactly what is not expected: it gives an override for a name and the
-- label of a content if and only if one exists for both and none is expected for both, whatever the
-- values are and however often one is listed.
pub unneeded_overrides-expected :
    (name label : Text) (existing expected : List Override)
    → overrides_key name label (unneeded_overrides existing expected)
      ≡ (overrides_key name label existing && not (overrides_key name label expected))
unneeded_overrides-expected name label existing expected =
    for_key-unneeded_overrides (record { name = name; content_label = label; value = [] }) existing
      expected
