-- ===== src/Tasks/TemplateContent/ReleaseLabels.antt =====
-- The label of an extended release without its minor version.
use content_sources_backend.Common.{
  ◌≡◌, refl, Bool, true, false, [], ◌∷◌, ◌++◌, Text, codes, arith, All, Bool-cases, inl, inr,
}
use content_sources_backend.Tasks.Pulp.{digit, drop_prefix}
use content_sources_backend.Tasks.TemplateContent.{
  digits, is_release_suffix, some_text, normalize_extended_release_label,
}

abbrev pub AreDigits : Text → Type 0
AreDigits t = All (λ c. digit c ≡ true) t

abbrev starts_with_digit : Text → Bool
starts_with_digit [] = false
starts_with_digit (c ∷ t) = digit c

digits-append :
    (ds t : Text) → AreDigits ds → starts_with_digit t ≡ false → digits (ds ++ t) ≡ (ds, t)
unfolding digits
digits-append [] [] a h = refl
digits-append [] (c ∷ t) a h = rw h
digits-append (d ∷ ds) t a h = rw (digits-append ds t a.1 h) (rw a.0)

digits_sound : (t : Text) → AreDigits (digits t).0
unfolding digits
digits_sound [] = tt
digits_sound (c ∷ t) = elim (Bool-cases (digit c)) [
  | inl e ↦ rw e (e, digits_sound t)
  | inr e ↦ rw e tt
]

-- A suffix starts with the dash of -for-.
suffix_dash : (t : Text) → is_release_suffix t ≡ true → (rest : Text) × (t ≡ b'-' ∷ rest)
unfolding is_release_suffix drop_prefix
suffix_dash [] h = cc
suffix_dash (c ∷ t) h = (t, ground arith)

-- rhel-<major>.<minor><suffix>.
abbrev minor_label : Text → Text → Text → Text
minor_label major minor suffix = codes "rhel-" ++ (major ++ (b'.' ∷ (minor ++ suffix)))

some_text-append : (s t : Text) → some_text s ≡ true → some_text (s ++ t) ≡ true
some_text-append [] t h = cc
some_text-append (c ∷ s) t h = refl

-- The label of an extended release loses exactly its minor version: rhel-8.6-for-…-eus-rpms becomes
-- rhel-8-for-…-eus-rpms, for any major and minor version and any such suffix.
normalize_extended_release_label-minor :
    (major minor suffix : Text)
    → AreDigits major
    → some_text major ≡ true
    → AreDigits minor
    → some_text minor ≡ true
    → is_release_suffix suffix ≡ true
    → normalize_extended_release_label (minor_label major minor suffix)
      ≡ codes "rhel-" ++ (major ++ suffix)
unfolding normalize_extended_release_label drop_prefix
normalize_extended_release_label-minor major minor suffix am sm an sn s =
    let (rest, dash) = suffix_dash suffix s in
    let first = digits-append major (b'.' ∷ (minor ++ suffix)) am refl in
    let second : digits (minor ++ suffix) ≡ (minor, suffix) =
      digits-append minor suffix an (rw dash refl) in
    rw first (rw sm (rw second (rw sn (rw s refl))))
