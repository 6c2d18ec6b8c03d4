-- ===== src/Coverage/Matcher/Names.antt =====
-- Normalized names (pkg/coverage/matcher/matcher.go).
use content_sources_backend.Common.{
  ◌≡◌, refl, ap, ◌==◌, ◌||◌, ◌++◌, codes, Bool, true, false, not, ◌&&◌, List, [], ◌∷◌, Text, arith,
  any, if◌then◌else◌, text_eq, Bool-cases, inl, inr,
}
use content_sources_backend.Slices
use content_sources_backend.Coverage.{Package}
use content_sources_backend.Coverage.Matcher.{
  exact, partial, unmatched, collapse, normalize_python_name, normalize_key, version_key,
  build_index, match_package,
}

-- Collapsing the separators of a name again changes nothing, whether or not one was just written.
pub collapse-collapse :
    (written : Bool) (name : Text)
    → collapse written (collapse written name) ≡ collapse written name
unfolding collapse
collapse-collapse written [] = refl
collapse-collapse true (ch ∷ name) =
    ground (arith, collapse-collapse true name, collapse-collapse false name)
collapse-collapse false (ch ∷ name) =
    ground (arith, collapse-collapse true name, collapse-collapse false name)

-- A name with a hyphen for each separator, and a name with one hyphen for each row of them.
abbrev pub hyphens : Text → Text
hyphens [] = []
hyphens (ch ∷ name) = (if ch == b'-' || (ch == b'_' || ch == b'.') then b'-' else ch) ∷ hyphens name

abbrev pub starts_with_hyphen : Text → Bool
starts_with_hyphen [] = false
starts_with_hyphen (ch ∷ name) = ch == b'-'

unfoldable pub squeeze : Text → Text
squeeze [] = []
squeeze (ch ∷ name) =
    let rest = squeeze name in if ch == b'-' && starts_with_hyphen name then rest else ch ∷ rest

collapse-squeeze :
    (name : Text)
    → (collapse false name ≡ squeeze (hyphens name))
      × (b'-' ∷ collapse true name ≡ squeeze (b'-' ∷ hyphens name))
unfolding collapse squeeze
collapse-squeeze [] = (refl, refl)
collapse-squeeze (ch ∷ name) =
    let ih = collapse-squeeze name in
    elim (Bool-cases (ch == b'-' || (ch == b'_' || ch == b'.'))) [
      | inl e ↦ (rw e (ground (arith, ih)), rw e (ground (arith, ih)))
      | inr e ↦ (rw e (ground (arith, ih)), rw e (ground (arith, ih)))
    ]

module _ (to_lower : Text → Text) where
  -- What a package is named: a Python package by its name, a Java package by its namespace and name,
  -- and another by its ecosystem and name, all in lower case, and the separators of a Python name as
  -- one hyphen.
  abbrev pub name_of : Package → Text
  name_of pkg =
      if text_eq pkg.ecosystem (codes "Python")
      then squeeze (hyphens (to_lower pkg.name))
      else if text_eq pkg.ecosystem (codes "Java")
      then to_lower pkg.namespace ++ (codes ":" ++ to_lower pkg.name)
      else to_lower pkg.ecosystem ++ (codes ":" ++ to_lower pkg.name)

  abbrev pub has_name : Package → Package → Bool
  has_name pkg c = text_eq (name_of pkg) (name_of c)

  -- Does a package of the catalog have a version, and the other's name followed by its version?
  abbrev pub has_version : Package → Package → Bool
  has_version pkg c =
      not (text_eq c.version [])
      && text_eq (name_of pkg ++ (codes ":" ++ pkg.version)) (name_of c ++ (codes ":" ++ c.version))

  normalize_key-name_of : (pkg : Package) → normalize_key to_lower pkg ≡ name_of pkg
  unfolding normalize_key normalize_python_name
  normalize_key-name_of pkg =
      ap
        (λ (key : Text).
          if text_eq pkg.ecosystem (codes "Python")
          then key
          else if text_eq pkg.ecosystem (codes "Java")
          then to_lower pkg.namespace ++ (codes ":" ++ to_lower pkg.name)
          else to_lower pkg.ecosystem ++ (codes ":" ++ to_lower pkg.name))
        (collapse-squeeze (to_lower pkg.name)).0

  version_key-name_of :
      (pkg : Package) → version_key to_lower pkg ≡ name_of pkg ++ (codes ":" ++ pkg.version)
  unfolding version_key
  version_key-name_of pkg =
      ap (λ (key : Text). key ++ (codes ":" ++ pkg.version)) (normalize_key-name_of pkg)

  step_names : {b n k a : Bool} → b ≡ n → k ≡ a → (if b then true else k) ≡ (n || a)
  step_names {b} {n} {k} {a} e h = ground arith

  step_versions :
      (c : Package) (x : Text) (ks : List Text) {n a : Bool}
      → text_eq x (version_key to_lower c) ≡ n
      → Slices.contains text_eq ks x ≡ a
      → Slices.contains text_eq
          (if not (text_eq c.version []) then version_key to_lower c ∷ ks else ks)
          x
        ≡ ((not (text_eq c.version []) && n) || a)
  unfolding Slices.contains
  step_versions c x ks e h = elim (Bool-cases (text_eq c.version [])) [
    | inl v ↦ rw v h
    | inr v ↦ rw v (step_names e h)
  ]

  contains-names :
      (pkg : Package) (catalog : List Package)
      → (Slices.contains text_eq (build_index to_lower catalog).0 (normalize_key to_lower pkg)
          ≡ any (has_name pkg) catalog)
        × (Slices.contains text_eq (build_index to_lower catalog).1 (version_key to_lower pkg)
            ≡ any (has_version pkg) catalog)
  unfolding build_index Slices.contains
  contains-names pkg [] = (refl, refl)
  contains-names pkg (c ∷ catalog) =
      let ih = contains-names pkg catalog in
      let names : text_eq (normalize_key to_lower pkg) (normalize_key to_lower c) ≡ has_name pkg c =
        λ i. text_eq (normalize_key-name_of pkg i) (normalize_key-name_of c i) in
      let versions : text_eq (version_key to_lower pkg) (version_key to_lower c)
          ≡ text_eq (name_of pkg ++ (codes ":" ++ pkg.version))
              (name_of c ++ (codes ":" ++ c.version)) =
        λ i. text_eq (version_key-name_of pkg i) (version_key-name_of c i) in
      (step_names names ih.0, step_versions c (version_key to_lower pkg) _ versions ih.1)

  -- A package matches a catalog exactly where it has a version and a package of the catalog with
  -- a version has the same name followed by its version; failing that it matches partially where
  -- one has its name, and otherwise not at all. A name is, in lower case, for Python the name with
  -- one hyphen for each row of hyphens, underscores and dots, for Java the namespace and the name,
  -- and otherwise the ecosystem and the name.
  pub match_package-build_index :
      (pkg : Package) (catalog : List Package)
      → match_package to_lower pkg (build_index to_lower catalog).0 (build_index to_lower catalog).1
        ≡ (if not (text_eq pkg.version []) && any (has_version pkg) catalog
            then exact
            else if any (has_name pkg) catalog
            then partial
            else unmatched)
  unfolding match_package
  match_package-build_index pkg catalog =
      rw ((contains-names pkg catalog).0, (contains-names pkg catalog).1) refl
