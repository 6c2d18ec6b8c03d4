-- ===== src/TextMap.antt =====
-- The Go maps with strings as keys (those of pkg/rbac/permission_map.go,
-- pkg/coverage/matcher/matcher.go and the headers of a response), as lists of entries.
use content_sources_backend.Common.{
  ◌≡◌, refl, ap, true, Option, none, some, List, [], ◌∷◌, Text, arith, if◌then◌else◌, text_eq,
  text_eq_iff, text_eq_refl,
}

module _ {V : Type 0} where
  unfoldable pub lookup : List (Text × V) → Text → Option V
  lookup [] key = none
  lookup ((k, v) ∷ m) key = if text_eq k key then some v else lookup m key

  unfoldable pub assign : List (Text × V) → Text → V → List (Text × V)
  assign [] key value = (key, value) ∷ []
  assign ((k, v) ∷ m) key value =
      let rest = assign m key value in if text_eq k key then (k, value) ∷ m else (k, v) ∷ rest

  pub lookup-same :
      (m : List (Text × V)) (j k : Text) → text_eq j k ≡ true → lookup m j ≡ lookup m k
  lookup-same m j k h = ap (lookup m) ((text_eq_iff j k).0 h)

  pub lookup-assign :
      (m : List (Text × V)) (key k : Text) (value : V)
      → lookup (assign m key value) k ≡ (if text_eq key k then some value else lookup m k)
  unfolding lookup assign
  lookup-assign [] key k value = refl
  lookup-assign ((j, v) ∷ m) key k value = ground (
    arith,
    lookup-assign m key k value,
    text_eq_iff j key,
    text_eq_iff j k,
    text_eq_iff key k,
    text_eq_refl key,
  )
