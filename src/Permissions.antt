-- ===== src/Permissions.antt =====
-- The map from routes to permissions (pkg/rbac/permission_map.go).
pub mod Entries
use content_sources_backend.Common.{
  Bool, true, false, ◌||◌, Option, none, some, List, [], ◌∷◌, Text, codes, if◌then◌else◌, text_eq,
  trim_left, trim_right,
}
use content_sources_backend.TextMap.{lookup, assign}

pub record RbacEntry : Type 0 where
  pub resource : Text
  pub verb : Text

abbrev pub PermissionsMap : Type 0
PermissionsMap = List (Text × List (Text × RbacEntry))

-- strings.Trim(path, "/").
unfoldable pub trim_slashes : Text → Text
trim_slashes path = trim_right 47 (trim_left 47 path)

unfoldable pub permission : PermissionsMap → Text → Text → Option RbacEntry
unfolding lookup trim_slashes
permission pm method path = elim (lookup pm method) [
  | none ↦ none
  | some paths ↦ lookup paths (trim_slashes path)
]

-- The arguments that Add refuses.
unfoldable pub is_refused : Text → Text → Text → Text → Bool
is_refused method path res verb =
    (text_eq method [] || text_eq path [] || text_eq res [] || text_eq verb [])
    || (text_eq res (codes "*") || text_eq verb (codes "*"))

abbrev entry_of : Text → Text → RbacEntry
entry_of res verb = record { resource = res; verb = verb }

-- Add: the map after it, and whether the pointer it returns is not nil. Where the path has an entry,
-- the assignments change a copy of it.
unfoldable pub add : PermissionsMap → Text → Text → Text → Text → PermissionsMap × Bool
unfolding lookup assign trim_slashes is_refused
add pm method path res verb =
    let key = trim_slashes path in
    let entry = entry_of res verb in
    if is_refused method path res verb then (pm, false) else elim (lookup pm method) [
      | none ↦ (assign pm method ((key, entry) ∷ []), true)
      | some paths ↦ elim (lookup paths key) [
        | some old ↦ (pm, true)
        | none ↦ (assign pm method (assign paths key entry), true)
      ]
    ]
