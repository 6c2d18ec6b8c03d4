-- ===== src/Permissions/Entries.antt =====
-- What is found after entries are added (pkg/rbac/permission_map.go).
use content_sources_backend.Common.{
  ◌≡◌, refl, false, ◌&&◌, Option, none, some, List, [], ◌∷◌, Text, arith, if◌then◌else◌, text_eq,
}
use content_sources_backend.TextMap.{lookup, assign, lookup-same, lookup-assign}
use content_sources_backend.Permissions.{
  RbacEntry, PermissionsMap, trim_slashes, permission, is_refused, add,
}

-- An entry that Add does not refuse is found under its method and path, whatever slashes stand
-- around the path, unless the map had an entry there: then that entry stays. Every other route
-- keeps what it had.
pub permission-add :
    (pm : PermissionsMap) (method path res verb m p : Text)
    → is_refused method path res verb ≡ false
    → permission (add pm method path res verb).0 m p ≡ (
        if text_eq method m && text_eq (trim_slashes path) (trim_slashes p)
        then elim (permission pm m p) [
          | some old ↦ some old
          | none ↦ some (record { resource = res; verb = verb })
        ]
        else permission pm m p)
unfolding permission add lookup
permission-add pm method path res verb m p h = added (lookup pm method) refl
  where
    entry : RbacEntry
    entry = record { resource = res; verb = verb }

    added :
        (o : Option (List (Text × RbacEntry)))
        → lookup pm method ≡ o
        → permission (add pm method path res verb).0 m p ≡ (
            if text_eq method m && text_eq (trim_slashes path) (trim_slashes p)
            then elim (permission pm m p) [
              | some old ↦ some old
              | none ↦ some (record { resource = res; verb = verb })
            ]
            else permission pm m p)
    added none e = ground (
      arith,
      lookup-assign pm method m ((trim_slashes path, entry) ∷ []),
      lookup-same pm method m,
    )
    added (some paths) e = ground (
      arith,
      lookup-assign pm method m (assign paths (trim_slashes path) entry),
      lookup-same pm method m,
      lookup-assign paths (trim_slashes path) (trim_slashes p) entry,
      lookup-same paths (trim_slashes path) (trim_slashes p),
    )
