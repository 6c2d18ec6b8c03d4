-- ===== src/Middleware/Access.antt =====
-- Who reaches a handler through the middleware of pkg/middleware/rbac.go.
use content_sources_backend.Common.{
  ◌≡◌, refl, Bool, true, false, Option, none, some, List, [], Text, codes, arith, if◌then◌else◌,
  text_eq, join, Option-cases, inl, inr,
}
use content_sources_backend.Paths
use content_sources_backend.Permissions
use content_sources_backend.Permissions.{PermissionsMap, RbacEntry}
use content_sources_backend.Middleware.{Request, Client, calls_next, decide, authorize, new_rbac}

-- What the selected client answers.
abbrev pub selected : Bool → Client → Client → RbacEntry → Option Bool
selected uses_kessel kessel rbac entry =
    if uses_kessel then kessel entry.resource entry.verb else rbac entry.resource entry.verb

decide-next : (o : Option Bool) → decide o ≡ calls_next → o ≡ some true
decide-next none h = ground arith
decide-next (some false) h = ground arith
decide-next (some true) h = refl

authorize-entry :
    (permissions : PermissionsMap) (uses_kessel : Bool) (kessel rbac : Client) (c : Request)
    (path : Text)
    → authorize permissions uses_kessel kessel rbac c path ≡ calls_next
    → (entry : RbacEntry) × (Permissions.permission permissions c.method path ≡ some entry)
unfolding authorize
authorize-entry permissions uses_kessel kessel rbac c path h =
    elim (Option-cases (Permissions.permission permissions c.method path)) [
      | inl e ↦ absurd (ground arith)
      | inr found ↦ found
    ]

authorize-selected :
    (permissions : PermissionsMap) (uses_kessel : Bool) (kessel rbac : Client) (c : Request)
    (path : Text) (entry : RbacEntry)
    → authorize permissions uses_kessel kessel rbac c path ≡ calls_next
    → Permissions.permission permissions c.method path ≡ some entry
    → (text_eq c.identity_header [] ≡ false) × (selected uses_kessel kessel rbac entry ≡ some true)
unfolding authorize
authorize-selected permissions uses_kessel kessel rbac c path entry h e =
    (ground arith, decide-next (selected uses_kessel kessel rbac entry) (ground arith))

-- A request that the skipper does not let through reaches the handler only where its method and its
-- path without prefixes have a permission, it has an identity header, and the client that is in use
-- allows that permission's resource and verb.
pub new_rbac-allowed :
    (skipper : Request → Bool) (permissions : PermissionsMap) (uses_kessel : Bool)
    (kessel rbac : Client) (c : Request)
    → skipper c ≡ false
    → new_rbac skipper permissions uses_kessel kessel rbac c ≡ calls_next
    → (parts : List Text) × (entry : RbacEntry) × (Paths.remove_prefixes
          (Paths.new_path_with_string c.matched_route)
        ≡ some parts)
      × (Permissions.permission permissions c.method (join (codes "/") parts) ≡ some entry)
      × (text_eq c.identity_header [] ≡ false)
      × (selected uses_kessel kessel rbac entry ≡ some true)
unfolding new_rbac
new_rbac-allowed skipper permissions uses_kessel kessel rbac c s h =
    elim (Option-cases (Paths.remove_prefixes (Paths.new_path_with_string c.matched_route))) [
      | inl e ↦ absurd (ground arith)
      | inr (parts, e) ↦
          let path = join (codes "/") parts in
          let allowed : authorize permissions uses_kessel kessel rbac c path ≡ calls_next =
            ground arith in
          let (entry, found) = authorize-entry permissions uses_kessel kessel rbac c path allowed in
          let (header, answer) =
            authorize-selected permissions uses_kessel kessel rbac c path entry allowed found in
          (parts, entry, e, found, header, answer)
    ]
