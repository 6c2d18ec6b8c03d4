-- ===== src/Middleware.antt =====
-- The middlewares that decide who may see what (pkg/middleware/enforce_identity.go, rbac.go and
-- enforce_consistent_org_id.go). The route that matched, the clients and the next handler are
-- arguments.
pub mod Json
pub mod Access
pub mod Tenancy
use content_sources_backend.Common.{
  ℕ, Bool, true, false, not, ◌&&◌, ◌||◌, Option, none, some, List, [], ◌∷◌, Text, codes, String,
  length, ltb, ◌==◌, if◌then◌else◌, text_eq, split, join,
}
use content_sources_backend.Errors.{GoError, ErrorResponse, new_error_response}
use content_sources_backend.Slices
use content_sources_backend.TextMap
use content_sources_backend.Paths
use content_sources_backend.Permissions
use content_sources_backend.Permissions.{PermissionsMap, RbacEntry}
use content_sources_backend.Middleware.Json.{Fields, extract_org_ids}

-- The identity of a request, as the middleware identity decodes it. There may be no user.
pub record Identity : Type 0 where
  pub account_number : Text
  pub org_id : Text
  pub internal_org_id : Text
  pub kind : Text
  pub username : Option Text

-- The matched route is empty where no route matches.
pub record Request : Type 0 where
  pub matched_route : Text
  pub method : Text
  pub identity_header : Text
  pub identity : Identity

-- What the middlewares read of the configuration: FullRootPath and the internal user.
pub record Config : Type 0 where
  pub full_root_path : Text
  pub internal_user : Text

abbrev pub red_hat_org : Text
red_hat_org = codes "-1"

abbrev pub community_org : Text
community_org = codes "-2"

abbrev pub lightwell_org : Text
lightwell_org = codes "-3"

abbrev pub lightwell_demo_org : Text
lightwell_demo_org = codes "-4"

-- strings.TrimSuffix(p, "/").
unfoldable pub trim_slash : Text → Text
trim_slash [] = []
trim_slash (c ∷ p) = let rest = trim_slash p in if (c == 47) && text_eq p [] then [] else c ∷ rest

unfoldable pub skip_auth : Text → Bool
unfolding trim_slash Slices.contains
skip_auth p =
    let skipped = codes "/ping" ∷ codes "/openapi.json" ∷ codes "/repository_gpg_key/:uuid" ∷ [] in
    Slices.contains text_eq skipped p || Slices.contains text_eq skipped (trim_slash p)

abbrev is_user : Option Text → Text → Bool
is_user none name = false
is_user (some username) name = text_eq username name

unfoldable pub skip_rbac : Config → Request → Text → Bool
skip_rbac config c p =
    (text_eq p (codes "/templates/:template_uuid/config.repo")
      && text_eq c.identity.kind (codes "System"))
    || (text_eq p (codes "/templates/:uuid/advisories/ids")
        && is_user c.identity.username config.internal_user
        && text_eq c.method (codes "GET"))

abbrev drop : ℕ → List Text → List Text
drop ℕ.zero parts = parts
drop (ℕ.suc n) [] = []
drop (ℕ.suc n) (part ∷ parts) = drop n parts

unfoldable pub get_path : Config → Text → Text
get_path config path =
    let prefix = length (split 47 config.full_root_path) in
    let parts = split 47 path in
    if text_eq path []
    then []
    else if ltb prefix (length parts)
    then 47 ∷ join (codes "/") (drop prefix parts)
    else path

unfoldable pub skip_middleware : Config → Request → Bool
unfolding skip_auth skip_rbac get_path
skip_middleware config c =
    let p = get_path config c.matched_route in skip_rbac config c p || skip_auth p

-- What a response has.
pub record Reply : Type 0 where
  pub code : ℕ
  pub headers : List (Text × List Text)
  pub body : Text

-- How a handler ends: with an error, with one of ErrorResponse, or with a response.
pub data Answer : Type 0 where
  failed : GoError → Answer
  error_response : ErrorResponse → Answer
  replied : Reply → Answer

-- Is it the organization of the identity, in either place?
abbrev pub is_of : Text → Identity → Bool
is_of org i = text_eq i.internal_org_id org || text_eq i.org_id org

unfoldable pub enforce_org_id : (Request → Answer) → Request → Answer
enforce_org_id next c =
    if is_of red_hat_org c.identity
    then error_response (new_error_response 403 "Invalid org ID" "Org ID cannot be -1")
    else if is_of community_org c.identity
    then error_response (new_error_response 403 "Invalid org ID" "Org ID cannot be -2")
    else if is_of lightwell_org c.identity
    then error_response (new_error_response 403 "Invalid org ID" "Org ID cannot be -3")
    else next c

-- How NewRbac's middleware ends: it calls the next handler, answers with an error of echo, or panics.
pub data Decision : Type 0 where
  calls_next bad_request not_found unauthorized panicked : Decision

-- A client's Allowed, with none for its error.
abbrev pub Client : Type 0
Client = Text → Text → Option Bool

abbrev decide : Option Bool → Decision
decide none = unauthorized
decide (some false) = unauthorized
decide (some true) = calls_next

-- The middleware once it knows the path without its prefixes.
unfoldable pub authorize : PermissionsMap → Bool → Client → Client → Request → Text → Decision
authorize permissions uses_kessel kessel rbac c path =
    if text_eq path []
    then bad_request
    else elim (Permissions.permission permissions c.method path) [
      | none ↦ not_found
      | some entry ↦
          if text_eq c.identity_header []
          then unauthorized
          else if uses_kessel
          then decide (kessel entry.resource entry.verb)
          else decide (rbac entry.resource entry.verb)
    ]

unfoldable pub new_rbac :
    (Request → Bool) → PermissionsMap → Bool → Client → Client → Request → Decision
unfolding authorize
new_rbac skipper permissions uses_kessel kessel rbac c =
    if skipper c
    then calls_next
    else elim (Paths.remove_prefixes (Paths.new_path_with_string c.matched_route)) [
      | none ↦ panicked
      | some parts ↦ authorize permissions uses_kessel kessel rbac c (join (codes "/") parts)
    ]

unfoldable pub skip_enforce_consistent_org_id : Config → Request → Bool
unfolding get_path Slices.contains
skip_enforce_consistent_org_id config c =
    Slices.contains text_eq
      (codes "/admin/tasks/"
        ∷ codes "/admin/tasks/:uuid"
        ∷ codes "/admin/features/"
        ∷ codes "/admin/features/:name/content/"
        ∷ codes "/rpms/names"
        ∷ codes "/package_groups/names"
        ∷ codes "/environments/names"
        ∷ codes "/module_streams/search"
        ∷ [])
      (get_path config c.matched_route)

-- May the organization's data be shown to the other one?
unfoldable pub is_shown : Text → Text → Bool
is_shown org id =
    text_eq id org
    || text_eq id red_hat_org
    || text_eq id community_org
    || text_eq id lightwell_org
    || text_eq id lightwell_demo_org

unfoldable pub all_shown : Text → List Text → Bool
unfolding is_shown
all_shown org [] = true
all_shown org (id ∷ ids) = if not (is_shown org id) then false else all_shown org ids

-- Header.Set for each value in turn.
unfoldable pub set_each : Text → List Text → List (Text × List Text) → List (Text × List Text)
set_each key [] headers = headers
set_each key (value ∷ values) headers =
    set_each key values (TextMap.assign headers key (value ∷ []))

unfoldable pub copy_headers :
    List (Text × List Text) → List (Text × List Text) → List (Text × List Text)
unfolding set_each
copy_headers [] headers = headers
copy_headers ((key, values) ∷ recorded) headers =
    copy_headers recorded (set_each key values headers)

-- The response that was recorded, written over the headers that the original one has.
unfoldable pub write_recorded : List (Text × List Text) → Reply → Reply
unfolding copy_headers
write_recorded headers rec = record {
  code = rec.code;
  headers = copy_headers rec.headers headers;
  body = rec.body;
}

-- EnforceConsistentOrgId after the next handler, with json.Unmarshal as an argument.
unfoldable pub check_answer :
    (Text → Option Fields) → Text → List (Text × List Text) → Answer → Answer
unfolding write_recorded all_shown
check_answer unmarshal org headers (failed e) = failed e
check_answer unmarshal org headers (error_response e) = error_response e
check_answer unmarshal org headers (replied rec) =
    if (rec.code == 200) && not (text_eq rec.body [])
    then elim (unmarshal rec.body) [
      | none ↦ replied (write_recorded headers rec)
      | some response ↦
          if not (all_shown org (extract_org_ids response))
          then error_response (
              new_error_response 500 "Organization ID mismatch"
                "Response organization ID does not match user organization ID")
          else replied (write_recorded headers rec)
    ]
    else replied (write_recorded headers rec)

unfoldable pub enforce_consistent_org_id :
    Config
    → (Text → Option Fields)
    → List (Text × List Text)
    → (Request → Answer)
    → Request
    → Answer
unfolding skip_middleware skip_enforce_consistent_org_id check_answer
enforce_consistent_org_id config unmarshal headers next c =
    if skip_middleware config c
    then next c
    else if skip_enforce_consistent_org_id config c
    then next c
    else if text_eq c.identity.internal_org_id []
    then error_response (new_error_response 400 "Missing org ID" "Organization ID is required")
    else check_answer unmarshal c.identity.internal_org_id headers (next c)
