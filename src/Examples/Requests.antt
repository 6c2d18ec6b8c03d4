-- ===== src/Examples/Requests.antt =====
-- Requests to the service, their paths, permissions and responses.
use mathlib.Core.Option
use content_sources_backend.Common.{
  ℕ, refl, Bool, true, false, Option, none, some, List, Text, codes, any, is_some, text_eq,
  has_code, join, split, trim_left, trim_right, ◌⊎◌, inl, inr, ◌*◌, ◌≡◌, ◌&&◌, ◌++◌, ◌∷◌,
  if◌then◌else◌, [],
}
use content_sources_backend.Slices
use content_sources_backend.Paths
use content_sources_backend.Permissions
use content_sources_backend.TextMap
use content_sources_backend.Queue.Types.{db_error}
use content_sources_backend.Queue.Transaction.{Link}
use content_sources_backend.Queue.Transaction.Runs.{serving}
use content_sources_backend.Errors.{
  HandlerError, get_general_response_code, new_error_response_from_error, plain,
}
use content_sources_backend.Errors.Codes.{
  get_general_response_code-worst, is_internal, new_error_response_from_error-code, worst,
}
use content_sources_backend.Paths.{new_path_with_string, remove_prefixes}
use content_sources_backend.Paths.Prefixes.{
  ending, is_plain, prefix, print, remove_prefixes-new_path_with_string,
}
use content_sources_backend.Permissions.{
  PermissionsMap, RbacEntry, add, is_refused, permission, trim_slashes,
}
use content_sources_backend.Permissions.Entries.{permission-add}
use content_sources_backend.Middleware.Json.{
  Fields, array, data_org_ids, extract_org_ids, field, field_of, item, item_org_ids, no_fields,
  no_items, object, own_org_id, string,
}
use content_sources_backend.Middleware.{
  Answer, Client, Config, Reply, Request, all_shown, authorize, calls_next, check_answer,
  copy_headers, enforce_consistent_org_id, get_path, is_shown, new_rbac, replied, skip_auth,
  skip_enforce_consistent_org_id, skip_middleware, skip_rbac, trim_slash, write_recorded,
}
use content_sources_backend.Middleware.Access.{new_rbac-allowed, selected}
use content_sources_backend.Middleware.Tenancy.{Names, enforce_consistent_org_id-shown}
use content_sources_backend.Repository.{Repository, external}
use content_sources_backend.Pool.{Turn}

-- A request for a list of repositories, with the handler's response to it.
abbrev config : Config
config = record { full_root_path = codes "/api/content-sources/v1.0"; internal_user = codes "user" }

abbrev request : Request
request = record {
  matched_route = codes "/api/content-sources/v1.0/repositories/";
  method = codes "GET";
  identity_header = codes "x";
  identity = record {
    account_number = [];
    org_id = codes "org";
    internal_org_id = codes "org";
    kind = codes "User";
    username = none;
  };
}

abbrev reply : Reply
reply = record { code = 200; headers = []; body = codes "body" }

abbrev handler : Request → Answer
handler c = replied reply

abbrev body_fields : Fields
body_fields =
    field (codes "data")
      (array (item (object (field (codes "org_id") (string (codes "org")) no_fields)) no_items))
      no_fields

abbrev unmarshal : Text → Option Fields
unmarshal body = some body_fields

not_skipped : skip_middleware config request ≡ false
unfolding skip_middleware skip_auth skip_rbac get_path trim_slash Slices.contains split join text_eq
not_skipped = refl

not_excepted : skip_enforce_consistent_org_id config request ≡ false
unfolding skip_enforce_consistent_org_id get_path Slices.contains split join text_eq
not_excepted = refl

answered : enforce_consistent_org_id config unmarshal [] handler request ≡ replied reply
unfolding enforce_consistent_org_id skip_middleware skip_auth skip_rbac
    skip_enforce_consistent_org_id get_path trim_slash Slices.contains split join text_eq
    check_answer extract_org_ids own_org_id field_of data_org_ids item_org_ids all_shown is_shown
    write_recorded copy_headers
answered = refl

has_body : text_eq reply.body [] ≡ false
unfolding text_eq
has_body = refl

abbrev body_item : Fields
body_item = field (codes "org_id") (string (codes "org")) no_fields

named : Names body_fields (codes "org")
unfolding Names field_of text_eq
named = inr (inr (item (object body_item) no_items, body_item, refl, inl refl, (refl, refl)))

abbrev skipper : Request → Bool
skipper c = false

abbrev permissions : PermissionsMap
permissions =
    (
      codes "GET",
      (codes "repositories", record { resource = codes "repositories"; verb = codes "read" }) ∷ [],
    )
    ∷ []

abbrev refuse : Client
refuse resource verb = none

abbrev allow : Client
allow resource verb = some true

allowed : new_rbac skipper permissions false refuse allow request ≡ calls_next
unfolding new_rbac authorize Paths.remove_prefixes Paths.remove_api_prefix
    Paths.new_path_with_string Paths.drop_empty_end Permissions.permission Permissions.trim_slashes
    TextMap.lookup split join text_eq trim_left trim_right
allowed = refl

not_refused :
    is_refused (codes "GET") (codes "/repositories/") (codes "templates") (codes "read") ≡ false
unfolding is_refused text_eq
not_refused = refl

plain_parts : is_plain (prefix true (codes "1.0") (codes "repositories" ∷ [])) ≡ true
unfolding has_code text_eq
plain_parts = refl

abbrev missing : HandlerError
missing = record { status = 404; title = ""; detail = "" }

abbrev broken : HandlerError
broken = record { status = 500; title = ""; detail = "" }

abbrev same : Text → Text
same t = t

abbrev accepts : Text → Bool
accepts t = true

abbrev repository : Repository
repository = record {
  url = codes "https://a/b//";
  origin = external;
  last_introspection_status = codes "Pending";
  last_introspection_time = none;
  last_introspection_success_time = none;
  last_introspection_update_time = none;
}

abbrev labels : List Text
labels = codes "8" ∷ codes "11" ∷ []

abbrev parse : Text → Option ℕ
parse text = some 1

abbrev link : Link
link = serving 20 db_error

abbrev registrations : List (Text × ℕ)
registrations = (codes "snapshot", 1) ∷ (codes "introspect", 2) ∷ (codes "snapshot", 3) ∷ []

abbrev turns : ℕ → Turn
turns i = record { now = 91; upper_bound = 60; identify_link = link; requeue_link = link }

enforce_consistent_org_id-shown_example :
    (codes "org" ≡ request.identity.internal_org_id)
    ⊎ ((codes "org" ≡ codes "-1")
        ⊎ ((codes "org" ≡ codes "-2") ⊎ ((codes "org" ≡ codes "-3") ⊎ (codes "org" ≡ codes "-4"))))
enforce_consistent_org_id-shown_example =
    enforce_consistent_org_id-shown config unmarshal [] handler request reply body_fields
      (codes "org") not_skipped not_excepted answered refl has_body refl named

new_rbac-allowed_example :
    (parts : List Text) × (entry : RbacEntry) × (Paths.remove_prefixes
        (Paths.new_path_with_string request.matched_route)
      ≡ some parts)
    × (Permissions.permission permissions request.method (join (codes "/") parts) ≡ some entry)
    × (text_eq request.identity_header [] ≡ false)
    × (selected false refuse allow entry ≡ some true)
new_rbac-allowed_example =
    new_rbac-allowed skipper permissions false refuse allow request refl allowed

permission-add_example :
    permission
      (add permissions (codes "GET") (codes "/repositories/") (codes "templates") (codes "read")).0
      (codes "GET")
      (codes "repositories")
    ≡ (if text_eq (codes "GET") (codes "GET")
          && text_eq (trim_slashes (codes "/repositories/")) (trim_slashes (codes "repositories"))
        then elim (permission permissions (codes "GET") (codes "repositories")) [
          | some old ↦ some old
          | none ↦ some (record { resource = (codes "templates"); verb = (codes "read") })
        ]
        else permission permissions (codes "GET") (codes "repositories"))
permission-add_example =
    permission-add permissions (codes "GET") (codes "/repositories/") (codes "templates")
      (codes "read") (codes "GET") (codes "repositories") not_refused

remove_prefixes-new_path_with_string_example :
    remove_prefixes (
      new_path_with_string
        (print (prefix true (codes "1.0") ((codes "repositories") ∷ ([]))) ++ ending true))
    ≡ some ((codes "repositories") ∷ ([]))
remove_prefixes-new_path_with_string_example =
    remove_prefixes-new_path_with_string true true (codes "1.0") (codes "repositories") []
      plain_parts

get_general_response_code-worst_example :
    get_general_response_code (missing ∷ broken ∷ (missing ∷ []))
    ≡ worst (missing ∷ broken ∷ (missing ∷ [])) 1 * 100
get_general_response_code-worst_example =
    get_general_response_code-worst missing broken (missing ∷ [])

new_error_response_from_error-code_example :
    Option.map get_general_response_code
      (new_error_response_from_error ("title") (none ∷ (some (plain "x")) ∷ ([])))
    ≡ some (
        if any is_internal (none ∷ (some (plain "x")) ∷ ([]))
        then 500
        else if any is_some (none ∷ (some (plain "x")) ∷ ([]))
        then 400
        else 200)
new_error_response_from_error-code_example =
    new_error_response_from_error-code "title" none (some (plain "x")) []
