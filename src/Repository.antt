-- ===== src/Repository.antt =====
-- The URL of a repository (validate, CleanupURL and BeforeCreate of pkg/models/repository.go).
-- strings.TrimSpace and url.ParseRequestURI are arguments, the second as its test.
pub mod Urls
use content_sources_backend.Common.{
  ℕ, Bool, true, false, not, ◌&&◌, ◌||◌, Option, none, some, List, [], ◌∷◌, ◌++◌, Text, codes, ◌==◌,
  if◌then◌else◌, text_eq, trim_right,
}

pub data Origin : Type 0 where
  external red_hat upload community lightwell : Origin

abbrev pub is_upload : Origin → Bool
is_upload upload = true
is_upload _ = false

abbrev pub is_lightwell : Origin → Bool
is_lightwell lightwell = true
is_lightwell _ = false

-- The fields that BeforeCreate reads and writes.
pub record Repository : Type 0 where
  pub url : Text
  pub origin : Origin
  pub last_introspection_status : Text
  pub last_introspection_time : Option ℕ
  pub last_introspection_success_time : Option ℕ
  pub last_introspection_update_time : Option ℕ

-- The messages of validate.
pub data ValidationError : Type 0 where
  url_specified url_blank url_whitespace url_invalid : ValidationError

-- One of " \t\n\v\r\f".
abbrev pub is_whitespace : ℕ → Bool
is_whitespace c = (c == 32) || (c == 9) || (c == 10) || (c == 11) || (c == 13) || (c == 12)

unfoldable pub has_whitespace : Text → Bool
has_whitespace [] = false
has_whitespace (c ∷ t) = is_whitespace c || has_whitespace t

unfoldable pub string_contains_internal_whitespace : (Text → Text) → Text → Bool
unfolding has_whitespace
string_contains_internal_whitespace trim_space s = has_whitespace (trim_space s)

unfoldable pub cleanup_url : (Text → Text) → Text → Text
cleanup_url trim_space url =
    let bare = trim_right 47 (trim_space url) in
    if not (text_eq bare []) then bare ++ codes "/" else bare

unfoldable pub validate : (Text → Text) → (Text → Bool) → Repository → Option ValidationError
unfolding string_contains_internal_whitespace
validate trim_space is_request_uri r =
    if is_upload r.origin || is_lightwell r.origin
    then (if text_eq r.url [] then none else some url_specified)
    else if text_eq r.url []
    then some url_blank
    else if string_contains_internal_whitespace trim_space r.url
    then some url_whitespace
    else if not (is_request_uri r.url)
    then some url_invalid
    else none

abbrev pub introspected : ℕ → Repository → Repository
introspected now r = record r {
  last_introspection_status = codes "Valid";
  last_introspection_time = some now;
  last_introspection_success_time = some now;
  last_introspection_update_time = some now;
}

-- BeforeCreate after that of Base, which succeeds.
unfoldable pub before_create :
    (Text → Text) → (Text → Bool) → ℕ → Repository → Option ValidationError × Repository
unfolding validate cleanup_url
before_create trim_space is_request_uri now r = elim (validate trim_space is_request_uri r) [
  | some e ↦ (some e, r)
  | none ↦
      let cleaned = record r { url = cleanup_url trim_space r.url } in
      (none, if is_upload cleaned.origin then introspected now cleaned else cleaned)
]
