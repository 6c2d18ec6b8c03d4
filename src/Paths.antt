-- ===== src/Paths.antt =====
-- The paths of requests (pkg/handler/utils/path.go).
pub mod Prefixes
use content_sources_backend.Common.{
  ℕ, zero, suc, Bool, true, false, ◌&&◌, ◌||◌, not, Option, none, some, List, [], ◌∷◌, Text, codes,
  length, ltb, ◌==◌, if◌then◌else◌, text_eq, split,
}

abbrev pub slash : ℕ
slash = 47

abbrev pub letter_v : ℕ
letter_v = 118

abbrev tail : List Text → List Text
tail [] = []
tail (part ∷ parts) = parts

-- The loop from the end: what is left up to the last part that is not empty.
unfoldable pub drop_empty_end : List Text → List Text
drop_empty_end [] = []
drop_empty_end ([] ∷ parts) = elim (drop_empty_end parts) [
  | [] ↦ []
  | next ∷ more ↦ [] ∷ next ∷ more
]
drop_empty_end ((c ∷ part) ∷ parts) = (c ∷ part) ∷ drop_empty_end parts

unfoldable pub new_path_with_string : Text → List Text
unfolding drop_empty_end
new_path_with_string [] = []
new_path_with_string (c ∷ path) =
    if (c == slash) && text_eq path []
    then []
    else if not (c == slash)
    then []
    else drop_empty_end (tail (split slash (c ∷ path)))

-- What RemovePrefixes does from "api" on; none stands for the panic at the first byte of an empty
-- part.
unfoldable pub remove_api_prefix : List Text → Option (List Text)
remove_api_prefix (api ∷ name ∷ [] ∷ rest) =
    if not (text_eq api (codes "api"))
    then some []
    else if not (text_eq name (codes "content-sources"))
    then some []
    else none
remove_api_prefix (api ∷ name ∷ (c ∷ version) ∷ rest) =
    if not (text_eq api (codes "api"))
    then some []
    else if not (text_eq name (codes "content-sources"))
    then some []
    else if not (c == letter_v)
    then some []
    else some rest
remove_api_prefix _ = some []

unfoldable pub remove_prefixes : List Text → Option (List Text)
unfolding remove_api_prefix
remove_prefixes [] = some []
remove_prefixes (first ∷ output) =
    if ltb (suc (length output)) 4
    then some []
    else if text_eq first (codes "beta")
    then (if ltb (suc (length output)) 5 then some [] else remove_api_prefix output)
    else remove_api_prefix (first ∷ output)

-- Does the resource match the first parts of the path?
unfoldable pub matches : List Text → List Text → Bool
matches p [] = true
matches [] (part ∷ r) = false
matches (first ∷ p) (part ∷ r) = if not (text_eq first part) then false else matches p r

unfoldable pub start_with_resources : List Text → List (List Text) → Bool
unfolding matches
start_with_resources p [] = false
start_with_resources p (r ∷ resources) =
    if ltb (length p) (length r)
    then start_with_resources p resources
    else if matches p r
    then true
    else start_with_resources p resources
