-- ===== src/Tasks/Features.antt =====
-- pkg/utils/feature_names.go: the names of features in one text.
pub mod Sorted
use content_sources_backend.Common.{
  ℕ, Bool, true, false, not, ◌&&◌, ◌||◌, leb, ltb, ◌==◌, List, [], ◌∷◌, map, Text, if◌then◌else◌,
  text_eq, split, any,
}
use content_sources_backend.Slices

-- unicode.IsSpace.
unfoldable pub is_space : ℕ → Bool
is_space c =
    (leb 9 c && leb c 13)
    || c == 32
    || c == 133
    || c == 160
    || c == 5760
    || (leb 8192 c && leb c 8202)
    || c == 8232
    || c == 8233
    || c == 8239
    || c == 8287
    || c == 12288

unfoldable pub trim_space_left : Text → Text
unfolding is_space
trim_space_left [] = []
trim_space_left (c ∷ t) = if is_space c then trim_space_left t else c ∷ t

unfoldable pub trim_space_right : Text → Text
unfolding is_space
trim_space_right [] = []
trim_space_right (c ∷ t) =
    let rest = trim_space_right t in if is_space c && text_eq rest [] then [] else c ∷ rest

unfoldable pub trim_space : Text → Text
unfolding trim_space_left trim_space_right
trim_space t = trim_space_left (trim_space_right t)

-- strings.ReplaceAll of one code point by another.
unfoldable pub replace_all : ℕ → ℕ → Text → Text
replace_all old new [] = []
replace_all old new (c ∷ t) = (if c == old then new else c) ∷ replace_all old new t

-- The order of texts, code point by code point; that of the bytes of UTF-8 is the same.
unfoldable pub text_lt : Text → Text → Bool
text_lt s [] = false
text_lt [] (d ∷ t) = true
text_lt (c ∷ s) (d ∷ t) = ltb c d || (c == d && text_lt s t)

-- slices.Sort.
unfoldable pub insert_sorted : Text → List Text → List Text
unfolding text_lt
insert_sorted t [] = t ∷ []
insert_sorted t (u ∷ us) =
    let later = u ∷ insert_sorted t us in if text_lt u t then later else t ∷ u ∷ us

unfoldable pub sort : List Text → List Text
unfolding insert_sorted
sort [] = []
sort (t ∷ ts) = insert_sorted t (sort ts)

-- The loop of ParseFeatures, with the tokens seen so far.
unfoldable pub features_after : List Text → List Text → List Text
unfolding trim_space Slices.contains
features_after seen [] = []
features_after seen (p ∷ parts) =
    let t = trim_space p in
    let fresh = t ∷ features_after (t ∷ seen) parts in
    let rest = features_after seen parts in
    if text_eq t [] || Slices.contains text_eq seen t then rest else fresh

unfoldable pub parse_features : Text → List Text
unfolding replace_all features_after sort split
parse_features feature_names =
    if text_eq feature_names []
    then []
    else sort (features_after [] (split b',' (replace_all b'+' b',' feature_names)))

unfoldable pub any_listed : List Text → List Text → Bool
unfolding Slices.contains
any_listed [] list = false
any_listed (n ∷ names) list = if Slices.contains text_eq list n then true else any_listed names list

abbrev pub is_empty : {A : Type 0} → List A → Bool
is_empty [] = true
is_empty (a ∷ rest) = false

unfoldable pub any_feature_match : Text → List Text → Bool
unfolding parse_features any_listed
any_feature_match feature_names list =
    let names = parse_features feature_names in
    if is_empty names then true else any_listed names list
