-- ===== src/Paths/Prefixes.antt =====
-- Paths that are printed and read back (pkg/handler/utils/path.go).
use content_sources_backend.Common.{
  ◌≡◌, refl, ap, Bool, true, false, ◌&&◌, not, some, List, [], ◌∷◌, ◌++◌, Text, codes, arith,
  text_eq, split, has_code, split-part, split-last,
}
use content_sources_backend.Paths.{
  slash, letter_v, drop_empty_end, new_path_with_string, remove_prefixes, remove_api_prefix,
}

-- A slash before each part.
abbrev pub print : List Text → Text
print [] = []
print (part ∷ parts) = slash ∷ (part ++ print parts)

-- No part has a slash and the last is not empty.
abbrev pub is_plain : List Text → Bool
is_plain [] = false
is_plain (part ∷ []) = not (has_code slash part) && not (text_eq part [])
is_plain (part ∷ next ∷ parts) = not (has_code slash part) && is_plain (next ∷ parts)

-- With or without a slash at the end.
abbrev pub ending : Bool → Text
ending true = slash ∷ []
ending false = []

append_nil : (t : Text) → t ++ [] ≡ t
append_nil [] = refl
append_nil (c ∷ t) = ap (λ r. c ∷ r) (append_nil t)

append_assoc : (s t u : Text) → (s ++ t) ++ u ≡ s ++ (t ++ u)
append_assoc [] t u = refl
append_assoc (c ∷ s) t u = ap (λ r. c ∷ r) (append_assoc s t u)

-- What the ending adds to the parts.
abbrev more : Bool → List Text
more true = [] ∷ []
more false = []

split-print :
    (part : Text) (parts : List Text) (b : Bool)
    → is_plain (part ∷ parts) ≡ true
    → split slash ((part ++ print parts) ++ ending b) ≡ (part ∷ (parts ++ more b))
unfolding split
split-print part [] true h = rw (append_nil part) (split-part slash part [] (ground arith))
split-print part [] false h =
    rw (append_nil part, append_nil part) (split-last slash part (ground arith))
split-print part (next ∷ parts) b h =
    rw
      (
        append_assoc part (slash ∷ (next ++ print parts)) (ending b),
        split-part slash part ((next ++ print parts) ++ ending b) (ground arith),
        split-print next parts b (ground arith),
      )
      refl

print-filled :
    (part : Text) (parts : List Text) (b : Bool)
    → is_plain (part ∷ parts) ≡ true
    → text_eq ((part ++ print parts) ++ ending b) [] ≡ false
unfolding text_eq
print-filled [] [] b h = ground arith
print-filled [] (next ∷ parts) b h = refl
print-filled (c ∷ part) parts b h = refl

drop_empty_end-plain :
    (part : Text) (parts : List Text) (b : Bool)
    → is_plain (part ∷ parts) ≡ true
    → drop_empty_end (part ∷ (parts ++ more b)) ≡ part ∷ parts
unfolding drop_empty_end text_eq
drop_empty_end-plain [] [] b h = ground arith
drop_empty_end-plain (c ∷ part) [] true h = refl
drop_empty_end-plain (c ∷ part) [] false h = refl
drop_empty_end-plain [] (next ∷ parts) b h =
    rw (drop_empty_end-plain next parts b (ground arith)) refl
drop_empty_end-plain (c ∷ part) (next ∷ parts) b h =
    rw (drop_empty_end-plain next parts b (ground arith)) refl

pub new_path_with_string-print :
    (part : Text) (parts : List Text) (b : Bool)
    → is_plain (part ∷ parts) ≡ true
    → new_path_with_string (print (part ∷ parts) ++ ending b) ≡ part ∷ parts
unfolding new_path_with_string split
new_path_with_string-print part parts b h =
    rw (print-filled part parts b h, split-print part parts b h)
      (drop_empty_end-plain part parts b h)

-- The parts before a resource, with "beta" or without it.
abbrev pub prefix : Bool → Text → List Text → List Text
prefix true version rest =
    codes "beta" ∷ codes "api" ∷ codes "content-sources" ∷ (letter_v ∷ version) ∷ rest
prefix false version rest = codes "api" ∷ codes "content-sources" ∷ (letter_v ∷ version) ∷ rest

remove_prefixes-prefix :
    (beta : Bool) (version : Text) (part : Text) (parts : List Text)
    → remove_prefixes (prefix beta version (part ∷ parts)) ≡ some (part ∷ parts)
unfolding remove_prefixes remove_api_prefix text_eq
remove_prefixes-prefix true version part parts = ground arith
remove_prefixes-prefix false version part parts = ground arith

-- From a path with the prefix of the service, with "beta" or without it and with or without a slash
-- at the end, the parts of the resource are recovered, where no part has a slash and the last is not
-- empty.
pub remove_prefixes-new_path_with_string :
    (beta slashed : Bool) (version part : Text) (parts : List Text)
    → is_plain (prefix beta version (part ∷ parts)) ≡ true
    → remove_prefixes
        (new_path_with_string (print (prefix beta version (part ∷ parts)) ++ ending slashed))
      ≡ some (part ∷ parts)
remove_prefixes-new_path_with_string true slashed version part parts h =
    rw (new_path_with_string-print _ _ slashed h) (remove_prefixes-prefix true version part parts)
remove_prefixes-new_path_with_string false slashed version part parts h =
    rw (new_path_with_string-print _ _ slashed h) (remove_prefixes-prefix false version part parts)
