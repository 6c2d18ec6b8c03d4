-- ===== src/Coverage/Parser/Records.antt =====
-- The records of a CSV manifest (pkg/coverage/parser/csv.go).
use content_sources_backend.Common.{
  ℕ, zero, suc, ◌≡◌, refl, ap, ◌∙◌, Bool, true, false, Option, none, some, List, [], ◌∷◌, ◌++◌,
  Text, codes, map, any, All, length, text_eq, if◌then◌else◌, arith,
}
use content_sources_backend.Coverage.{Package}
use content_sources_backend.Coverage.Parser.{
  column, find_column, row_package, push, parsed, with_package, parse_csv, parse_purl,
}

-- A record from a position on.
abbrev pub from : ℕ → List Text → List Text
from zero row = row
from (suc n) [] = []
from (suc n) (field ∷ row) = from n row

-- The package URL that stands first, and is not blank.
abbrev pub first_purl : (Text → Text) → List Text → Option Package
first_purl trim_space [] = none
first_purl trim_space (field ∷ row) =
    if text_eq (trim_space field) [] then none else parse_purl (trim_space field)

-- The packages of the records that have one at a position.
abbrev pub packages_at : (Text → Text) → ℕ → List (List Text) → List Package
packages_at trim_space col [] = []
packages_at trim_space col (row ∷ rows) =
    push (first_purl trim_space (from col row)) (packages_at trim_space col rows)

abbrev pub is_purl_header : (Text → Text) → (Text → Text) → Text → Bool
is_purl_header to_lower trim_space field =
    text_eq (trim_space (to_lower field)) (codes "packageurl")

row_package-from :
    (trim_space : Text → Text) (col : ℕ) (row : List Text)
    → row_package trim_space col row ≡ first_purl trim_space (from col row)
unfolding row_package column
row_package-from trim_space zero [] = refl
row_package-from trim_space zero (field ∷ row) = refl
row_package-from trim_space (suc col) [] = refl
row_package-from trim_space (suc col) (field ∷ row) = row_package-from trim_space col row

parse_csv-rows :
    (to_lower trim_space : Text → Text) (col : ℕ) (rows : List (List Text))
    → parse_csv to_lower trim_space (some col) (map some rows)
      ≡ parsed (packages_at trim_space col rows)
unfolding parse_csv
parse_csv-rows to_lower trim_space col [] = refl
parse_csv-rows to_lower trim_space col (row ∷ rows) =
    ap (with_package (row_package trim_space col row)) (parse_csv-rows to_lower trim_space col rows)
    ∙ ap (λ (p : Option Package). parsed (push p (packages_at trim_space col rows)))
        (row_package-from trim_space col row)

find_column-none :
    (to_lower trim_space : Text → Text) (row : List Text)
    → any (is_purl_header to_lower trim_space) row ≡ false
    → find_column (λ field. trim_space (to_lower field)) row ≡ none
unfolding find_column
find_column-none to_lower trim_space [] h = refl
find_column-none to_lower trim_space (field ∷ row) h =
    ground (arith, find_column-none to_lower trim_space row)

find_column-some :
    (to_lower trim_space : Text → Text) (left : List Text) (field : Text) (right : List Text)
    → any (is_purl_header to_lower trim_space) left ≡ false
    → is_purl_header to_lower trim_space field ≡ true
    → find_column (λ f. trim_space (to_lower f)) (left ++ (field ∷ right)) ≡ some (length left)
unfolding find_column
find_column-some to_lower trim_space [] field right h e = rw e refl
find_column-some to_lower trim_space (f ∷ left) field right h e =
    ground (arith, find_column-some to_lower trim_space left field right)

-- A manifest whose first records have no field that is packageurl in lower case without the spaces
-- around it, and whose next record has one, gives the packages that the later records have at the
-- position of the first such field, in their order: of each record that is long enough and whose
-- field there is not blank, what parsePURL makes of that field without the spaces around it.
pub parse_csv-header :
    (to_lower trim_space : Text → Text) (before : List (List Text)) (left : List Text)
    (field : Text) (right : List Text) (rows : List (List Text))
    → All (λ row. any (is_purl_header to_lower trim_space) row ≡ false) before
    → any (is_purl_header to_lower trim_space) left ≡ false
    → is_purl_header to_lower trim_space field ≡ true
    → parse_csv to_lower trim_space none (map some (before ++ ((left ++ (field ∷ right)) ∷ rows)))
      ≡ parsed (packages_at trim_space (length left) rows)
unfolding parse_csv
parse_csv-header to_lower trim_space [] left field right rows h l e =
    rw (find_column-some to_lower trim_space left field right l e, parse_csv)
      (parse_csv-rows to_lower trim_space (length left) rows)
parse_csv-header to_lower trim_space (row ∷ before) left field right rows h l e =
    rw (find_column-none to_lower trim_space row h.0, parse_csv)
      (parse_csv-header to_lower trim_space before left field right rows h.1 l e)
