-- ===== src/Examples/Manifests.antt =====
-- Manifests, a catalog, and slices.
use content_sources_backend.Common.{
  refl, true, false, not, none, some, List, Text, codes, map, any, All, length, text_eq, has_code,
  ◌≡◌, ◌&&◌, ◌++◌, ◌∷◌, if◌then◌else◌, [],
}
use content_sources_backend.Coverage.{Package, python}
use content_sources_backend.Coverage.Matcher.{
  build_index, exact, match_catalog, match_package, partial, unmatched,
}
use content_sources_backend.Coverage.Matcher.Names.{
  has_name, has_version, match_package-build_index,
}
use content_sources_backend.Coverage.Matcher.Summaries.{
  is_exact, is_partial, is_unmatched, match_catalog-counts, number,
}
use content_sources_backend.Coverage.Parser.{parse_csv, parse_purl, parsed}
use content_sources_backend.Coverage.Parser.Purls.{is_bare, named, parse_purl-print, print, type_of}
use content_sources_backend.Coverage.Parser.Records.{packages_at, is_purl_header, parse_csv-header}

abbrev same : Text → Text
same t = t

abbrev flask : Package
flask = record { ecosystem = python; name = codes "flask_a"; version = codes "2"; namespace = [] }

abbrev django : Package
django = record flask { name = codes "django"; version = codes "4" }

abbrev catalog : List Package
catalog = record flask { name = codes "flask-a" } ∷ []

bare_org : is_bare (codes "org") ≡ true
unfolding has_code
bare_org = refl

bare_core : is_bare (codes "core") ≡ true
unfolding has_code
bare_core = refl

bare_version : is_bare (codes "5.3") ≡ true
unfolding has_code
bare_version = refl

no_slash : has_code 47 (codes "core") ≡ false
unfolding has_code
no_slash = refl

no_at : has_code 64 (codes "5.3") ≡ false
unfolding has_code
no_at = refl

filled : text_eq (codes "core") [] ≡ false
unfolding text_eq
filled = refl

-- A report with a title row.
abbrev title_rows : List (List Text)
title_rows = (codes "report" ∷ []) ∷ []

abbrev rows : List (List Text)
rows = (codes "1" ∷ codes "pkg:pypi/flask@3" ∷ []) ∷ (codes "2" ∷ []) ∷ []

untitled : All (λ row. any (is_purl_header same same) row ≡ false) title_rows
unfolding text_eq
untitled = (refl, tt)

unheaded : any (is_purl_header same same) (codes "id" ∷ []) ≡ false
unfolding text_eq
unheaded = refl

headed : is_purl_header same same (codes "packageurl") ≡ true
unfolding text_eq
headed = refl

abbrev tags : List Text
tags = codes "a" ∷ codes "b" ∷ codes "a" ∷ []

abbrev other_tags : List Text
other_tags = codes "b" ∷ []

match_package-build_index_example :
    match_package same flask (build_index same catalog).0 (build_index same catalog).1 ≡ (
      if not (text_eq flask.version []) && any (has_version same flask) catalog
      then exact
      else if any (has_name same flask) catalog
      then partial
      else unmatched)
match_package-build_index_example = match_package-build_index same flask catalog

match_catalog-counts_example :
    let (results, summary) = match_catalog same catalog (flask ∷ django ∷ []) 5 in
    (map (λ r. r.0) results ≡ (flask ∷ django ∷ []))
    × (summary.counts.total ≡ length (flask ∷ django ∷ []))
    × (summary.counts.exact_matches ≡ number is_exact results)
    × (summary.counts.partial_matches ≡ number is_partial results)
    × (summary.counts.not_matched ≡ number is_unmatched results)
match_catalog-counts_example = match_catalog-counts same catalog (flask ∷ django ∷ []) 5

parse_purl-print_example :
    parse_purl (
      type_of true
      ++ (print (codes "org") (codes "core") (codes "5.3") ++ (63 ∷ (codes "type=jar"))))
    ≡ some (record {
      ecosystem = named true;
      name = (codes "core");
      version = (codes "5.3");
      namespace = (codes "org");
    })
parse_purl-print_example =
    parse_purl-print true (codes "org") (codes "core") (codes "5.3") (codes "type=jar") bare_org
      bare_core bare_version no_slash no_at filled

parse_csv-header_example :
    parse_csv same same none
      (map some (title_rows ++ (((codes "id" ∷ []) ++ (codes "packageurl" ∷ [])) ∷ rows)))
    ≡ parsed (packages_at same (length (codes "id" ∷ [])) rows)
parse_csv-header_example =
    parse_csv-header same same title_rows (codes "id" ∷ []) (codes "packageurl") [] rows untitled
      unheaded headed
