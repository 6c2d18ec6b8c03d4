-- ===== src/Coverage/Matcher.antt =====
-- The comparison of packages with a catalog (pkg/coverage/matcher/matcher.go). strings.ToLower is an
-- argument. A set of keys is the list of them, and a map the list of its entries.
pub mod Names
pub mod Summaries
use content_sources_backend.Common.{
  ℕ, suc, ◌+◌, Bool, true, false, not, ◌&&◌, ◌||◌, Option, none, some, List, [], ◌∷◌, ◌++◌, Text,
  codes, map, ◌==◌, if◌then◌else◌, text_eq,
}
use content_sources_backend.Slices
use content_sources_backend.TextMap.{lookup, assign}
use content_sources_backend.Coverage.{Package, java, python}

pub data MatchStatus : Type 0 where
  exact partial unmatched : MatchStatus

pub record EcosystemSummary : Type 0 where
  pub total : ℕ
  pub exact_matches : ℕ
  pub partial_matches : ℕ
  pub not_matched : ℕ

pub record MatchSummary : Type 0 where
  pub counts : EcosystemSummary
  pub ecosystem_coverage_summary : List (Text × EcosystemSummary)
  pub catalog_snapshot_at : ℕ

abbrev is_separator : ℕ → Bool
is_separator ch = (ch == 45) || (ch == 95) || (ch == 46)

-- The loop of normalizePythonName, with separatorWritten.
unfoldable pub collapse : Bool → Text → Text
collapse separator_written [] = []
collapse separator_written (ch ∷ name) =
    if is_separator ch
    then (if not separator_written then 45 ∷ collapse true name else collapse true name)
    else ch ∷ collapse false name

module _ (to_lower : Text → Text) where
  unfoldable pub normalize_python_name : Text → Text
  unfolding collapse
  normalize_python_name name = collapse false (to_lower name)

  unfoldable pub normalize_key : Package → Text
  unfolding normalize_python_name
  normalize_key pkg =
      if text_eq pkg.ecosystem python
      then normalize_python_name pkg.name
      else if text_eq pkg.ecosystem java
      then to_lower pkg.namespace ++ (codes ":" ++ to_lower pkg.name)
      else to_lower pkg.ecosystem ++ (codes ":" ++ to_lower pkg.name)

  unfoldable pub version_key : Package → Text
  unfolding normalize_key
  version_key pkg = normalize_key pkg ++ (codes ":" ++ pkg.version)

  -- The two sets of buildIndex.
  unfoldable pub build_index : List Package → List Text × List Text
  unfolding normalize_key version_key
  build_index [] = ([], [])
  build_index (pkg ∷ catalog) =
      let (names, versions) = build_index catalog in
      (
        normalize_key pkg ∷ names,
        if not (text_eq pkg.version []) then version_key pkg ∷ versions else versions,
      )

  unfoldable pub match_package : Package → List Text → List Text → MatchStatus
  unfolding normalize_key version_key Slices.contains
  match_package pkg names versions =
      if not (text_eq pkg.version []) && Slices.contains text_eq versions (version_key pkg)
      then exact
      else if Slices.contains text_eq names (normalize_key pkg)
      then partial
      else unmatched

  unfoldable pub match_all : List Text × List Text → List Package → List (Package × MatchStatus)
  unfolding match_package
  match_all index [] = []
  match_all index (pkg ∷ parsed) = (pkg, match_package pkg index.0 index.1) ∷ match_all index parsed

abbrev pub no_counts : EcosystemSummary
no_counts = record { total = 0; exact_matches = 0; partial_matches = 0; not_matched = 0 }

unfoldable pub count : MatchStatus → EcosystemSummary → EcosystemSummary
count exact entry = record entry {
  total = suc entry.total;
  exact_matches = suc entry.exact_matches;
}
count partial entry = record entry {
  total = suc entry.total;
  partial_matches = suc entry.partial_matches;
}
count unmatched entry = record entry {
  total = suc entry.total;
  not_matched = suc entry.not_matched;
}

abbrev pub entry_of : Option EcosystemSummary → EcosystemSummary
entry_of none = no_counts
entry_of (some entry) = entry

-- The entries after the loop over the packages.
unfoldable pub tally :
    List (Package × MatchStatus) → List (Text × EcosystemSummary) → List (Text × EcosystemSummary)
unfolding count lookup assign
tally [] entries = entries
tally ((pkg, status) ∷ results) entries =
    tally results
      (assign entries pkg.ecosystem (count status (entry_of (lookup entries pkg.ecosystem))))

unfoldable pub sum : List (Text × EcosystemSummary) → EcosystemSummary
sum [] = no_counts
sum ((key, entry) ∷ entries) =
    let rest = sum entries in
    record {
      total = entry.total + rest.total;
      exact_matches = entry.exact_matches + rest.exact_matches;
      partial_matches = entry.partial_matches + rest.partial_matches;
      not_matched = entry.not_matched + rest.not_matched;
    }

unfoldable pub match_catalog :
    (Text → Text) → List Package → List Package → ℕ → List (Package × MatchStatus) × MatchSummary
unfolding build_index match_all tally sum
match_catalog to_lower catalog parsed_packages snapshot_at =
    let results = match_all to_lower (build_index to_lower catalog) parsed_packages in
    let entries = tally results [] in
    (
      results,
      record {
        counts = sum entries;
        ecosystem_coverage_summary = entries;
        catalog_snapshot_at = snapshot_at;
      },
    )
