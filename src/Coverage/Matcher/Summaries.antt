-- ===== src/Coverage/Matcher/Summaries.antt =====
-- The summary of a comparison (pkg/coverage/matcher/matcher.go).
use content_sources_backend.Common.{
  ℕ, suc, ◌+◌, ◌≡◌, refl, Bool, true, false, Option, none, some, List, [], ◌∷◌, Text, arith, map,
  ap, length, if◌then◌else◌,
}
use content_sources_backend.TextMap.{lookup, assign}
use content_sources_backend.Coverage.{Package}
use content_sources_backend.Coverage.Matcher.{
  MatchStatus, exact, partial, unmatched, EcosystemSummary, no_counts, count, entry_of, tally, sum,
  match_all, build_index, match_catalog,
}

-- How many results have a status that passes the test.
abbrev pub number : (MatchStatus → Bool) → List (Package × MatchStatus) → ℕ
number p [] = 0
number p ((pkg, status) ∷ results) = if p status then suc (number p results) else number p results

abbrev pub is_exact : MatchStatus → Bool
is_exact exact = true
is_exact _ = false

abbrev pub is_partial : MatchStatus → Bool
is_partial partial = true
is_partial _ = false

abbrev pub is_unmatched : MatchStatus → Bool
is_unmatched unmatched = true
is_unmatched _ = false

abbrev total_of : (EcosystemSummary → ℕ) → List (Text × EcosystemSummary) → ℕ
total_of field [] = 0
total_of field ((key, entry) ∷ entries) = field entry + total_of field entries

abbrev of_entry : (EcosystemSummary → ℕ) → Option EcosystemSummary → ℕ
of_entry field none = 0
of_entry field (some entry) = field entry

-- A field of the summaries and the statuses that it counts.
module _ (field : EcosystemSummary → ℕ) (counted : MatchStatus → Bool)
    (field-none : field no_counts ≡ 0)
    (field-count : (s : MatchStatus) (e : EcosystemSummary)
      → field (count s e) ≡ (if counted s then suc (field e) else field e)) where
  total_of-assign :
      (entries : List (Text × EcosystemSummary)) (key : Text) (entry : EcosystemSummary)
      → total_of field (assign entries key entry) + of_entry field (lookup entries key)
        ≡ total_of field entries + field entry
  unfolding assign lookup
  total_of-assign [] key entry = ground arith
  total_of-assign ((k, e) ∷ entries) key entry = ground (arith, total_of-assign entries key entry)

  total_of-tally :
      (results : List (Package × MatchStatus)) (entries : List (Text × EcosystemSummary))
      → total_of field (tally results entries) ≡ total_of field entries + number counted results
  unfolding tally
  total_of-tally [] entries = ground arith
  total_of-tally ((pkg, status) ∷ results) entries =
      let old = lookup entries pkg.ecosystem in
      let new = count status (entry_of old) in
      ground (
        arith,
        total_of-tally results (assign entries pkg.ecosystem new),
        total_of-assign entries pkg.ecosystem new,
        field-count status (entry_of old),
        field-none,
      )

-- The sums of the fields are the fields of the sum.
sum-fields :
    (entries : List (Text × EcosystemSummary))
    → ((sum entries).total ≡ total_of (λ e. e.total) entries)
      × ((sum entries).exact_matches ≡ total_of (λ e. e.exact_matches) entries)
      × ((sum entries).partial_matches ≡ total_of (λ e. e.partial_matches) entries)
      × ((sum entries).not_matched ≡ total_of (λ e. e.not_matched) entries)
unfolding sum
sum-fields [] = (refl, refl, refl, refl)
sum-fields ((key, entry) ∷ entries) =
    let ih = sum-fields entries in
    (ground (arith, ih), ground (arith, ih), ground (arith, ih), ground (arith, ih))

match_all-packages :
    (to_lower : Text → Text) (index : List Text × List Text) (parsed : List Package)
    → (map (λ r. r.0) (match_all to_lower index parsed) ≡ parsed)
      × (number (λ s. true) (match_all to_lower index parsed) ≡ length parsed)
unfolding match_all
match_all-packages to_lower index [] = (refl, refl)
match_all-packages to_lower index (pkg ∷ parsed) =
    let ih = match_all-packages to_lower index parsed in (ap (λ ps. pkg ∷ ps) ih.0, ap suc ih.1)

counted-total : (s : MatchStatus) (e : EcosystemSummary) → (count s e).total ≡ suc e.total
unfolding count
counted-total exact e = refl
counted-total partial e = refl
counted-total unmatched e = refl

counted-exact :
    (s : MatchStatus) (e : EcosystemSummary)
    → (count s e).exact_matches ≡ (if is_exact s then suc e.exact_matches else e.exact_matches)
unfolding count
counted-exact exact e = refl
counted-exact partial e = refl
counted-exact unmatched e = refl

counted-partial :
    (s : MatchStatus) (e : EcosystemSummary)
    → (count s e).partial_matches
      ≡ (if is_partial s then suc e.partial_matches else e.partial_matches)
unfolding count
counted-partial exact e = refl
counted-partial partial e = refl
counted-partial unmatched e = refl

counted-unmatched :
    (s : MatchStatus) (e : EcosystemSummary)
    → (count s e).not_matched ≡ (if is_unmatched s then suc e.not_matched else e.not_matched)
unfolding count
counted-unmatched exact e = refl
counted-unmatched partial e = refl
counted-unmatched unmatched e = refl

-- A comparison has a result for each package, in their order, and its summary counts the results:
-- all of them and those of each status, whatever the ecosystems of the packages.
pub match_catalog-counts :
    (to_lower : Text → Text) (catalog parsed : List Package) (at : ℕ)
    → let (results, summary) = match_catalog to_lower catalog parsed at in
      (map (λ r. r.0) results ≡ parsed)
      × (summary.counts.total ≡ length parsed)
      × (summary.counts.exact_matches ≡ number is_exact results)
      × (summary.counts.partial_matches ≡ number is_partial results)
      × (summary.counts.not_matched ≡ number is_unmatched results)
unfolding match_catalog
match_catalog-counts to_lower catalog parsed at =
    let results = match_all to_lower (build_index to_lower catalog) parsed in
    let (packages, all) = match_all-packages to_lower (build_index to_lower catalog) parsed in
    let (t, e, p, u) = sum-fields (tally results []) in
    (
      packages,
      omega
          (arith, t, total_of-tally (λ s. s.total) (λ s. true) refl counted-total results [], all),
      omega
          (arith, e, total_of-tally (λ s. s.exact_matches) is_exact refl counted-exact results []),
      omega (
        arith,
        p,
        total_of-tally (λ s. s.partial_matches) is_partial refl counted-partial results [],
      ),
      omega (
        arith,
        u,
        total_of-tally (λ s. s.not_matched) is_unmatched refl counted-unmatched results [],
      ),
    )
