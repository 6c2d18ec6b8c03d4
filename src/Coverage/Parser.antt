-- ===== src/Coverage/Parser.antt =====
-- Manifests (pkg/coverage/parser). strings.ToLower, strings.TrimSpace and the readers of lines and of
-- CSV records are arguments.
pub mod Purls
pub mod Records
use content_sources_backend.Common.{
  ℕ, zero, suc, Bool, true, false, not, ◌&&◌, ◌||◌, Option, none, some, List, [], ◌∷◌, ◌++◌, Text,
  codes, ltb, length, ◌==◌, if◌then◌else◌, text_eq,
}
use content_sources_backend.Slices
use content_sources_backend.Coverage.{Package, java, python}

-- What is left after a prefix.
unfoldable pub cut_prefix : Text → Text → Option Text
cut_prefix [] t = some t
cut_prefix (p ∷ prefix) [] = none
cut_prefix (p ∷ prefix) (c ∷ t) = if p == c then cut_prefix prefix t else none

-- The texts around the first occurrence of a code point.
unfoldable pub cut : ℕ → Text → Option (Text × Text)
cut sep [] = none
cut sep (c ∷ t) =
    if c == sep
    then some ([], t)
    else elim (cut sep t) [ none ↦ none | some (before, after) ↦ some (c ∷ before, after) ]

-- The texts around the last occurrence of a code point.
unfoldable pub cut_last : ℕ → Text → Option (Text × Text)
cut_last sep [] = none
cut_last sep (c ∷ t) = elim (cut_last sep t) [
  | some (before, after) ↦ some (c ∷ before, after)
  | none ↦ if c == sep then some ([], t) else none
]

-- The text before the first of two code points.
unfoldable pub before_any : ℕ → ℕ → Text → Text
before_any a b [] = []
before_any a b (c ∷ t) =
    let rest = before_any a b t in if (c == a) || (c == b) then [] else c ∷ rest

-- The name and the version around the last @, and the namespace and the name around the last /.
abbrev pub or_whole : Option (Text × Text) → Text → Text × Text
or_whole (some parts) whole = parts
or_whole none whole = (whole, [])

abbrev pub or_none : Option (Text × Text) → Text → Text × Text
or_none (some parts) whole = parts
or_none none whole = ([], whole)

-- parsePURL after the type and its slash.
unfoldable pub parse_purl_rest : Text → Text → Option Package
unfolding before_any cut_last
parse_purl_rest ecosystem remainder =
    let whole = before_any 63 35 remainder in
    let (name_block, version) = or_whole (cut_last 64 whole) whole in
    let (namespace, name) = or_none (cut_last 47 name_block) name_block in
    if text_eq name []
    then none
    else some
        (record { ecosystem = ecosystem; name = name; version = version; namespace = namespace })

abbrev pub ecosystem_of : Text → Option Text
ecosystem_of type_part =
    if text_eq type_part (codes "maven")
    then some java
    else if text_eq type_part (codes "pypi")
    then some python
    else none

unfoldable pub parse_purl : Text → Option Package
unfolding cut_prefix cut parse_purl_rest
parse_purl raw = elim (cut_prefix (codes "pkg:") raw) [
  | none ↦ none
  | some rest ↦ elim (cut 47 rest) [
    | none ↦ none
    | some (type_part, remainder) ↦
        if text_eq remainder [] then none else elim (ecosystem_of type_part) [
          | none ↦ none
          | some ecosystem ↦ parse_purl_rest ecosystem remainder
        ]
  ]
]

unfoldable pub package_key : Package → Text
package_key p =
    p.ecosystem
    ++ (codes "|" ++ (p.namespace ++ (codes "|" ++ (p.name ++ (codes "|" ++ p.version)))))

-- The loop of deduplicate, with the keys seen so far.
unfoldable pub deduplicate_after : List Text → List Package → List Package
unfolding package_key Slices.contains
deduplicate_after seen [] = []
deduplicate_after seen (p ∷ pkgs) =
    if Slices.contains text_eq seen (package_key p)
    then deduplicate_after seen pkgs
    else p ∷ deduplicate_after (package_key p ∷ seen) pkgs

unfoldable pub deduplicate : List Package → List Package
unfolding deduplicate_after
deduplicate pkgs = deduplicate_after [] pkgs

-- Why a manifest is not parsed.
pub data ParseError : Type 0 where
  csv_read csv_missing_header : ParseError

-- The index of the first header named packageurl.
unfoldable pub find_column : (Text → Text) → List Text → Option ℕ
find_column clean [] = none
find_column clean (field ∷ row) =
    if text_eq (clean field) (codes "packageurl")
    then some 0
    else elim (find_column clean row) [ none ↦ none | some i ↦ some (suc i) ]

unfoldable pub column : ℕ → List Text → Option Text
column i [] = none
column zero (field ∷ row) = some field
column (suc i) (field ∷ row) = column i row

-- The package of one record, where it has one.
unfoldable pub row_package : (Text → Text) → ℕ → List Text → Option Package
unfolding column parse_purl
row_package trim_space col row = elim (column col row) [
  | none ↦ none
  | some field ↦ if text_eq (trim_space field) [] then none else parse_purl (trim_space field)
]

abbrev pub push : Option Package → List Package → List Package
push none packages = packages
push (some pkg) packages = pkg ∷ packages

pub data Parsed : Type 0 where
  refused : ParseError → Parsed
  parsed : List Package → Parsed

abbrev pub with_package : Option Package → Parsed → Parsed
with_package pkg (refused e) = refused e
with_package pkg (parsed packages) = parsed (push pkg packages)

-- parseCSV over what the reader gives: records, or none for an error that is not io.EOF. The column
-- is known once the header was met.
unfoldable pub parse_csv :
    (Text → Text) → (Text → Text) → Option ℕ → List (Option (List Text)) → Parsed
unfolding find_column row_package
parse_csv to_lower trim_space none [] = refused csv_missing_header
parse_csv to_lower trim_space (some col) [] = parsed []
parse_csv to_lower trim_space col (none ∷ rows) = refused csv_read
parse_csv to_lower trim_space none (some row ∷ rows) =
    parse_csv to_lower trim_space (find_column (λ field. trim_space (to_lower field)) row) rows
parse_csv to_lower trim_space (some col) (some row ∷ rows) =
    with_package (row_package trim_space col row) (parse_csv to_lower trim_space (some col) rows)
