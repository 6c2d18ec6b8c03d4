-- ===== src/Coverage/Parser/Purls.antt =====
-- Package URLs that are printed and parsed (pkg/coverage/parser/purl.go).
use content_sources_backend.Common.{
  ℕ, ◌≡◌, refl, Bool, true, false, not, ◌&&◌, ◌||◌, none, some, [], ◌∷◌, ◌++◌, Text, codes, arith,
  ◌==◌, text_eq, has_code,
}
use content_sources_backend.Coverage.{java, python}
use content_sources_backend.Coverage.Parser.{
  cut_prefix, cut, cut_last, before_any, parse_purl_rest, parse_purl,
}

cut_last-absent : (sep : ℕ) (t : Text) → has_code sep t ≡ false → cut_last sep t ≡ none
unfolding cut_last has_code
cut_last-absent sep [] h = refl
cut_last-absent sep (c ∷ t) h = ground (arith, cut_last-absent sep t)

cut_last-joined :
    (sep : ℕ) (s t : Text) → has_code sep t ≡ false → cut_last sep (s ++ (sep ∷ t)) ≡ some (s, t)
unfolding cut_last
cut_last-joined sep [] t h = rw (cut_last-absent sep t h) (ground arith)
cut_last-joined sep (c ∷ s) t h = rw (cut_last-joined sep s t h) refl

before_any-absent :
    (a b : ℕ) (t u : Text)
    → has_code a t ≡ false
    → has_code b t ≡ false
    → before_any a b (t ++ (a ∷ u)) ≡ t
unfolding before_any has_code
before_any-absent a b [] u h k = ground arith
before_any-absent a b (c ∷ t) u h k = ground (arith, before_any-absent a b t u)

has_code-append :
    (c : ℕ) (s t : Text) → has_code c s ≡ false → has_code c t ≡ false → has_code c (s ++ t) ≡ false
unfolding has_code
has_code-append c [] t h k = k
has_code-append c (d ∷ s) t h k = ground (arith, has_code-append c s t)

-- A type of package URL and its ecosystem.
abbrev pub type_of : Bool → Text
type_of true = codes "pkg:maven/"
type_of false = codes "pkg:pypi/"

abbrev pub named : Bool → Text
named true = java
named false = python

abbrev pub print : Text → Text → Text → Text
print namespace name version = (namespace ++ (47 ∷ name)) ++ (64 ∷ version)

-- Neither a ? nor a #.
abbrev pub is_bare : Text → Bool
is_bare t = not (has_code 63 t) && not (has_code 35 t)

print-bare :
    (c : ℕ) (namespace name version : Text)
    → ((c == 47) || (c == 64)) ≡ false
    → has_code c namespace ≡ false
    → has_code c name ≡ false
    → has_code c version ≡ false
    → has_code c (print namespace name version) ≡ false
unfolding has_code
print-bare c namespace name version e h k l =
    has_code-append c (namespace ++ (47 ∷ name)) (64 ∷ version)
      (has_code-append c namespace (47 ∷ name) h (ground arith)) (ground arith)

parse_purl_rest-print :
    (ecosystem namespace name version qualifiers : Text)
    → is_bare namespace ≡ true
    → is_bare name ≡ true
    → is_bare version ≡ true
    → has_code 47 name ≡ false
    → has_code 64 version ≡ false
    → text_eq name [] ≡ false
    → parse_purl_rest ecosystem (print namespace name version ++ (63 ∷ qualifiers))
      ≡ some
          (record { ecosystem = ecosystem; name = name; version = version; namespace = namespace })
unfolding parse_purl_rest
parse_purl_rest-print ecosystem namespace name version qualifiers a b c d e f =
    rw
      (
        before_any-absent 63 35 (print namespace name version) qualifiers
            (print-bare 63 namespace name version refl (ground arith) (ground arith) (ground arith))
            (print-bare 35 namespace name version refl (ground arith) (ground arith)
              (ground arith)),
        cut_last-joined 64 (namespace ++ (47 ∷ name)) version e,
        cut_last-joined 47 namespace name d,
        f,
      )
      refl

print-filled :
    (namespace name version t : Text)
    → text_eq (print namespace name version ++ (63 ∷ t)) [] ≡ false
unfolding text_eq
print-filled [] name version t = refl
print-filled (c ∷ namespace) name version t = refl

-- A maven or pypi URL with a namespace, a name, a version and qualifiers is parsed into them, where
-- none of the first three has a ? or a #, the name is not empty and has no slash, and the version has
-- no @.
pub parse_purl-print :
    (maven : Bool) (namespace name version qualifiers : Text)
    → is_bare namespace ≡ true
    → is_bare name ≡ true
    → is_bare version ≡ true
    → has_code 47 name ≡ false
    → has_code 64 version ≡ false
    → text_eq name [] ≡ false
    → parse_purl (type_of maven ++ (print namespace name version ++ (63 ∷ qualifiers)))
      ≡ some (record {
        ecosystem = named maven;
        name = name;
        version = version;
        namespace = namespace;
      })
unfolding parse_purl cut_prefix cut text_eq
parse_purl-print true namespace name version qualifiers a b c d e f =
    rw (print-filled namespace name version qualifiers)
      (parse_purl_rest-print java namespace name version qualifiers a b c d e f)
parse_purl-print false namespace name version qualifiers a b c d e f =
    rw (print-filled namespace name version qualifiers)
      (parse_purl_rest-print python namespace name version qualifiers a b c d e f)
