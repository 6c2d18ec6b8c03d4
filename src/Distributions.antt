-- ===== src/Distributions.antt =====
-- The distributions that a repository may name (pkg/config/value_constraints.go): the labels of its
-- tables, and the checks of labels against them.
pub mod Labels
use content_sources_backend.Common.{
  Bool, true, false, not, List, [], ◌∷◌, Text, codes, if◌then◌else◌, text_eq,
}
use content_sources_backend.Slices

-- The labels of DistributionVersions, DistributionArches and DistributionMinorVersions, and the keys
-- of ExtendedReleaseStreamNames.
abbrev pub distribution_versions : List Text
distribution_versions = codes "any" ∷ codes "7" ∷ codes "8" ∷ codes "9" ∷ codes "10" ∷ []

abbrev pub distribution_arches : List Text
distribution_arches =
    codes "any" ∷ codes "aarch64" ∷ codes "ppc64le" ∷ codes "s390x" ∷ codes "x86_64" ∷ []

abbrev pub distribution_minor_versions : List Text
distribution_minor_versions =
    codes "8.6"
    ∷ codes "8.8"
    ∷ codes "9.0"
    ∷ codes "9.2"
    ∷ codes "9.4"
    ∷ codes "9.6"
    ∷ codes "9.8"
    ∷ codes "10.0"
    ∷ codes "10.2"
    ∷ []

abbrev pub extended_release_stream_names : List Text
extended_release_stream_names = codes "eus" ∷ codes "e4s" ∷ codes "eeus" ∷ []

-- The loops over a table.
unfoldable pub has_label : List Text → Text → Bool
has_label [] label = false
has_label (known ∷ table) label = if text_eq known label then true else has_label table label

unfoldable pub valid_distribution_version_labels : List Text → Bool × Text
unfolding has_label
valid_distribution_version_labels [] = (true, [])
valid_distribution_version_labels (label ∷ labels) =
    if not (has_label distribution_versions label)
    then (false, label)
    else valid_distribution_version_labels labels

unfoldable pub valid_arch_label : Text → Bool
unfolding has_label
valid_arch_label label = has_label distribution_arches label

unfoldable pub valid_distribution_minor_version_label : Text → Bool
unfolding has_label
valid_distribution_minor_version_label label = has_label distribution_minor_versions label

unfoldable pub valid_extended_release_label : Text → Bool
unfolding has_label
valid_extended_release_label label = has_label extended_release_stream_names label
