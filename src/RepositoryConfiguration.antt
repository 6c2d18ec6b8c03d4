-- ===== src/RepositoryConfiguration.antt =====
-- What a repository configuration is made to be before it is stored
-- (pkg/models/repository_configuration.go): its label, its versions and arch, and the checks. The
-- count of the rows with a label, the random suffix and the scan of an array by lib/pq are
-- arguments.
pub mod Accepted
use content_sources_backend.Common.{
  ℕ, Bool, true, false, not, ◌&&◌, ◌||◌, leb, ltb, ◌==◌, Option, none, some, List, [], ◌∷◌, ◌++◌,
  Text, codes, if◌then◌else◌, text_eq, length,
}
use content_sources_backend.Slices
use content_sources_backend.Distributions
use content_sources_backend.Middleware.{red_hat_org, community_org}
use content_sources_backend.Repository.{Origin, is_upload}
use content_sources_backend.Tasks.Features.{sort}

abbrev pub any_version : Text
any_version = codes "any"

abbrev pub any_arch : Text
any_arch = codes "any"

-- The fields that BeforeCreate reads or writes. The versions may be nil.
pub record RepositoryConfiguration : Type 0 where
  pub uuid : Text
  pub name : Text
  pub versions : Option (List Text)
  pub arch : Text
  pub label : Text
  pub org_id : Text
  pub repository_uuid : Text
  pub repository_origin : Origin
  pub snapshot : Bool
  pub extended_release : Text
  pub extended_release_version : Text

-- The messages of validate, and the error of SetLabel.
pub data ValidationError : Type 0 where
  name_blank org_id_blank repository_uuid_blank any_and_others snapshot_required : ValidationError
  arch_invalid version_invalid extended_release_version_invalid extended_release_invalid :
      Text → ValidationError

-- A nil slice and an empty one are ranged over alike.
abbrev pub elements : Option (List Text) → List Text
elements none = []
elements (some versions) = versions

abbrev pub is_red_hat : RepositoryConfiguration → Bool
is_red_hat rc = text_eq rc.org_id red_hat_org

abbrev pub is_community : RepositoryConfiguration → Bool
is_community rc = text_eq rc.org_id community_org

-- The code points that the expression [^a-zA-Z0-9:space] does not match: the letters of "space" are
-- among a-z, and the colon is one.
abbrev pub keeps_char : ℕ → Bool
keeps_char c =
    (leb 97 c && leb c 122) || (leb 65 c && leb c 90) || (leb 48 c && leb c 57) || c == 58

unfoldable pub label_of : Text → Text
label_of [] = []
label_of (c ∷ name) = (if keeps_char c then c else 95) ∷ label_of name

-- The error that SetLabel returns is that of regexp.Compile, also where the count fails, and that
-- expression compiles. `count` gives none where the query fails.
unfoldable pub set_label :
    (Text → Text → Option ℕ) → Text → RepositoryConfiguration → RepositoryConfiguration
unfolding label_of
set_label count random rc =
    if is_red_hat rc
    then rc
    else if is_community rc
    then rc
    else elim (count rc.org_id (label_of rc.name)) [
      | none ↦ rc
      | some found ↦
          if ltb 0 found
          then record rc { label = label_of rc.name ++ codes "_" ++ random }
          else record rc { label = label_of rc.name }
    ]

-- The loop keeps the first of each version, as Deduplicate does.
unfoldable pub dedupe_versions : RepositoryConfiguration → RepositoryConfiguration
unfolding Slices.deduplicate sort
dedupe_versions rc = record rc {
  versions = some (sort (Slices.deduplicate text_eq (elements rc.versions)));
}

abbrev pub is_empty_slice : Option (List Text) → Bool
is_empty_slice none = false
is_empty_slice (some []) = true
is_empty_slice (some (v ∷ versions)) = false

unfoldable pub replace_empty_values :
    (Text → List Text) → RepositoryConfiguration → RepositoryConfiguration
replace_empty_values scan rc = record rc {
  versions =
      if is_empty_slice rc.versions
      then some (scan (codes "{" ++ any_version ++ codes "}"))
      else rc.versions;
  arch = if text_eq rc.arch [] then any_arch else rc.arch;
}

unfoldable pub version_contains_any_and_others : List Text → Bool
unfolding Slices.contains
version_contains_any_and_others arr =
    if leb (length arr) 1 then false else Slices.contains text_eq arr any_version

unfoldable pub validate : RepositoryConfiguration → Option ValidationError
unfolding Distributions.valid_arch_label Distributions.valid_distribution_version_labels
    Distributions.valid_distribution_minor_version_label Distributions.valid_extended_release_label
    version_contains_any_and_others
validate rc =
    if text_eq rc.name []
    then some name_blank
    else if text_eq rc.org_id []
    then some org_id_blank
    else if text_eq rc.repository_uuid []
    then some repository_uuid_blank
    else if not (text_eq rc.arch []) && not (Distributions.valid_arch_label rc.arch)
    then some (arch_invalid rc.arch)
    else if ltb 0 (length (elements rc.versions))
        && not (Distributions.valid_distribution_version_labels (elements rc.versions)).0
    then some
        (version_invalid (Distributions.valid_distribution_version_labels (elements rc.versions)).1)
    else if version_contains_any_and_others (elements rc.versions)
    then some any_and_others
    else if not (text_eq rc.extended_release_version [])
        && not (Distributions.valid_distribution_minor_version_label rc.extended_release_version)
    then some (extended_release_version_invalid rc.extended_release_version)
    else if not (text_eq rc.extended_release [])
        && not (Distributions.valid_extended_release_label rc.extended_release)
    then some (extended_release_invalid rc.extended_release)
    else if is_upload rc.repository_origin && not rc.snapshot
    then some snapshot_required
    else none

-- The error, and the configuration as the hook leaves it, on an error too. gorm's SetColumn sets the
-- field of the configuration that is created.
unfoldable pub before_create :
    (Text → Text → Option ℕ)
    → Text
    → (Text → List Text)
    → Text
    → RepositoryConfiguration
    → Option ValidationError × RepositoryConfiguration
unfolding set_label dedupe_versions replace_empty_values validate
before_create count random scan uuid rc =
    let named = set_label count random (record rc { uuid = uuid }) in
    let filled = replace_empty_values scan (dedupe_versions named) in (validate filled, filled)
