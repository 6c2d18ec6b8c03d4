-- ===== src/RepositoryConfiguration/Accepted.antt =====
-- What a repository configuration is that BeforeCreate accepts
-- (pkg/models/repository_configuration.go).
use content_sources_backend.Common.{
  ◌≡◌, Bool, true, false, not, ◌&&◌, ◌||◌, leb, ◌==◌, some, List, [], ◌∷◌, Text, if◌then◌else◌,
  text_eq, length,
}
use content_sources_backend.Slices
use content_sources_backend.Distributions
use content_sources_backend.Distributions.{distribution_versions}
use content_sources_backend.Tasks.Features.{is_empty}
use content_sources_backend.Tasks.Features.Sorted.{Ascends}
use content_sources_backend.RepositoryConfiguration.{RepositoryConfiguration, any_version, any_arch}

-- Letters, digits, colons and underscores.
unfoldable pub label_chars : Text → Bool
label_chars [] = true
label_chars (c ∷ t) =
    ((leb b'a' c && leb c b'z')
      || ((leb b'A' c && leb c b'Z') || ((leb b'0' c && leb c b'9') || (c == b':' || c == b'_'))))
    && label_chars t

-- What the stored configuration `r` is, for the versions and the arch that are given.
pub IsNormal : List Text → Text → RepositoryConfiguration → Type 0
IsNormal given arch r =
    (vs : List Text) × (r.versions ≡ some vs)
    × Ascends vs
    × ((x : Text)
        → (Slices.contains text_eq vs x
            ≡ (if is_empty given then text_eq x any_version else Slices.contains text_eq given x)))
    × ((x : Text)
        → Slices.contains text_eq vs x ≡ true
        → Distributions.has_label distribution_versions x ≡ true)
    × ((not (Slices.contains text_eq vs any_version) || length vs == 1) ≡ true)
    × (r.arch ≡ (if text_eq arch [] then any_arch else arch))
    × (Distributions.valid_arch_label r.arch ≡ true)
    × (text_eq r.name [] ≡ false)
