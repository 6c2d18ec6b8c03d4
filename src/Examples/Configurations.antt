-- ===== src/Examples/Configurations.antt =====
-- Runs of the hooks of repository configurations.
use content_sources_backend.Common.{ℕ, true, Option, some, List, [], ◌∷◌, Text, codes}
use content_sources_backend.Repository.{external}
use content_sources_backend.RepositoryConfiguration.{RepositoryConfiguration, any_version}

abbrev custom : RepositoryConfiguration
custom = record {
  uuid = [];
  name = codes "my repo!";
  versions = some (codes "9" ∷ codes "8" ∷ codes "9" ∷ []);
  arch = [];
  label = [];
  org_id = codes "org";
  repository_uuid = codes "r1";
  repository_origin = external;
  snapshot = true;
  extended_release = [];
  extended_release_version = [];
}

-- The label is taken once.
abbrev taken : Text → Text → Option ℕ
taken org_id label = some 1

abbrev scan_any : Text → List Text
scan_any s = any_version ∷ []
