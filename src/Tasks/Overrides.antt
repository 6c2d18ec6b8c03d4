-- ===== src/Tasks/Overrides.antt =====
-- The content overrides of an environment of Candlepin (pkg/tasks/candlepin_helpers.go).
pub mod Reconciled
use content_sources_backend.Common.{
  ℕ, Bool, true, false, not, ◌&&◌, ◌||◌, Option, none, some, List, [], ◌∷◌, ◌++◌, Text, codes,
  if◌then◌else◌, text_eq, any,
}
use content_sources_backend.Middleware.{red_hat_org}
use content_sources_backend.Tasks.Effects.{
  no_repo_configs, Result, ok, err, Action, pure, throw, ◌>>=◌, ◌>>◌, lift_result,
}
use content_sources_backend.Tasks.DistributionHelper.{Repository}
use content_sources_backend.Tasks.TemplateContent.{
  Template, Reads, repository_domain, normalize_extended_release_label, get_dist_path_and_name,
}

pub record Override : Type 0 where
  pub name : Text
  pub content_label : Text
  pub value : Text

abbrev pub origin_external : Text
origin_external = codes "external"

abbrev pub origin_upload : Text
origin_upload = codes "upload"

abbrev pub origin_community : Text
origin_community = codes "community"

abbrev pub same_override : Override → Override → Bool
same_override existing expected =
    text_eq existing.name expected.name && text_eq existing.content_label expected.content_label

unfoldable pub unneeded_overrides : List Override → List Override → List Override
unneeded_overrides [] expected = []
unneeded_overrides (o ∷ existing) expected =
    let rest = unneeded_overrides existing expected in
    if not (any (same_override o) expected) then o ∷ rest else rest

abbrev pub is_extended_release_repo : Repository → Bool
is_extended_release_repo repo =
    text_eq repo.org_id red_hat_org && not (text_eq repo.extended_release [])

unfoldable pub should_override_url : Repository → Bool
should_override_url repo =
    is_extended_release_repo repo
    || (text_eq repo.origin origin_external
        || (text_eq repo.origin origin_community || text_eq repo.origin origin_upload))

unfoldable pub override_label : Repository → Text
unfolding normalize_extended_release_label
override_label repo =
    if is_extended_release_repo repo
    then normalize_extended_release_label repo.label
    else repo.label

abbrev override : Text → Repository → Text → Override
override name repo value = record {
  name = name;
  content_label = override_label repo;
  value = value;
}

-- The overrides that every repository has.
unfoldable pub certificate_overrides : Repository → List Override
unfolding override_label
certificate_overrides repo =
    override (codes "sslcacert") repo (codes " ")
    ∷ override (codes "sslverifystatus") repo (codes "0")
    ∷ []

-- Those of a repository that is served from Pulp at a path.
unfoldable pub url_overrides : Repository → Text → List Override
unfolding override_label
url_overrides repo path =
    override (codes "baseurl") repo path
    ∷ (if repo.module_hotfixes
        then override (codes "module_hotfixes") repo (codes "1") ∷ []
        else [])

-- content_path is getRHRepoContentPath and join_path is url.JoinPath (net/url).
module _ (content_path : Text → Result Text) (join_path : List Text → Result Text) where
  abbrev pub with_path :
      Result (Text × Text) → (Text → Result (List Override)) → Result (List Override)
  with_path (err e) f = err e
  with_path (ok (path, name)) f = f path

  abbrev pub with_url : Result Text → (Text → Result (List Override)) → Result (List Override)
  with_url (err e) f = err e
  with_url (ok url) f = f url

  unfoldable pub content_overrides_for_repo :
      Text → Text → Text → Repository → Bool → Result (List Override)
  unfolding certificate_overrides url_overrides should_override_url get_dist_path_and_name
  content_overrides_for_repo domain template_uuid pulp_content_path repo require_last_snapshot =
      if require_last_snapshot && not repo.has_last_snapshot
      then ok []
      else if should_override_url repo
      then with_path (get_dist_path_and_name content_path repo template_uuid) (λ dist_path.
        with_url (join_path (pulp_content_path ∷ domain ∷ dist_path ∷ []))
          (λ url. ok (certificate_overrides repo ++ url_overrides repo url)))
      else ok (certificate_overrides repo)

  module _ {W : Type 0} (reads : Reads W) where
    unfoldable pub overrides_of_repos :
        Text → Text → Text → Text → Text → Template → List Text → Action W (List Override)
    unfolding content_overrides_for_repo repository_domain
    overrides_of_repos org domain rh_domain community_domain path template [] = pure []
    overrides_of_repos org domain rh_domain community_domain path template (r ∷ rs) = do
      repo ← reads.fetch_without_org_id r
      own ← repository_domain reads repo org domain rh_domain community_domain
      these ← lift_result (content_overrides_for_repo own template.uuid path repo false)
      rest ← overrides_of_repos org domain rh_domain community_domain path template rs
      pure (these ++ rest)

    unfoldable pub gen_override_dto :
        Text → Text → Text → Text → Text → Template → List Text → Action W (List Override)
    unfolding overrides_of_repos
    gen_override_dto org domain rh_domain community_domain path template [] = throw no_repo_configs
    gen_override_dto org domain rh_domain community_domain path template (r ∷ rs) =
        overrides_of_repos org domain rh_domain community_domain path template (r ∷ rs)

-- The overrides of an environment: FetchContentOverrides, RemoveContentOverrides and
-- UpdateContentOverrides of CandlepinClient.
pub record OverridesClient (W : Type 0) : Type 0 where
  pub fetch_content_overrides : Text → Action W (List Override)
  pub remove_content_overrides : Text → List Override → Action W (Unit {0})
  pub update_content_overrides : Text → List Override → Action W (Unit {0})

module _ {W : Type 0} (candlepin : OverridesClient W) where
  abbrev pub remove_listed : Text → List Override → Action W (Unit {0})
  remove_listed template_uuid [] = pure tt
  remove_listed template_uuid (o ∷ rest) =
      candlepin.remove_content_overrides template_uuid (o ∷ rest)

  unfoldable pub remove_uneeded_overrides : Text → List Override → Action W (Unit {0})
  unfolding unneeded_overrides
  remove_uneeded_overrides template_uuid expected = do
    existing ← candlepin.fetch_content_overrides template_uuid
    remove_listed template_uuid (unneeded_overrides existing expected)
