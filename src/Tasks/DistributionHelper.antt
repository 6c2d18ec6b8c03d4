-- ===== src/Tasks/DistributionHelper.antt =====
-- pkg/tasks/helpers/pulp_distribution_helper.go: the distributions that serve a snapshot, and their
-- content guards.
pub mod Contract
pub mod Guards
use content_sources_backend.Common.{
  ℕ, Bool, true, false, not, ◌&&◌, ◌||◌, Option, none, some, List, [], ◌∷◌, ◌++◌, Text, codes,
  if◌then◌else◌, text_eq, is_none,
}
use content_sources_backend.Slices
use content_sources_backend.Middleware.{red_hat_org, community_org}
use content_sources_backend.Tasks.Effects.{
  Error, no_distribution_href, refusing_unpublished, Result, ok, err, Action, pure, throw, ◌>>=◌,
  require, deref,
}
use content_sources_backend.Tasks.Pulp.{
  TaskResponse, Distribution, PulpClient, select_rpm_distribution_href,
}
use content_sources_backend.Tasks.Features.{parse_features, is_empty}

abbrev pub subscription_features_ignored : List Text
subscription_features_ignored = codes "RHEL-OS-x86_64" ∷ [] ∷ codes "lightwell-network-demo" ∷ []

-- What the tasks read of api.RepositoryResponse and models.Snapshot.
pub record Repository : Type 0 where
  pub uuid : Text
  pub name : Text
  pub org_id : Text
  pub gpg_key : Text
  pub module_hotfixes : Bool
  pub has_last_snapshot : Bool
  pub feature_name : Text
  pub url : Text
  pub origin : Text
  pub label : Text
  pub extended_release : Text
  pub partner : Bool

pub record Snapshot : Type 0 where
  pub uuid : Text
  pub version_href : Text
  pub publication_href : Text
  pub distribution_path : Text
  pub repository_path : Text
  pub distribution_href : Text
  pub repository_configuration_uuid : Text
  pub published : Bool
  pub content_counts : List (Text × ℕ)
  pub added_counts : List (Text × ℕ)
  pub removed_counts : List (Text × ℕ)

unfoldable pub get_latest_repo_dist_path : Text → Text
get_latest_repo_dist_path repo_uuid = repo_uuid ++ codes "/latest"

abbrev pub should_update_latest_distribution_on_create : Repository → Bool
should_update_latest_distribution_on_create repo = not repo.partner

unfoldable pub distribution_update_needed : Distribution → Text → Option Text → Bool
unfolding Slices.optional_strings_equal
distribution_update_needed existing publication_href content_guard_href =
    if not (Slices.optional_strings_equal text_eq existing.content_guard content_guard_href)
    then true
    else elim existing.publication [
      | none ↦ true
      | some publication ↦ not (text_eq publication publication_href)
    ]

-- A distribution's href and the href of the task that wrote it.
abbrev pub Hrefs : Type 0
Hrefs = Text × Text

abbrev task_href : TaskResponse → Text
task_href task = elim task.pulp_href [ none ↦ [] | some href ↦ href ]

-- repo_content_guards is config.Get().Clients.Pulp.RepoContentGuards.
module _ {W : Type 0} (repo_content_guards : Bool) (pulp : PulpClient W) where
  unfoldable pub fetch_content_guard : Text → Text → Action W (Option Text)
  fetch_content_guard org_id feature =
      if not repo_content_guards
      then pure none
      else if text_eq org_id red_hat_org || text_eq org_id community_org
      then if not (is_empty (parse_features feature))
          && not
              (Slices.all_strings_in text_eq (parse_features feature) subscription_features_ignored)
        then (pulp.create_or_update_guards_for_rhel_repo feature >>= λ href. pure (some href))
        else pure none
      else pulp.create_or_update_guards_for_org org_id >>= λ href. pure (some href)

  unfoldable pub create_distribution_guarded :
      Text → Text → Text → Option Text → Action W TaskResponse
  create_distribution_guarded publication_href name path guard' = do
    href ← pulp.create_rpm_distribution publication_href name path guard'
    pulp.poll_task href

  unfoldable pub update_distribution_guarded :
      Text → Text → Text → Text → Option Text → Action W TaskResponse
  update_distribution_guarded dist_href publication_href name path guard' = do
    href ← pulp.update_rpm_distribution dist_href publication_href name path guard'
    pulp.poll_task href

  unfoldable pub create_distribution : Repository → Text → Text → Text → Action W TaskResponse
  unfolding fetch_content_guard create_distribution_guarded
  create_distribution repo publication_href name path = do
    content_guard ← fetch_content_guard repo.org_id repo.feature_name
    create_distribution_guarded publication_href name path content_guard

  unfoldable pub update_distribution :
      Repository → Text → Text → Text → Text → Action W TaskResponse
  unfolding fetch_content_guard update_distribution_guarded
  update_distribution repo dist_href publication_href name path = do
    content_guard ← fetch_content_guard repo.org_id repo.feature_name
    update_distribution_guarded dist_href publication_href name path content_guard

  -- The branch of a path that has no distribution.
  unfoldable pub create_missing : Text → Text → Text → Option Text → Action W Hrefs
  unfolding create_distribution_guarded select_rpm_distribution_href
  create_missing publication_href name path content_guard = do
    task ← create_distribution_guarded publication_href name path content_guard
    href ← require (select_rpm_distribution_href (some task)) no_distribution_href
    pure (href, task_href task)

  -- The branch of a path that has one.
  unfoldable pub reconcile : Distribution → Text → Text → Text → Option Text → Action W Hrefs
  unfolding distribution_update_needed update_distribution_guarded
  reconcile existing publication_href name path content_guard =
      if not (distribution_update_needed existing publication_href content_guard)
      then pure ([], [])
      else update_distribution_guarded existing.pulp_href publication_href name path content_guard
        >>= λ task. pure (existing.pulp_href, task_href task)

  abbrev pub create_or_reconcile :
      Option Distribution → Text → Text → Text → Option Text → Action W Hrefs
  create_or_reconcile none publication_href name path content_guard =
      create_missing publication_href name path content_guard
  create_or_reconcile (some existing) publication_href name path content_guard =
      reconcile existing publication_href name path content_guard

  unfoldable pub create_or_update_guarded : Text → Text → Text → Option Text → Action W Hrefs
  unfolding create_missing reconcile
  create_or_update_guarded publication_href name path content_guard = do
    existing ← pulp.find_distribution_by_path path
    create_or_reconcile existing publication_href name path content_guard

  unfoldable pub create_or_update_distribution : Repository → Text → Text → Text → Action W Hrefs
  unfolding fetch_content_guard create_or_update_guarded
  create_or_update_distribution repo publication_href name path = do
    content_guard ← fetch_content_guard repo.org_id repo.feature_name
    create_or_update_guarded publication_href name path content_guard

  unfoldable pub create_or_update_unguarded_distribution : Text → Text → Text → Action W Hrefs
  unfolding create_or_update_guarded
  create_or_update_unguarded_distribution publication_href name path =
      create_or_update_guarded publication_href name path none

  unfoldable pub create_or_update_latest_distribution : Repository → Text → Action W Hrefs
  unfolding create_or_update_distribution get_latest_repo_dist_path
  create_or_update_latest_distribution repo publication_href =
      create_or_update_distribution repo publication_href repo.uuid
        (get_latest_repo_dist_path repo.uuid)

  unfoldable pub create_or_update_template_distribution :
      Repository → Snapshot → Text → Text → Text → Action W Hrefs
  unfolding create_or_update_unguarded_distribution create_or_update_distribution
  create_or_update_template_distribution repo snapshot template_org_id name path =
      if repo.partner && not (text_eq repo.org_id template_org_id)
      then if not snapshot.published
        then throw refusing_unpublished
        else create_or_update_unguarded_distribution snapshot.publication_href name path
      else create_or_update_distribution repo snapshot.publication_href name path

  abbrev pub href_or_create : Option Distribution → Repository → Text → Text → Text → Action W Text
  href_or_create (some existing) repo publication_href name path = pure existing.pulp_href
  href_or_create none repo publication_href name path = do
    task ← create_distribution repo publication_href name path
    href ← require (select_rpm_distribution_href (some task)) no_distribution_href
    deref task.pulp_href

  unfoldable pub find_or_create_distribution : Repository → Text → Text → Text → Action W Text
  unfolding create_distribution select_rpm_distribution_href
  find_or_create_distribution repo publication_href name path = do
    existing ← pulp.find_distribution_by_path path
    href_or_create existing repo publication_href name path
