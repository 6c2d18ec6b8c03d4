-- ===== src/Tasks/TemplateUpdate.antt =====
-- pkg/tasks/update_template_content.go: RunPulp, which gives each repository of a template a
-- distribution that serves the snapshot of the template's date.
use content_sources_backend.Common.{
  ℕ, Bool, true, false, Option, none, some, List, [], ◌∷◌, ◌++◌, Text, if◌then◌else◌, text_eq,
}
use content_sources_backend.TextMap.{assign}
use content_sources_backend.Tasks.Effects.{
  no_snapshot_found, Result, Action, pure, ◌>>=◌, ◌>>◌, require, deref, when_some, lift_result,
}
use content_sources_backend.Tasks.Pulp.{PulpClient}
use content_sources_backend.Tasks.DistributionHelper.{
  Repository, Snapshot, create_or_update_template_distribution,
}
use content_sources_backend.Tasks.TemplateContent.{
  Template, Update, Reads, repository_domain, get_dist_path_and_name,
}

-- repoConfigDistributionHref.
abbrev pub Hrefs : Type 0
Hrefs = List (Text × Text)

-- What GetRepoChanges tells; a nil slice is an empty one.
pub record RepoChanges : Type 0 where
  pub added : List Text
  pub removed : List Text
  pub unchanged : List Text
  pub all : List Text

-- The calls of dao.TemplateDao and dao.SnapshotDao.
pub record TemplateDao (W : Type 0) : Type 0 where
  pub get_repo_changes : Text → List Text → Action W RepoChanges
  pub get_distribution_href : Text → Text → Action W (Option Text)
  pub delete_template_repo_configs : Text → List Text → Action W (Unit {0})
  pub update_distribution_hrefs : Text → List Text → List Snapshot → Hrefs → Action W (Unit {0})
  pub update_snapshots : Text → List Text → List Snapshot → Action W (Unit {0})
  pub fetch_snapshots_by_date : Text → ℕ → List Text → Action W (List Snapshot)

-- What a task knows from its start: its organisation and the domains of the organisations, the
-- client of each domain (WithDomain), the clock, and config.Get() and net/url as parameters.
pub record Setting (W : Type 0) : Type 0 where
  pub org_id : Text
  pub domain_name : Text
  pub rh_domain_name : Text
  pub community_domain_name : Text
  pub pulp : Text → PulpClient W
  pub reads : Reads W
  pub dao : TemplateDao W
  pub now : Action W ℕ
  pub repo_content_guards : Bool
  pub content_path : Text → Result Text

unfoldable pub find_snapshot : Text → List Snapshot → Option Snapshot
find_snapshot repo_config_uuid [] = none
find_snapshot repo_config_uuid (s ∷ snapshots) =
    if text_eq s.repository_configuration_uuid repo_config_uuid
    then some s
    else find_snapshot repo_config_uuid snapshots

abbrev is_empty : List Text → Bool
is_empty [] = true
is_empty (x ∷ xs) = false

module _ {W : Type 0} (s : Setting W) where
  -- The client that configurePulpClientForRepo leaves.
  unfoldable pub client_for : Repository → Action W (PulpClient W)
  unfolding repository_domain
  client_for repo = do
    domain ←
        repository_domain s.reads repo s.org_id s.domain_name s.rh_domain_name
          s.community_domain_name
    pure (s.pulp domain)

  unfoldable pub add_repo : Text → List Snapshot → Text → Hrefs → Action W Hrefs
  unfolding client_for find_snapshot get_dist_path_and_name
  add_repo template_uuid snapshots repo_config_uuid hrefs = do
    repo ← s.reads.fetch_without_org_id repo_config_uuid
    client ← client_for repo
    snapshot ← require (find_snapshot repo_config_uuid snapshots) no_snapshot_found
    (path, name) ← lift_result (get_dist_path_and_name s.content_path repo template_uuid)
    (href, _) ←
        create_or_update_template_distribution s.repo_content_guards client repo snapshot s.org_id
          name path
    pure (assign hrefs repo_config_uuid href)

  unfoldable pub handle_repos_added : Text → List Snapshot → List Text → Hrefs → Action W Hrefs
  unfolding add_repo
  handle_repos_added template_uuid snapshots [] hrefs = pure hrefs
  handle_repos_added template_uuid snapshots (r ∷ rs) hrefs = do
    more ← add_repo template_uuid snapshots r hrefs
    handle_repos_added template_uuid snapshots rs more

  abbrev pub keep_snapshot :
      Text → Text → Option Snapshot → Repository → PulpClient W → Hrefs → Action W Hrefs
  keep_snapshot template_uuid r none repo client hrefs = pure hrefs
  keep_snapshot template_uuid r (some snapshot) repo client hrefs = do
    (path, name) ← lift_result (get_dist_path_and_name s.content_path repo template_uuid)
    _ ←
        create_or_update_template_distribution s.repo_content_guards client repo snapshot s.org_id
          name path
    found ← client.find_distribution_by_path path
    distribution ← deref found
    pure (assign hrefs r distribution.pulp_href)

  unfoldable pub keep_repo : Text → List Snapshot → Text → Hrefs → Action W Hrefs
  unfolding client_for find_snapshot get_dist_path_and_name
  keep_repo template_uuid snapshots repo_config_uuid hrefs = do
    repo ← s.reads.fetch_without_org_id repo_config_uuid
    client ← client_for repo
    keep_snapshot template_uuid repo_config_uuid (find_snapshot repo_config_uuid snapshots) repo
        client hrefs

  unfoldable pub handle_repos_unchanged : Text → List Snapshot → List Text → Hrefs → Action W Hrefs
  unfolding keep_repo
  handle_repos_unchanged template_uuid snapshots [] hrefs = pure hrefs
  handle_repos_unchanged template_uuid snapshots (r ∷ rs) hrefs = do
    more ← keep_repo template_uuid snapshots r hrefs
    handle_repos_unchanged template_uuid snapshots rs more

  -- A null href ends the whole loop.
  abbrev pub delete_and_go_on :
      Option Text → PulpClient W → Action W (Unit {0}) → Action W (Unit {0})
  delete_and_go_on none client rest = pure tt
  delete_and_go_on (some href) client rest = do
    task ← client.delete_rpm_distribution href
    when_some task (λ t. client.poll_task t >> pure tt)
    rest

  unfoldable pub handle_repos_removed : Text → List Text → Action W (Unit {0})
  unfolding client_for
  handle_repos_removed template_uuid [] = pure tt
  handle_repos_removed template_uuid (r ∷ rs) =
      let rest = handle_repos_removed template_uuid rs in
      (s.reads.fetch_without_org_id r >>= λ repo. client_for repo >>= λ client.
      s.dao.get_distribution_href template_uuid r >>= λ href. delete_and_go_on href client rest)

  unfoldable pub remove_repos : Text → RepoChanges → Action W (Unit {0})
  unfolding handle_repos_removed
  remove_repos template_uuid changes =
      if is_empty changes.removed
      then pure tt
      else (handle_repos_removed template_uuid changes.removed
          >> s.dao.delete_template_repo_configs template_uuid (changes.unchanged ++ changes.added))

  unfoldable pub template_date : Template → Action W ℕ
  template_date template = if template.use_latest then s.now else pure template.date

  unfoldable pub run_pulp : Update → Action W (Unit {0})
  unfolding template_date handle_repos_added remove_repos handle_repos_unchanged
  run_pulp u =
      let id = u.payload.template_uuid in
      let wanted = u.payload.repo_config_uuids in
      if is_empty wanted
      then pure tt
      else (s.dao.get_repo_changes id wanted >>= λ changes. template_date u.template >>= λ date.
          s.dao.fetch_snapshots_by_date s.org_id date changes.all >>= λ snapshots.
          handle_repos_added id snapshots changes.added [] >>= λ added.
          remove_repos id changes >>= λ _.
          handle_repos_unchanged id snapshots changes.unchanged added >>= λ hrefs.
          s.dao.update_distribution_hrefs id wanted snapshots hrefs >>= λ _.
          s.dao.update_snapshots id wanted snapshots)
