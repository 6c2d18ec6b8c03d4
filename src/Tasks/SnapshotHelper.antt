-- ===== src/Tasks/SnapshotHelper.antt =====
-- pkg/tasks/snapshot_helper.go: turns a version of a repository into a snapshot, with a publication
-- and distributions in Pulp, and can be run again after an interruption.
pub mod Resumed
use content_sources_backend.Common.{
  ℕ, Bool, true, false, not, Option, none, some, List, [], ◌∷◌, ◌++◌, Text, codes, if◌then◌else◌,
  text_eq, is_none,
}
use content_sources_backend.Middleware.{red_hat_org}
use content_sources_backend.Tasks.Effects.{
  no_publication_task, no_publication_href, Result, ok, err, Action, pure, throw, ◌>>=◌, ◌>>◌, try,
  require, deref, when_some,
}
use content_sources_backend.Tasks.Pulp.{
  PulpClient, TaskResponse, Distribution, select_publication_href, select_rpm_distribution_href,
}
use content_sources_backend.Tasks.DistributionHelper.{
  Repository, Snapshot, get_latest_repo_dist_path, should_update_latest_distribution_on_create,
  create_or_update_distribution, create_or_update_latest_distribution,
}
use content_sources_backend.Tasks.SnapshotPublished.{is_not_found, delete_and_poll}

-- ResumableSnapshotInterface.
pub record Resumable (W : Type 0) : Type 0 where
  pub save_publication_task_href : Text → Action W (Unit {0})
  pub get_publication_task_href : W → Option Text
  pub save_distribution_task_href : Text → Action W (Unit {0})
  pub get_distribution_task_href : W → Option Text
  pub save_snapshot_ident : Text → Action W (Unit {0})
  pub get_snapshot_ident : W → Option Text
  pub save_snapshot_uuid : Text → Action W (Unit {0})
  pub get_snapshot_uuid : W → Option Text

-- zest.ContentSummaryResponse; a count that is no number is `none`.
pub record ContentSummary : Type 0 where
  pub present : List (Text × Option ℕ)
  pub added : List (Text × Option ℕ)
  pub removed : List (Text × Option ℕ)

-- The calls of dao.SnapshotDao, of Pulp for a version, and uuid.NewString.
pub record SnapshotServices (W : Type 0) : Type 0 where
  pub create : Snapshot → Action W Text
  pub delete : Text → Action W (Unit {0})
  pub set_detected_os_version : Text → Action W (Unit {0})
  pub fetch_latest_snapshot_for_distribution : Text → Action W Snapshot
  pub get_rpm_repository_version : Text → Action W (Option ContentSummary)
  pub new_ident : Action W Text

unfoldable pub counts : List (Text × Option ℕ) → List (Text × ℕ)
counts [] = []
counts ((content_type, none) ∷ items) = counts items
counts ((content_type, some num) ∷ items) = (content_type, num) ∷ counts items

abbrev pub no_counts : List (Text × ℕ)
no_counts = []

-- models.ContentSummaryToContentCounts.
unfoldable pub content_summary_to_content_counts :
    Option ContentSummary → List (Text × ℕ) × List (Text × ℕ) × List (Text × ℕ)
unfolding counts
content_summary_to_content_counts none = (no_counts, no_counts, no_counts)
content_summary_to_content_counts (some summary) =
    (counts summary.present, counts summary.added, counts summary.removed)

-- filepath.Join of a domain and a path of identifiers, in which there is nothing to clean.
abbrev pub repository_path : Text → Text → Text
repository_path domain path = if text_eq domain [] then path else domain ++ (codes "/" ++ path)

module _ {W : Type 0} (repo_content_guards : Bool) (pulp : PulpClient W) (payload : Resumable W)
    (services : SnapshotServices W) (repo : Repository) (domain_name : Text) where
  abbrev pub read : {A : Type 0} → (W → A) → Action W A
  read f w = (ok (f w), w)

  abbrev pub start_publication : Option Text → Text → Action W (Unit {0})
  start_publication (some href) version_href = pure tt
  start_publication none version_href = do
    created ← pulp.create_rpm_publication version_href
    href ← require created no_publication_task
    payload.save_publication_task_href href

  -- The branch without a publication: a task that was saved is resumed.
  unfoldable pub await_publication : Text → Action W Text
  unfolding select_publication_href
  await_publication version_href = do
    saved ← read payload.get_publication_task_href
    start_publication saved version_href
    current ← read payload.get_publication_task_href
    href ← deref current
    task ← pulp.poll_task href
    require (select_publication_href (some task)) no_publication_href

  abbrev pub publication_or_await : Option Text → Text → Action W Text
  publication_or_await (some href) version_href = pure href
  publication_or_await none version_href = await_publication version_href

  unfoldable pub find_or_create_publication : Text → Action W Text
  unfolding await_publication
  find_or_create_publication version_href = do
    publication ← pulp.find_rpm_publication_by_version version_href
    publication_or_await publication version_href

  abbrev pub identify : Option Text → Action W (Unit {0})
  identify (some ident) = pure tt
  identify none = services.new_ident >>= payload.save_snapshot_ident

  unfoldable pub update_latest : Text → Action W (Unit {0})
  unfolding create_or_update_latest_distribution
  update_latest publication_href =
      if should_update_latest_distribution_on_create repo
      then (create_or_update_latest_distribution repo_content_guards pulp repo publication_href
          >>= λ hrefs. pure tt)
      else pure tt

  unfoldable pub snapshot_of : Text → Text → Text → Text → Option ContentSummary → Snapshot
  unfolding content_summary_to_content_counts
  snapshot_of version_href publication_href path dist_href summary = record {
    uuid = [];
    version_href = version_href;
    publication_href = publication_href;
    distribution_path = path;
    repository_path = repository_path domain_name path;
    distribution_href = dist_href;
    repository_configuration_uuid = repo.uuid;
    published = false;
    content_counts = (content_summary_to_content_counts summary).0;
    added_counts = (content_summary_to_content_counts summary).1;
    removed_counts = (content_summary_to_content_counts summary).2;
  }

  -- From the saved ident on.
  unfoldable pub create_snapshot : Text → Text → Text → Action W (Unit {0})
  unfolding create_or_update_distribution update_latest snapshot_of
  create_snapshot version_href publication_href ident = do
    let path = repo.uuid ++ (codes "/" ++ ident)
    (dist_href, task_href) ←
        create_or_update_distribution repo_content_guards pulp repo publication_href ident path
    payload.save_distribution_task_href task_href
    update_latest publication_href
    summary ← services.get_rpm_repository_version version_href
    uuid ← services.create (snapshot_of version_href publication_href path dist_href summary)
    payload.save_snapshot_uuid uuid
    if text_eq repo.org_id red_hat_org then services.set_detected_os_version uuid else pure tt

  unfoldable pub run : Text → Action W (Unit {0})
  unfolding find_or_create_publication create_snapshot
  run version_href = do
    publication_href ← find_or_create_publication version_href
    saved ← read payload.get_snapshot_ident
    identify saved
    current ← read payload.get_snapshot_ident
    ident ← deref current
    create_snapshot version_href publication_href ident

  abbrev pub undo_distribution : Option Text → Action W (Unit {0})
  undo_distribution none = pure tt
  undo_distribution (some href) = do
    delete_and_poll pulp href
    payload.save_publication_task_href []
    payload.save_distribution_task_href []

  abbrev pub undo_task : Option Text → Action W (Unit {0})
  undo_task none = pure tt
  undo_task (some href) = do
    task ← pulp.get_task href
    undo_distribution (select_rpm_distribution_href (some task))

  abbrev pub settle_latest : Distribution → Result Snapshot → Action W (Unit {0})
  settle_latest dist (ok latest) = do
    _ ← create_or_update_latest_distribution repo_content_guards pulp repo latest.publication_href
    pure tt
  settle_latest dist (err e) =
      if is_not_found e then delete_and_poll pulp dist.pulp_href else throw e

  abbrev pub restore_latest : Option Distribution → Action W (Unit {0})
  restore_latest none = pure tt
  restore_latest (some dist) =
      try (services.fetch_latest_snapshot_for_distribution repo.uuid) (settle_latest dist)

  unfoldable pub cleanup : Action W (Unit {0})
  unfolding delete_and_poll select_rpm_distribution_href create_or_update_latest_distribution
  cleanup = do
    task ← read payload.get_distribution_task_href
    undo_task task
    snapshot_uuid ← read payload.get_snapshot_uuid
    when_some snapshot_uuid services.delete
    payload.save_snapshot_uuid []
    latest ← pulp.find_distribution_by_path (get_latest_repo_dist_path repo.uuid)
    restore_latest latest
