-- ===== src/Tasks/SnapshotPublished.antt =====
-- pkg/tasks/update_snapshot_published.go: publishing and unpublishing a snapshot of a partner
-- repository, and the distribution of the repository's latest published snapshot.
pub mod Latest
use content_sources_backend.Common.{
  Bool, true, false, not, Option, none, some, List, [], ◌∷◌, Text, if◌then◌else◌,
}
use content_sources_backend.Tasks.Effects.{
  Error, not_found, no_distribution, Result, ok, err, Action, pure, throw, ◌>>=◌, ◌>>◌, try,
  when_some, require,
}
use content_sources_backend.Tasks.Pulp.{Distribution, PulpClient}
use content_sources_backend.Tasks.DistributionHelper.{
  Snapshot, get_latest_repo_dist_path, fetch_content_guard,
}

-- The reads of dao.SnapshotDao; FetchLatestSnapshotForDistribution fails with
-- gorm.ErrRecordNotFound where a repository has no snapshot to serve.
pub record SnapshotReads (W : Type 0) : Type 0 where
  pub fetch_model : Text → Action W Snapshot
  pub fetch_latest_snapshot_for_distribution : Text → Action W Snapshot

abbrev pub is_not_found : Error → Bool
is_not_found not_found = true
is_not_found _ = false

module _ {W : Type 0} (pulp : PulpClient W) where
  unfoldable pub delete_and_poll : Text → Action W (Unit {0})
  delete_and_poll href = do
    task ← pulp.delete_rpm_distribution href
    when_some task (λ t. pulp.poll_task t >> pure tt)

  abbrev pub delete_latest : Option Distribution → Action W (Unit {0})
  delete_latest none = pure tt
  delete_latest (some dist) = delete_and_poll dist.pulp_href

  abbrev pub write_latest : Option Distribution → Text → Text → Text → Action W (Unit {0})
  write_latest none publication_href repo_config_uuid path =
      (pulp.create_rpm_distribution publication_href repo_config_uuid path none >>= pulp.poll_task)
      >> pure tt
  write_latest (some dist) publication_href repo_config_uuid path =
      (pulp.update_rpm_distribution dist.pulp_href publication_href dist.name dist.base_path none
        >>= pulp.poll_task)
      >> pure tt

  abbrev pub settle_latest :
      Text → Text → Option Distribution → Result Snapshot → Action W (Unit {0})
  settle_latest repo_config_uuid path dist (ok latest) =
      write_latest dist latest.publication_href repo_config_uuid path
  settle_latest repo_config_uuid path dist (err e) =
      if not (is_not_found e) then throw e else delete_latest dist

  module _ (snapshots : SnapshotReads W) where
    unfoldable pub update_latest_distribution : Text → Action W (Unit {0})
    unfolding get_latest_repo_dist_path delete_and_poll
    update_latest_distribution repo_config_uuid = do
      dist ← pulp.find_distribution_by_path (get_latest_repo_dist_path repo_config_uuid)
      try (snapshots.fetch_latest_snapshot_for_distribution repo_config_uuid)
          (settle_latest repo_config_uuid (get_latest_repo_dist_path repo_config_uuid) dist)

    -- Publishing removes the guard and unpublishing restores that of the organisation.
    unfoldable pub guard_for : Bool → Text → Bool → Action W (Option Text)
    unfolding fetch_content_guard
    guard_for repo_content_guards org_id published =
        if published then pure none else fetch_content_guard repo_content_guards pulp org_id []

    unfoldable pub run : Bool → Text → Text → Bool → Action W (Unit {0})
    unfolding guard_for update_latest_distribution
    run repo_content_guards org_id snapshot_uuid published = do
      snap ← snapshots.fetch_model snapshot_uuid
      found ← pulp.find_distribution_by_path snap.distribution_path
      dist ← require found no_distribution
      content_guard ← guard_for repo_content_guards org_id published
      task ←
          pulp.update_rpm_distribution dist.pulp_href snap.publication_href dist.name dist.base_path
            content_guard
      pulp.poll_task task
      update_latest_distribution snap.repository_configuration_uuid
