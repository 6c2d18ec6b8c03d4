-- ===== src/Tasks/SnapshotRepository.antt =====
-- pkg/tasks/repository_snapshot.go: the task that synchronises a repository with Pulp and makes a
-- snapshot of what has changed. Its payload is the part of the world that it saves after each step,
-- so that the task can be run again.
pub mod Saved
use content_sources_backend.Common.{
  Bool, true, false, not, ◌&&◌, Option, none, some, List, [], ◌∷◌, Text, codes, if◌then◌else◌,
  text_eq,
}
use content_sources_backend.Middleware.{red_hat_org}
use content_sources_backend.Tasks.Effects.{
  Error, canceled, nil_dereference, Result, ok, err, Action, pure, throw, ◌>>=◌, ◌>>◌, try, deref,
  when_some,
}
use content_sources_backend.Tasks.Pulp.{PulpClient, TaskResponse, drop_prefix, select_version_href}
use content_sources_backend.Tasks.DistributionHelper.{Repository}
use content_sources_backend.Tasks.Overrides.{origin_upload}
use content_sources_backend.Tasks.SnapshotHelper.{Resumable, SnapshotServices}
use content_sources_backend.Tasks.SnapshotHelper as Helper

-- payloads.SnapshotPayload.
pub record SnapshotPayload : Type 0 where
  pub snapshot_ident : Option Text
  pub sync_task_href : Option Text
  pub publication_task_href : Option Text
  pub distribution_task_href : Option Text
  pub snapshot_uuid : Option Text

-- A repository of Pulp: its href and that of its latest version.
pub record PulpRepository : Type 0 where
  pub pulp_href : Text
  pub latest_version_href : Option Text

-- The calls of Pulp, of the database and of the queue (UpdatePayload) that only this task makes;
-- load_ca is external_repos.LoadCA and cdn_cert_pair is of config.Get().
pub record SyncServices (W : Type 0) : Type 0 where
  pub update_payload : SnapshotPayload → Action W (Unit {0})
  pub fetch_by_repo_uuid : Action W Repository
  pub lookup_or_create_domain : Text → Action W (Unit {0})
  pub update_domain_if_needed : Text → Action W (Unit {0})
  pub get_rpm_repository_by_name : Text → Action W (Option PulpRepository)
  pub create_rpm_repository : Text → Text → Action W PulpRepository
  pub get_rpm_remote_by_name : Text → Action W (Option Text)
  pub create_rpm_remote : Text → Text → Option Text → Option Text → Action W Text
  pub update_rpm_remote : Text → Text → Option Text → Option Text → Action W (Unit {0})
  pub sync_rpm_repository : Text → Text → Action W Text
  pub cancel_task : Text → Action W (Unit {0})
  pub delete_rpm_repository_version : Text → Action W (Unit {0})
  pub snapshot_of_version : Text → Text → Action W (Option Text)
  pub reset_failed_snapshot_count : Text → Action W (Unit {0})
  pub increment_failed_snapshot_count : Text → Action W (Unit {0})
  pub load_ca : Text
  pub cdn_cert_pair : Option Text

-- "" is nil in the payload.
abbrev pub saved : Text → Option Text
saved [] = none
saved (c ∷ t) = some (c ∷ t)

-- strings.Contains.
unfoldable pub text_contains : Text → Text → Bool
unfolding drop_prefix
text_contains part [] = elim (drop_prefix part []) [ none ↦ false | some rest ↦ true ]
text_contains part (c ∷ t) =
    let later = text_contains part t in
    elim (drop_prefix part (c ∷ t)) [ none ↦ later | some rest ↦ true ]

unfoldable pub url_is_red_hat : Text → Bool
unfolding text_contains
url_is_red_hat url = text_contains (codes "cdn.redhat.com") url

module _ {V : Type 0} (services : SyncServices V) where
  -- A call outside leaves the payload of the task alone.
  abbrev pub outside : {A : Type 0} → Action V A → Action (SnapshotPayload × V) A
  outside m (p, v) = let r = m v in (r.0, (p, r.1))

  -- The payload is changed first, and then written to the queue, which may fail.
  unfoldable pub save :
      (SnapshotPayload → SnapshotPayload) → Action (SnapshotPayload × V) (Unit {0})
  save change (p, v) = outside (services.update_payload (change p)) (change p, v)

  unfoldable pub resumable : Resumable (SnapshotPayload × V)
  unfolding save
  resumable = record {
    save_publication_task_href =
        λ href. save (λ p. record p { publication_task_href = saved href });
    get_publication_task_href = λ w. w.0.publication_task_href;
    save_distribution_task_href =
        λ href. save (λ p. record p { distribution_task_href = saved href });
    get_distribution_task_href = λ w. w.0.distribution_task_href;
    save_snapshot_ident = λ id. save (λ p. record p { snapshot_ident = saved id });
    get_snapshot_ident = λ w. w.0.snapshot_ident;
    save_snapshot_uuid = λ uuid. save (λ p. record p { snapshot_uuid = saved uuid });
    get_snapshot_uuid = λ w. w.0.snapshot_uuid;
  }

  module _ (repo_content_guards : Bool) (pulp : PulpClient (SnapshotPayload × V))
      (snapshots : SnapshotServices (SnapshotPayload × V)) (domain_name : Text) where
    abbrev pub start_sync : Option Text → Text → Text → Action (SnapshotPayload × V) (Unit {0})
    start_sync (some href) repo_href remote_href = pure tt
    start_sync none repo_href remote_href =
        outside (services.sync_rpm_repository repo_href remote_href) >>= λ href.
        save (λ p. record p { sync_task_href = some href })

    abbrev pub payload_of : Action (SnapshotPayload × V) SnapshotPayload
    payload_of (p, v) = (ok p, (p, v))

    unfoldable pub sync_repository : Text → Text → Action (SnapshotPayload × V) (Option Text)
    unfolding save select_version_href
    sync_repository repo_href remote_href = do
      before ← payload_of
      start_sync before.sync_task_href repo_href remote_href
      after ← payload_of
      href ← deref after.sync_task_href
      task ← pulp.poll_task href
      pure (select_version_href (some task))

    abbrev pub repo_or_create : Option PulpRepository → Text → Text → Action V Text
    repo_or_create (some found) uuid remote_href = pure found.pulp_href
    repo_or_create none uuid remote_href =
        services.create_rpm_repository uuid remote_href >>= λ made. pure made.pulp_href

    unfoldable pub find_or_create_pulp_repo : Text → Text → Action V Text
    find_or_create_pulp_repo uuid remote_href = do
      found ← services.get_rpm_repository_by_name uuid
      repo_or_create found uuid remote_href

    abbrev pub is_red_hat_cdn : Repository → Bool
    is_red_hat_cdn repo = text_eq repo.org_id red_hat_org && url_is_red_hat repo.url

    abbrev pub remote_or_create :
        Option Text → Repository → Option Text → Option Text → Action V Text
    remote_or_create none repo certs ca = services.create_rpm_remote repo.uuid repo.url certs ca
    remote_or_create (some href) repo certs ca =
        services.update_rpm_remote href repo.url certs ca >> pure href

    unfoldable pub find_or_create_remote : Repository → Action V Text
    unfolding url_is_red_hat
    find_or_create_remote repo = do
      found ← services.get_rpm_remote_by_name repo.uuid
      remote_or_create found repo (if is_red_hat_cdn repo then services.cdn_cert_pair else none)
          (if is_red_hat_cdn repo then some services.load_ca else none)

    abbrev pub orphan : Option Text → Option Text → Option Text
    orphan version none = version
    orphan version (some snapshot) = none

    abbrev pub orphan_of : Option PulpRepository → Text → Action V (Option Text)
    orphan_of none uuid = pure none
    orphan_of (some found) uuid = elim found.latest_version_href [
      | none ↦ pure none
      | some version ↦
          services.snapshot_of_version uuid version >>= λ snap. pure (orphan (some version) snap)
    ]

    -- GetOrphanedLatestVersion of orphaned_version.go.
    unfoldable pub get_orphaned_latest_version : Text → Action V (Option Text)
    get_orphaned_latest_version uuid = do
      found ← services.get_rpm_repository_by_name uuid
      orphan_of found uuid

    abbrev pub version_or_orphan : Option Text → Text → Action (SnapshotPayload × V) (Option Text)
    version_or_orphan (some version) uuid = pure (some version)
    version_or_orphan none uuid = outside (get_orphaned_latest_version uuid)

    abbrev pub latest_of : Option PulpRepository → Action V (Option Text)
    latest_of none = throw nil_dereference
    latest_of (some found) = pure found.latest_version_href

    unfoldable pub version_of :
        Repository → Text → Text → Action (SnapshotPayload × V) (Option Text)
    unfolding sync_repository
    version_of repo repo_href remote_href =
        if text_eq repo.origin origin_upload
        then outside (services.get_rpm_repository_by_name repo.uuid >>= latest_of)
        else sync_repository repo_href remote_href

    -- The part of Run whose cancellation is cleaned up.
    unfoldable pub run_repo : Repository → Action (SnapshotPayload × V) (Unit {0})
    unfolding find_or_create_remote find_or_create_pulp_repo version_of get_orphaned_latest_version
        Helper.run
    run_repo repo = do
      remote_href ←
          if text_eq repo.origin origin_upload
          then pure []
          else outside (find_or_create_remote repo)
      repo_href ← outside (find_or_create_pulp_repo repo.uuid remote_href)
      changed ← version_of repo repo_href remote_href
      version ← version_or_orphan changed repo.uuid
      when_some version (Helper.run repo_content_guards pulp resumable snapshots repo domain_name)

    abbrev pub forget :
        (SnapshotPayload → SnapshotPayload) → Action (SnapshotPayload × V) (Unit {0})
    forget change (p, v) = (ok tt, (change p, v))

    abbrev pub cancel_publication : Option Text → Action (SnapshotPayload × V) (Unit {0})
    cancel_publication none = pure tt
    cancel_publication (some href) =
        outside (services.cancel_task href)
        >> forget (λ p. record p { publication_task_href = none })

    abbrev pub cancel_sync : Option Text → Action (SnapshotPayload × V) (Unit {0})
    cancel_sync none = pure tt
    cancel_sync (some href) = do
      outside (services.cancel_task href)
      task ← pulp.get_task href
      forget (λ p. record p { sync_task_href = none })
      after ← payload_of
      cancel_publication after.publication_task_href
      when_some (select_version_href (some task))
          (λ version. outside (services.delete_rpm_repository_version version))

    unfoldable pub cleanup_on_cancel : Action (SnapshotPayload × V) (Unit {0})
    unfolding select_version_href
    cleanup_on_cancel = do before ← payload_of; cancel_sync before.sync_task_href

    abbrev pub is_canceled : Error → Bool
    is_canceled canceled = true
    is_canceled _ = false

    -- An error of a part of the cleanup is logged, and the next part runs.
    abbrev pub logged :
        Action (SnapshotPayload × V) (Unit {0}) → Action (SnapshotPayload × V) (Unit {0})
    logged m = try m (λ r. pure tt)

    abbrev pub and_give :
        Result (Unit {0})
        → Action (SnapshotPayload × V) (Unit {0})
        → Action (SnapshotPayload × V) (Unit {0})
    and_give r m w = (r, (m w).1)

    -- The deferred function of Run.
    unfoldable pub clean_if_canceled :
        Repository → Result (Unit {0}) → Action (SnapshotPayload × V) (Unit {0})
    unfolding cleanup_on_cancel save Helper.cleanup
    clean_if_canceled repo (ok done) = pure done
    clean_if_canceled repo (err e) =
        if is_canceled e
        then and_give (err e) (
            logged (Helper.cleanup repo_content_guards pulp resumable snapshots repo domain_name)
            >> logged cleanup_on_cancel
            >> logged (save (λ p. p)))
        else throw e

    unfoldable pub run : Repository → Action (SnapshotPayload × V) (Unit {0})
    unfolding run_repo clean_if_canceled
    run repo = do
      outside (services.lookup_or_create_domain domain_name)
      outside (services.update_domain_if_needed domain_name)
      try (run_repo repo) (clean_if_canceled repo)

    -- SnapshotHandler once Run has ended; the identifier is "" where the look-up has failed.
    abbrev pub report : Text → Result (Unit {0}) → Action (SnapshotPayload × V) (Unit {0})
    report uuid (ok done) = outside (services.reset_failed_snapshot_count uuid)
    report uuid (err e) =
        if is_canceled e
        then pure tt
        else and_give (err e) (logged (outside (services.increment_failed_snapshot_count uuid)))

    abbrev pub run_found : Result Repository → Action (SnapshotPayload × V) (Unit {0})
    run_found (err e) = report [] (err e)
    run_found (ok repo) = try (run repo) (report repo.uuid)

    unfoldable pub snapshot_handler : Action (SnapshotPayload × V) (Unit {0})
    unfolding run
    snapshot_handler = try (outside services.fetch_by_repo_uuid) run_found
