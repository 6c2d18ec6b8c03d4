-- ===== src/Tasks/SnapshotPublished/Latest.antt =====
-- The latest distribution of a repository after a snapshot was published or unpublished.
use content_sources_backend.Common.{
  ◌≡◌, true, false, Bool, Option, none, some, Text, if◌then◌else◌, text_eq,
}
use content_sources_backend.Tasks.Effects.{Result, ok, err}
use content_sources_backend.Tasks.Effects.Rules.{Ends}
use content_sources_backend.Tasks.Pulp.{Distribution, PulpClient}
use content_sources_backend.Tasks.DistributionHelper.{Snapshot}
use content_sources_backend.Tasks.DistributionHelper.Contract.{Served, Unchanged, Serves}
use content_sources_backend.Tasks.SnapshotPublished.{SnapshotReads, is_not_found, delete_and_poll}

-- What the path of the latest distribution serves, and that no other path has changed.
abbrev pub LatestServed :
    {W : Type 0} → (W → Text → Option Distribution) → W → W → Text → Option Snapshot → Type 0
LatestServed at w v path none = (p : Text) → at v p ≡ (if text_eq path p then none else at w p)
LatestServed at w v path (some snap) = Served at w v path snap.publication_href none

module _ {W : Type 0} (at : W → Text → Option Distribution) (canceled : W → Bool)
    (OrgGuard FeatureGuard : Text → Text → Type 0) (latest : Text → Option Snapshot)
    (pulp : PulpClient W) (snapshots : SnapshotReads W) where
  -- The answer of the query for the latest snapshot, which changes nothing that Pulp serves; it may
  -- fail in other ways than that there is none.
  abbrev pub Answers : Text → W → Result Snapshot × W → Type 0
  Answers repo w (ok snap, v) = (latest repo ≡ some snap) × Unchanged at w v
  Answers repo w (err e, v) = (is_not_found e ≡ true → latest repo ≡ none) × Unchanged at w v

  -- The documented behaviour of Pulp and of the query.
  pub record Documents : Type 0 where
    pub serves : Serves at canceled OrgGuard FeatureGuard pulp
    pub deletes :
        (d : Distribution) (path : Text) (w : W)
        → at w path ≡ some d
        → Ends
            (λ done v.
              canceled v ≡ false → (p : Text) → at v p ≡ (if text_eq path p then none else at w p))
            (delete_and_poll pulp d.pulp_href w)
    pub has_path :
        (d : Distribution) (path : Text) (w : W) → at w path ≡ some d → d.base_path ≡ path
    pub answers :
        (repo : Text) (w : W)
        → Answers repo w (snapshots.fetch_latest_snapshot_for_distribution repo w)

  -- That, unless a task that was polled has stopped without completing.
  abbrev LatestSettled : W → W → Text → Option Snapshot → Type 0
  LatestSettled w v path o = canceled v ≡ false → LatestServed at w v path o
