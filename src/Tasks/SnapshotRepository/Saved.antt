-- ===== src/Tasks/SnapshotRepository/Saved.antt =====
-- What the payload holds after each save, and what a handler makes of its errors.
use content_sources_backend.Common.{◌≡◌, refl, Text}
use content_sources_backend.Tasks.SnapshotRepository.{
  SnapshotPayload, SyncServices, saved, save, resumable,
}

-- A Save… of the snapshot task is what the matching Get… then reads, whether the queue could be
-- updated or not: the text itself, or nothing for the empty text. It changes none of the three
-- others.
pub resumable_reads :
    {V : Type 0} (services : SyncServices V) (t : Text) (p : SnapshotPayload) (v : V)
    → ((resumable services).get_publication_task_href
          ((resumable services).save_publication_task_href t (p, v)).1
        ≡ saved t)
      × ((resumable services).get_distribution_task_href
            ((resumable services).save_distribution_task_href t (p, v)).1
          ≡ saved t)
      × ((resumable services).get_snapshot_ident
            ((resumable services).save_snapshot_ident t (p, v)).1
          ≡ saved t)
      × ((resumable services).get_snapshot_uuid ((resumable services).save_snapshot_uuid t (p, v)).1
          ≡ saved t)
      × ((resumable services).get_snapshot_ident
            ((resumable services).save_distribution_task_href t (p, v)).1
          ≡ p.snapshot_ident)
      × ((resumable services).get_publication_task_href
            ((resumable services).save_snapshot_uuid t (p, v)).1
          ≡ p.publication_task_href)
unfolding resumable save
resumable_reads services t p v = (refl, refl, refl, refl, refl, refl)
