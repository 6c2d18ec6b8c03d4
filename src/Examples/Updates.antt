-- ===== src/Examples/Updates.antt =====
-- Runs of the tasks: a resumed snapshot.
use content_sources_backend.Common.{
  ℕ, refl, true, Option, none, some, Text, codes, is_none, arith, ◌+◌, ◌≤◌, ◌∷◌, if◌then◌else◌, [],
}
use content_sources_backend.Examples.Worlds.{repo, snapshot}
use content_sources_backend.Tasks.Effects.{ok}
use content_sources_backend.Tasks.Pulp.{PulpClient}
use content_sources_backend.Tasks.SnapshotHelper.{
  Resumable, SnapshotServices, find_or_create_publication,
}
use content_sources_backend.Tasks.SnapshotHelper.Resumed.{
  Counts, find_or_create_publication-started,
}

-- A Pulp that counts the publications that it starts, beside the saved task.
abbrev Counter : Type 0
Counter = ℕ × Option Text

abbrev counting : PulpClient Counter
counting = record {
  find_distribution_by_path = λ path w. (ok none, w);
  create_rpm_distribution = λ publication name path guard' w. (ok path, w);
  update_rpm_distribution = λ href publication name path guard' w. (ok path, w);
  delete_rpm_distribution = λ href w. (ok none, w);
  poll_task = λ href w. (ok (record { pulp_href = some href; created_resources = href ∷ [] }), w);
  get_task = λ href w. (ok (record { pulp_href = some href; created_resources = href ∷ [] }), w);
  create_or_update_guards_for_org = λ org_id w. (ok org_id, w);
  create_or_update_guards_for_rhel_repo = λ feature w. (ok feature, w);
  find_rpm_publication_by_version = λ version w. (ok none, w);
  create_rpm_publication = λ version w. (ok (some version), (w.0 + 1, w.1));
}

abbrev remembers : Resumable Counter
remembers = record {
  save_publication_task_href = λ href w. (ok tt, (w.0, some href));
  get_publication_task_href = λ w. w.1;
  save_distribution_task_href = λ href w. (ok tt, w);
  get_distribution_task_href = λ w. none;
  save_snapshot_ident = λ id w. (ok tt, w);
  get_snapshot_ident = λ w. none;
  save_snapshot_uuid = λ uuid w. (ok tt, w);
  get_snapshot_uuid = λ w. none;
}

abbrev small_services : SnapshotServices Counter
small_services = record {
  create = λ snap w. (ok (codes "s1"), w);
  delete = λ uuid w. (ok tt, w);
  set_detected_os_version = λ uuid w. (ok tt, w);
  fetch_latest_snapshot_for_distribution = λ uuid w. (ok snapshot, w);
  get_rpm_repository_version = λ version w. (ok none, w);
  new_ident = λ w. (ok (codes "i1"), w);
}

abbrev started : Counter → ℕ
started w = w.0

counts_law : Counts started true counting remembers small_services repo (codes "d")
counts_law = record {
  by_find = λ version w. refl;
  keeps_task = λ version w. refl;
  by_create = λ version w. omega arith;
  by_poll = λ href w. refl;
  by_save = λ href w. refl;
}

abbrev resumed : Counter
resumed = (1, some (codes "/pulp/d/api/v3/publications/rpm/rpm/1/"))

find_or_create_publication-started_example :
    started
      (find_or_create_publication true counting remembers small_services repo
        (codes "d")
        (codes "v1")
        resumed).1
    ≤ (if is_none resumed.1 then started resumed + 1 else started resumed)
find_or_create_publication-started_example =
    find_or_create_publication-started started true counting remembers small_services repo
      (codes "d") counts_law (codes "v1") resumed
