-- ===== src/Examples/Worlds.antt =====
-- A small Pulp, which keeps what it is told, and the settings of the example tasks.
use content_sources_backend.Common.{
  ◌≡◌, refl, sym, ap, true, false, Bool, Option, none, some, [], ◌∷◌, Text, codes, arith,
  if◌then◌else◌, text_eq, text_eq_sound, Bool-cases, inl, inr,
}
use content_sources_backend.Tasks.Effects.{ok}
use content_sources_backend.Tasks.Pulp.{Distribution, PulpClient}
use content_sources_backend.Tasks.DistributionHelper.{Repository, Snapshot}
use content_sources_backend.Tasks.DistributionHelper.Contract.{Serves}
use content_sources_backend.Tasks.TemplateContent.{Reads, Template}
use content_sources_backend.Tasks.SnapshotPublished.{SnapshotReads, delete_and_poll}
use content_sources_backend.Tasks.SnapshotPublished.Latest.{Documents}

-- The publication and the guard of each path.
pub record Entry : Type 0 where
  pub publication : Text
  pub guard' : Option Text

abbrev pub Shelf : Type 0
Shelf = Text → Option Entry

-- The href of a distribution is its path here.
abbrev pub served : Text → Option Entry → Option Distribution
served path none = none
served path (some e) = some (record {
  pulp_href = path;
  name = path;
  base_path = path;
  publication = some e.publication;
  content_guard = e.guard';
})

abbrev pub at : Shelf → Text → Option Distribution
at shelf path = served path (shelf path)

abbrev pub put : Text → Option Entry → Shelf → Shelf
put path entry shelf p = if text_eq path p then entry else shelf p

abbrev pub distribution_href : Text
distribution_href = codes "/pulp/d/api/v3/distributions/rpm/rpm/1/"

abbrev pub small_pulp : PulpClient Shelf
small_pulp = record {
  find_distribution_by_path = λ path shelf. (ok (at shelf path), shelf);
  create_rpm_distribution = λ publication name path guard' shelf. (
    ok distribution_href,
    put path (some (record { publication = publication; guard' = guard' })) shelf,
  );
  update_rpm_distribution = λ href publication name path guard' shelf. (
    ok distribution_href,
    put path (some (record { publication = publication; guard' = guard' })) shelf,
  );
  delete_rpm_distribution = λ href shelf. (ok none, put href none shelf);
  poll_task =
      λ href shelf. (ok (record { pulp_href = some href; created_resources = href ∷ [] }), shelf);
  get_task =
      λ href shelf. (ok (record { pulp_href = some href; created_resources = href ∷ [] }), shelf);
  create_or_update_guards_for_org = λ org_id shelf. (ok org_id, shelf);
  create_or_update_guards_for_rhel_repo = λ feature shelf. (ok feature, shelf);
  find_rpm_publication_by_version = λ version shelf. (ok none, shelf);
  create_rpm_publication = λ version shelf. (ok none, shelf);
}

put-at :
    (path p : Text) (entry : Option Entry) (shelf : Shelf)
    → at (put path entry shelf) p ≡ (if text_eq path p then served path entry else at shelf p)
put-at path p entry shelf = elim (Bool-cases (text_eq path p)) [
  | inl e ↦ rw e (ap (λ (q : Text). served q entry) (sym (text_eq_sound path p e)))
  | inr e ↦ rw e refl
]

-- No task is canceled; the guard of an organisation is called like it, and that of features too.
abbrev pub never : Shelf → Bool
never shelf = false

abbrev pub OwnGuard : Text → Text → Type 0
OwnGuard name href = href ≡ name

pub small_pulp-Serves : Serves at never OwnGuard OwnGuard small_pulp
small_pulp-Serves = record {
  finds = λ path shelf. (refl, λ p. refl);
  creates = λ publication name path guard' shelf done.
      let e : Entry = record { publication = publication; guard' = guard' } in
      let d : Distribution = record {
        pulp_href = path;
        name = path;
        base_path = path;
        publication = some publication;
        content_guard = guard';
      } in
      (d, λ p. put-at path p (some e) shelf, refl, refl);
  updates = λ old publication name path guard' shelf h done.
      let e : Entry = record { publication = publication; guard' = guard' } in
      let d : Distribution = record {
        pulp_href = path;
        name = path;
        base_path = path;
        publication = some publication;
        content_guard = guard';
      } in
      (d, λ p. put-at path p (some e) shelf, refl, refl);
  guards_org = λ org_id shelf. (refl, λ p. refl);
  guards_rhel = λ feature shelf. (refl, λ p. refl);
}

-- The hrefs and the paths of the distributions on the shelf.
served-path :
    (path : Text) (entry : Option Entry) (d : Distribution)
    → served path entry ≡ some d
    → (d.pulp_href ≡ path) × (d.base_path ≡ path)
served-path path none d h = cc
served-path path (some e) d h = ground arith

abbrev pub repo : Repository
repo = record {
  uuid = codes "r1";
  name = codes "tools";
  org_id = codes "org";
  gpg_key = [];
  module_hotfixes = false;
  has_last_snapshot = true;
  feature_name = [];
  url = codes "https://example.org/tools/";
  origin = codes "external";
  label = codes "tools";
  extended_release = [];
  partner = true;
}

abbrev pub snapshot : Snapshot
snapshot = record {
  uuid = codes "s1";
  version_href = codes "v1";
  publication_href = codes "p1";
  distribution_path = codes "r1/i1";
  repository_path = codes "d/r1/i1";
  distribution_href = codes "h1";
  repository_configuration_uuid = codes "r1";
  published = true;
  content_counts = [];
  added_counts = [];
  removed_counts = [];
}

abbrev pub latest : Text → Option Snapshot
latest uuid = some snapshot

abbrev pub small_reads : SnapshotReads Shelf
small_reads = record {
  fetch_model = λ uuid shelf. (ok snapshot, shelf);
  fetch_latest_snapshot_for_distribution = λ uuid shelf. (ok snapshot, shelf);
}

pub small-Documents : Documents at never OwnGuard OwnGuard latest small_pulp small_reads
unfolding delete_and_poll
small-Documents = record {
  serves = small_pulp-Serves;
  deletes = λ d path shelf h done p.
      let same = (served-path path (shelf path) d h).0 in rw same (put-at path p none shelf);
  has_path = λ d path shelf h. (served-path path (shelf path) d h).1;
  answers = λ uuid shelf. (refl, λ p. refl);
}

-- Nothing is served.
abbrev pub bare : Shelf
bare path = none

abbrev pub repo_reads : {W : Type 0} → Reads W
repo_reads = record {
  fetch_without_org_id = λ uuid w. (ok repo, w);
  has_published_snapshot = λ uuid w. (ok false, w);
  fetch_domain = λ org_id w. (ok (codes "domain"), w);
}

abbrev pub template : Template
template = record {
  uuid = codes "t1";
  name = codes "base";
  org_id = codes "org";
  use_latest = true;
  date = 5;
  repository_uuids = codes "r1" ∷ codes "r2" ∷ [];
  rhsm_environment_created = false;
}
