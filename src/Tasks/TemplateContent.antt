-- ===== src/Tasks/TemplateContent.antt =====
-- pkg/tasks/update_template_content.go: the desired repositories of a template and the names under
-- which they are served, and repositoryDomain of pkg/tasks/utils.go.
pub mod Desired
pub mod ReleaseLabels
use content_sources_backend.Common.{
  ℕ, Bool, true, false, not, ◌&&◌, ◌||◌, Option, none, some, List, [], ◌∷◌, ◌++◌, Text, codes,
  if◌then◌else◌, text_eq, ◌==◌,
}
use content_sources_backend.Slices
use content_sources_backend.Middleware.{red_hat_org, community_org}
use content_sources_backend.Tasks.Effects.{not_partner, Result, ok, err, Action, pure, throw, ◌>>=◌}
use content_sources_backend.Tasks.Pulp.{digit, drop_prefix, any_code}
use content_sources_backend.Tasks.DistributionHelper.{Repository}

-- What the task reads of api.TemplateResponse and payloads.UpdateTemplateContentPayload.
pub record Template : Type 0 where
  pub uuid : Text
  pub name : Text
  pub org_id : Text
  pub use_latest : Bool
  pub date : ℕ
  pub repository_uuids : List Text
  pub rhsm_environment_created : Bool

pub record Payload : Type 0 where
  pub template_uuid : Text
  pub repo_config_uuids : List Text
  pub triggered_by_repository_uuid : Option Text
  pub pool_id : Option Text

-- The fields of UpdateTemplateContent that its methods write.
pub record Update : Type 0 where
  pub template : Template
  pub payload : Payload

unfoldable pub without : Text → List Text → List Text
without repo_uuid [] = []
without repo_uuid (r ∷ rs) =
    let rest = without repo_uuid rs in if text_eq r repo_uuid then rest else r ∷ rest

-- prepareTriggeredUpdate once the repository and its publication are known.
unfoldable pub reconcile_triggered : Repository → Bool → Text → Update → Bool × Update
unfolding Slices.contains without
reconcile_triggered repo has_published_snapshot repo_uuid u =
    let all = record u {
      payload = record u.payload { repo_config_uuids = u.template.repository_uuids };
    } in
    let desired = without repo_uuid u.template.repository_uuids in
    let removed : Update = record {
      template = record u.template { repository_uuids = desired };
      payload = record u.payload { repo_config_uuids = desired };
    } in
    if not (Slices.contains text_eq u.template.repository_uuids repo_uuid)
    then (false, all)
    else if has_published_snapshot
    then (u.template.use_latest, all)
    else if not u.template.use_latest && text_eq repo.org_id u.template.org_id
    then (false, all)
    else (false, removed)

-- The reads of dao.RepositoryConfigDao, dao.SnapshotDao and dao.DomainDao.
pub record Reads (W : Type 0) : Type 0 where
  pub fetch_without_org_id : Text → Action W Repository
  pub has_published_snapshot : Text → Action W Bool
  pub fetch_domain : Text → Action W Text

module _ {W : Type 0} (reads : Reads W) where
  unfoldable pub prepare_triggered_by : Option Text → Update → Action W (Bool × Update)
  unfolding reconcile_triggered
  prepare_triggered_by none u = pure (false, u)
  prepare_triggered_by (some repo_uuid) u = do
    repo ← reads.fetch_without_org_id repo_uuid
    if not repo.partner
        then throw not_partner
        else (reads.has_published_snapshot repo_uuid >>= λ published.
            pure (reconcile_triggered repo published repo_uuid u))

  -- Whether to skip the update, and the payload and the template to go on with.
  unfoldable pub prepare_triggered_update : Update → Action W (Bool × Update)
  unfolding prepare_triggered_by
  prepare_triggered_update u = prepare_triggered_by u.payload.triggered_by_repository_uuid u

  unfoldable pub repository_domain : Repository → Text → Text → Text → Text → Action W Text
  repository_domain repo viewer_org_id viewer_domain rh_domain community_domain =
      if text_eq repo.org_id red_hat_org
      then pure rh_domain
      else if text_eq repo.org_id community_org
      then pure community_domain
      else if text_eq repo.org_id viewer_org_id
      then pure viewer_domain
      else reads.fetch_domain repo.org_id

unfoldable pub custom_template_snapshot_path : Text → Text → Text
custom_template_snapshot_path template_uuid repo_uuid =
    codes "templates/" ++ (template_uuid ++ (codes "/" ++ repo_uuid))

-- difference.
unfoldable pub difference : List Text → List Text → List Text
unfolding Slices.contains
difference [] b = []
difference (x ∷ a) b =
    let rest = difference a b in if not (Slices.contains text_eq b x) then x ∷ rest else rest

-- The digits that a text starts with, and the rest.
unfoldable pub digits : Text → Text × Text
digits [] = ([], [])
digits (c ∷ t) = let rest = digits t in if digit c then (c ∷ rest.0, rest.1) else ([], c ∷ t)

abbrev some_text : Text → Bool
some_text [] = false
some_text (c ∷ t) = true

-- .+-(e4s|eus)-rpms up to the end, with something before the dash.
unfoldable pub is_stream : Text → Bool
unfolding text_eq
is_stream [] = false
is_stream (c ∷ t) =
    any_code c && (text_eq t (codes "-e4s-rpms") || (text_eq t (codes "-eus-rpms") || is_stream t))

unfoldable pub is_release_suffix : Text → Bool
unfolding drop_prefix is_stream
is_release_suffix t = elim (drop_prefix (codes "-for-") t) [
  | none ↦ false
  | some rest ↦ is_stream rest
]

-- The label without what stands between the major version and the suffix: ^(rhel-\d+)\.\d+(…)$.
abbrev pub drop_minor : Text → Text → Text → Text
drop_minor label major [] = label
drop_minor label major (c ∷ t) =
    if c == b'.' && (some_text (digits t).0 && is_release_suffix (digits t).1)
    then codes "rhel-" ++ (major ++ (digits t).1)
    else label

unfoldable pub normalize_extended_release_label : Text → Text
unfolding drop_prefix digits is_release_suffix
normalize_extended_release_label label = elim (drop_prefix (codes "rhel-") label) [
  | none ↦ label
  | some t ↦ if some_text (digits t).0 then drop_minor label (digits t).0 (digits t).1 else label
]

-- getDistPathAndName; content_path is getRHRepoContentPath, which parses a URL (net/url).
unfoldable pub get_dist_path_and_name :
    (Text → Result Text) → Repository → Text → Result (Text × Text)
unfolding custom_template_snapshot_path
get_dist_path_and_name content_path repo template_uuid =
    if text_eq repo.org_id red_hat_org
    then elim (content_path repo.url) [
      | err e ↦ err e
      | ok path ↦ ok (
        codes "templates/" ++ (template_uuid ++ (codes "/" ++ path)),
        template_uuid ++ (codes "/" ++ repo.uuid),
      )
    ]
    else ok (
      custom_template_snapshot_path template_uuid repo.uuid,
      template_uuid ++ (codes "/" ++ repo.uuid),
    )
