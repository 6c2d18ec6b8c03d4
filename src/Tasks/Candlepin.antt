-- ===== src/Tasks/Candlepin.antt =====
-- pkg/tasks/update_template_content.go: RunEnvironmentCreate and RunCandlepin, which give the clients
-- of a template its contents, and the handler that runs all the parts.
use content_sources_backend.Common.{
  Bool, true, false, not, ◌&&◌, Option, none, some, List, [], ◌∷◌, ◌++◌, map, Text, codes,
  if◌then◌else◌, text_eq, ◌==◌, is_none,
}
use content_sources_backend.Middleware.{red_hat_org}
use content_sources_backend.Tasks.Effects.{
  no_repo_configs, empty_domain, Result, Action, pure, throw, ◌>>=◌, ◌>>◌, lift_result, for_each,
}
use content_sources_backend.Tasks.DistributionHelper.{Repository}
use content_sources_backend.Tasks.TemplateContent.{
  Template, Payload, Update, prepare_triggered_update, repository_domain,
  normalize_extended_release_label, difference,
}
use content_sources_backend.Tasks.TemplateUpdate.{Setting, run_pulp}
use content_sources_backend.Tasks.Overrides.{
  OverridesClient, gen_override_dto, remove_uneeded_overrides, origin_upload,
}

-- What the task reads and writes of caliri.ContentDTO and caliri.EnvironmentDTO.
pub record Content : Type 0 where
  pub id : Text
  pub label : Text
  pub name : Text
  pub vendor : Text
  pub gpg_url : Text
  pub content_url : Text

pub record Environment : Type 0 where
  pub name : Text
  pub content_ids : List Text

-- The calls of CandlepinClient, of the queue (UpdatePayload), of dao.TemplateDao and of Pulp
-- (GetContentPath), and url.JoinPath; gpg_key_url is models.CandlepinContentGpgKeyUrl.
pub record Services (W : Type 0) : Type 0 where
  pub fetch_environment : Text → Action W (Option Environment)
  pub create_environment : Text → Text → Text → Text → Action W Environment
  pub rename_environment : Text → Text → Action W Environment
  pub promote_content_to_environment : Text → List Text → Action W (Unit {0})
  pub demote_content_from_environment : Text → List Text → Action W (Unit {0})
  pub create_product : Text → Action W (Unit {0})
  pub create_pool : Text → Action W Text
  pub create_content : Text → Content → Action W (Unit {0})
  pub add_content_batch_to_product : Text → List Text → Action W (Unit {0})
  pub fetch_contents_by_label : Text → List Text → Action W (List Content)
  pub overrides : OverridesClient W
  pub update_payload : Payload → Action W (Unit {0})
  pub set_environment_created : Text → Action W (Unit {0})
  pub update_last_error : Text → Text → Text → Action W (Unit {0})
  pub get_content_path : Action W Text
  pub send_template_event : Template → Action W (Unit {0})
  pub join_path : List Text → Result Text
  pub gpg_key_url : Text → Text → Text

-- strings.ReplaceAll(repoConfigUUID, "-", "").
unfoldable pub get_content_id : Text → Text
get_content_id [] = []
get_content_id (c ∷ t) = let rest = get_content_id t in if c == b'-' then rest else c ∷ rest

abbrev pub is_red_hat : Repository → Bool
is_red_hat repo = text_eq repo.org_id red_hat_org

abbrev pub get_repo_vendor : Repository → Text
get_repo_vendor repo = if is_red_hat repo then codes "Red Hat" else codes "Custom"

abbrev pub has_text : Text → Bool
has_text t = not (text_eq t [])

abbrev pub no_uuids : List Text → Bool
no_uuids [] = true
no_uuids (r ∷ rs) = false

abbrev repositories_by : Bool → List Repository → List Repository
repositories_by red_hat [] = []
repositories_by red_hat (r ∷ rs) =
    let rest = repositories_by red_hat rs in
    elim red_hat [
      | true ↦ if is_red_hat r then r ∷ rest else rest
      | false ↦ if is_red_hat r then rest else r ∷ rest
    ]

abbrev pub custom_repos : List Repository → List Repository
custom_repos repos = repositories_by false repos

abbrev pub red_hat_repos : List Repository → List Repository
red_hat_repos repos = repositories_by true repos

unfoldable pub content_label : Repository → Text
unfolding normalize_extended_release_label
content_label repo =
    if has_text repo.extended_release
    then normalize_extended_release_label repo.label
    else repo.label

module _ {W : Type 0} (s : Setting W) (services : Services W) where
  unfoldable pub gen_content_dto : Repository → Text → Content
  unfolding get_content_id
  gen_content_dto repo content_url = record {
    id = get_content_id repo.uuid;
    label = repo.label;
    name = repo.name;
    vendor = get_repo_vendor repo;
    gpg_url =
        if not (is_red_hat repo) && has_text repo.gpg_key
        then services.gpg_key_url repo.org_id repo.uuid
        else [];
    content_url = content_url;
  }

  unfoldable pub content_url_for_repo : Repository → Text → Action W Text
  unfolding repository_domain
  content_url_for_repo repo content_path =
      if not (text_eq repo.origin origin_upload)
      then pure repo.url
      else (repository_domain s.reads repo s.org_id s.domain_name s.rh_domain_name
            s.community_domain_name
          >>= λ domain.
              if text_eq domain []
              then throw empty_domain
              else (lift_result
                    (services.join_path (content_path ∷ domain ∷ repo.uuid ∷ codes "latest" ∷ []))
                  >>= λ url. pure (url ++ codes "/")))

  unfoldable pub create_content_items : List Repository → Text → Action W (List Content)
  unfolding content_url_for_repo gen_content_dto
  create_content_items [] content_path = pure []
  create_content_items (repo ∷ repos) content_path =
      let rest = create_content_items repos content_path in
      if is_red_hat repo
      then rest
      else (content_url_for_repo repo content_path >>= λ url.
          rest >>= λ contents. pure (gen_content_dto repo url ∷ contents))

  unfoldable pub fetch_repos : List Text → Action W (List Repository)
  fetch_repos [] = pure []
  fetch_repos (r ∷ rs) = do
    repo ← s.reads.fetch_without_org_id r
    repos ← fetch_repos rs
    pure (repo ∷ repos)

  unfoldable pub get_red_hat_content_ids : List Repository → Action W (List Text)
  unfolding content_label
  get_red_hat_content_ids rh_repos = do
    contents ← services.fetch_contents_by_label s.org_id (map content_label rh_repos)
    pure (map (λ (c : Content). c.id) contents)

  abbrev pub refuse_no_repos : List Text → Action W (Unit {0})
  refuse_no_repos [] = throw no_repo_configs
  refuse_no_repos (r ∷ rs) = pure tt

  -- The custom contents to create, their identifiers, and those of the Red Hat contents.
  unfoldable pub get_content_list : Payload → Text → Action W (List Content × List Text × List Text)
  unfolding fetch_repos get_red_hat_content_ids create_content_items
  get_content_list payload content_path = do
    refuse_no_repos payload.repo_config_uuids
    repos ← fetch_repos payload.repo_config_uuids
    rh_ids ← get_red_hat_content_ids (red_hat_repos repos)
    contents ← create_content_items (custom_repos repos) content_path
    pure (contents, map (λ (c : Content). c.id) contents, rh_ids)

  unfoldable pub rename_environment_if_needed : Template → Environment → Action W Environment
  rename_environment_if_needed template env =
      if text_eq template.name env.name
      then pure env
      else services.rename_environment template.uuid template.name

  abbrev pub promote : Text → List Text → Action W (Unit {0})
  promote template_uuid [] = pure tt
  promote template_uuid (c ∷ ids) = services.promote_content_to_environment template_uuid (c ∷ ids)

  abbrev pub demote : Text → List Text → Action W (Unit {0})
  demote template_uuid [] = pure tt
  demote template_uuid (c ∷ ids) = services.demote_content_from_environment template_uuid (c ∷ ids)

  -- The end of RunCandlepin, from the contents that the template should have.
  unfoldable pub reconcile_environment :
      Template → Payload → Text → Environment → List Text → Action W (Unit {0})
  unfolding difference gen_override_dto remove_uneeded_overrides
  reconcile_environment template payload content_path env content_ids = do
    promote payload.template_uuid (difference content_ids env.content_ids)
    demote payload.template_uuid (difference env.content_ids content_ids)
    overrides ←
        gen_override_dto s.content_path services.join_path s.reads s.org_id s.domain_name
          s.rh_domain_name s.community_domain_name content_path template payload.repo_config_uuids
    remove_uneeded_overrides services.overrides template.uuid overrides
    services.overrides.update_content_overrides payload.template_uuid overrides

  unfoldable pub run_candlepin : Update → Environment → Action W (Unit {0})
  unfolding get_content_list rename_environment_if_needed reconcile_environment
  run_candlepin u env = do
    services.create_product s.org_id
    pool_id ← services.create_pool s.org_id
    services.update_payload (record u.payload { pool_id = some pool_id })
    content_path ← services.get_content_path
    (contents, custom_ids, rh_ids) ← get_content_list u.payload content_path
    for_each contents (services.create_content s.org_id)
    services.add_content_batch_to_product s.org_id custom_ids
    renamed ← rename_environment_if_needed u.template env
    reconcile_environment u.template u.payload content_path renamed (custom_ids ++ rh_ids)

  abbrev env_or_create : Option Environment → Template → Text → Action W Environment
  env_or_create (some env) template prefix' = pure env
  env_or_create none template prefix' =
      services.create_environment s.org_id template.name template.uuid prefix'

  unfoldable pub fetch_or_create_environment : Update → Text → Action W Environment
  fetch_or_create_environment u prefix' = do
    env ← services.fetch_environment u.payload.template_uuid
    env_or_create env u.template prefix'

  unfoldable pub run_environment_create : Update → Action W Environment
  unfolding fetch_or_create_environment
  run_environment_create u = do
    content_path ← services.get_content_path
    prefix' ← lift_result (
        services.join_path
          (content_path ∷ s.rh_domain_name ∷ codes "templates" ∷ u.payload.template_uuid ∷ []))
    env ← fetch_or_create_environment u prefix'
    if u.template.rhsm_environment_created
        then pure tt
        else services.set_environment_created u.template.uuid
    pure env

  -- UpdateTemplateContentHandler after the look-up of the template and the domains.
  unfoldable pub update_prepared : Bool → Update → Action W (Unit {0})
  unfolding run_environment_create run_pulp run_candlepin
  update_prepared true u = pure tt
  update_prepared false u = do
    refuse_no_repos u.payload.repo_config_uuids
    services.update_last_error u.template.org_id u.template.uuid []
    env ← run_environment_create u
    run_pulp s u
    run_candlepin u env
    services.send_template_event u.template

  unfoldable pub update_template_content : Update → Action W (Unit {0})
  unfolding prepare_triggered_update update_prepared
  update_template_content u =
      if is_none u.payload.triggered_by_repository_uuid && no_uuids u.payload.repo_config_uuids
      then throw no_repo_configs
      else (prepare_triggered_update s.reads u >>= λ prepared.
          update_prepared prepared.0 prepared.1)
