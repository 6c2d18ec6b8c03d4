-- ===== src/Tasks/DistributionHelper/Guards.antt =====
-- Who may read a distribution: the choice of its content guard, and the distributions that serve it.
use content_sources_backend.Common.{
  ◌≡◌, refl, Bool, true, false, not, ◌&&◌, ◌||◌, Option, none, some, Text, arith, text_eq, ◌⊎◌, inl,
  inr, List, [], ◌∷◌,
}
use content_sources_backend.Slices
use content_sources_backend.Middleware.{red_hat_org, community_org}
use content_sources_backend.Tasks.Effects.{ok}
use content_sources_backend.Tasks.Effects.Rules.{Ends, bind-Ends, if-Ends, weaken-Ends, Ends-ok}
use content_sources_backend.Tasks.Pulp.{Distribution, PulpClient}
use content_sources_backend.Tasks.Features.{parse_features, is_empty}
use content_sources_backend.Tasks.DistributionHelper.{
  subscription_features_ignored, Repository, Snapshot, Hrefs, fetch_content_guard,
  create_or_update_guarded, create_or_update_distribution, create_or_update_template_distribution,
  create_or_update_unguarded_distribution,
}
use content_sources_backend.Tasks.DistributionHelper.Contract.{
  Served, Settled, Unchanged, Serves, Unchanged-Settled, create_or_update_guarded-Ends,
}

-- The organisations whose repositories everyone may see.
abbrev pub is_shared_org : Text → Bool
is_shared_org org_id = text_eq org_id red_hat_org || text_eq org_id community_org

abbrev pub features_ignored : Text → Bool
features_ignored feature =
    Slices.all_strings_in text_eq (parse_features feature) subscription_features_ignored

abbrev pub is_foreign_partner : Repository → Text → Bool
is_foreign_partner repo template_org_id = repo.partner && not (text_eq repo.org_id template_org_id)

ignored :
    (names : List Text)
    → (not (is_empty names)
        && not (Slices.all_strings_in text_eq names subscription_features_ignored))
      ≡ false
    → Slices.all_strings_in text_eq names subscription_features_ignored ≡ true
unfolding Slices.all_strings_in
ignored [] h = refl
ignored (n ∷ names) h = ground arith

not_ignored :
    (names : List Text)
    → (not (is_empty names)
        && not (Slices.all_strings_in text_eq names subscription_features_ignored))
      ≡ true
    → Slices.all_strings_in text_eq names subscription_features_ignored ≡ false
not_ignored names h = ground arith

module _ (OrgGuard FeatureGuard : Text → Text → Type 0) (repo_content_guards : Bool) where
  -- The guard of a repository: none where guards are switched off, or for a shared repository all of
  -- whose features are ignored; that of its features for another shared repository; and that of its
  -- organisation for any other.
  abbrev pub IsGuard : Text → Text → Option Text → Type 0
  IsGuard org_id feature guard' = elim guard' [
    | none ↦
        (repo_content_guards ≡ false)
        ⊎ ((is_shared_org org_id ≡ true) × (features_ignored feature ≡ true))
    | some href ↦
        (repo_content_guards ≡ true)
        × (((is_shared_org org_id ≡ true)
              × (features_ignored feature ≡ false)
              × FeatureGuard feature href)
            ⊎ ((is_shared_org org_id ≡ false) × OrgGuard org_id href))
  ]

  module _ {W : Type 0} (at : W → Text → Option Distribution) where
    -- The path serves the publication behind the guard of the repository.
    abbrev pub Guarded : W → W → Repository → Text → Text → Type 0
    Guarded w v repo publication_href path =
        (guard' : Option Text) × IsGuard repo.org_id repo.feature_name guard'
        × Served at w v path publication_href guard'

    abbrev pub TemplateServed : W → W → Repository → Snapshot → Text → Text → Type 0
    TemplateServed w v repo snapshot template_org_id path =
        ((is_foreign_partner repo template_org_id ≡ true)
          × (snapshot.published ≡ true)
          × Served at w v path snapshot.publication_href none)
        ⊎ ((is_foreign_partner repo template_org_id ≡ false)
            × Guarded w v repo snapshot.publication_href path)

module _ {W : Type 0} (at : W → Text → Option Distribution) (canceled : W → Bool)
    (OrgGuard FeatureGuard : Text → Text → Type 0) (repo_content_guards : Bool)
    (pulp : PulpClient W) (serves : Serves at canceled OrgGuard FeatureGuard pulp) where
  fetch_content_guard-IsGuard :
      (org_id feature : Text) (w : W)
      → Ends
          (λ guard' v.
            IsGuard OrgGuard FeatureGuard repo_content_guards org_id feature guard'
            × Unchanged at w v)
          (fetch_content_guard repo_content_guards pulp org_id feature w)
  unfolding fetch_content_guard
  fetch_content_guard-IsGuard org_id feature w =
      if-Ends _ (not repo_content_guards) _ _ w (λ off. (inl (ground arith), λ p. refl))
        λ on.
          if-Ends _ (is_shared_org org_id) _ _ w
            (λ shared.
              if-Ends _ (not (is_empty (parse_features feature)) && not (features_ignored feature))
                _ _ w
                (λ gated.
                  bind-Ends (λ href v. FeatureGuard feature href × Unchanged at w v) _
                    (pulp.create_or_update_guards_for_rhel_repo feature) _ w
                    (serves.guards_rhel feature w)
                    λ href v h. (
                      (ground arith, inl (shared, not_ignored (parse_features feature) gated, h.0)),
                      h.1,
                    ))
                (λ free. (inr (shared, ignored (parse_features feature) free), λ p. refl)))
            λ own.
              bind-Ends (λ href v. OrgGuard org_id href × Unchanged at w v) _
                (pulp.create_or_update_guards_for_org org_id) _ w (serves.guards_org org_id w)
                (λ href v h. ((ground arith, inr (own, h.0)), h.1))

  -- The same, unless a task was canceled.
  abbrev GuardSettled : W → W → Repository → Text → Text → Type 0
  GuardSettled w v repo publication_href path =
      canceled v ≡ false
      → Guarded OrgGuard FeatureGuard repo_content_guards at w v repo publication_href path

  create_or_update_distribution-Ends :
      (repo : Repository) (publication_href name path : Text) (w : W)
      → Ends
          (λ hrefs v. GuardSettled w v repo publication_href path)
          (create_or_update_distribution repo_content_guards pulp repo publication_href name path w)
  unfolding create_or_update_distribution
  create_or_update_distribution-Ends repo publication_href name path w =
      bind-Ends
        (λ guard' v.
          IsGuard OrgGuard FeatureGuard repo_content_guards repo.org_id repo.feature_name guard'
          × Unchanged at w v)
        _ (fetch_content_guard repo_content_guards pulp repo.org_id repo.feature_name) _ w
        (fetch_content_guard-IsGuard repo.org_id repo.feature_name w)
        λ guard' v (is_guard, same).
          weaken-Ends (λ h u. Settled at canceled v u path publication_href guard')
            (λ h u. GuardSettled w u repo publication_href path)
            (create_or_update_guarded repo_content_guards pulp publication_href name path guard' v)
            (λ hrefs u s done. (
              guard',
              is_guard,
              Unchanged-Settled at canceled OrgGuard FeatureGuard repo_content_guards pulp serves w
                  v u path publication_href guard' same s done,
            ))
            (create_or_update_guarded-Ends at canceled OrgGuard FeatureGuard repo_content_guards
              pulp serves publication_href name path guard' v)

  -- Suppose that Pulp does what it documents, and that no task that was polled has stopped without
  -- completing. After CreateOrUpdateDistribution succeeds, the path serves the publication that was
  -- asked for and no other path has changed, whether there was no distribution, one to update or one
  -- that is up to date. The path has no content guard only if guards are switched off, or the
  -- repository is of the Red Hat or the community organisation and all its features are ignored;
  -- otherwise it has the guard of the repository's features, where it is of one of those two, or the
  -- guard of its own organisation.
  pub create_or_update_distribution-Guarded :
      (repo : Repository) (publication_href name path : Text) (w v : W) (hrefs : Hrefs)
      → create_or_update_distribution repo_content_guards pulp repo publication_href name path w
        ≡ (ok hrefs, v)
      → canceled v ≡ false
      → Guarded OrgGuard FeatureGuard repo_content_guards at w v repo publication_href path
  create_or_update_distribution-Guarded repo publication_href name path w v hrefs e =
      Ends-ok (λ h u. GuardSettled w u repo publication_href path) _
        (create_or_update_distribution-Ends repo publication_href name path w) e

  abbrev TemplateSettled : W → W → Repository → Snapshot → Text → Text → Type 0
  TemplateSettled w v repo snapshot template_org_id path =
      canceled v ≡ false
      → TemplateServed OrgGuard FeatureGuard repo_content_guards at w v repo snapshot
          template_org_id path

  template-Ends :
      (repo : Repository) (snapshot : Snapshot) (template_org_id name path : Text) (w : W)
      → Ends
          (λ hrefs v. TemplateSettled w v repo snapshot template_org_id path)
          (create_or_update_template_distribution repo_content_guards pulp repo snapshot
            template_org_id name path w)
  unfolding create_or_update_template_distribution create_or_update_unguarded_distribution
  template-Ends repo snapshot template_org_id name path w =
      if-Ends _ (is_foreign_partner repo template_org_id) _ _ w
        (λ foreign.
          if-Ends _ (not snapshot.published) _ _ w (λ refused. tt)
            λ published.
              weaken-Ends (λ h v. Settled at canceled w v path snapshot.publication_href none)
                (λ h v. TemplateSettled w v repo snapshot template_org_id path)
                (create_or_update_guarded repo_content_guards pulp snapshot.publication_href name
                  path none w)
                (λ hrefs v s done. inl (foreign, ground arith, s done))
                (create_or_update_guarded-Ends at canceled OrgGuard FeatureGuard repo_content_guards
                  pulp serves snapshot.publication_href name path none w))
        λ own.
          weaken-Ends (λ h v. GuardSettled w v repo snapshot.publication_href path)
            (λ h v. TemplateSettled w v repo snapshot template_org_id path)
            (create_or_update_distribution repo_content_guards pulp repo snapshot.publication_href
              name path w)
            (λ hrefs v s done. inr (own, s done))
            (create_or_update_distribution-Ends repo snapshot.publication_href name path w)

  -- Suppose that Pulp does what it documents, and that no task that was polled has stopped without
  -- completing. After CreateOrUpdateTemplateDistribution succeeds, the path serves the snapshot's
  -- publication and no other path has changed. For a partner repository of another organisation than
  -- the template's the path has no guard and the snapshot is published: an unpublished snapshot is
  -- never opened to another organisation. For any other repository the path is guarded as
  -- CreateOrUpdateDistribution guards it.
  pub create_or_update_template_distribution-TemplateServed :
      (repo : Repository) (snapshot : Snapshot) (template_org_id name path : Text) (w v : W)
      (hrefs : Hrefs)
      → create_or_update_template_distribution repo_content_guards pulp repo snapshot
          template_org_id name path w
        ≡ (ok hrefs, v)
      → canceled v ≡ false
      → TemplateServed OrgGuard FeatureGuard repo_content_guards at w v repo snapshot
          template_org_id path
  create_or_update_template_distribution-TemplateServed repo snapshot template_org_id name path w v
        hrefs e =
      Ends-ok (λ h u. TemplateSettled w u repo snapshot template_org_id path) _
        (template-Ends repo snapshot template_org_id name path w) e
