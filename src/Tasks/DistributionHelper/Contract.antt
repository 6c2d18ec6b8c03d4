-- ===== src/Tasks/DistributionHelper/Contract.antt =====
-- What Pulp promises of distributions, and what the helper makes of it: after a success the path
-- serves the publication that was asked for, behind the guard that was asked for.
use content_sources_backend.Common.{
  ◌≡◌, refl, sym, ap, ◌∙◌, Bool, true, false, not, Option, none, some, Text, arith, if◌then◌else◌,
  text_eq, text_eq_sound, Bool-cases, inl, inr, Option-cases,
}
use content_sources_backend.Slices
use content_sources_backend.Tasks.Effects.{◌>>=◌, require, no_distribution_href}
use content_sources_backend.Tasks.Effects.Rules.{Ends, bind-Ends, if-Ends, weaken-Ends}
use content_sources_backend.Tasks.Pulp.{Distribution, PulpClient, select_rpm_distribution_href}
use content_sources_backend.Tasks.DistributionHelper.{
  distribution_update_needed, create_missing, reconcile, create_or_update_guarded,
  create_or_reconcile,
}

guards_equal_sound :
    (left right : Option Text)
    → Slices.optional_strings_equal text_eq left right ≡ true
    → left ≡ right
unfolding Slices.optional_strings_equal
guards_equal_sound none none h = refl
guards_equal_sound none (some right) h = cc
guards_equal_sound (some left) none h = cc
guards_equal_sound (some left) (some right) h = ap some (text_eq_sound left right h)

-- A distribution that needs no update is as it should be.
not_needed :
    (d : Distribution) (publication_href : Text) (guard' : Option Text)
    → distribution_update_needed d publication_href guard' ≡ false
    → (d.publication ≡ some publication_href) × (d.content_guard ≡ guard')
unfolding distribution_update_needed
not_needed d publication_href guard' h =
    elim (Bool-cases (Slices.optional_strings_equal text_eq d.content_guard guard')) [
      | inr differs ↦ (let q : true ≡ false = (rw differs at h) in cc)
      | inl same ↦ elim (Option-cases d.publication) [
        | inl missing ↦ (let q : true ≡ false = (rw missing at (rw same at h)) in cc)
        | inr (publication, e) ↦
            let q : not (text_eq publication publication_href) ≡ false = (rw e at (rw same at h)) in
            (
              ground (arith, text_eq_sound publication publication_href),
              guards_equal_sound d.content_guard guard' same,
            )
      ]
    ]

module _ {W : Type 0} (at : W → Text → Option Distribution) where
  -- From one world to the other, only the distribution at the path has changed: it serves the
  -- publication behind the guard.
  abbrev pub Served : W → W → Text → Text → Option Text → Type 0
  Served w v path publication_href guard' =
      (d : Distribution) × ((p : Text) → at v p ≡ (if text_eq path p then some d else at w p))
      × (d.publication ≡ some publication_href)
      × (d.content_guard ≡ guard')

  abbrev pub Unchanged : W → W → Type 0
  Unchanged w v = (p : Text) → at v p ≡ at w p

  -- The same, unless a task of Pulp is known to have stopped without completing: PollTask gives a
  -- canceled task back as a success.
  abbrev pub Settled : (W → Bool) → W → W → Text → Text → Option Text → Type 0
  Settled canceled w v path publication_href guard' =
      canceled v ≡ false → Served w v path publication_href guard'

  -- The documented behaviour of Pulp, where a call and the poll of its task succeed. `canceled` tells
  -- whether a task that was polled has stopped without completing, and the last two relate an
  -- organisation and the names of features to the href of their content guard.
  pub record Serves (canceled : W → Bool) (OrgGuard FeatureGuard : Text → Text → Type 0)
      (pulp : PulpClient W) : Type 0 where
    pub finds :
        (path : Text) (w : W)
        → Ends (λ o v. (o ≡ at w path) × Unchanged w v) (pulp.find_distribution_by_path path w)
    pub creates :
        (publication_href name path : Text) (guard' : Option Text) (w : W)
        → Ends
            (λ task v. Settled canceled w v path publication_href guard')
            ((pulp.create_rpm_distribution publication_href name path guard' >>= pulp.poll_task) w)
    pub updates :
        (d : Distribution) (publication_href name path : Text) (guard' : Option Text) (w : W)
        → at w path ≡ some d
        → Ends
            (λ task v. Settled canceled w v path publication_href guard')
            ((pulp.update_rpm_distribution d.pulp_href publication_href name path guard'
                >>= pulp.poll_task)
              w)
    pub guards_org :
        (org_id : Text) (w : W)
        → Ends
            (λ href v. OrgGuard org_id href × Unchanged w v)
            (pulp.create_or_update_guards_for_org org_id w)
    pub guards_rhel :
        (feature : Text) (w : W)
        → Ends
            (λ href v. FeatureGuard feature href × Unchanged w v)
            (pulp.create_or_update_guards_for_rhel_repo feature w)

  module _ (canceled : W → Bool) (OrgGuard FeatureGuard : Text → Text → Type 0)
      (repo_content_guards : Bool) (pulp : PulpClient W)
      (serves : Serves canceled OrgGuard FeatureGuard pulp) where
    Unchanged-Served :
        (u w v : W) (path publication_href : Text) (guard' : Option Text)
        → Unchanged u w
        → Served w v path publication_href guard'
        → Served u v path publication_href guard'
    Unchanged-Served u w v path publication_href guard' same (d, rows, p, g) = (
      d,
      λ q. rows q ∙ ap (λ (o : Option Distribution). if text_eq path q then some d else o) (same q),
      p,
      g,
    )

    pub Unchanged-Settled :
        (u w v : W) (path publication_href : Text) (guard' : Option Text)
        → Unchanged u w
        → Settled canceled w v path publication_href guard'
        → Settled canceled u v path publication_href guard'
    Unchanged-Settled u w v path publication_href guard' same s done =
        Unchanged-Served u w v path publication_href guard' same (s done)

    -- A distribution that needs no update serves what is asked for.
    up_to_date :
        (w : W) (d : Distribution) (path publication_href : Text) (guard' : Option Text)
        → at w path ≡ some d
        → distribution_update_needed d publication_href guard' ≡ false
        → Served w w path publication_href guard'
    up_to_date w d path publication_href guard' here needed =
        let (p, g) = not_needed d publication_href guard' needed in (d, rows, p, g)
      where
        rows : (p : Text) → at w p ≡ (if text_eq path p then some d else at w p)
        rows p = elim (Bool-cases (text_eq path p)) [
          | inl e ↦ rw e (rw (← text_eq_sound path p e) here)
          | inr e ↦ rw e
        ]

    reconcile-Ends :
        (d : Distribution) (publication_href name path : Text) (guard' : Option Text) (w : W)
        → at w path ≡ some d
        → Ends
            (λ hrefs v. Settled canceled w v path publication_href guard')
            (reconcile repo_content_guards pulp d publication_href name path guard' w)
    unfolding reconcile
    reconcile-Ends d publication_href name path guard' w here =
        if-Ends _ (not (distribution_update_needed d publication_href guard')) _ _ w
          (λ h done. up_to_date w d path publication_href guard' here (ground arith))
          λ h.
            bind-Ends (λ task v. Settled canceled w v path publication_href guard') _
              (pulp.update_rpm_distribution d.pulp_href publication_href name path guard'
                >>= pulp.poll_task)
              _ w (serves.updates d publication_href name path guard' w here) (λ task v s. s)

    create_missing-Ends :
        (publication_href name path : Text) (guard' : Option Text) (w : W)
        → Ends
            (λ hrefs v. Settled canceled w v path publication_href guard')
            (create_missing repo_content_guards pulp publication_href name path guard' w)
    unfolding create_missing
    create_missing-Ends publication_href name path guard' w =
        bind-Ends (λ task v. Settled canceled w v path publication_href guard') _
          (pulp.create_rpm_distribution publication_href name path guard' >>= pulp.poll_task) _ w
          (serves.creates publication_href name path guard' w)
          λ task v s.
            bind-Ends (λ href u. Settled canceled w u path publication_href guard') _
              (require (select_rpm_distribution_href (some task)) no_distribution_href) _ v
              (required v (select_rpm_distribution_href (some task)) s) (λ href u t. t)
      where
        required :
            (v : W) (o : Option Text)
            → Settled canceled w v path publication_href guard'
            → Ends
                (λ href u. Settled canceled w u path publication_href guard')
                (require {W = W} o no_distribution_href v)
        required v none s = tt
        required v (some href) s = s

    pub create_or_update_guarded-Ends :
        (publication_href name path : Text) (guard' : Option Text) (w : W)
        → Ends
            (λ hrefs v. Settled canceled w v path publication_href guard')
            (create_or_update_guarded repo_content_guards pulp publication_href name path guard' w)
    unfolding create_or_update_guarded
    create_or_update_guarded-Ends publication_href name path guard' w =
        bind-Ends (λ o v. (o ≡ at w path) × Unchanged w v) _ (pulp.find_distribution_by_path path) _
          w (serves.finds path w) either
      where
        found :
            (o : Option Distribution) (v : W)
            → o ≡ at v path
            → Ends
                (λ hrefs u. Settled canceled v u path publication_href guard')
                (create_or_reconcile repo_content_guards pulp o publication_href name path guard' v)
        found none v e = create_missing-Ends publication_href name path guard' v
        found (some d) v e = reconcile-Ends d publication_href name path guard' v (sym e)

        either :
            (o : Option Distribution) (v : W)
            → (o ≡ at w path) × Unchanged w v
            → Ends
                (λ hrefs u. Settled canceled w u path publication_href guard')
                (create_or_reconcile repo_content_guards pulp o publication_href name path guard' v)
        either o v (e, same) =
            weaken-Ends _ _ _
              (λ hrefs u s. Unchanged-Settled w v u path publication_href guard' same s)
              (found o v (e ∙ sym (same path)))
