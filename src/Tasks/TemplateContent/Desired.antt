-- ===== src/Tasks/TemplateContent/Desired.antt =====
-- The desired repositories of a triggered update, and what is promoted and demoted.
use content_sources_backend.Common.{
  ◌≡◌, refl, ap, ◌∙◌, Bool, true, false, not, ◌&&◌, ◌||◌, Option, some, List, [], ◌∷◌, Text, arith,
  if◌then◌else◌, text_eq, text_eq_iff, text_eq_refl, Bool-cases, inl, inr,
}
use content_sources_backend.Slices
use content_sources_backend.Tasks.Effects.{Result, ok, ◌>>=◌, pure, throw, not_partner}
use content_sources_backend.Tasks.DistributionHelper.{Repository}
use content_sources_backend.Tasks.TemplateContent.{
  Template, Update, without, reconcile_triggered, Reads, prepare_triggered_by,
  prepare_triggered_update, difference,
}

abbrev pub listed : List Text → Text → Bool
listed list x = Slices.contains text_eq list x

without-listed :
    (r : Text) (xs : List Text) (x : Text)
    → listed (without r xs) x ≡ (listed xs x && not (text_eq x r))
unfolding without Slices.contains
without-listed r [] x = refl
without-listed r (y ∷ ys) x =
    ground (arith, without-listed r ys x, text_eq_iff y r, text_eq_iff x y, text_eq_iff x r)

-- Does the repository leave the template?
abbrev pub leaves : Repository → Bool → Template → Bool
leaves repo published template =
    not published && (template.use_latest || not (text_eq repo.org_id template.org_id))

reconcile_triggered_lem :
    (repo : Repository) (published : Bool) (r : Text) (u : Update) (x : Text)
    → ((reconcile_triggered repo published r u).0
        ≡ (listed u.template.repository_uuids r && (published && u.template.use_latest)))
      × (listed (reconcile_triggered repo published r u).1.payload.repo_config_uuids x ≡ (
          listed u.template.repository_uuids x
          && not (leaves repo published u.template && text_eq x r)))
      × ((reconcile_triggered repo published r u).1.template.repository_uuids
          ≡ (reconcile_triggered repo published r u).1.payload.repo_config_uuids)
unfolding reconcile_triggered
reconcile_triggered_lem repo published r u x =
    ground (arith, without-listed r u.template.repository_uuids x, text_eq_iff x r)

prepare_triggered_by_lem :
    {W : Type 0} (reads : Reads W) (u : Update) (r : Text) (repo : Repository) (published : Bool)
    (w w1 w2 : W)
    → reads.fetch_without_org_id r w ≡ (ok repo, w1)
    → repo.partner ≡ true
    → reads.has_published_snapshot r w1 ≡ (ok published, w2)
    → prepare_triggered_by reads (some r) u w ≡ (ok (reconcile_triggered repo published r u), w2)
unfolding prepare_triggered_by
prepare_triggered_by_lem {W} reads u r repo published w w1 w2 fetched partner known =
    rw fetched (go repo.partner partner)
  where
    go :
        (b : Bool)
        → b ≡ true
        → ◌≡◌ {A = Result (Bool × Update) × W}
            ((if not b
                then throw not_partner
                else (reads.has_published_snapshot r >>= λ p.
                    pure (reconcile_triggered repo p r u)))
              w1)
            (ok (reconcile_triggered repo published r u), w2)
    go true e = rw known
    go false e = cc

-- A publication-triggered update, once the repository is fetched, is a partner's, and its
-- publication is known. The update is skipped exactly for a template that uses the latest snapshots
-- and lists the repository while it has a published snapshot. The repositories to go on with are
-- those of the template, in which the repository is missing exactly if it has no published snapshot
-- and the template uses the latest or is of another organisation than the repository: nothing is
-- added, and a repository that was removed before stays out. The template's own list is the same.
pub prepare_triggered_update-desired :
    {W : Type 0} (reads : Reads W) (u : Update) (r x : Text) (repo : Repository) (published : Bool)
    (w w1 w2 : W)
    → u.payload.triggered_by_repository_uuid ≡ some r
    → reads.fetch_without_org_id r w ≡ (ok repo, w1)
    → repo.partner ≡ true
    → reads.has_published_snapshot r w1 ≡ (ok published, w2)
    → (u' : Update) × (prepare_triggered_update reads u w ≡ (
      ok (listed u.template.repository_uuids r && (published && u.template.use_latest), u'),
      w2,
    ))
      × (listed u'.payload.repo_config_uuids x ≡ (
          listed u.template.repository_uuids x
          && not (leaves repo published u.template && text_eq x r)))
      × (u'.template.repository_uuids ≡ u'.payload.repo_config_uuids)
unfolding prepare_triggered_update
prepare_triggered_update-desired reads u r x repo published w w1 w2 triggered fetched partner
      known =
    let (skips, members, same) = reconcile_triggered_lem repo published r u x in
    (
      (reconcile_triggered repo published r u).1,
      ap (λ (o : Option Text). prepare_triggered_by reads o u w) triggered
          ∙ prepare_triggered_by_lem reads u r repo published w w1 w2 fetched partner known
          ∙ ap (λ b. (ok (b, (reconcile_triggered repo published r u).1), w2)) skips,
      members,
      same,
    )

pub difference-listed :
    (a b : List Text) (x : Text) → listed (difference a b) x ≡ (listed a x && not (listed b x))
unfolding difference Slices.contains
difference-listed [] b x = refl
difference-listed (y ∷ a) b x = elim (Bool-cases (text_eq x y)) [
  | inl e ↦
      let same : x ≡ y = (text_eq_iff x y).0 e in
      rw (← same) (ground (arith, text_eq_refl x, difference-listed a b x))
  | inr e ↦ ground (arith, difference-listed a b x)
]

-- What RunCandlepin promotes and demotes turns the contents of the environment into the wanted ones:
-- a content is in the environment after both exactly if it is wanted, nothing that is there is
-- promoted, and nothing that is wanted is demoted.
pub difference_reconciles :
    (wanted env : List Text) (x : Text)
    → (((listed env x || listed (difference wanted env) x)
          && not (listed (difference env wanted) x))
        ≡ listed wanted x)
      × ((listed env x && listed (difference wanted env) x) ≡ false)
      × ((listed wanted x && listed (difference env wanted) x) ≡ false)
difference_reconciles wanted env x =
    ground (arith, difference-listed wanted env x, difference-listed env wanted x)
