-- ===== src/Examples/Tasks.antt =====
-- Runs of the tasks: distributions, their guards and the plans of an update.
use content_sources_backend.Common.{
  ℕ, refl, true, false, not, Option, none, some, Text, codes, text_eq, arith, split, ◌≡◌, ◌&&◌,
  ◌==◌, ◌∷◌, if◌then◌else◌, [],
}
use content_sources_backend.Slices
use content_sources_backend.Examples.Worlds.{
  never, OwnGuard, Shelf, at, bare, distribution_href, put, repo, repo_reads, small_pulp,
  small_pulp-Serves, snapshot, template,
}
use content_sources_backend.Tasks.Effects.{ok}
use content_sources_backend.Tasks.Pulp.{drop_prefix}
use content_sources_backend.Tasks.DistributionHelper.{
  Hrefs, create_or_update_distribution, create_or_update_template_distribution,
}
use content_sources_backend.Tasks.DistributionHelper.Guards.{
  Guarded, TemplateServed, create_or_update_distribution-Guarded,
  create_or_update_template_distribution-TemplateServed,
}
use content_sources_backend.Tasks.TemplateContent.{Update, prepare_triggered_update}
use content_sources_backend.Tasks.TemplateContent.Desired.{
  leaves, listed, prepare_triggered_update-desired,
}
use content_sources_backend.Tasks.PollTask.{poll_task}
use content_sources_backend.Tasks.PollTask.Ends.{in_progress_states, Justified, poll_task-Justified}
use content_sources_backend.Tasks.Overrides.{Override, unneeded_overrides}
use content_sources_backend.Tasks.Overrides.Reconciled.{overrides_key, unneeded_overrides-expected}
use content_sources_backend.Tasks.Features.{parse_features, replace_all}
use content_sources_backend.Tasks.Features.Sorted.{Ascends, parse_features-Ascends, tokens}

abbrev path : Text
path = codes "r1/i1"

abbrev written : Hrefs
written = (distribution_href, distribution_href)

abbrev stored : Shelf
stored = put path (some (record { publication = codes "p1"; guard' = some (codes "org") })) bare

run_create :
    create_or_update_distribution true small_pulp repo (codes "p1") path path bare
    ≡ (ok written, stored)
unfolding create_or_update_distribution text_eq drop_prefix
run_create = refl

create_or_update_distribution-Guarded_example :
    Guarded OwnGuard OwnGuard true at bare stored repo (codes "p1") path
create_or_update_distribution-Guarded_example =
    create_or_update_distribution-Guarded at never OwnGuard OwnGuard true small_pulp
      small_pulp-Serves repo (codes "p1") path path bare stored written run_create refl

abbrev opened : Shelf
opened = put path (some (record { publication = codes "p1"; guard' = none })) bare

run_template :
    create_or_update_template_distribution true small_pulp repo snapshot
      (codes "other")
      path
      path
      bare
    ≡ (ok written, opened)
unfolding create_or_update_template_distribution text_eq drop_prefix
run_template = refl

create_or_update_template_distribution-TemplateServed_example :
    TemplateServed OwnGuard OwnGuard true at bare opened repo snapshot (codes "other") path
create_or_update_template_distribution-TemplateServed_example =
    create_or_update_template_distribution-TemplateServed at never OwnGuard OwnGuard true small_pulp
      small_pulp-Serves repo snapshot (codes "other") path path bare opened written run_template
      refl

abbrev latest_path : Text
latest_path = codes "r1/latest"

abbrev latest_stored : Shelf
latest_stored = put latest_path (some (record { publication = codes "p1"; guard' = none })) bare

abbrev triggered : Update
triggered = record {
  template = template;
  payload = record {
    template_uuid = codes "t1";
    repo_config_uuids = [];
    triggered_by_repository_uuid = some (codes "r1");
    pool_id = none;
  };
}

prepare_triggered_update-desired_example :
    (u' : Update) × (prepare_triggered_update repo_reads triggered bare ≡ (
      ok (listed template.repository_uuids (codes "r1") && (false && template.use_latest), u'),
      bare,
    ))
    × (listed u'.payload.repo_config_uuids (codes "r2") ≡ (
        listed template.repository_uuids (codes "r2")
        && not (leaves repo false template && text_eq (codes "r2") (codes "r1"))))
    × (u'.template.repository_uuids ≡ u'.payload.repo_config_uuids)
prepare_triggered_update-desired_example =
    prepare_triggered_update-desired repo_reads triggered (codes "r1") (codes "r2") repo false bare
      bare bare refl refl refl refl

abbrev states : ℕ → Option Text
states call = if call == 2 then some (codes "completed") else none

completed_state : Slices.contains text_eq in_progress_states (codes "completed") ≡ false
unfolding Slices.contains text_eq
completed_state = refl

poll_task-Justified_example : Justified states (poll_task states 3)
poll_task-Justified_example =
    poll_task-Justified states 2 3 (codes "completed") refl completed_state (omega arith)

abbrev override : Text → Override
override name = record { name = name; content_label = codes "l"; value = codes "0" }

unneeded_overrides-expected_example :
    overrides_key (codes "a") (codes "l") (unneeded_overrides (override (codes "a") ∷ []) []) ≡ (
      overrides_key (codes "a") (codes "l") (override (codes "a") ∷ [])
      && not (overrides_key (codes "a") (codes "l") []))
unneeded_overrides-expected_example =
    unneeded_overrides-expected (codes "a") (codes "l") (override (codes "a") ∷ []) []

parse_features-Ascends_example :
    Ascends (parse_features (codes "b+a, b"))
    × (Slices.contains text_eq (parse_features (codes "b+a, b")) (codes "a") ≡ (
        not (text_eq (codes "a") [])
        && Slices.contains text_eq
            (tokens (split b',' (replace_all b'+' b',' (codes "b+a, b"))))
            (codes "a")))
parse_features-Ascends_example = parse_features-Ascends (codes "b+a, b") (codes "a")
