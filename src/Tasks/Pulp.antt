-- ===== src/Tasks/Pulp.antt =====
-- Pulp as the tasks see it: the answers of the client of pkg/clients/pulp_client, the interface
-- PulpClient as a record of calls on a world, and the selection of a created resource of
-- pkg/clients/pulp_client/task.go.
use content_sources_backend.Common.{
  ℕ, Bool, true, false, not, ◌&&◌, ◌||◌, leb, Option, none, some, List, [], ◌∷◌, Text, codes,
  if◌then◌else◌, ◌==◌,
}
use content_sources_backend.Tasks.Effects.{Action}

-- zest.TaskResponse and zest.RpmRpmDistributionResponse, as far as the tasks read them.
pub record TaskResponse : Type 0 where
  pub pulp_href : Option Text
  pub created_resources : List Text

pub record Distribution : Type 0 where
  pub pulp_href : Text
  pub name : Text
  pub base_path : Text
  pub publication : Option Text
  pub content_guard : Option Text

-- The calls of PulpClient that the tasks make of distributions, guards and tasks. A distribution
-- that Pulp lists has its href.
pub record PulpClient (W : Type 0) : Type 0 where
  pub find_distribution_by_path : Text → Action W (Option Distribution)
  pub create_rpm_distribution : Text → Text → Text → Option Text → Action W Text
  pub update_rpm_distribution : Text → Text → Text → Text → Option Text → Action W Text
  pub delete_rpm_distribution : Text → Action W (Option Text)
  pub poll_task : Text → Action W TaskResponse
  pub get_task : Text → Action W TaskResponse
  pub create_or_update_guards_for_org : Text → Action W Text
  pub create_or_update_guards_for_rhel_repo : Text → Action W Text
  pub find_rpm_publication_by_version : Text → Action W (Option Text)
  pub create_rpm_publication : Text → Action W (Option Text)

-- The rest of a text that starts with another.
unfoldable pub drop_prefix : Text → Text → Option Text
drop_prefix [] t = some t
drop_prefix (c ∷ p) [] = none
drop_prefix (c ∷ p) (d ∷ t) = if c == d then drop_prefix p t else none

abbrev pub any_code : ℕ → Bool
any_code c = not (c == b'\n')

abbrev pub digit : ℕ → Bool
digit c = leb b'0' c && leb c b'9'

-- Literal parts in order, each after a gap of code points of its own kind: the shape of the regular
-- expressions of SelectVersionHref, SelectPublicationHref and SelectRpmDistributionHref.
unfoldable pub parts_in : List ((ℕ → Bool) × Text) → Text → Bool
unfolding drop_prefix
parts_in [] t = true
parts_in ((gap, p) ∷ ps) [] = elim (drop_prefix p []) [
  | none ↦ false
  | some rest ↦ parts_in ps rest
]
parts_in ((gap, p) ∷ ps) (c ∷ t) =
    elim (drop_prefix p (c ∷ t)) [ none ↦ false | some rest ↦ parts_in ps rest ]
    || (gap c && parts_in ((gap, p) ∷ ps) t)

-- regexp.MatchString looks anywhere in the text.
abbrev anywhere : ℕ → Bool
anywhere c = true

abbrev pub version_pattern : List ((ℕ → Bool) × Text)
version_pattern =
    (anywhere, codes "/pulp/")
    ∷ (any_code, codes "/api/v3/repositories/rpm/rpm/")
    ∷ (any_code, codes "/versions/")
    ∷ (digit, codes "/")
    ∷ []

abbrev pub publication_pattern : List ((ℕ → Bool) × Text)
publication_pattern =
    (anywhere, codes "/pulp/")
    ∷ (any_code, codes "/api/v3/publications/rpm/rpm/")
    ∷ (any_code, codes "/")
    ∷ []

abbrev pub distribution_pattern : List ((ℕ → Bool) × Text)
distribution_pattern =
    (anywhere, codes "/pulp/")
    ∷ (any_code, codes "/api/v3/distributions/rpm/rpm/")
    ∷ (any_code, codes "/")
    ∷ []

unfoldable pub first_match : List ((ℕ → Bool) × Text) → List Text → Option Text
unfolding parts_in
first_match pattern' [] = none
first_match pattern' (r ∷ rs) = if parts_in pattern' r then some r else first_match pattern' rs

unfoldable pub select_created_version_href :
    Option TaskResponse → List ((ℕ → Bool) × Text) → Option Text
unfolding first_match
select_created_version_href none regex = none
select_created_version_href (some task) regex = first_match regex task.created_resources

unfoldable pub select_version_href : Option TaskResponse → Option Text
unfolding select_created_version_href
select_version_href task = select_created_version_href task version_pattern

unfoldable pub select_publication_href : Option TaskResponse → Option Text
unfolding select_created_version_href
select_publication_href task = select_created_version_href task publication_pattern

unfoldable pub select_rpm_distribution_href : Option TaskResponse → Option Text
unfolding select_created_version_href
select_rpm_distribution_href task = select_created_version_href task distribution_pattern
