-- ===== src/Middleware/Tenancy.antt =====
-- Whose data a response has (pkg/middleware/enforce_consistent_org_id.go).
use content_sources_backend.Common.{
  ◌≡◌, refl, sym, subst, ◌∙◌, ◌⊎◌, inl, inr, true, false, ◌||◌, Option, some, List, [], ◌∷◌, ◌++◌,
  Text, codes, arith, text_eq, text_eq_sound, text_eq_refl, Bool-cases,
}
use content_sources_backend.Slices
use content_sources_backend.Middleware.Json.{
  Json, string, object, array, Items, no_items, item, Fields, field_of, own_org_id, item_org_ids,
  data_org_ids, extract_org_ids,
}
use content_sources_backend.Middleware.{
  Config, Request, Reply, Answer, failed, error_response, replied, is_shown, all_shown,
  write_recorded, check_answer, skip_middleware, skip_enforce_consistent_org_id,
  enforce_consistent_org_id,
}

all_shown-contains :
    (org : Text) (ids : List Text) (id : Text)
    → all_shown org ids ≡ true
    → Slices.contains text_eq ids id ≡ true
    → is_shown org id ≡ true
unfolding all_shown Slices.contains
all_shown-contains org [] id h k = ground arith
all_shown-contains org (other ∷ ids) id h k =
    ground (arith, all_shown-contains org ids id, text_eq_sound id other)

check_answer-shown :
    (unmarshal : Text → Option Fields) (org : Text) (headers : List (Text × List Text)) (a : Answer)
    (r : Reply) (response : Fields) (id : Text)
    → check_answer unmarshal org headers a ≡ replied r
    → r.code ≡ 200
    → text_eq r.body [] ≡ false
    → unmarshal r.body ≡ some response
    → Slices.contains text_eq (extract_org_ids response) id ≡ true
    → is_shown org id ≡ true
unfolding check_answer write_recorded
check_answer-shown unmarshal org headers (failed e) r response id a c b u k = ground arith
check_answer-shown unmarshal org headers (error_response e) r response id a c b u k = ground arith
check_answer-shown unmarshal org headers (replied rec) r response id a c b u k =
    ground (arith, all_shown-contains org (extract_org_ids response) id)

is_shown-cases :
    (org id : Text)
    → is_shown org id ≡ true
    → (id ≡ org)
      ⊎ ((id ≡ codes "-1") ⊎ ((id ≡ codes "-2") ⊎ ((id ≡ codes "-3") ⊎ (id ≡ codes "-4"))))
unfolding is_shown
is_shown-cases org id h = elim (Bool-cases (text_eq id (org))) [
  | inl e ↦ inl (text_eq_sound id (org) e)
  | inr e5 ↦ inr (elim (Bool-cases (text_eq id (codes "-1"))) [
    | inl e ↦ inl (text_eq_sound id (codes "-1") e)
    | inr e4 ↦ inr (elim (Bool-cases (text_eq id (codes "-2"))) [
      | inl e ↦ inl (text_eq_sound id (codes "-2") e)
      | inr e3 ↦ inr (elim (Bool-cases (text_eq id (codes "-3"))) [
        | inl e ↦ inl (text_eq_sound id (codes "-3") e)
        | inr e2 ↦ inr (text_eq_sound id (codes "-4") (ground arith))
      ])
    ])
  ])
]

-- An object stands in an array.
abbrev pub IsItem : Fields → Items → Type 0
IsItem members no_items = ⊥
IsItem members (item json items) = (json ≡ object members) ⊎ IsItem members items

-- An object has the organization, which is not empty, as its org_id.
abbrev pub Owns : Fields → Text → Type 0
Owns members id = (field_of members (codes "org_id") ≡ some (string id)) × (text_eq id [] ≡ false)

-- A response names an organization: in its own org_id, in that of the object under data, or in that
-- of an object of the array under data.
unfoldable pub Names : Fields → Text → Type 0
Names response id =
    Owns response id
    ⊎ ((members : Fields) × (field_of response (codes "data") ≡ some (object members))
        × Owns members id)
    ⊎ ((items : Items) × (members : Fields) × (field_of response (codes "data")
          ≡ some (array items))
        × IsItem members items
        × Owns members id)

own_org_id-Owns :
    (members : Fields) (id : Text)
    → Owns members id
    → Slices.contains text_eq (own_org_id members) id ≡ true
unfolding own_org_id Slices.contains
own_org_id-Owns members id (e, filled) = rw (e, filled, text_eq_refl id) refl

contains_append :
    (a b : List Text) (id : Text)
    → Slices.contains text_eq (a ++ b) id
      ≡ (Slices.contains text_eq a id || Slices.contains text_eq b id)
unfolding Slices.contains
contains_append [] b id = refl
contains_append (x ∷ a) b id = ground (arith, contains_append a b id)

item_org_ids-Owns :
    (items : Items) (members : Fields) (id : Text)
    → IsItem members items
    → Owns members id
    → Slices.contains text_eq (item_org_ids items) id ≡ true
unfolding item_org_ids
item_org_ids-Owns no_items members id m o = absurd m
item_org_ids-Owns (item json items) members id (inl same) o =
    subst (λ j. Slices.contains text_eq (item_org_ids (item j items)) id ≡ true) (sym same)
      (contains_append (own_org_id members) (item_org_ids items) id
        ∙ rw (own_org_id-Owns members id o) refl)
item_org_ids-Owns (item (object first) items) members id (inr m) o =
    contains_append (own_org_id first) (item_org_ids items) id
    ∙ ground (arith, item_org_ids-Owns items members id m o)
item_org_ids-Owns (item (string t) items) members id (inr m) o =
    item_org_ids-Owns items members id m o
item_org_ids-Owns (item (array inner) items) members id (inr m) o =
    item_org_ids-Owns items members id m o
item_org_ids-Owns (item Json.other items) members id (inr m) o =
    item_org_ids-Owns items members id m o

extract_org_ids-Names :
    (response : Fields) (id : Text)
    → Names response id
    → Slices.contains text_eq (extract_org_ids response) id ≡ true
unfolding extract_org_ids Names
extract_org_ids-Names response id named =
    contains_append (own_org_id response) (data_org_ids (field_of response (codes "data"))) id
    ∙ either named
  where
    given : List Text
    given = data_org_ids (field_of response (codes "data"))

    either :
        Names response id
        → (Slices.contains text_eq (own_org_id response) id || Slices.contains text_eq given id)
          ≡ true
    either (inl own) = rw (own_org_id-Owns response id own) refl
    either (inr (inl (members, e, o))) =
        let there : Slices.contains text_eq given id ≡ true =
          unfold data_org_ids in rw e (own_org_id-Owns members id o) in
        ground (arith, there)
    either (inr (inr (items, members, e, m, o))) =
        let there : Slices.contains text_eq given id ≡ true =
          unfold data_org_ids in rw e (item_org_ids-Owns items members id m o) in
        ground (arith, there)

-- A response with status 200 and a body that the middleware lets through, on a route to which it
-- applies and where the body decodes to an object, names no organization but the user's own and the
-- four that are shared, -1, -2, -3 and -4. It names one by org_id, at its top, in the object under
-- data, or in an object of the array under data.
pub enforce_consistent_org_id-shown :
    (config : Config) (unmarshal : Text → Option Fields) (headers : List (Text × List Text))
    (handler : Request → Answer) (c : Request) (r : Reply) (response : Fields) (id : Text)
    → skip_middleware config c ≡ false
    → skip_enforce_consistent_org_id config c ≡ false
    → enforce_consistent_org_id config unmarshal headers handler c ≡ replied r
    → r.code ≡ 200
    → text_eq r.body [] ≡ false
    → unmarshal r.body ≡ some response
    → Names response id
    → (id ≡ c.identity.internal_org_id)
      ⊎ ((id ≡ codes "-1") ⊎ ((id ≡ codes "-2") ⊎ ((id ≡ codes "-3") ⊎ (id ≡ codes "-4"))))
unfolding enforce_consistent_org_id
enforce_consistent_org_id-shown config unmarshal headers handler c r response id s t a k b u n =
    is_shown-cases c.identity.internal_org_id id (
      check_answer-shown unmarshal c.identity.internal_org_id headers (handler c) r response id
        (ground arith) k b u (extract_org_ids-Names response id n))

-- What the middleware answers with a response is the handler's own response: its status and body.
pub enforce_consistent_org_id-own :
    (config : Config) (unmarshal : Text → Option Fields) (headers : List (Text × List Text))
    (handler : Request → Answer) (c : Request) (r : Reply)
    → enforce_consistent_org_id config unmarshal headers handler c ≡ replied r
    → (rec : Reply) × (handler c ≡ replied rec) × (rec.code ≡ r.code) × (rec.body ≡ r.body)
unfolding enforce_consistent_org_id check_answer write_recorded
enforce_consistent_org_id-own config unmarshal headers handler c r a = own (handler c) refl
  where
    own :
        (b : Answer)
        → handler c ≡ b
        → (rec : Reply) × (handler c ≡ replied rec) × (rec.code ≡ r.code) × (rec.body ≡ r.body)
    own (failed e) h = absurd (ground arith)
    own (error_response e) h = absurd (ground arith)
    own (replied rec) h = (rec, h, ground arith, ground arith)
