-- ===== src/Middleware/Json.antt =====
-- JSON values as encoding/json decodes them, and the organizations that they name (extractOrgIds of
-- pkg/middleware/enforce_consistent_org_id.go).
use content_sources_backend.Common.{
  Option, none, some, List, [], ◌∷◌, ◌++◌, Text, codes, if◌then◌else◌, text_eq,
}

-- A string, an object, an array, or any other value.
mutual
  pub data Json : Type 0 where
    string : Text → Json
    object : Fields → Json
    array : Items → Json
    other : Json

  pub data Items : Type 0 where
    no_items : Items
    item : Json → Items → Items

  pub data Fields : Type 0 where
    no_fields : Fields
    field : Text → Json → Fields → Fields

unfoldable pub field_of : Fields → Text → Option Json
field_of no_fields key = none
field_of (field k v fields) key = if text_eq k key then some v else field_of fields key

abbrev given : Option Json → List Text
given (some (string id)) = if text_eq id [] then [] else id ∷ []
given _ = []

-- The organization that an object names itself.
unfoldable pub own_org_id : Fields → List Text
unfolding field_of
own_org_id response = given (field_of response (codes "org_id"))

unfoldable pub item_org_ids : Items → List Text
unfolding own_org_id
item_org_ids no_items = []
item_org_ids (item (object fields) items) = own_org_id fields ++ item_org_ids items
item_org_ids (item _ items) = item_org_ids items

unfoldable pub data_org_ids : Option Json → List Text
unfolding item_org_ids own_org_id
data_org_ids (some (array items)) = item_org_ids items
data_org_ids (some (object fields)) = own_org_id fields
data_org_ids _ = []

unfoldable pub extract_org_ids : Fields → List Text
unfolding own_org_id data_org_ids
extract_org_ids response = own_org_id response ++ data_org_ids (field_of response (codes "data"))
