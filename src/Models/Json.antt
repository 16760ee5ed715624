-- ===== src/Models/Json.antt =====
-- Python values that `json.dumps` takes, with the dictionaries of the message bodies. Of the
-- numbers there are the naturals. A dictionary keeps its insertion order, and a key is looked up first to last.
use provisioning_api.Base.{
  ℕ, String, not, num_eq, Bool, true, false, Option, none, some, ◌==◌, if◌then◌else◌,
}

mutual
  pub data Json : Type 0 where
    null : Json
    bool : Bool → Json
    num : ℕ → Json
    str : String → Json
    arr : Items → Json
    obj : Fields → Json

  pub data Items : Type 0 where
    no_items : Items
    item : Json → Items → Items

  pub data Fields : Type 0 where
    no_fields : Fields
    field : String → Json → Fields → Fields

-- `d.get(key)`
unfoldable pub get_field : String → Fields → Option Json
get_field key no_fields = none
get_field key (field k v rest) = if k == key then some v else get_field key rest

-- `d.pop(key)`: what is left of the dictionary.
unfoldable pub pop_field : String → Fields → Fields
pop_field key no_fields = no_fields
pop_field key (field k v rest) = if k == key then rest else field k v (pop_field key rest)

-- `bool(d)`
abbrev pub fields_truthy : Fields → Bool
fields_truthy no_fields = false
fields_truthy (field k v rest) = true

-- `bool(v)`
abbrev pub truthy : Json → Bool
truthy null = false
truthy (bool b) = b
truthy (num n) = not (num_eq n 0)
truthy (str s) = not (s == "")
truthy (arr no_items) = false
truthy (arr (item v rest)) = true
truthy (obj fs) = fields_truthy fs
