-- ===== src/Transformer/Values.antt =====
-- The tests and look-ups of `src/udm_transformer/service/udm.py` and `controller.py`, as functions.
use provisioning_api.Base.{
  String, Bool, false, ◌||◌, Option, none, some, List, [], ◌∷◌, ◌==◌, if◌then◌else◌,
}
use provisioning_api.Base.Exec.{
  Result, ok, raised, key_error, index_error, attribute_error, type_error, validation_error,
}
use provisioning_api.Models.Json.{
  Json, Fields, str, arr, obj, no_items, item, no_fields, get_field, truthy, fields_truthy,
}
use provisioning_api.Models.Queue.{
  PublisherName, udm_listener, ldif_producer, ldif_stream, ldif_subject, ldap_stream, ldap_subject,
}

abbrev pub supported_object_types : List String
supported_object_types =
    "oxmail/accessprofile" ∷ "oxmail/functional_account" ∷ "oxmail/oxcontext"
    ∷ "oxresources/oxresources" ∷ "portals/all" ∷ "portals/announcement" ∷ "portals/category"
    ∷ "portals/entry" ∷ "portals/folder" ∷ "portals/portal" ∷ "portals/announcement"
    ∷ "portals/category" ∷ "portals/entry" ∷ "portals/folder" ∷ "portals/portal" ∷ "users/user"
    ∷ "groups/group" ∷ []

abbrev pub udm_modules_reload_trigger : List String
udm_modules_reload_trigger =
    "settings/extended_attribute" ∷ "settings/extended_options" ∷ "settings/udm_hook"
    ∷ "settings/udm_module" ∷ "settings/udm_syntax" ∷ []

-- `x in xs`
unfoldable pub is_in : String → List String → Bool
is_in x [] = false
is_in x (y ∷ ys) = x == y || is_in x ys

-- `obj.get("objectType") in UDM_MODULES_RELOAD_TRIGGER`; lists and dictionaries have no hash.
unfoldable pub triggers_reload : Option Json → Result Bool
triggers_reload (some (str s)) = ok (is_in s udm_modules_reload_trigger)
triggers_reload (some (arr js)) = raised type_error
triggers_reload (some (obj fs)) = raised type_error
triggers_reload _ = ok false

-- `entry[key][0]`, a byte string
unfoldable pub first_text : Json → Result String
first_text (arr (item (str s) rest)) = ok s
first_text (arr (item _ rest)) = raised attribute_error
first_text (arr no_items) = raised index_error
first_text (obj fs) = raised key_error
first_text _ = raised type_error

unfoldable pub first_value : String → Fields → Result String
unfolding first_text
first_value key entry = elim (get_field key entry) [
  | none ↦ raised key_error
  | some j ↦ first_text j
]

-- `object_types[0].decode("utf-8")`; `none` where there is no list, or an empty one.
unfoldable pub object_type_of : Fields → Result (Option String)
object_type_of entry = elim (get_field "univentionObjectType" entry) [
  | some (arr (item (str s) rest)) ↦ ok (some s)
  | some (arr (item _ rest)) ↦ raised attribute_error
  | _ ↦ ok none
]

-- `new or old`
unfoldable pub new_or_old : Option Fields → Fields → Fields
new_or_old none old = old
new_or_old (some new) old = if fields_truthy new then new else old

unfoldable pub option_truthy : Option Fields → Bool
option_truthy none = false
option_truthy (some fs) = fields_truthy fs

-- What the cache holds are dictionaries.
unfoldable pub as_cached : Option Json → Result Fields
as_cached none = ok no_fields
as_cached (some (obj fs)) = ok fs
as_cached (some _) = raised attribute_error

-- `object_type`, where there is one: `none` is a falsy one. Where none is found, the message for
-- the log asks the new object for its DN, which is no object where it is `None`.
unfoldable pub without_type : Option Fields → Result (Option Json)
without_type none = raised attribute_error
without_type (some new) = ok none

unfoldable pub known_type : Option Fields → Option Json → Result (Option Json)
known_type new none = without_type new
known_type new (some j) = if truthy j then ok (some j) else without_type new

unfoldable pub event_type : Option Fields → Fields → Result (Option Json)
unfolding known_type without_type
event_type new old = known_type new (get_field "objectType" (new_or_old new old))

-- `Message(topic=...)`, a text
unfoldable pub as_topic : Json → Result String
as_topic (str s) = ok s
as_topic _ = raised validation_error

-- The validator `set_empty_dict`: `v or {}`
unfoldable pub or_empty : Option Fields → Fields
or_empty none = no_fields
or_empty (some fs) = fs

unfoldable pub source_stream : PublisherName → Result String
source_stream ldif_producer = ok ldif_stream
source_stream udm_listener = ok ldap_stream
source_stream _ = raised key_error

unfoldable pub source_subject : PublisherName → Result String
source_subject ldif_producer = ok ldif_subject
source_subject udm_listener = ok ldap_subject
source_subject _ = raised key_error
