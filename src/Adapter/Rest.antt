-- ===== src/Adapter/Rest.antt =====
-- `UDMAdapter` of `src/server/adapters/udm_adapter.py` and `InternalAPIAdapter` of
-- `src/server/adapters/internal_api_adapter.py`, over the calls of an `aiohttp` session, of which
-- the repository has no source. A session raises `ClientError` on an error status.
pub mod Reads
use provisioning_api.Base.{
  ℕ, String, ◌<>◌, Bool, true, false, ltb, Option, none, some, List, [], ◌∷◌, if◌then◌else◌,
}
use provisioning_api.Base.Exec.{
  Exec, Result, ok, raised, and_then, lift, pure, ◌>>=◌, key_error, type_error, validation_error,
}
use provisioning_api.Models.Json.{
  Json, Items, Fields, num, str, arr, obj, no_items, item, no_fields, field, get_field, pop_field,
}
use provisioning_api.Models.Subscription.{FillQueueStatus, status_value}
use provisioning_api.Models.Queue.{Message, dump_message}

pub record Http (S : Type 0) : Type 0 where
  pub get : String → List (String × String) → Exec S Json
  pub patch : String → Json → Exec S (Unit {0})
  pub post : String → Json → Exec S (Unit {0})
  pub delete : String → Exec S (Unit {0})

-- `j[key]`
unfoldable pub index : String → Json → Result Json
index key (obj fs) = elim (get_field key fs) [ none ↦ raised key_error | some j ↦ ok j ]
index key _ = raised type_error

-- The values that the responses are documented to have.
as_text : Json → Result String
as_text (str s) = ok s
as_text _ = raised type_error

as_number : Json → Result ℕ
as_number (num n) = ok n
as_number _ = raised type_error

as_object : Json → Result Fields
as_object (obj fs) = ok fs
as_object _ = raised type_error

-- `for x in j`
as_list : Json → Result Items
as_list (arr js) = ok js
as_list _ = raised type_error

objects : Items → Result (List Fields)
objects no_items = ok []
objects (item j js) = and_then (as_object j) λ fs. and_then (objects js) λ rest. ok (fs ∷ rest)

-- `[obj["uri"] for obj in …]`
uris : Items → Result (List String)
uris no_items = ok []
uris (item j js) =
    and_then (index "uri" j)
      λ u. and_then (as_text u) λ uri. and_then (uris js) λ rest. ok (uri ∷ rest)

-- `udm_obj.pop("_links")`
without_links : Fields → Result Fields
without_links fs = elim (get_field "_links" fs) [
  | none ↦ raised key_error
  | some j ↦ ok (pop_field "_links" fs)
]

pub list_params : List (String × String)
list_params =
    ("scope", "sub")
    ∷ ("hidden", "true")
    ∷ ("properties", "NonExistantDummyProperty")
    ∷ ("page", "1")
    ∷ ("limit", "0")
    ∷ ("dir", "ASC")
    ∷ []

unfoldable pub status_url : String → String → String
status_url base_url name = base_url <> "/v1/subscriptions/" <> name <> "/prefill"

unfoldable pub status_report : FillQueueStatus → Json
status_report queue_status = obj (field "status" (str (status_value queue_status)) no_fields)

module _ {S : Type 0} (http : Http S) (base_url : String) where
  unfoldable pub get_object_types : Exec S (List Fields)
  unfolding index objects as_list as_object
  get_object_types = do
    response ← http.get base_url []
    links ← lift (index "_links" response)
    types ← lift (index "udm:object-types" links)
    js ← lift (as_list types)
    lift (objects js)

  -- The listed URLs of a response with results.
  found_uris : Json → ℕ → Result (List String)
  found_uris response n_results =
      if ltb 0 n_results
      then (and_then (index "_embedded" response) λ embedded.
          and_then (index "udm:object" embedded) λ listed. and_then (as_list listed) uris)
      else ok []

  -- No caller gives a position.
  unfoldable pub list_objects : String → Exec S (List String)
  unfolding found_uris index as_number as_list uris as_text list_params
  list_objects object_type = do
    response ← http.get (base_url <> object_type <> "/") list_params
    results ← lift (index "results" response)
    n_results ← lift (as_number results)
    lift (found_uris response n_results)

  unfoldable pub get_object : String → Exec S Fields
  unfolding without_links as_object
  get_object url = do
    udm_obj ← http.get url []
    fs ← lift (as_object udm_obj)
    lift (without_links fs)

  unfoldable pub update_subscription_queue_status : String → FillQueueStatus → Exec S (Unit {0})
  unfolding status_url status_report
  update_subscription_queue_status name queue_status =
      http.patch (status_url base_url name) (status_report queue_status)

  unfoldable pub send_event : Message → Exec S (Unit {0})
  send_event message = http.post (base_url <> "/v1/messages") (obj (dump_message message))
