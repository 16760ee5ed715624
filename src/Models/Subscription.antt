-- ===== src/Models/Subscription.antt =====
-- `src/univention/provisioning/models/subscription.py` and `NewSubscription` of `models/api.py`.
-- `model_validate` reads the declared types strictly; pydantic's conversion of JSON
-- values to `bool` is the parameter `Conversions`.
pub mod Laws
use provisioning_api.Base.{
  String, Bool, true, false, ◌&&◌, Option, none, some, List, [], ◌∷◌, ◌==◌, if◌then◌else◌,
}
use provisioning_api.Base.Exec.{Result, ok, raised, validation_error}
use provisioning_api.Models.Pydantic.{Conversions}
use provisioning_api.Models.Json.{
  Json, Items, Fields, null, bool, num, str, arr, obj, no_items, item, no_fields, field, get_field,
}

pub data FillQueueStatus : Type 0 where
  pending running failed done : FillQueueStatus

-- `status.value`, which is also `status.name`.
unfoldable pub status_value : FillQueueStatus → String
status_value pending = "pending"
status_value running = "running"
status_value failed = "failed"
status_value done = "done"

unfoldable pub status_of_value : String → Option FillQueueStatus
status_of_value v =
    if v == "pending"
    then some pending
    else if v == "running"
    then some running
    else if v == "failed"
    then some failed
    else if v == "done"
    then some done
    else none

unfoldable pub status_is_done : FillQueueStatus → Bool
status_is_done done = true
status_is_done _ = false

pub record RealmTopic : Type 0 where
  pub realm : String
  pub topic : String

pub record Subscription : Type 0 where
  pub name : String
  pub realms_topics : List RealmTopic
  pub request_prefill : Bool
  pub prefill_queue_status : FillQueueStatus

pub record NewSubscription : Type 0 where
  pub name : String
  pub realms_topics : List RealmTopic
  pub request_prefill : Bool
  pub password : String

pub data Bucket : Type 0 where
  subscriptions credentials cache : Bucket

-- `==` of two `RealmTopic`s, and of two lists of them.
unfoldable pub realm_topic_eq : RealmTopic → RealmTopic → Bool
realm_topic_eq a b = a.realm == b.realm && a.topic == b.topic

unfoldable pub realms_topics_eq : List RealmTopic → List RealmTopic → Bool
unfolding realm_topic_eq
realms_topics_eq [] [] = true
realms_topics_eq (a ∷ as_) (b ∷ bs) = realm_topic_eq a b && realms_topics_eq as_ bs
realms_topics_eq _ _ = false

-- `model_dump()`
dump_realm_topic : RealmTopic → Json
dump_realm_topic rt = obj (field "realm" (str rt.realm) (field "topic" (str rt.topic) no_fields))

unfoldable pub dump_realms_topics : List RealmTopic → Items
unfolding dump_realm_topic
dump_realms_topics [] = no_items
dump_realms_topics (rt ∷ rts) = item (dump_realm_topic rt) (dump_realms_topics rts)

unfoldable pub dump_subscription : Subscription → Json
unfolding dump_realms_topics dump_realm_topic
dump_subscription sub = obj (
    field "name" (str sub.name) (
      field "realms_topics" (arr (dump_realms_topics sub.realms_topics)) (
        field "request_prefill" (bool sub.request_prefill)
          (field "prefill_queue_status" (str (status_value sub.prefill_queue_status)) no_fields))))

-- The annotations `str`, `RealmTopic`, `List[RealmTopic]` and `FillQueueStatus` of a field.
unfoldable pub as_str : Option Json → Option String
as_str (some (str s)) = some s
as_str _ = none

pair_up : Option String → Option String → Option RealmTopic
pair_up (some r) (some t) = some (record { realm = r; topic = t })
pair_up _ _ = none

as_realm_topic : Json → Option RealmTopic
as_realm_topic (obj fs) = pair_up (as_str (get_field "realm" fs)) (as_str (get_field "topic" fs))
as_realm_topic _ = none

cons_if : Option RealmTopic → Option (List RealmTopic) → Option (List RealmTopic)
cons_if (some rt) (some rts) = some (rt ∷ rts)
cons_if _ _ = none

pub realm_topic_items : Items → Option (List RealmTopic)
realm_topic_items no_items = some []
realm_topic_items (item j js) = cons_if (as_realm_topic j) (realm_topic_items js)

unfoldable pub as_realms_topics : Option Json → Option (List RealmTopic)
unfolding realm_topic_items cons_if as_realm_topic pair_up as_str
as_realms_topics (some (arr js)) = realm_topic_items js
as_realms_topics _ = none

as_status : Option Json → Option FillQueueStatus
as_status (some (str s)) = status_of_value s
as_status _ = none

build_subscription :
    Option String
    → Option (List RealmTopic)
    → Option Bool
    → Option FillQueueStatus
    → Result Subscription
build_subscription (some n) (some rts) (some p) (some q) =
    ok (record { name = n; realms_topics = rts; request_prefill = p; prefill_queue_status = q })
build_subscription _ _ _ _ = raised validation_error

module _ (c : Conversions) where
  unfoldable pub optional_bool : Option Json → Option Bool
  optional_bool (some j) = c.as_bool j
  optional_bool none = none

  -- `Subscription.model_validate`
  unfoldable pub validate_subscription : Json → Result Subscription
  unfolding optional_bool build_subscription as_str as_realms_topics realm_topic_items as_status
      cons_if as_realm_topic pair_up
  validate_subscription (obj fs) =
      build_subscription (as_str (get_field "name" fs))
        (as_realms_topics (get_field "realms_topics" fs))
        (optional_bool (get_field "request_prefill" fs))
        (as_status (get_field "prefill_queue_status" fs))
  validate_subscription _ = raised validation_error
