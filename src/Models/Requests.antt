-- ===== src/Models/Requests.antt =====
-- The bodies of the requests to the API: `NewSubscription` and `Event` of
-- `src/univention/provisioning/models/api.py`.
pub mod Laws
use provisioning_api.Base.{String, Bool, ◌&&◌, Option, none, some, List, [], ◌∷◌, ◌==◌}
use provisioning_api.Base.Exec.{Result, ok, raised, validation_error}
use provisioning_api.Models.Json.{Json, Fields, bool, str, arr, obj, no_fields, field, get_field}
use provisioning_api.Models.Pydantic.{Conversions}
use provisioning_api.Models.Subscription.{
  RealmTopic, NewSubscription, realms_topics_eq, dump_realms_topics, as_str, as_realms_topics,
  optional_bool,
}
use provisioning_api.Services.Subscriptions.{bool_eq}

-- `NewSubscription.__eq__`, with that of its base class.
unfoldable pub new_subscription_eq : NewSubscription → NewSubscription → Bool
new_subscription_eq a b =
    a.name == b.name
    && realms_topics_eq a.realms_topics b.realms_topics
    && bool_eq a.request_prefill b.request_prefill
    && a.password == b.password

-- `model_dump()`
unfoldable pub dump_new_subscription : NewSubscription → Json
dump_new_subscription new_sub = obj (
    field "name" (str new_sub.name) (
      field "realms_topics" (arr (dump_realms_topics new_sub.realms_topics)) (
        field "request_prefill" (bool new_sub.request_prefill)
          (field "password" (str new_sub.password) no_fields))))

build_new_subscription :
    Option String → Option (List RealmTopic) → Option Bool → Option String → Result NewSubscription
build_new_subscription (some n) (some rts) (some b) (some p) =
    ok (record { name = n; realms_topics = rts; request_prefill = b; password = p })
build_new_subscription _ _ _ _ = raised validation_error

-- `NewSubscription.model_validate`
unfoldable pub validate_new_subscription : Conversions → Json → Result NewSubscription
unfolding build_new_subscription
validate_new_subscription c (obj fs) =
    build_new_subscription (as_str (get_field "name" fs))
      (as_realms_topics (get_field "realms_topics" fs))
      (optional_bool c (get_field "request_prefill" fs)) (as_str (get_field "password" fs))
validate_new_subscription c _ = raised validation_error

pub record Event : Type 0 where
  pub realm : String
  pub topic : String
  pub body : Fields

-- `model_dump()`
unfoldable pub dump_event : Event → Json
dump_event event = obj (
    field "realm" (str event.realm)
      (field "topic" (str event.topic) (field "body" (obj event.body) no_fields)))
