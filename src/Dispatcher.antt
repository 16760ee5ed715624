-- ===== src/Dispatcher.antt =====
-- `DispatcherService` of `src/server/core/dispatcher/service/dispatcher.py`. A set of subscriptions
-- is a list without repetition in the order of insertion, a `dict` a list of its entries.
pub mod Mapping
pub mod Delivery
pub mod Loop
use provisioning_api.Base.{
  String, Bool, true, false, ◌&&◌, ◌||◌, Option, none, some, List, [], ◌∷◌, ◌==◌, if◌then◌else◌,
}
use provisioning_api.Base.Exec.{
  Exec, Result, ok, raised, and_then, pure, lift, for_each, ◌>>=◌, ◌>>◌, attribute_error,
}
use provisioning_api.Models.Json.{Json, Fields, str, obj, no_fields, get_field, truthy}
use provisioning_api.Models.Pydantic.{Conversions}
use provisioning_api.Models.Subscription.{
  FillQueueStatus, pending, running, failed, done, RealmTopic, Subscription, realms_topics_eq,
}
use provisioning_api.Models.Queue.{
  Message, MqMessage, validate_message, dump_message, dispatcher_subject,
}
use provisioning_api.Nats.{Codec, KeyValue, JetStream}
use provisioning_api.Adapter.Kv.{get_all_subscriptions}
use provisioning_api.Adapter.Mq.{add_message, nats_message_from}
use provisioning_api.Services.Subscriptions.{bool_eq}

-- `Subscription.__eq__`
unfoldable pub status_eq : FillQueueStatus → FillQueueStatus → Bool
status_eq pending pending = true
status_eq running running = true
status_eq failed failed = true
status_eq done done = true
status_eq _ _ = false

unfoldable pub subscription_eq : Subscription → Subscription → Bool
unfolding status_eq
subscription_eq a b =
    a.name == b.name
    && realms_topics_eq a.realms_topics b.realms_topics
    && bool_eq a.request_prefill b.request_prefill
    && status_eq a.prefill_queue_status b.prefill_queue_status

abbrev pub Topics : Type 0
Topics = List (String × List Subscription)

abbrev pub Mapping : Type 0
Mapping = List (String × Topics)

-- `sub in subs`
unfoldable pub contains_sub : Subscription → List Subscription → Bool
contains_sub sub [] = false
contains_sub sub (x ∷ xs) = subscription_eq x sub || contains_sub sub xs

-- `subs.add(sub)`
unfoldable pub add_sub : Subscription → List Subscription → List Subscription
add_sub sub subs = if contains_sub sub subs then subs else sub ∷ subs

-- `topics.setdefault(topic, set()).add(sub)`
unfoldable pub add_topic : String → Subscription → Topics → Topics
unfolding add_sub
add_topic topic sub [] = (topic, sub ∷ []) ∷ []
add_topic topic sub ((t, subs) ∷ rest) =
    if t == topic then (t, add_sub sub subs) ∷ rest else (t, subs) ∷ add_topic topic sub rest

-- `mapping.setdefault(realm, {}).setdefault(topic, set()).add(sub)`
unfoldable pub add_realm : String → String → Subscription → Mapping → Mapping
add_realm realm topic sub [] = (realm, add_topic topic sub []) ∷ []
add_realm realm topic sub ((r, topics) ∷ rest) =
    if r == realm
    then (r, add_topic topic sub topics) ∷ rest
    else (r, topics) ∷ add_realm realm topic sub rest

-- The two loops of `update_subscriptions_mapping`.
unfoldable pub add_subscription : Subscription → List RealmTopic → Mapping → Mapping
add_subscription sub [] mapping = mapping
add_subscription sub (rt ∷ rts) mapping =
    add_subscription sub rts (add_realm rt.realm rt.topic sub mapping)

unfoldable pub build_mapping : List Subscription → Mapping → Mapping
build_mapping [] mapping = mapping
build_mapping (sub ∷ subs) mapping =
    build_mapping subs (add_subscription sub sub.realms_topics mapping)

-- `self._subscriptions.get(realm, {}).get(topic, [])`
unfoldable pub topic_subscribers : String → Topics → List Subscription
topic_subscribers topic [] = []
topic_subscribers topic ((t, subs) ∷ rest) =
    if t == topic then subs else topic_subscribers topic rest

unfoldable pub subscribers : String → String → Mapping → List Subscription
subscribers realm topic [] = []
subscribers realm topic ((r, topics) ∷ rest) =
    if r == realm then topic_subscribers topic topics else subscribers realm topic rest

-- The details that are logged of a message of the realm `udm`: `.get` on what is no dictionary
-- raises `AttributeError`.
abbrev dict_or_raise : Option Json → Result Fields
dict_or_raise none = ok no_fields
dict_or_raise (some (obj fs)) = ok fs
dict_or_raise (some _) = raised attribute_error

abbrev is_udm : Option Json → Bool
is_udm (some (str realm)) = realm == "udm"
is_udm _ = false

abbrev dn_truthy : Option Json → Bool
dn_truthy none = false
dn_truthy (some j) = truthy j

-- The old object is only asked for its DN where the new one has none.
abbrev check_old_dn : Bool → Option Json → Result (Unit {0})
check_old_dn true old = ok tt
check_old_dn false old = and_then (dict_or_raise old) λ _. ok tt

unfoldable pub log_details : Fields → Result (Unit {0})
log_details content =
    if is_udm (get_field "realm" content)
    then (and_then (dict_or_raise (get_field "body" content)) λ body.
        and_then (dict_or_raise (get_field "new" body))
          λ new. check_old_dn (dn_truthy (get_field "dn" new)) (get_field "old" body))
    else ok tt

module _ {S B : Type 0} (codec : Codec B) (js : JetStream S B) (c : Conversions) where
  unfoldable pub send_message_to_subscription : Message → Subscription → Exec S (Unit {0})
  send_message_to_subscription message sub =
      add_message js sub.name (dispatcher_subject sub.name) (dump_message message) codec.dumps

  unfoldable pub acknowledge_message : MqMessage → Exec S (Unit {0})
  acknowledge_message message = js.ack (nats_message_from codec message)

  unfoldable pub handle_message : Mapping → MqMessage → Exec S (Unit {0})
  handle_message mapping message = do
    lift (log_details message.content)
    validated_msg ← lift (validate_message c message.content)
    for_each (send_message_to_subscription validated_msg)
        (subscribers validated_msg.realm validated_msg.topic mapping)
    acknowledge_message message

-- The new mapping, in place of the old one.
unfoldable pub update_subscriptions_mapping :
    {S B : Type 0} → Codec B → KeyValue S B → Conversions → Exec S Mapping
update_subscriptions_mapping codec kv c = do
  subs ← get_all_subscriptions codec kv c
  pure (build_mapping subs [])
