-- ===== src/Models/Subscription/Laws.antt =====
-- Dumping and validating a subscription, and the equality of topic lists.
use provisioning_api.Base.{true, ◌≡◌, ◌≢◌, refl, ◌↔◌, some, List, [], ◌∷◌, arith, eq_iff}
use provisioning_api.Base.Exec.{ok, raised, out_of_fuel}
use provisioning_api.Models.Pydantic.{Conversions, KeepsBool}
use provisioning_api.Models.Json.{Json, get_field}
use provisioning_api.Models.Subscription.{
  FillQueueStatus, pending, running, failed, done, RealmTopic, Subscription, status_value,
  status_of_value, dump_subscription, dump_realms_topics, dump_realm_topic, as_realm_topic, as_str,
  pair_up, realm_topic_items, cons_if, as_realms_topics, as_status, build_subscription,
  optional_bool, validate_subscription, realms_topics_eq,
}

status_of_value-status_value : (q : FillQueueStatus) → status_of_value (status_value q) ≡ some q
unfolding status_of_value status_value
status_of_value-status_value pending = refl
status_of_value-status_value running = refl
status_of_value-status_value failed = refl
status_of_value-status_value done = refl

as_realm_topic-dump : (rt : RealmTopic) → as_realm_topic (dump_realm_topic rt) ≡ some rt
unfolding as_realm_topic dump_realm_topic get_field as_str pair_up
as_realm_topic-dump rt = refl

pub realm_topic_items-dump :
    (rts : List RealmTopic) → realm_topic_items (dump_realms_topics rts) ≡ some rts
unfolding realm_topic_items dump_realms_topics cons_if
realm_topic_items-dump [] = refl
realm_topic_items-dump (rt ∷ rts) = rw (as_realm_topic-dump rt, realm_topic_items-dump rts)

-- Validating what `model_dump` made of a subscription gives the subscription back, where the
-- conversion to `bool` keeps Boolean values.
pub validate-dump :
    (c : Conversions)
    → KeepsBool c
    → (sub : Subscription) → validate_subscription c (dump_subscription sub) ≡ ok sub
unfolding validate_subscription dump_subscription get_field as_str as_realms_topics as_status
    build_subscription optional_bool
validate-dump c keeps sub =
    rw (keeps sub.request_prefill, realm_topic_items-dump, status_of_value-status_value)

pub realms_topics_eq_iff :
    (as_ bs : List RealmTopic) → (realms_topics_eq as_ bs ≡ true) ↔ (as_ ≡ bs)
unfolding realms_topics_eq
realms_topics_eq_iff [] [] = (λ h. refl, λ h. refl)
realms_topics_eq_iff [] (b ∷ bs) = (λ h. cc, λ h. cc)
realms_topics_eq_iff (a ∷ as_) [] = (λ h. cc, λ h. cc)
realms_topics_eq_iff (a ∷ as_) (b ∷ bs) =
    ground (arith, eq_iff a.realm b.realm, eq_iff a.topic b.topic, realms_topics_eq_iff as_ bs)

pub validate_subscription_ends :
    (c : Conversions) (j : Json) → validate_subscription c j ≢ raised out_of_fuel
unfolding validate_subscription build_subscription
validate_subscription_ends c j = ground arith
