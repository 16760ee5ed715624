-- ===== src/Models/Requests/Laws.antt =====
-- The bodies of the requests, made and read.
use provisioning_api.Base.{true, ◌≡◌, ◌↔◌, arith, eq_iff}
use provisioning_api.Base.Exec.{ok}
use provisioning_api.Models.Json.{get_field}
use provisioning_api.Models.Pydantic.{Conversions, KeepsBool}
use provisioning_api.Models.Subscription.{NewSubscription, as_str, as_realms_topics, optional_bool}
use provisioning_api.Models.Subscription.Laws.{realm_topic_items-dump, realms_topics_eq_iff}
use provisioning_api.Models.Requests.{
  new_subscription_eq, dump_new_subscription, build_new_subscription, validate_new_subscription,
}

pub validate-dump_new_subscription :
    (c : Conversions)
    → KeepsBool c
    → (new_sub : NewSubscription)
    → validate_new_subscription c (dump_new_subscription new_sub) ≡ ok new_sub
unfolding validate_new_subscription dump_new_subscription get_field as_str as_realms_topics
    optional_bool build_new_subscription
validate-dump_new_subscription c keeps new_sub =
    rw (keeps new_sub.request_prefill, realm_topic_items-dump)

new_subscription_eq_iff : (a b : NewSubscription) → (new_subscription_eq a b ≡ true) ↔ (a ≡ b)
unfolding new_subscription_eq
new_subscription_eq_iff a b = ground (
  arith,
  eq_iff a.name b.name,
  realms_topics_eq_iff a.realms_topics b.realms_topics,
  eq_iff a.password b.password,
)
