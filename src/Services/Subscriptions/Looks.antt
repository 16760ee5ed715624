-- ===== src/Services/Subscriptions/Looks.antt =====
-- Looks at the status of a subscription, for the loops that poll it.
use provisioning_api.Base.{String, Option, none, some, ◌≡◌, ◌≢◌, arith}
use provisioning_api.Base.Exec.{raised, out_of_fuel}
use provisioning_api.Models.Json.{Json}
use provisioning_api.Models.Pydantic.{Conversions}
use provisioning_api.Models.Subscription.{subscriptions}
use provisioning_api.Models.Subscription.Laws.{validate_subscription_ends}
use provisioning_api.Nats.{Codec, KeyValue, JetStream}
use provisioning_api.Adapter.Kv.{loads_if}
use provisioning_api.Services.Passwords.{PasswordContext}
use provisioning_api.Services.Backend.{Backend}
use provisioning_api.Services.Subscriptions.{
  get_subscription_queue_status, get_subscription, validate_if, require_info,
}
use provisioning_api.Services.Subscriptions.Read.{stored_info, get_subscription_info_lem}

loads_if_ends :
    {B : Type 0} (codec : Codec B) (o : Option B) → loads_if codec o ≢ raised out_of_fuel
unfolding loads_if
loads_if_ends codec o = ground arith

validate_if_ends : (c : Conversions) (o : Option Json) → validate_if c o ≢ raised out_of_fuel
unfolding validate_if
validate_if_ends c none = ground arith
validate_if_ends c (some j) = ground (arith, validate_subscription_ends c j)

stored_info_ends :
    {B : Type 0} (codec : Codec B) (c : Conversions) (o : Option B)
    → stored_info codec c o ≢ raised out_of_fuel
unfolding stored_info
stored_info_ends codec c o = grind (arith, loads_if_ends codec o, validate_if_ends c)

module _ {S B : Type 0} {codec : Codec B} {kv : KeyValue S B} {js : JetStream S B}
    {pw : PasswordContext S B} {c : Conversions} (E : Backend codec kv js pw c) (name : String)
    (s : S) where
  pub get_subscription_queue_status_keeps : (get_subscription_queue_status codec kv c name s).1 ≡ s
  unfolding get_subscription_queue_status get_subscription require_info
  get_subscription_queue_status_keeps = rw (get_subscription_info_lem E name s) (ground arith)

  pub get_subscription_queue_status_ends :
      (get_subscription_queue_status codec kv c name s).0 ≢ raised out_of_fuel
  unfolding get_subscription_queue_status get_subscription require_info
  get_subscription_queue_status_ends =
      rw (get_subscription_info_lem E name s)
        (ground (arith, stored_info_ends codec c (E.value s subscriptions name)))
