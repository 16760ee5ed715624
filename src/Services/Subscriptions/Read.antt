-- ===== src/Services/Subscriptions/Read.antt =====
-- Reading a subscription's record, storing it and reading it back.
use provisioning_api.Base.{String, true, Option, none, some, ◌≡◌, refl, ◌∙◌, arith, if◌then◌else◌}
use provisioning_api.Base.Exec.{Result, ok, raised}
use provisioning_api.Models.Json.{truthy}
use provisioning_api.Models.Pydantic.{Conversions}
use provisioning_api.Models.Subscription.{Bucket, subscriptions, Subscription, dump_subscription}
use provisioning_api.Models.Subscription.Laws.{validate-dump}
use provisioning_api.Nats.{Codec, KeyValue, JetStream}
use provisioning_api.Nats.Kv.{at_key}
use provisioning_api.Adapter.Kv.{json, value_text, value_truthy, loads_if}
use provisioning_api.Adapter.Kv.Laws.{
  get_dict_value_lem, put_value-ok, value-put_value, loads_if-dumps, at_key_refl,
}
use provisioning_api.Services.Passwords.{PasswordContext}
use provisioning_api.Services.Backend.{Backend}
use provisioning_api.Services.Subscriptions.{get_subscription_info, set_sub_info, validate_if}

-- What a stored record reads as.
unfoldable pub stored_info :
    {B : Type 0} → Codec B → Conversions → Option B → Result (Option Subscription)
stored_info codec c o = elim (loads_if codec o) [ ok j ↦ validate_if c j | raised e ↦ raised e ]

truthy-dump_subscription : (sub : Subscription) → truthy (dump_subscription sub) ≡ true
unfolding dump_subscription
truthy-dump_subscription sub = refl

module _ {S B : Type 0} {codec : Codec B} {kv : KeyValue S B} {js : JetStream S B}
    {pw : PasswordContext S B} {c : Conversions} (E : Backend codec kv js pw c) where
  pub get_subscription_info_lem :
      (name : String) (s : S)
      → get_subscription_info codec kv c name s
        ≡ (stored_info codec c (E.value s subscriptions name), s)
  unfolding get_subscription_info stored_info
  get_subscription_info_lem name s =
      rw (get_dict_value_lem codec kv E.is_kv name subscriptions s) (ground arith)

  -- The text of a subscription reads as the subscription.
  pub stored_info-dump :
      (sub : Subscription)
      → stored_info codec c (some (codec.dumps (dump_subscription sub))) ≡ ok (some sub)
  unfolding stored_info validate_if
  stored_info-dump sub = rw (
    loads_if-dumps E.is_codec,
    stored_info,
    truthy-dump_subscription sub,
    validate-dump c E.keeps_bool sub,
  )

  pub stored_info-none : stored_info codec c none ≡ ok none
  unfolding stored_info loads_if validate_if
  stored_info-none = refl

  module _ (name : String) (sub : Subscription) (s : S) where
    pub set_sub_info-ok : (set_sub_info codec kv name sub s).0 ≡ ok tt
    unfolding set_sub_info
    set_sub_info-ok =
        put_value-ok codec kv E.is_kv name (json (dump_subscription sub)) subscriptions none s refl

    pub value-set_sub_info :
        (d : Bucket) (j : String)
        → E.value (set_sub_info codec kv name sub s).1 d j ≡ (
            if at_key subscriptions name d j
            then some (codec.dumps (dump_subscription sub))
            else E.value s d j)
    unfolding set_sub_info value_truthy value_text
    value-set_sub_info d j =
        value-put_value codec kv E.is_kv name (json (dump_subscription sub)) subscriptions none s d
          j refl
        ∙ rw (truthy-dump_subscription sub)

    pub stored_info-set_sub_info :
        stored_info codec c (E.value (set_sub_info codec kv name sub s).1 subscriptions name)
        ≡ ok (some sub)
    stored_info-set_sub_info =
        rw (value-set_sub_info, at_key_refl subscriptions name) (stored_info-dump sub)
