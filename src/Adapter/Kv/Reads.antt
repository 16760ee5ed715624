-- ===== src/Adapter/Kv/Reads.antt =====
-- Reading the subscriptions does to the world no more than the single calls do.
use provisioning_api.Base.{String, List, [], ◌∷◌}
use provisioning_api.Base.Exec.{Exn, lift, no_keys}
use provisioning_api.Base.Steps.{
  Steps, Steps-pure, Steps-raise, Steps-lift, Steps-bind, Steps-try, Steps-lift-bind,
}
use provisioning_api.Models.Pydantic.{Conversions}
use provisioning_api.Models.Subscription.{Bucket, subscriptions, validate_subscription}
use provisioning_api.Nats.{Codec, KeyValue}
use provisioning_api.Adapter.Kv.{
  loads_text, on_no_keys, get_keys, load_subscription, load_subscriptions, get_all_subscriptions,
}

module _ {S B : Type 0} (codec : Codec B) (kv : KeyValue S B) (c : Conversions) {R : S → S → Type 0}
    (here : (s : S) → R s s) (onward : (s t u : S) → R s t → R t u → R s u)
    (opens : (b : Bucket) → Steps R (kv.key_value b)) (lists : (b : Bucket) → Steps R (kv.keys b))
    (gets : (b : Bucket) (k : String) → Steps R (kv.get b k)) where
  Steps-on_no_keys : (e : Exn) → Steps R (on_no_keys {S = S} e)
  unfolding on_no_keys
  Steps-on_no_keys no_keys = Steps-pure here []
  Steps-on_no_keys e = Steps-raise here e

  Steps-get_keys : (b : Bucket) → Steps R (get_keys kv b)
  unfolding get_keys
  Steps-get_keys b =
      Steps-bind here onward _ _ (opens b)
        (λ _. Steps-try here onward _ _ (lists b) Steps-on_no_keys)

  Steps-load_subscription : (key : String) → Steps R (load_subscription codec kv c key)
  unfolding load_subscription
  Steps-load_subscription key = Steps-bind here onward _ _ (gets subscriptions key) (λ entry.
      Steps-lift-bind here (loads_text codec entry.0)
        (λ content. lift (validate_subscription c content))
        (λ content h. Steps-lift here (validate_subscription c content)))

  Steps-load_subscriptions : (keys : List String) → Steps R (load_subscriptions codec kv c keys)
  unfolding load_subscriptions
  Steps-load_subscriptions [] = Steps-pure here []
  Steps-load_subscriptions (key ∷ keys) =
      Steps-bind here onward _ _ (Steps-load_subscription key) (λ sub.
        Steps-bind here onward _ _ (Steps-load_subscriptions keys) (λ subs. Steps-pure here _))

  pub Steps-get_all_subscriptions : Steps R (get_all_subscriptions codec kv c)
  unfolding get_all_subscriptions
  Steps-get_all_subscriptions =
      Steps-bind here onward _ _ (opens subscriptions)
        (λ _. Steps-bind here onward _ _ (Steps-get_keys subscriptions) Steps-load_subscriptions)
