-- ===== src/Services/Subscriptions/Status.antt =====
-- Reading a subscription and changing its prefill status.
use provisioning_api.Base.{String, false, none, some, ◌≡◌}
use provisioning_api.Base.Exec.{ok, raised, value_error}
use provisioning_api.Models.Pydantic.{Conversions}
use provisioning_api.Models.Subscription.{Bucket, subscriptions, Subscription, FillQueueStatus}
use provisioning_api.Nats.{Codec, KeyValue, JetStream}
use provisioning_api.Nats.Kv.{at_key}
use provisioning_api.Services.Passwords.{PasswordContext}
use provisioning_api.Services.Backend.{Backend}
use provisioning_api.Services.Backend.Keeps.{stream-put_value}
use provisioning_api.Services.Subscriptions.{
  set_sub_info, get_subscription, set_subscription_queue_status,
}
use provisioning_api.Services.Subscriptions.Read.{
  stored_info, get_subscription_info_lem, set_sub_info-ok, value-set_sub_info,
  stored_info-set_sub_info,
}

module _ {S B : Type 0} {codec : Codec B} {kv : KeyValue S B} {js : JetStream S B}
    {pw : PasswordContext S B} {c : Conversions} (E : Backend codec kv js pw c)
    (name : String) where
  pub get_subscription_found :
      (s : S) (sub : Subscription)
      → stored_info codec c (E.value s subscriptions name) ≡ ok (some sub)
      → get_subscription codec kv c name s ≡ (ok sub, s)
  unfolding get_subscription
  get_subscription_found s sub h = simp (get_subscription_info_lem E, h)

  pub get_subscription_missing :
      (s : S)
      → stored_info codec c (E.value s subscriptions name) ≡ ok none
      → get_subscription codec kv c name s ≡ (raised value_error, s)
  unfolding get_subscription
  get_subscription_missing s h = simp (get_subscription_info_lem E, h)

  -- Setting the status of a stored subscription succeeds. The subscription then reads as before but
  -- for its status, which is the new one, and every other key of every bucket keeps its value.
  pub set_subscription_queue_status_lem :
      (s : S) (sub : Subscription) (status : FillQueueStatus)
      → stored_info codec c (E.value s subscriptions name) ≡ ok (some sub)
      → let r = set_subscription_queue_status codec kv c name status s in
        (r.0 ≡ ok tt)
        × (get_subscription codec kv c name r.1
            ≡ (ok (record sub { prefill_queue_status = status }), r.1))
        × ((b : Bucket) (k : String)
            → at_key subscriptions name b k ≡ false
            → E.value r.1 b k ≡ E.value s b k)
  unfolding set_subscription_queue_status
  set_subscription_queue_status_lem s sub status h =
      let changed : Subscription = record sub { prefill_queue_status = status } in
      rw (get_subscription_found s sub h) (
        set_sub_info-ok E name changed s,
        get_subscription_found _ changed (stored_info-set_sub_info E name changed s),
        λ b k other. rw (value-set_sub_info E name changed s b k, other),
      )

  pub stream-set_subscription_queue_status :
      (s : S) (sub : Subscription) (status : FillQueueStatus)
      → stored_info codec c (E.value s subscriptions name) ≡ ok (some sub)
      → E.stream (set_subscription_queue_status codec kv c name status s).1 ≡ E.stream s
  unfolding set_subscription_queue_status set_sub_info
  stream-set_subscription_queue_status s sub status h =
      rw (get_subscription_found s sub h) (stream-put_value E name _ subscriptions s)

  pub stored_info-set_subscription_queue_status :
      (s : S) (sub : Subscription) (status : FillQueueStatus)
      → stored_info codec c (E.value s subscriptions name) ≡ ok (some sub)
      → stored_info codec c
          (E.value (set_subscription_queue_status codec kv c name status s).1 subscriptions name)
        ≡ ok (some (record sub { prefill_queue_status = status }))
  unfolding set_subscription_queue_status
  stored_info-set_subscription_queue_status s sub status h =
      rw (get_subscription_found s sub h) (stored_info-set_sub_info E name _ s)

  -- Where there is no subscription of that name, it raises `ValueError` and changes nothing.
  pub set_subscription_queue_status_missing :
      (s : S) (status : FillQueueStatus)
      → stored_info codec c (E.value s subscriptions name) ≡ ok none
      → set_subscription_queue_status codec kv c name status s ≡ (raised value_error, s)
  unfolding set_subscription_queue_status
  set_subscription_queue_status_missing s status h = rw (get_subscription_missing s h)
