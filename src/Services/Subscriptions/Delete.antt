-- ===== src/Services/Subscriptions/Delete.antt =====
-- Deleting a subscription.
use provisioning_api.Base.{String, false, none, some, ◌≡◌, ◌==◌, refl, ◌∙◌, arith, if◌then◌else◌}
use provisioning_api.Base.Exec.{ok, raised, value_error}
use provisioning_api.Models.Pydantic.{Conversions}
use provisioning_api.Models.Subscription.{Bucket, subscriptions, credentials, cache, Subscription}
use provisioning_api.Nats.{Codec, KeyValue, JetStream}
use provisioning_api.Nats.Kv.{at_key}
use provisioning_api.Adapter.Kv.{delete_kv_pair}
use provisioning_api.Adapter.Kv.Laws.{delete_kv_pair-ok, value-delete_kv_pair, at_key_refl}
use provisioning_api.Adapter.Mq.{delete_stream, delete_consumer, stream_key}
use provisioning_api.Adapter.Mq.Streams.{delete_stream-ok, stream-delete_stream, delete_consumer-ok}
use provisioning_api.Services.Passwords.{PasswordContext}
use provisioning_api.Services.Backend.{Backend}
use provisioning_api.Services.Backend.Keeps.{
  stream-delete_kv_pair, value-delete_stream, value-delete_consumer, stream-delete_consumer,
}
use provisioning_api.Services.Subscriptions.{get_subscription, delete_subscription, delete_sub_info}
use provisioning_api.Services.Subscriptions.Read.{stored_info, stored_info-none}
use provisioning_api.Services.Subscriptions.Status.{
  get_subscription_found, get_subscription_missing,
}

module _ {S B : Type 0} {codec : Codec B} {kv : KeyValue S B} {js : JetStream S B}
    {pw : PasswordContext S B} {c : Conversions} (E : Backend codec kv js pw c) (name : String)
    (s : S) where
  -- The world after each step of a deletion.
  after_credentials : S
  after_credentials = (delete_kv_pair kv name credentials s).1

  after_info : S
  after_info = (delete_sub_info kv name after_credentials).1

  after_stream : S
  after_stream = (delete_stream js name after_info).1

  after_consumer : S
  after_consumer = (delete_consumer js name after_stream).1

  delete_subscription_runs :
      (sub : Subscription)
      → stored_info codec c (E.value s subscriptions name) ≡ ok (some sub)
      → delete_subscription codec kv c js name s ≡ (ok tt, after_consumer)
  unfolding delete_subscription delete_sub_info after_consumer after_stream after_info
      after_credentials
  delete_subscription_runs sub h = rw (get_subscription_found E name s sub h) (
      ground (
        arith,
        delete_kv_pair-ok kv E.is_kv name credentials s,
        delete_kv_pair-ok kv E.is_kv name subscriptions after_credentials,
        delete_stream-ok js E.is_js name after_info,
        delete_consumer-ok js E.is_js name after_stream,
      ))

  value-after_consumer :
      (b : Bucket) (k : String)
      → E.value after_consumer b k ≡ (
          if at_key subscriptions name b k
          then none
          else if at_key credentials name b k
          then none
          else E.value s b k)
  unfolding after_consumer after_stream after_info after_credentials delete_sub_info
  value-after_consumer b k =
      rw (value-delete_consumer E, value-delete_stream E) (simp (value-delete_kv_pair kv E.is_kv))

  value-after_consumer_ne :
      (b : Bucket) (k : String) → (name == k) ≡ false → E.value after_consumer b k ≡ E.value s b k
  value-after_consumer_ne subscriptions k other = value-after_consumer subscriptions k ∙ rw other
  value-after_consumer_ne credentials k other = value-after_consumer credentials k ∙ rw other
  value-after_consumer_ne cache k other = value-after_consumer cache k

  stream-after_consumer :
      (m : String)
      → E.stream after_consumer m ≡ (if stream_key name == m then none else E.stream s m)
  unfolding after_consumer after_stream after_info after_credentials delete_sub_info
  stream-after_consumer m =
      rw (stream-delete_consumer E, stream-delete_stream js E.is_js)
        (rw (stream-delete_kv_pair E, stream-delete_kv_pair E))

  stored_info-after_consumer :
      stored_info codec c (E.value after_consumer subscriptions name) ≡ ok none
  stored_info-after_consumer =
      rw (value-after_consumer subscriptions name, at_key_refl subscriptions name)
        (stored_info-none E)

  pub stored_info-delete_subscription :
      (sub : Subscription)
      → stored_info codec c (E.value s subscriptions name) ≡ ok (some sub)
      → stored_info codec c
          (E.value (delete_subscription codec kv c js name s).1 subscriptions name)
        ≡ ok none
  stored_info-delete_subscription sub h =
      rw (delete_subscription_runs sub h) stored_info-after_consumer

  -- Deleting a stored subscription succeeds. Its record is then missing, its password hash and its
  -- stream are gone, every key of another name keeps its value, and every other stream stays.
  pub delete_subscription_lem :
      (sub : Subscription)
      → stored_info codec c (E.value s subscriptions name) ≡ ok (some sub)
      → let r = delete_subscription codec kv c js name s in
        (r.0 ≡ ok tt)
        × (get_subscription codec kv c name r.1 ≡ (raised value_error, r.1))
        × (E.value r.1 credentials name ≡ none)
        × ((m : String) → E.stream r.1 m ≡ (if stream_key name == m then none else E.stream s m))
        × ((b : Bucket) (k : String) → (name == k) ≡ false → E.value r.1 b k ≡ E.value s b k)
  delete_subscription_lem sub h = rw (delete_subscription_runs sub h) (
    refl,
    get_subscription_missing E name after_consumer stored_info-after_consumer,
    value-after_consumer credentials name ∙ rw (at_key_refl credentials name),
    stream-after_consumer,
    value-after_consumer_ne,
  )

  -- Where there is no subscription of that name, deleting raises `ValueError` and changes nothing.
  pub delete_subscription_missing :
      stored_info codec c (E.value s subscriptions name) ≡ ok none
      → delete_subscription codec kv c js name s ≡ (raised value_error, s)
  unfolding delete_subscription
  delete_subscription_missing h = rw (get_subscription_missing E name s h)
