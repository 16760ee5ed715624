-- ===== src/Services/Subscriptions.antt =====
-- `SubscriptionService` of `src/server/services/subscriptions.py`.
pub mod Read
pub mod Looks
pub mod Register
pub mod Status
pub mod Delete
use provisioning_api.Base.{
  ℕ, String, Bool, true, false, not, Option, none, some, List, [], ◌∷◌, if◌then◌else◌, ◌==◌,
}
use provisioning_api.Base.Exec.{
  Exec, Exn, Result, ok, raised, pure, raise, lift, ◌>>=◌, ◌>>◌, value_error, http_error,
}
use provisioning_api.Models.Json.{Json, truthy}
use provisioning_api.Models.Pydantic.{Conversions}
use provisioning_api.Models.Subscription.{
  Bucket, subscriptions, credentials, FillQueueStatus, pending, done, Subscription, NewSubscription,
  realms_topics_eq, dump_subscription, validate_subscription,
}
use provisioning_api.Models.Queue.{dispatcher_subject, prefill_subject}
use provisioning_api.Nats.{Codec, KeyValue, JetStream}
use provisioning_api.Adapter.Kv.{
  Value, text, json, get_value, get_dict_value, put_value, delete_kv_pair, get_keys,
}
use provisioning_api.Adapter.Mq.{ensure_stream, ensure_consumer, delete_stream, delete_consumer}
use provisioning_api.Services.Passwords.{PasswordContext}

-- `a == b` of Booleans
abbrev pub bool_eq : Bool → Bool → Bool
bool_eq true b = b
bool_eq false b = not b

-- `Subscription.model_validate(result) if result else result`; every caller only tests an empty
-- result for its truth, so it is a missing one here.
unfoldable pub validate_if : Conversions → Option Json → Result (Option Subscription)
validate_if c none = ok none
validate_if c (some j) =
    if truthy j
    then elim (validate_subscription c j) [ ok sub ↦ ok (some sub) | raised e ↦ raised e ]
    else ok none

unfoldable pub initial_subscription : NewSubscription → Subscription
initial_subscription new_sub = record {
  name = new_sub.name;
  realms_topics = new_sub.realms_topics;
  request_prefill = new_sub.request_prefill;
  prefill_queue_status = if new_sub.request_prefill then pending else done;
}

abbrev pub stream_subjects : String → Option (List String)
stream_subjects name = some (dispatcher_subject name ∷ prefill_subject name ∷ [])

module _ {S B : Type 0} (kv : KeyValue S B) where
  unfoldable pub get_subscription_names : Exec S (List String)
  get_subscription_names = get_keys kv credentials

  unfoldable pub delete_sub_info : String → Exec S (Unit {0})
  delete_sub_info name = delete_kv_pair kv name subscriptions

module _ {S B : Type 0} (codec : Codec B) (kv : KeyValue S B) where
  unfoldable pub set_sub_info : String → Subscription → Exec S (Unit {0})
  set_sub_info name sub_info =
      put_value codec kv name (json (dump_subscription sub_info)) subscriptions none

module _ {S B : Type 0} (codec : Codec B) (kv : KeyValue S B) (c : Conversions) where
  unfoldable pub get_subscription_info : String → Exec S (Option Subscription)
  get_subscription_info name = do
    result ← get_dict_value codec kv name subscriptions
    lift (validate_if c result)

  -- `raise ValueError("Subscription was not found.")` where there is none
  require_info : Option Subscription → Result Subscription
  require_info none = raised value_error
  require_info (some sub) = ok sub

  unfoldable pub get_subscription : String → Exec S Subscription
  unfolding require_info
  get_subscription name = do info ← get_subscription_info name; lift (require_info info)

  collect_infos : List String → Exec S (List (Option Subscription))
  collect_infos [] = pure []
  collect_infos (name ∷ names) = do
    info ← get_subscription_info name
    infos ← collect_infos names
    pure (info ∷ infos)

  unfoldable pub get_subscriptions : Exec S (List (Option Subscription))
  unfolding collect_infos
  get_subscriptions = do names ← get_subscription_names kv; collect_infos names

  unfoldable pub get_subscription_queue_status : String → Exec S FillQueueStatus
  get_subscription_queue_status name = do sub ← get_subscription name; pure sub.prefill_queue_status

  unfoldable pub set_subscription_queue_status : String → FillQueueStatus → Exec S (Unit {0})
  set_subscription_queue_status name status = do
    sub ← get_subscription name
    set_sub_info codec kv name (record sub { prefill_queue_status = status })

  module _ (js : JetStream S B) where
    unfoldable pub delete_subscription : String → Exec S (Unit {0})
    delete_subscription name = do
      get_subscription name
      delete_kv_pair kv name credentials
      delete_sub_info kv name
      delete_stream js name
      delete_consumer js name

    unfoldable pub prepare_and_store_subscription_info : NewSubscription → Exec S (Unit {0})
    prepare_and_store_subscription_info new_sub = do
      set_sub_info codec kv new_sub.name (initial_subscription new_sub)
      ensure_stream js new_sub.name true (stream_subjects new_sub.name)
      ensure_consumer js new_sub.name none

    module _ (pw : PasswordContext S B) where
      unfoldable pub is_subscriptions_matching : NewSubscription → Subscription → Exec S Bool
      is_subscriptions_matching new_sub existing_sub =
          if not (bool_eq existing_sub.request_prefill new_sub.request_prefill)
          then pure false
          else if not (realms_topics_eq new_sub.realms_topics existing_sub.realms_topics)
          then pure false
          else do
            hashed_password ← get_value kv new_sub.name credentials
            lift (pw.verify new_sub.password hashed_password)

      -- The two branches on an existing subscription, and on none.
      register_over : NewSubscription → Option Subscription → Exec S Bool
      register_over new_sub (some existing_sub) = do
        matching ← is_subscriptions_matching new_sub existing_sub
        if matching then pure false else raise (http_error 409)
      register_over new_sub none = do
        encrypted_password ← pw.hash new_sub.password
        put_value codec kv new_sub.name (text encrypted_password) credentials none
        prepare_and_store_subscription_info new_sub
        pure true

      unfoldable pub register_subscription : NewSubscription → Exec S Bool
      unfolding register_over
      register_subscription new_sub = do
        existing_sub ← get_subscription_info new_sub.name
        register_over new_sub existing_sub
