-- ===== src/Services/Messages.antt =====
-- `MessageService` of `src/server/services/messages.py`. Times are in milliseconds. The class
-- variable `_subscription_prefill_done` belongs to the process, beside the world outside.
pub mod Prefill
pub mod History
pub mod Polling
use Prim.Native.Nat.{max}
use provisioning_api.Base.{
  ℕ, zero, suc, ◌+◌, ◌/◌, String, Bool, true, false, ltb, Option, none, some, if◌then◌else◌, ◌==◌,
}
use provisioning_api.Base.Exec.{Exec, ok, pure, raise, ◌>>=◌, ◌>>◌, out_of_fuel}
use provisioning_api.Models.Pydantic.{Conversions}
use provisioning_api.Models.Subscription.{FillQueueStatus, status_is_done, NewSubscription}
use provisioning_api.Models.Queue.{
  Message, PrefillMessage, ProvisioningMessage, consumer_registration, dump_message,
  dump_prefill_message, dispatcher_stream, prefill_stream, dispatcher_subject, prefill_subject,
}
use provisioning_api.Nats.{Codec, KeyValue, JetStream}
use provisioning_api.Adapter.Mq
use provisioning_api.Services.Subscriptions.{get_subscription_queue_status}

-- The clock of the event loop, `asyncio.sleep`, and `datetime.now()` as its ISO text.
pub record Clock (S : Type 0) : Type 0 where
  pub time : Exec S ℕ
  pub sleep : ℕ → Exec S (Unit {0})
  pub now : Exec S String

pub record Process (S : Type 0) : Type 0 where
  pub outside : S
  pub prefill_done : String → Bool

-- A coroutine of the outside world, run in the process.
abbrev pub outside : {S A : Type 0} → Exec S A → Exec (Process S) A
outside m p = let (r, s) = m p.outside in (r, record p { outside = s })

-- `self._subscription_prefill_done[name] = True`
unfoldable pub mark_done : {S : Type 0} → String → Exec (Process S) (Unit {0})
mark_done name p =
    (ok tt, record p { prefill_done = λ n. if name == n then true else p.prefill_done n })

module _ {S B : Type 0} (codec : Codec B) (kv : KeyValue S B) (js : JetStream S B) (c : Conversions)
    (clock : Clock S) where
  -- The `while` loop, and the last look behind it.
  poll : ℕ → String → ℕ → Exec S FillQueueStatus
  poll zero name end_time = raise out_of_fuel
  poll (suc fuel) name end_time = do
    t ← clock.time
    elim (ltb t end_time) [
      | true ↦ do
        status ← get_subscription_queue_status codec kv c name
        elim (status_is_done status) [
          | true ↦ pure status
          | false ↦ do clock.sleep 1000; poll fuel name end_time
        ]
      | false ↦ get_subscription_queue_status codec kv c name
    ]

  -- Each round sleeps for a second: two rounds more than the seconds of the timeout are enough.
  unfoldable pub check_subscription_status : String → ℕ → Exec S FillQueueStatus
  unfolding poll
  check_subscription_status name timeout = do
    t ← clock.time
    poll (timeout / 1000 + 2) name (t + timeout)

  unfoldable pub get_messages_from_main_queue :
      String → ℕ → Bool → Exec S (Option ProvisioningMessage)
  get_messages_from_main_queue subscription timeout pop =
      Mq.get_message js codec c subscription (dispatcher_subject subscription) timeout pop

  unfoldable pub get_messages_from_prefill_queue :
      String → ℕ → Bool → Exec S (Option ProvisioningMessage)
  get_messages_from_prefill_queue subscription timeout pop =
      Mq.get_message js codec c subscription (prefill_subject subscription) timeout pop

  -- The prefill queue once its status is known; no message marks it as finished.
  finish_prefill :
      String → Option ProvisioningMessage → Exec (Process S) (Option ProvisioningMessage)
  finish_prefill name (some message) = pure (some message)
  finish_prefill name none = do mark_done name; pure none

  from_prefill_queue :
      String → ℕ → Bool → FillQueueStatus → Exec (Process S) (Option ProvisioningMessage)
  unfolding finish_prefill
  from_prefill_queue name timeout pop status =
      if status_is_done status
      then (do
        message ← outside (get_messages_from_prefill_queue name timeout pop)
        finish_prefill name message)
      else pure none

  unfoldable pub get_next_message :
      String → ℕ → Bool → Exec (Process S) (Option ProvisioningMessage)
  unfolding from_prefill_queue
  get_next_message name timeout pop p =
      let waited = max timeout 100 in
      (if p.prefill_done name then outside (get_messages_from_main_queue name waited pop) else (do
        status ← outside (check_subscription_status name waited)
        from_prefill_queue name waited pop status))
        p

module _ {S B : Type 0} (codec : Codec B) (js : JetStream S B) where
  -- The only processing status is `ok`.
  unfoldable pub post_message_status : String → ℕ → Exec S (Unit {0})
  post_message_status subscription_name seq_num = Mq.delete_message js subscription_name seq_num

  unfoldable pub add_live_event : Message → Exec S (Unit {0})
  add_live_event event =
      Mq.add_message js dispatcher_stream dispatcher_stream (dump_message event) codec.dumps

  unfoldable pub send_request_to_prefill : Clock S → NewSubscription → Exec S (Unit {0})
  send_request_to_prefill clock subscription = do
    ts ← clock.now
    let message : PrefillMessage = record {
      publisher_name = consumer_registration;
      ts = ts;
      subscription_name = subscription.name;
      realms_topics = subscription.realms_topics;
    }
    Mq.add_message js prefill_stream prefill_stream (dump_prefill_message message) codec.dumps
