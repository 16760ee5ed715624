-- ===== src/Ports/Dispatcher.antt =====
-- `DispatcherPort` of `src/server/core/dispatcher/port.py`: the connections, the push subscription and
-- the watch. What handling a message calls stands with the dispatcher.
use provisioning_api.Base.{ℕ, String, Option, List, [], ◌∷◌}
use provisioning_api.Base.Exec.{Exec, Result, ◌>>◌}
use provisioning_api.Models.Pydantic.{Conversions}
use provisioning_api.Models.Subscription.{subscriptions, Subscription}
use provisioning_api.Models.Queue.{MqMessage}
use provisioning_api.Nats.{Codec, KeyValue, JetStream, Client, Msg, Update}
use provisioning_api.Adapter.Kv
use provisioning_api.Adapter.Kv.Watch
use provisioning_api.Adapter.Mq.Push
use provisioning_api.Ports.Context.{NatsSettings, port_context}

unfoldable pub wait_for_event :
    {B : Type 0} → Codec B → Conversions → List (Msg B) → Option (Result MqMessage × List (Msg B))
wait_for_event codec c queue = Push.wait_for_event codec c queue

module _ {S B : Type 0} (codec : Codec B) (c : Conversions) where
  unfoldable pub subscribe_to_queue : JetStream S B → String → String → Exec S (Unit {0})
  subscribe_to_queue js subject deliver_subject = Push.subscribe_to_queue js subject deliver_subject

  unfoldable pub acknowledge_message_in_progress : JetStream S B → MqMessage → Exec S (Unit {0})
  acknowledge_message_in_progress js message = Push.acknowledge_message_in_progress js codec message

  unfoldable pub get_all_subscriptions : KeyValue S B → Exec S (List Subscription)
  get_all_subscriptions kv = Kv.get_all_subscriptions codec kv c

  unfoldable pub watch_for_subscription_changes :
      KeyValue S B
      → (String → Option B → Exec S (Unit {0}))
      → List (Option (Update B))
      → Exec S (Unit {0})
  watch_for_subscription_changes kv callback updates =
      Watch.watch_for_subscription_changes callback kv updates

module _ {S B : Type 0} (mq_nats kv_nats : Client S) (kv : KeyValue S B) where
  unfoldable pub connect : NatsSettings → ℕ → Exec S (Unit {0})
  connect settings nats_max_reconnect_attempts = do
    Push.connect mq_nats settings.nats_server settings.nats_user settings.nats_password
        nats_max_reconnect_attempts
    Watch.init kv_nats kv settings.nats_server settings.nats_user settings.nats_password
        (subscriptions ∷ [])

  unfoldable pub close : Exec S (Unit {0})
  close = do Push.close mq_nats; Watch.close kv_nats

  unfoldable pub with_port {ℓ} : {A : Type ℓ} → NatsSettings → ℕ → Exec S A → Exec S A
  with_port settings nats_max_reconnect_attempts body =
      port_context (connect settings nats_max_reconnect_attempts) close body
