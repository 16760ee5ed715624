-- ===== src/Ports/Transformer.antt =====
-- `UDMTransformerPort` of `src/udm_transformer/port.py`: the connections and the queue. `retrieve`,
-- `store` and `send_event` stand with the transformer.
use provisioning_api.Base.{ℕ, String, Bool, some, [], ◌∷◌}
use provisioning_api.Base.Exec.{Exec, ◌>>◌}
use provisioning_api.Models.Pydantic.{Conversions}
use provisioning_api.Models.Subscription.{cache}
use provisioning_api.Models.Queue.{MqMessage}
use provisioning_api.Nats.{Codec, KeyValue, JetStream, Client, Msg}
use provisioning_api.Adapter.Kv.Watch
use provisioning_api.Adapter.Mq
use provisioning_api.Adapter.Mq.Push.{max_reconnect_attempts}
use provisioning_api.Adapter.Mq.Push
use provisioning_api.Ports.Context.{NatsSettings, HttpConnection, port_context}

module _ {S B : Type 0} (js : JetStream S B) where
  unfoldable pub initialize_subscription :
      String → Bool → String → Exec S (String × String × String)
  initialize_subscription stream manual_delete subject =
      Mq.initialize_subscription js stream manual_delete (some subject)

  unfoldable pub get_one_message :
      Codec B → Conversions → String × String × String → ℕ → Exec S (MqMessage × Msg B)
  get_one_message codec c subscription timeout =
      Mq.get_one_message js codec.unpack c subscription timeout

module _ {S B : Type 0} (mq_nats kv_nats : Client S) (kv : KeyValue S B)
    (internal_api : HttpConnection S) where
  unfoldable pub connect : NatsSettings → Exec S (Unit {0})
  connect settings = do
    Push.connect mq_nats settings.nats_server settings.nats_user settings.nats_password
        max_reconnect_attempts
    Watch.init kv_nats kv settings.nats_server settings.nats_user settings.nats_password
        (cache ∷ [])
    internal_api.connect

  unfoldable pub close : Exec S (Unit {0})
  close = do Watch.close kv_nats; internal_api.close; Push.close mq_nats

  unfoldable pub with_port {ℓ} : {A : Type ℓ} → NatsSettings → Exec S A → Exec S A
  with_port settings body = port_context (connect settings) close body
