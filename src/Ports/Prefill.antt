-- ===== src/Ports/Prefill.antt =====
-- `PrefillPort` of `src/server/core/prefill/port.py`. `update_subscription_queue_status` and
-- `create_prefill_message` stand with the prefill service.
use provisioning_api.Base.{ℕ, String, Bool, Option, none}
use provisioning_api.Base.Exec.{Exec, ◌>>◌}
use provisioning_api.Models.Json.{Fields}
use provisioning_api.Models.Pydantic.{Conversions}
use provisioning_api.Models.Queue.{MqMessage}
use provisioning_api.Nats.{Codec, JetStream, Client, Msg}
use provisioning_api.Adapter.Mq
use provisioning_api.Adapter.Mq.Push
use provisioning_api.Ports.Context.{NatsSettings, HttpConnection, port_context}

module _ {S B : Type 0} (js : JetStream S B) (codec : Codec B) (c : Conversions) where
  unfoldable pub initialize_subscription :
      String → Bool → Option String → Exec S (String × String × String)
  initialize_subscription stream manual_delete subject =
      Mq.initialize_subscription js stream manual_delete subject

  -- With the default decoder and the default timeout of ten seconds.
  unfoldable pub get_one_message : String × String × String → Exec S (MqMessage × Msg B)
  get_one_message subscription = Mq.get_one_message js codec.loads c subscription 10000

  unfoldable pub add_request_to_prefill_failures : String → String → Fields → Exec S (Unit {0})
  add_request_to_prefill_failures stream subject message =
      Mq.add_message js stream subject message codec.dumps

  unfoldable pub ensure_stream : String → Bool → Exec S (Unit {0})
  ensure_stream subject manual_delete = Mq.ensure_stream js subject manual_delete none

  unfoldable pub delete_stream : String → Exec S (Unit {0})
  delete_stream stream_name = Mq.delete_stream js stream_name

  unfoldable pub ensure_consumer : String → Exec S (Unit {0})
  ensure_consumer subject = Mq.ensure_consumer js subject none

  unfoldable pub acknowledge_message : MqMessage → Exec S (Unit {0})
  acknowledge_message message = Push.acknowledge_message js codec message

  unfoldable pub acknowledge_message_in_progress : MqMessage → Exec S (Unit {0})
  acknowledge_message_in_progress message = Push.acknowledge_message_in_progress js codec message

  unfoldable pub remove_old_messages_from_prefill_subject : String → String → Exec S (Unit {0})
  remove_old_messages_from_prefill_subject stream subject =
      Mq.purge_subject_from_messages js stream subject

module _ {S : Type 0} (udm internal_api : HttpConnection S) (mq_nats : Client S) where
  unfoldable pub connect : NatsSettings → ℕ → Exec S (Unit {0})
  connect settings nats_max_reconnect_attempts = do
    udm.connect
    Push.connect mq_nats settings.nats_server settings.nats_user settings.nats_password
        nats_max_reconnect_attempts
    internal_api.connect

  unfoldable pub close : Exec S (Unit {0})
  close = do udm.close; Push.close mq_nats; internal_api.close

  unfoldable pub with_port {ℓ} : {A : Type ℓ} → NatsSettings → ℕ → Exec S A → Exec S A
  with_port settings nats_max_reconnect_attempts body =
      port_context (connect settings nats_max_reconnect_attempts) close body
