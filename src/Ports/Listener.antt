-- ===== src/Ports/Listener.antt =====
-- `LDAPProducerPort` of `provisioning-listener/provisioning_listener/port.py`.
use provisioning_api.Base.{ℕ, String, Bool, Option, List}
use provisioning_api.Base.Exec.{Exec}
use provisioning_api.Models.Json.{Fields}
use provisioning_api.Nats.{Codec, JetStream, Client}
use provisioning_api.Adapter.Mq
use provisioning_api.Adapter.Mq.Push
use provisioning_api.Ports.Context.{NatsSettings, port_context}

module _ {S B : Type 0} (js : JetStream S B) where
  unfoldable pub add_message : Codec B → String → String → Fields → Exec S (Unit {0})
  add_message codec stream subject message = Mq.add_message js stream subject message codec.pack

  unfoldable pub ensure_stream : String → Bool → Option (List String) → Exec S (Unit {0})
  ensure_stream stream manual_delete subjects = Mq.ensure_stream js stream manual_delete subjects

module _ {S : Type 0} (mq_nats : Client S) where
  -- `__aenter__`, `__aexit__` and the `async with` around the body.
  unfoldable pub enter : NatsSettings → ℕ → Exec S (Unit {0})
  enter settings nats_max_reconnect_attempts =
      Push.connect mq_nats settings.nats_server settings.nats_user settings.nats_password
        nats_max_reconnect_attempts

  unfoldable pub exit : Exec S (Unit {0})
  exit = Push.close mq_nats

  unfoldable pub with_port {ℓ} : {A : Type ℓ} → NatsSettings → ℕ → Exec S A → Exec S A
  with_port settings nats_max_reconnect_attempts body =
      port_context (enter settings nats_max_reconnect_attempts) exit body
