-- ===== src/Adapter/Mq/Push.antt =====
-- `NatsMQAdapter`: the connection, the messages that the server pushes, and the acknowledgements.
use provisioning_api.Base.{ℕ, String, false, Option, none, some, List, [], ◌∷◌, ◌++◌}
use provisioning_api.Base.Exec.{Exec, Result, ◌>>◌}
use provisioning_api.Models.Pydantic.{Conversions}
use provisioning_api.Models.Queue.{MqMessage}
use provisioning_api.Nats.{Codec, JetStream, Msg, Client}
use provisioning_api.Adapter.Mq.{
  stream_key, durable_key, nats_message_from, mq_message_from, ensure_stream, ensure_consumer,
}

-- The default number of reconnects.
abbrev pub max_reconnect_attempts : ℕ
max_reconnect_attempts = 5

module _ {S : Type 0} (nats : Client S) where
  unfoldable pub connect : String → String → String → ℕ → Exec S (Unit {0})
  connect server user password max_reconnect_attempts =
      nats.connect server user password max_reconnect_attempts

  unfoldable pub close : Exec S (Unit {0})
  close = nats.close

-- `self._message_queue`: a message is put at the end, and taken from the front.
module _ {B : Type 0} where
  unfoldable pub cb : Msg B → List (Msg B) → List (Msg B)
  cb msg queue = queue ++ (msg ∷ [])

  -- `none` while the queue is empty: the coroutine waits.
  unfoldable pub wait_for_event :
      Codec B → Conversions → List (Msg B) → Option (Result MqMessage × List (Msg B))
  wait_for_event codec c [] = none
  wait_for_event codec c (msg ∷ queue) = some (mq_message_from c codec.loads msg, queue)

pub record Acknowledgements (S : Type 0) : Type 0 where
  pub acknowledge_message : Exec S (Unit {0})
  pub acknowledge_message_negatively : Exec S (Unit {0})
  pub acknowledge_message_in_progress : Exec S (Unit {0})

module _ {S B : Type 0} (js : JetStream S B) where
  unfoldable pub subscribe_to_queue : String → String → Exec S (Unit {0})
  unfolding stream_key durable_key
  subscribe_to_queue subject deliver_subject = do
    ensure_stream js subject false none
    ensure_consumer js subject (some deliver_subject)
    js.subscribe subject (durable_key subject) (stream_key subject)

  unfoldable pub build_acknowledgements : Msg B → Acknowledgements S
  build_acknowledgements message = record {
    acknowledge_message = js.ack message;
    acknowledge_message_negatively = js.nak message;
    acknowledge_message_in_progress = js.in_progress message;
  }

  module _ (codec : Codec B) where
    abbrev pub acknowledge_message : MqMessage → Exec S (Unit {0})
    acknowledge_message message = js.ack (nats_message_from codec message)

    abbrev pub acknowledge_message_negatively : MqMessage → Exec S (Unit {0})
    acknowledge_message_negatively message = js.nak (nats_message_from codec message)

    abbrev pub acknowledge_message_in_progress : MqMessage → Exec S (Unit {0})
    acknowledge_message_in_progress message = js.in_progress (nats_message_from codec message)
