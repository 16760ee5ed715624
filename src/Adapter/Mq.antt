-- ===== src/Adapter/Mq.antt =====
-- `NatsKeys` and `NatsMQAdapter` of `src/server/adapters/nats_adapter.py`. A message that is
-- acknowledged by its `MqMessage` is rebuilt from it first, as the source does.
pub mod Streams
pub mod Reply
pub mod Push
pub mod Opens
pub mod Taking
pub mod Rounds
use provisioning_api.Base.{
  ℕ, String, ◌<>◌, Bool, true, false, Option, none, some, List, [], ◌∷◌, ◌==◌, if◌then◌else◌,
}
use provisioning_api.Base.Exec.{
  Exec, Exn, Result, ok, raised, and_then, or_raise, type_error, pure, raise, lift, try, ◌>>=◌,
  ◌>>◌, value_error, index_error, key_error, validation_error, not_found, server_error, timed_out,
  empty_queue,
}
use provisioning_api.Models.Json.{Json, Fields, obj, get_field}
use provisioning_api.Models.Pydantic.{Conversions}
use provisioning_api.Models.Queue.{MqMessage, ProvisioningMessage, validate_message}
use provisioning_api.Nats.{
  Codec, JetStream, Msg, StreamConfig, ConsumerConfig, Retention, limits, work_queue,
}
use provisioning_api.Adapter.Mq.Reply.{sequence_text}

unfoldable pub stream_key : String → String
stream_key subject = "stream:" <> subject

unfoldable pub durable_key : String → String
durable_key subject = "durable_name:" <> subject

-- `subjects or [stream]`
abbrev pub or_stream : Option (List String) → String → List String
or_stream none stream = stream ∷ []
or_stream (some []) stream = stream ∷ []
or_stream (some (x ∷ xs)) stream = x ∷ xs

unfoldable pub stream_config : String → Bool → Option (List String) → StreamConfig
unfolding stream_key
stream_config stream manual_delete subjects = record {
  name = stream_key stream;
  subjects = or_stream subjects stream;
  retention = if manual_delete then limits else work_queue;
  num_replicas = 1;
}

unfoldable pub consumer_config : String → Option String → ConsumerConfig
unfolding durable_key
consumer_config stream deliver_subject = record {
  durable_name = durable_key stream;
  deliver_subject = deliver_subject;
  max_ack_pending = 1;
}

-- `[subject] if subject else None`, and `subject if subject else "*"`
abbrev pub subject_list : Option String → Option (List String)
subject_list none = none
subject_list (some subject) = if subject == "" then none else some (subject ∷ [])

abbrev pub or_any : Option String → String
or_any none = "*"
or_any (some subject) = if subject == "" then "*" else subject

-- `msgs[0]`
abbrev pub first_message : {B : Type 0} → List (Msg B) → Result (Msg B)
first_message [] = raised index_error
first_message (m ∷ ms) = ok m

abbrev pub as_data : Json → Option Fields
as_data (obj fs) = some fs
as_data _ = none

-- `data[key]` of each of the keys, in turn
abbrev pub require_keys : List String → Fields → Result (Unit {0})
require_keys [] fs = ok tt
require_keys (k ∷ ks) fs = elim (get_field k fs) [
  | none ↦ raised key_error
  | some j ↦ require_keys ks fs
]

abbrev pub message_keys : List String
message_keys = "publisher_name" ∷ "ts" ∷ "realm" ∷ "topic" ∷ "body" ∷ []

unfoldable pub nats_message_from : {B : Type 0} → Codec B → MqMessage → Msg B
nats_message_from codec message = record {
  subject = message.subject;
  reply = message.reply;
  payload = codec.dumps (obj message.content);
  headers = message.headers;
  num_delivered = message.num_delivered;
}

module _ {B : Type 0} (c : Conversions) where
  -- `MQMessage(...)`: the data must be a dictionary, and the sequence number is read from a text.
  unfoldable pub build_mq_message : Msg B → Json → String → Result MqMessage
  build_mq_message msg content sequence_number =
      and_then (or_raise validation_error (as_data content)) λ fs.
        and_then (or_raise validation_error (c.as_int sequence_number)) λ n. ok (record {
          subject = msg.subject;
          reply = msg.reply;
          content = fs;
          num_delivered = msg.num_delivered;
          sequence_number = n;
          headers = msg.headers;
        })

  unfoldable pub mq_message_from : (B → Option Json) → Msg B → Result MqMessage
  unfolding build_mq_message
  mq_message_from binary_decoder msg =
      and_then (or_raise value_error (binary_decoder msg.payload)) λ content.
        and_then (sequence_text msg.reply)
          λ sequence_number. build_mq_message msg content sequence_number

  unfoldable pub provisioning_message_from : Codec B → Msg B → Result ProvisioningMessage
  provisioning_message_from codec msg =
      and_then (or_raise value_error (codec.loads msg.payload)) λ content.
        and_then (sequence_text msg.reply) λ sequence_number.
          and_then (or_raise type_error (as_data content)) λ fs.
            and_then (require_keys message_keys fs) λ _. and_then (validate_message c fs) λ message.
              and_then (or_raise validation_error (c.as_int sequence_number)) λ n. ok (record {
                message = message;
                sequence_number = n;
                num_delivered = msg.num_delivered;
              })

module _ {S B : Type 0} (js : JetStream S B) where
  -- `binary_encoder` is `json_encoder` or `messagepack_encoder`.
  unfoldable pub add_message : String → String → Fields → (Json → B) → Exec S (Unit {0})
  unfolding stream_key
  add_message stream subject message binary_encoder =
      js.publish subject (binary_encoder (obj message)) (stream_key stream)

  on_missing_stream : StreamConfig → Exn → Exec S Bool
  on_missing_stream config not_found = do js.add_stream config; pure false
  on_missing_stream config e = raise e

  -- `try … except NotFoundError … else …`: the flag tells that the `else` clause is due.
  unfoldable pub ensure_stream : String → Bool → Option (List String) → Exec S (Unit {0})
  unfolding on_missing_stream stream_config
  ensure_stream stream manual_delete subjects = do
    exists ←
        try (do js.stream_info (stream_key stream); pure true)
          (on_missing_stream (stream_config stream manual_delete subjects))
    if exists then js.update_stream (stream_config stream manual_delete subjects) else pure tt

  on_missing_consumer : String → ConsumerConfig → Exn → Exec S (Unit {0})
  on_missing_consumer stream_name config not_found = js.add_consumer stream_name config
  on_missing_consumer stream_name config e = raise e

  unfoldable pub ensure_consumer : String → Option String → Exec S (Unit {0})
  unfolding on_missing_consumer consumer_config stream_key
  ensure_consumer stream deliver_subject =
      try (js.consumer_info (stream_key stream) (durable_key stream))
        (on_missing_consumer (stream_key stream) (consumer_config stream deliver_subject))

  -- `except NotFoundError: return None`
  ignore_not_found : Exn → Exec S (Unit {0})
  ignore_not_found not_found = pure tt
  ignore_not_found e = raise e

  unfoldable pub delete_stream : String → Exec S (Unit {0})
  unfolding ignore_not_found stream_key
  delete_stream stream_name = try (js.delete_stream (stream_key stream_name)) ignore_not_found

  unfoldable pub delete_consumer : String → Exec S (Unit {0})
  unfolding ignore_not_found stream_key durable_key
  delete_consumer subject =
      try (js.delete_consumer (stream_key subject) (durable_key subject)) ignore_not_found

  missing : Exn → Exec S Bool
  missing not_found = pure false
  missing e = raise e

  unfoldable pub stream_exists : String → Exec S Bool
  unfolding missing stream_key
  stream_exists subject = try (do js.stream_info (stream_key subject); pure true) missing

  no_messages : Exn → Exec S (Option (List (Msg B)))
  no_messages timed_out = pure none
  no_messages e = raise e

  -- What follows the fetch: `None` after a timeout, else the first message, acknowledged first if
  -- it is popped.
  take_message :
      Codec B → Conversions → Bool → Option (List (Msg B)) → Exec S (Option ProvisioningMessage)
  take_message codec c pop none = pure none
  take_message codec c pop (some msgs) = do
    msg ← lift (first_message msgs)
    if pop then js.ack msg else pure tt
    message ← lift (provisioning_message_from c codec msg)
    pure (some message)

  fetch_message :
      Codec B
      → Conversions
      → String
      → String
      → ℕ
      → Bool
      → Bool
      → Exec S (Option ProvisioningMessage)
  unfolding take_message no_messages
  fetch_message codec c stream subject timeout pop false = pure none
  fetch_message codec c stream subject timeout pop true = do
    js.consumer_info (stream_key stream) (durable_key stream)
    js.pull_subscribe subject (durable_key stream) (stream_key stream)
    msgs ←
        try
          (do
            found ← js.fetch (stream_key stream) (durable_key stream) subject timeout
            pure (some found))
          no_messages
    take_message codec c pop msgs

  unfoldable pub get_message :
      Codec B → Conversions → String → String → ℕ → Bool → Exec S (Option ProvisioningMessage)
  unfolding fetch_message missing stream_key durable_key stream_exists
  get_message codec c stream subject timeout pop = do
    exists ← stream_exists stream
    fetch_message codec c stream subject timeout pop exists

  -- The consumer that `initialize_subscription` keeps: the subject, the durable name, the stream.
  unfoldable pub initialize_subscription :
      String → Bool → Option String → Exec S (String × String × String)
  unfolding stream_key durable_key
  initialize_subscription stream manual_delete subject = do
    ensure_stream stream manual_delete (subject_list subject)
    ensure_consumer stream none
    js.pull_subscribe (or_any subject) (durable_key stream) (stream_key stream)
    pure (or_any subject, durable_key stream, stream_key stream)

  empty_if_late : Exn → Exec S (List (Msg B))
  empty_if_late timed_out = raise empty_queue
  empty_if_late e = raise e

  -- The message comes with the one that its acknowledgements go to.
  unfoldable pub get_one_message :
      (B → Option Json) → Conversions → String × String × String → ℕ → Exec S (MqMessage × Msg B)
  unfolding empty_if_late
  get_one_message binary_decoder c (subject, durable, stream) timeout = do
    messages ← try (js.fetch stream durable subject timeout) empty_if_late
    msg ← lift (first_message messages)
    message ← lift (mq_message_from c binary_decoder msg)
    pure (message, msg)

  absent_or_failed : Exn → Exec S (Unit {0})
  absent_or_failed not_found = raise value_error
  absent_or_failed server_error = raise value_error
  absent_or_failed e = raise e

  unfoldable pub delete_message : String → ℕ → Exec S (Unit {0})
  unfolding absent_or_failed stream_key
  delete_message stream seq_num =
      try (do js.get_msg (stream_key stream) seq_num; js.delete_msg (stream_key stream) seq_num)
        absent_or_failed

  unfoldable pub purge_subject_from_messages : String → String → Exec S (Unit {0})
  unfolding stream_key
  purge_subject_from_messages stream subject = js.purge_stream (stream_key stream) subject
