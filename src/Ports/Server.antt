-- ===== src/Ports/Server.antt =====
-- `Port` of `src/server/services/port.py`.
use provisioning_api.Base.{ℕ, String, Bool, Option, none, some, List, [], ◌∷◌}
use provisioning_api.Base.Exec.{Exec, pure, lift, ◌>>=◌, ◌>>◌}
use provisioning_api.Models.Json.{Json, Fields, arr, no_items}
use provisioning_api.Models.Pydantic.{Conversions}
use provisioning_api.Models.Subscription.{Bucket, subscriptions, credentials}
use provisioning_api.Models.Queue.{ProvisioningMessage}
use provisioning_api.Nats.{Codec, KeyValue, JetStream, Client}
use provisioning_api.Adapter.Kv
use provisioning_api.Adapter.Kv.{Value, loads_if, get_value}
use provisioning_api.Adapter.Kv.Watch
use provisioning_api.Adapter.Mq
use provisioning_api.Adapter.Mq.Push.{max_reconnect_attempts}
use provisioning_api.Adapter.Mq.Push
use provisioning_api.Ports.Context.{NatsSettings, port_context}

-- `json.loads(result) if result else []`
abbrev or_no_items : Option Json → Json
or_no_items none = arr no_items
or_no_items (some j) = j

module _ {S B : Type 0} (codec : Codec B) (kv : KeyValue S B) where
  unfoldable pub get_list_value : String → Bucket → Exec S Json
  get_list_value key bucket = do
    result ← get_value kv key bucket
    value ← lift (loads_if codec result)
    pure (or_no_items value)

  unfoldable pub get_str_value : String → Bucket → Exec S (Option B)
  get_str_value key bucket = get_value kv key bucket

  unfoldable pub delete_kv_pair : String → Bucket → Exec S (Unit {0})
  delete_kv_pair key bucket = Kv.delete_kv_pair kv key bucket

  unfoldable pub put_value : String → Value B → Bucket → Option ℕ → Exec S (Unit {0})
  put_value key value bucket revision = Kv.put_value codec kv key value bucket revision

  unfoldable pub get_bucket_keys : Bucket → Exec S (List String)
  get_bucket_keys bucket = Kv.get_keys kv bucket

module _ {S B : Type 0} (js : JetStream S B) where
  -- With the default encoder.
  unfoldable pub add_message : Codec B → String → String → Fields → Exec S (Unit {0})
  add_message codec stream subject message = Mq.add_message js stream subject message codec.dumps

  unfoldable pub get_message :
      Codec B → Conversions → String → String → ℕ → Bool → Exec S (Option ProvisioningMessage)
  get_message codec c stream subject timeout pop =
      Mq.get_message js codec c stream subject timeout pop

  unfoldable pub delete_message : String → ℕ → Exec S (Unit {0})
  delete_message stream seq_num = Mq.delete_message js stream seq_num

  unfoldable pub delete_stream : String → Exec S (Unit {0})
  delete_stream stream_name = Mq.delete_stream js stream_name

  unfoldable pub ensure_stream : String → Bool → Option (List String) → Exec S (Unit {0})
  ensure_stream stream manual_delete subjects = Mq.ensure_stream js stream manual_delete subjects

  unfoldable pub stream_exists : String → Exec S Bool
  stream_exists prefill_queue_name = Mq.stream_exists js prefill_queue_name

  unfoldable pub delete_consumer : String → Exec S (Unit {0})
  delete_consumer stream_name = Mq.delete_consumer js stream_name

  unfoldable pub ensure_consumer : String → Exec S (Unit {0})
  ensure_consumer subject = Mq.ensure_consumer js subject none

-- The two adapters have a connection each.
module _ {S B : Type 0} (mq_nats kv_nats : Client S) (kv : KeyValue S B) where
  unfoldable pub connect : NatsSettings → Exec S (Unit {0})
  connect settings = do
    Push.connect mq_nats settings.nats_server settings.nats_user settings.nats_password
        max_reconnect_attempts
    Watch.init kv_nats kv settings.nats_server settings.nats_user settings.nats_password
        (subscriptions ∷ credentials ∷ [])

  unfoldable pub close : Exec S (Unit {0})
  close = do Push.close mq_nats; Watch.close kv_nats

  -- `port_dependency` and `port_context` have the same body.
  unfoldable pub with_port {ℓ} : {A : Type ℓ} → NatsSettings → Exec S A → Exec S A
  with_port settings body = port_context (connect settings) close body
