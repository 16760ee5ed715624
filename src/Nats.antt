-- ===== src/Nats.antt =====
-- What the services use of the NATS server and its client library, of which the repository has no
-- source. `S` is the state of the outside world, `B` the type of the texts and bytes that are
-- stored and sent. Every call is a coroutine that may raise.
pub mod Kv
pub mod Streams
pub mod Journal
use provisioning_api.Base.{ℕ, String, Bool, Option, List}
use provisioning_api.Base.Exec.{Exec}
use provisioning_api.Models.Json.{Json}
use provisioning_api.Models.Subscription.{Bucket}

-- `json.dumps` and `json.loads`, `msgpack.packb` and `msgpack.unpackb`; `none` is a `ValueError`.
-- `is_empty` tells the empty text.
pub record Codec (B : Type 0) : Type 0 where
  pub dumps : Json → B
  pub loads : B → Option Json
  pub pack : Json → B
  pub unpack : B → Option Json
  pub is_empty : B → Bool

-- `nats.js.kv`: opening a bucket, and the calls on the opened one. `get` gives a value with its
-- revision, or raises `KeyNotFoundError`; `keys` raises `NoKeysError` where there is none; `update`
-- raises `KeyWrongLastSequenceError` where the revision is another.
pub record KeyValue (S B : Type 0) : Type 0 where
  pub key_value : Bucket → Exec S (Unit {0})
  pub create_key_value : Bucket → Exec S (Unit {0})
  pub get : Bucket → String → Exec S (B × ℕ)
  pub put : Bucket → String → B → Exec S (Unit {0})
  pub update : Bucket → String → B → ℕ → Exec S (Unit {0})
  pub delete : Bucket → String → Exec S (Unit {0})
  pub keys : Bucket → Exec S (List String)
  pub watchall : Bucket → Exec S (Unit {0})

-- `nats.js.kv.KeyValue.Entry` of a watch: `put` stands for the missing operation of a value that
-- was stored, the others for `KV_DEL` and `KV_PURGE`.
pub data Operation : Type 0 where
  put deleted purged : Operation

pub record Update (B : Type 0) : Type 0 where
  pub key : String
  pub value : Option B
  pub operation : Operation

-- `nats.aio.client.Client`: `connect server user password max_reconnect_attempts`.
pub record Client (S : Type 0) : Type 0 where
  pub connect : String → String → String → ℕ → Exec S (Unit {0})
  pub close : Exec S (Unit {0})

pub data Retention : Type 0 where
  limits work_queue : Retention

pub record StreamConfig : Type 0 where
  pub name : String
  pub subjects : List String
  pub retention : Retention
  pub num_replicas : ℕ

pub record ConsumerConfig : Type 0 where
  pub durable_name : String
  pub deliver_subject : Option String
  pub max_ack_pending : ℕ

-- `nats.aio.msg.Msg`; `num_delivered` is that of its metadata.
pub record Msg (B : Type 0) : Type 0 where
  pub subject : String
  pub reply : String
  pub payload : B
  pub headers : Option (List (String × String))
  pub num_delivered : ℕ

-- `nats.js`. Where a stream or a consumer is missing, the calls on it raise `NotFoundError`.
-- `fetch stream durable subject timeout` is `fetch(1, timeout)` on a pull subscription, a timeout
-- in milliseconds; `subscribe subject durable stream` is the push subscription with a callback and
-- acknowledgements by hand; `fetch` raises `TimeoutError` where no message comes.
pub record JetStream (S B : Type 0) : Type 0 where
  pub stream_info : String → Exec S (Unit {0})
  pub add_stream : StreamConfig → Exec S (Unit {0})
  pub update_stream : StreamConfig → Exec S (Unit {0})
  pub delete_stream : String → Exec S (Unit {0})
  pub consumer_info : String → String → Exec S (Unit {0})
  pub add_consumer : String → ConsumerConfig → Exec S (Unit {0})
  pub delete_consumer : String → String → Exec S (Unit {0})
  pub publish : String → B → String → Exec S (Unit {0})
  pub pull_subscribe : String → String → String → Exec S (Unit {0})
  pub subscribe : String → String → String → Exec S (Unit {0})
  pub fetch : String → String → String → ℕ → Exec S (List (Msg B))
  pub ack : Msg B → Exec S (Unit {0})
  pub nak : Msg B → Exec S (Unit {0})
  pub in_progress : Msg B → Exec S (Unit {0})
  pub get_msg : String → ℕ → Exec S (Unit {0})
  pub delete_msg : String → ℕ → Exec S (Unit {0})
  pub purge_stream : String → String → Exec S (Unit {0})
