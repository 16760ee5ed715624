-- ===== src/Services/Backend.antt =====
-- What the subscription service assumes of the servers and libraries behind it, in one record: the
-- views of the buckets, the streams and the passwords, and the documented behaviour of the calls.
pub mod Keeps
use provisioning_api.Base.{ℕ, String, Bool, Option, ◌≡◌}
use provisioning_api.Models.Pydantic.{Conversions, KeepsBool}
use provisioning_api.Models.Subscription.{Bucket}
use provisioning_api.Nats.{Codec, KeyValue, JetStream, StreamConfig, ConsumerConfig}
use provisioning_api.Nats.Kv.{IsCodec, IsKeyValue}
use provisioning_api.Nats.Streams.{IsJetStream, KeepsValues}
use provisioning_api.Services.Passwords.{PasswordContext, IsPasswordContext}

-- The calls on the buckets leave the streams alone.
pub record KeepsStreams {S B : Type 0} (kv : KeyValue S B) (pw : PasswordContext S B)
    (stream : S → String → Option StreamConfig) : Type 0 where
  pub stream-put : (b : Bucket) (k : String) (v : B) (s : S) → stream (kv.put b k v s).1 ≡ stream s
  pub stream-delete : (b : Bucket) (k : String) (s : S) → stream (kv.delete b k s).1 ≡ stream s
  pub stream-hash : (p : String) (s : S) → stream (pw.hash p s).1 ≡ stream s

pub record Backend {S B : Type 0} (codec : Codec B) (kv : KeyValue S B) (js : JetStream S B)
    (pw : PasswordContext S B) (c : Conversions) : Type 0 where
  pub value : S → Bucket → String → Option B
  pub revision : S → Bucket → String → ℕ
  pub stream : S → String → Option StreamConfig
  pub consumer : S → String → String → Option ConsumerConfig
  pub valid : String → Option B → Bool
  pub hashed : String → S → B
  pub keeps_bool : KeepsBool c
  pub is_codec : IsCodec codec
  pub is_kv : IsKeyValue kv value revision
  pub is_js : IsJetStream js stream consumer
  pub keeps_values : KeepsValues js value
  pub keeps_streams : KeepsStreams kv pw stream
  pub is_pw : IsPasswordContext pw codec value valid hashed
