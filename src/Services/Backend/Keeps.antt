-- ===== src/Services/Backend/Keeps.antt =====
-- What the adapters' calls leave alone, over the assumed backend.
use provisioning_api.Base.{
  String, Bool, Option, none, some, List, ◌≡◌, refl, arith, Bool-cases, inl, inr,
}
use provisioning_api.Models.Pydantic.{Conversions}
use provisioning_api.Models.Subscription.{Bucket}
use provisioning_api.Nats.{Codec, KeyValue, JetStream, StreamConfig}
use provisioning_api.Adapter.Kv.{Value, put_value, delete_kv_pair, value_truthy}
use provisioning_api.Adapter.Mq.{
  stream_config, ensure_stream, ensure_consumer, delete_stream, delete_consumer, stream_key,
  durable_key, consumer_config,
}
use provisioning_api.Services.Passwords.{PasswordContext}
use provisioning_api.Services.Backend.{Backend}

module _ {S B : Type 0} {codec : Codec B} {kv : KeyValue S B} {js : JetStream S B}
    {pw : PasswordContext S B} {c : Conversions} (E : Backend codec kv js pw c) where
  pub stream-delete_kv_pair :
      (k : String) (b : Bucket) (s : S) → E.stream (delete_kv_pair kv k b s).1 ≡ E.stream s
  unfolding delete_kv_pair
  stream-delete_kv_pair k b s = simp (E.is_kv.key_value_lem, E.keeps_streams.stream-delete)

  pub stream-put_value :
      (k : String) (v : Value B) (b : Bucket) (s : S)
      → E.stream (put_value codec kv k v b none s).1 ≡ E.stream s
  unfolding put_value
  stream-put_value k v b s = elim (Bool-cases (value_truthy codec v)) [
    | inl e ↦ simp (E.is_kv.key_value_lem, e, E.keeps_streams.stream-put)
    | inr e ↦ simp (E.is_kv.key_value_lem, e, E.keeps_streams.stream-delete)
  ]

  value-ensure_stream_cases :
      (name : String) (manual : Bool) (subjects : Option (List String)) (s : S)
      (o : Option StreamConfig)
      → E.stream s (stream_key name) ≡ o
      → E.value (ensure_stream js name manual subjects s).1 ≡ E.value s
  unfolding ensure_stream
  value-ensure_stream_cases name manual subjects s none e =
      simp (E.is_js.stream_info_lem, e)
        (ground (arith, E.keeps_values.value-add_stream (stream_config name manual subjects) s))
  value-ensure_stream_cases name manual subjects s (some old) e =
      simp (E.is_js.stream_info_lem, e, E.keeps_values.value-update_stream)

  pub value-ensure_stream :
      (name : String) (manual : Bool) (subjects : Option (List String)) (s : S)
      → E.value (ensure_stream js name manual subjects s).1 ≡ E.value s
  value-ensure_stream name manual subjects s =
      value-ensure_stream_cases name manual subjects s (E.stream s (stream_key name)) refl

  pub value-ensure_consumer :
      (name : String) (deliver : Option String) (s : S)
      → E.value (ensure_consumer js name deliver s).1 ≡ E.value s
  unfolding ensure_consumer
  value-ensure_consumer name deliver s = simp E.is_js.consumer_info_lem (
      ground (
        arith,
        E.keeps_values.value-add_consumer (stream_key name) (consumer_config name deliver) s,
      ))

  pub stream-ensure_consumer :
      (name : String) (deliver : Option String) (s : S)
      → E.stream (ensure_consumer js name deliver s).1 ≡ E.stream s
  unfolding ensure_consumer
  stream-ensure_consumer name deliver s = simp E.is_js.consumer_info_lem (
      ground
        (arith, E.is_js.stream-add_consumer (stream_key name) (consumer_config name deliver) s))

  pub value-delete_stream :
      (name : String) (s : S) → E.value (delete_stream js name s).1 ≡ E.value s
  unfolding delete_stream
  value-delete_stream name s = ground (
    arith,
    E.is_js.delete_stream_lem (stream_key name) s,
    E.keeps_values.value-delete_stream (stream_key name) s,
  )

  pub value-delete_consumer :
      (name : String) (s : S) → E.value (delete_consumer js name s).1 ≡ E.value s
  unfolding delete_consumer
  value-delete_consumer name s = ground (
    arith,
    E.is_js.delete_consumer_lem (stream_key name) (durable_key name) s,
    E.keeps_values.value-delete_consumer (stream_key name) (durable_key name) s,
  )

  pub stream-delete_consumer :
      (name : String) (s : S) → E.stream (delete_consumer js name s).1 ≡ E.stream s
  unfolding delete_consumer
  stream-delete_consumer name s = ground (
    arith,
    E.is_js.delete_consumer_lem (stream_key name) (durable_key name) s,
    E.is_js.stream-delete_consumer (stream_key name) (durable_key name) s,
  )
