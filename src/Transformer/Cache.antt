-- ===== src/Transformer/Cache.antt =====
-- Storing objects in the cache of the transformer and retrieving them.
use provisioning_api.Base.{ℕ, String, true, false, Option, some, none, ◌≡◌, refl}
use provisioning_api.Base.Exec.{Exec, Result, ok}
use provisioning_api.Models.Json.{Fields, str, obj, get_field, fields_truthy}
use provisioning_api.Models.Pydantic.{Conversions}
use provisioning_api.Models.Queue.{PublisherName}
use provisioning_api.Models.Subscription.{Bucket, cache}
use provisioning_api.Nats.{Codec, KeyValue, JetStream}
use provisioning_api.Nats.Kv.{IsCodec, IsKeyValue, at_key}
use provisioning_api.Adapter.Kv.{text, value_truthy, value_text}
use provisioning_api.Adapter.Kv.Laws.{
  get_dict_value_lem, value-put_value, put_value-ok, loads_if-dumps, at_key_refl,
}
use provisioning_api.Adapter.Rest.{Http}
use provisioning_api.Transformer.{UdmModules, retrieve, store, uuid_of}
use provisioning_api.Transformer.Values.{as_cached}

module _ {S B : Type 0} (codec : Codec B) (kv : KeyValue S B) (js : JetStream S B) (c : Conversions)
    (modules : UdmModules S) (api : Http S) (api_url : String) (now : Exec S String)
    (ldap_publisher_name : PublisherName) {value : S → Bucket → String → Option B}
    {revision : S → Bucket → String → ℕ} (K : IsKeyValue kv value revision) (C : IsCodec codec)
    (new : Fields) (uuid : String) (s : S) where
  abbrev pub stored : Result (Unit {0}) × S
  stored = store codec kv js c modules api api_url now ldap_publisher_name new s

  -- An object with an UUID is stored without an exception, and then found under its UUID; other
  -- keys keep their values.
  pub retrieve-store :
      get_field "uuid" new ≡ some (str uuid)
      → fields_truthy new ≡ true
      → (stored.0 ≡ ok tt)
        × (retrieve codec kv js c modules api api_url now ldap_publisher_name uuid stored.1
            ≡ (ok new, stored.1))
        × ((b : Bucket) (k : String)
            → at_key cache uuid b k ≡ false
            → value stored.1 b k ≡ value s b k)
  unfolding retrieve store uuid_of as_cached value_truthy value_text
  retrieve-store h filled = (
    rw h (put_value-ok codec kv K uuid (text (codec.dumps (obj new))) cache none s refl),
    rw (h, get_dict_value_lem codec kv K)
        (simp
          (value-put_value codec kv K, at_key_refl, C.is_empty-dumps, loads_if-dumps C, filled)),
    λ b k other. rw h (
        simp (
          value-put_value codec kv K uuid (text (codec.dumps (obj new))) cache none s b k refl,
          other,
        )),
  )
