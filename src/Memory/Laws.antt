-- ===== src/Memory/Laws.antt =====
-- The server in memory meets the assumptions.
use provisioning_api.Base.{
  Bool, inl, eq_iff, String, true, Option, none, some, ◌≡◌, refl, arith, eq_refl,
}
use provisioning_api.Models.Json
use provisioning_api.Nats.Kv.{IsCodec, IsKeyValue}
use provisioning_api.Nats.Streams.{IsJetStream}
use provisioning_api.Services.Passwords.{IsPasswordContext, IsTtlCache, CacheKey}
use provisioning_api.Services.Backend.{Backend}
use provisioning_api.Nats.Journal.{IsJournal, KeepsAcked, SetsUp, IsReliable}
use provisioning_api.Services.Messages.Polling.{IsClock}
use provisioning_api.Prefill.Progress.{IsPrefillWorld}
use provisioning_api.Consumer.Retries.{IsPatient}
use provisioning_api.Memory.{
  Blob, udm, api, cache, clock, cell_at, key_eq, hash_eq, name_eq, packed, codec, conversions, kv,
  js, passwords, fits, hash_of,
}

abbrev pub codec-IsCodec : IsCodec codec
codec-IsCodec = record { loads-dumps = λ j. refl; is_empty-dumps = λ j. refl }

pub kv-IsKeyValue : IsKeyValue kv (λ s. s.value) (λ s. s.revision)
kv-IsKeyValue = record {
  key_value_lem = λ b s. refl;
  get_lem = λ b k s. refl;
  put-ok = λ b k v s. refl;
  value-put = λ b k v s d j. refl;
  update_lem = λ b k v r s. refl;
  value-update = λ b k v r s d j. ground arith;
  delete-ok = λ b k s. refl;
  value-delete = λ b k s d j. refl;
}

pub js-IsJetStream : IsJetStream js (λ s. s.stream) (λ s. s.consumer)
js-IsJetStream = record {
  stream_info_lem = λ n s. refl;
  add_stream-ok = λ cfg s e n. refl;
  stream-add_stream = λ cfg s m e n. refl;
  consumer-add_stream = λ cfg s. refl;
  update_stream-ok = λ cfg old s e h. refl;
  stream-update_stream = λ cfg old s m e h. refl;
  consumer-update_stream = λ cfg s. refl;
  delete_stream_lem = λ n s. refl;
  stream-delete_stream = λ n s m. refl;
  consumer-delete_stream = λ n s m d. refl;
  consumer_info_lem = λ n d s. refl;
  add_consumer-ok = λ n cfg s e. refl;
  consumer-add_consumer = λ n cfg s m d e. refl;
  stream-add_consumer = λ n cfg s. refl;
  delete_consumer_lem = λ n d s. refl;
  consumer-delete_consumer = λ n d s m e. refl;
  stream-delete_consumer = λ n d s. refl;
}

pub passwords-IsPasswordContext :
    IsPasswordContext passwords codec (λ s. s.value) fits (λ p s. hash_of p)
passwords-IsPasswordContext = record {
  known = λ h. true;
  known-none = refl;
  known-hashed = λ p s. refl;
  verify_lem = λ p h k. refl;
  hash-ok = λ p s. refl;
  value-hash = λ p s. refl;
  valid-hashed = λ p s. eq_refl p;
  is_empty-hashed = λ p s. refl;
}

abbrev pub backend : Backend codec kv js passwords conversions
backend = record {
  value = λ s. s.value;
  revision = λ s. s.revision;
  stream = λ s. s.stream;
  consumer = λ s. s.consumer;
  valid = fits;
  hashed = λ p s. hash_of p;
  keeps_bool = λ b. refl;
  is_codec = codec-IsCodec;
  is_kv = kv-IsKeyValue;
  is_js = js-IsJetStream;
  keeps_values = record {
    value-add_stream = λ cfg s. refl;
    value-update_stream = λ cfg s. refl;
    value-delete_stream = λ n s. refl;
    value-add_consumer = λ n cfg s. refl;
    value-delete_consumer = λ n d s. refl;
    value-publish = λ subj b n s. refl;
  };
  keeps_streams = record {
    stream-put = λ b k v s. refl;
    stream-delete = λ b k s. refl;
    stream-hash = λ p s. refl;
  };
  is_pw = passwords-IsPasswordContext;
}

hash_eq-≡ : (a b : Option Blob) → hash_eq a b ≡ true → a ≡ b
hash_eq-≡ none none h = refl
hash_eq-≡ (some (packed (Json.str t))) (some (packed (Json.str u))) h = rw ((eq_iff t u).0 h)
hash_eq-≡ _ _ h = absurd (ground arith)

name_eq-≡ : (a b : Option String) → name_eq a b ≡ true → a ≡ b
name_eq-≡ none none h = refl
name_eq-≡ (some t) (some u) h = rw ((eq_iff t u).0 h)
name_eq-≡ none (some u) h = absurd (ground arith)
name_eq-≡ (some t) none h = absurd (ground arith)

key_eq-≡ : (j k : CacheKey Blob) → key_eq j k ≡ true → j ≡ k
key_eq-≡ j k = ground (
  arith,
  eq_iff j.cleartext_pw k.cleartext_pw,
  hash_eq-≡ j.hashed_pw k.hashed_pw,
  name_eq-≡ j.subscription_name k.subscription_name,
)

cell_at_lem :
    (k : CacheKey Blob) (v : Bool × Option Blob) (j : CacheKey Blob) (w : Bool × Option Blob)
    → cell_at (some (k, v)) j ≡ some w
    → (j ≡ k) × (w ≡ v)
cell_at_lem k v j w h = ground (arith, key_eq-≡ j k)

pub cache-IsTtlCache : IsTtlCache kv passwords cache (λ s. s.value) fits (λ s. cell_at s.cell)
cache-IsTtlCache = record {
  new_hash = λ p h s. none;
  cached_lem = λ k s. refl;
  store-ok = λ k v s. refl;
  store_entries = λ k v s j w h. inl (cell_at_lem k v j w h);
  pop-ok = λ k s. refl;
  pop_entries = λ k s j w h. absurd (ground arith);
  verify_and_update_lem = λ p h s. refl;
  verify_entries = λ p h s j w e. e;
  put_entries = λ b k v s j w e. e;
}

pub js-IsJournal : IsJournal js (λ s. s.published) (λ s. s.acked)
js-IsJournal = record {
  published-publish = λ subj b n s. refl;
  acked-publish = λ subj b n s. refl;
  published-ack = λ m s. refl;
  acked-ack = λ m s. refl;
  published-in_progress = λ m s. refl;
  acked-in_progress = λ m s. refl;
}

pub kv-KeepsAcked : KeepsAcked kv (λ s. s.acked)
kv-KeepsAcked = record {
  acked-key_value = λ b s. refl;
  acked-watchall = λ b s. refl;
  acked-keys = λ b s. refl;
  acked-get = λ b k s. refl;
}

pub js-SetsUp : SetsUp js (λ s. s.acked)
js-SetsUp = record {
  acked-stream_info = λ n s. refl;
  acked-add_stream = λ c s. refl;
  acked-update_stream = λ c s. refl;
  acked-consumer_info = λ n d s. refl;
  acked-add_consumer = λ n c s. refl;
  acked-subscribe = λ subj d n s. refl;
}

pub js-IsReliable : IsReliable js
js-IsReliable = record {
  publish-ok = λ subj b n s. refl;
  ack-ok = λ m s. refl;
  in_progress-ok = λ m s. refl;
}

pub clock-IsClock : IsClock clock (λ s. s.clock)
clock-IsClock = record {
  time_lem = λ s. refl;
  sleep-ok = λ n s. refl;
  instant-sleep = λ n s. omega arith;
}

pub world-IsPrefillWorld :
    IsPrefillWorld js udm api clock.now (λ s. s.published) (λ s. s.acked) (λ s. s.reported)
world-IsPrefillWorld = record {
  journal = js-IsJournal;
  reported-in_progress = λ m s. refl;
  reported-publish = λ subj b n s. refl;
  reported-patch = λ u j s. refl;
  published-patch = λ u j s. refl;
  acked-patch = λ u j s. refl;
  published-get = λ u l s. refl;
  acked-get = λ u l s. refl;
  reported-get = λ u l s. refl;
  published-now = λ s. refl;
  acked-now = λ s. refl;
  reported-now = λ s. refl;
  published-purge = λ n subj s. refl;
  acked-purge = λ n subj s. refl;
  reported-purge = λ n subj s. refl;
}

pub api-IsPatient : IsPatient api clock (λ s. s.tries)
api-IsPatient = record {
  tries-patch = λ u j s. refl;
  sleep-ok = λ n s. refl;
  tries-sleep = λ n s. refl;
}
