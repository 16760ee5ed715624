-- ===== src/Adapter/Kv.antt =====
-- `NatsKVAdapter` of `src/server/adapters/nats_adapter.py`, and the readers of
-- `src/server/services/port.py` that go through it.
pub mod Laws
pub mod Watch
pub mod Reads
pub mod Writes
use provisioning_api.Base.{
  ℕ, String, Bool, true, false, not, num_eq, Option, none, some, List, [], ◌∷◌, if◌then◌else◌,
}
use provisioning_api.Base.Exec.{
  Exec, Exn, Result, ok, raised, pure, raise, lift, try, ◌>>=◌, ◌>>◌, value_error, key_not_found,
  no_keys, bucket_not_found, wrong_last_sequence, update_conflict,
}
use provisioning_api.Models.Json.{Json, obj, truthy}
use provisioning_api.Models.Pydantic.{Conversions}
use provisioning_api.Models.Subscription.{
  Bucket, subscriptions, Subscription, validate_subscription,
}
use provisioning_api.Nats.{Codec, KeyValue}

-- The argument `value: Union[str, dict, list]` of `put_value`.
pub data Value (B : Type 0) : Type 0 where
  text : B → Value B
  json : Json → Value B

-- `if revision`
abbrev pub revision_truthy : Option ℕ → Bool
revision_truthy none = false
revision_truthy (some r) = not (num_eq r 0)

abbrev pub revision_or_zero : Option ℕ → ℕ
revision_or_zero none = 0
revision_or_zero (some r) = r

module _ {B : Type 0} (codec : Codec B) where
  -- `if not value`
  unfoldable pub value_truthy : Value B → Bool
  value_truthy (text b) = not (codec.is_empty b)
  value_truthy (json j) = truthy j

  -- `value if isinstance(value, str) else json.dumps(value)`
  unfoldable pub value_text : Value B → B
  value_text (text b) = b
  value_text (json j) = codec.dumps j

  unfoldable pub loads_text : B → Result Json
  loads_text b = elim (codec.loads b) [ none ↦ raised value_error | some j ↦ ok j ]

  -- `json.loads(result) if result else None`
  unfoldable pub loads_if : Option B → Result (Option Json)
  unfolding loads_text
  loads_if none = ok none
  loads_if (some b) =
      if codec.is_empty b
      then ok none
      else elim (loads_text b) [ ok j ↦ ok (some j) | raised e ↦ raised e ]

first {ℓ} : {B : Type ℓ} → Option (B × ℕ) → Option B
first (some (v, r)) = some v
first none = none

-- The `except` clauses; what they do not name is raised again.
module _ {S : Type 0} where
  on_key_not_found : {B : Type 0} → Exn → Exec S (Option (B × ℕ))
  on_key_not_found key_not_found = pure none
  on_key_not_found e = raise e

  on_wrong_last_sequence : Exn → Exec S (Unit {0})
  on_wrong_last_sequence wrong_last_sequence = raise update_conflict
  on_wrong_last_sequence e = raise e

  on_no_keys : Exn → Exec S (List String)
  on_no_keys no_keys = pure []
  on_no_keys e = raise e

module _ {S B : Type 0} (kv : KeyValue S B) where
  on_bucket_not_found : Bucket → Exn → Exec S (Unit {0})
  on_bucket_not_found bucket bucket_not_found = kv.create_key_value bucket
  on_bucket_not_found bucket e = raise e

  unfoldable pub create_kv_store : Bucket → Exec S (Unit {0})
  unfolding on_bucket_not_found
  create_kv_store bucket = try (kv.key_value bucket) (on_bucket_not_found bucket)

  unfoldable pub delete_kv_pair : String → Bucket → Exec S (Unit {0})
  delete_kv_pair key bucket = do kv.key_value bucket; kv.delete bucket key

  unfoldable pub get_value_with_revision : String → Bucket → Exec S (Option (B × ℕ))
  unfolding on_key_not_found
  get_value_with_revision key bucket = do
    kv.key_value bucket
    try (do result ← kv.get bucket key; pure (some result)) on_key_not_found

  unfoldable pub get_value : String → Bucket → Exec S (Option B)
  unfolding get_value_with_revision first
  get_value key bucket = do result ← get_value_with_revision key bucket; pure (first result)

  unfoldable pub get_keys : Bucket → Exec S (List String)
  unfolding on_no_keys
  get_keys bucket = do kv.key_value bucket; try (kv.keys bucket) on_no_keys

module _ {S B : Type 0} (codec : Codec B) (kv : KeyValue S B) where
  unfoldable pub put_value : String → Value B → Bucket → Option ℕ → Exec S (Unit {0})
  unfolding value_truthy value_text delete_kv_pair on_wrong_last_sequence
  put_value key value bucket revision = do
    kv.key_value bucket
    if not (value_truthy codec value)
        then delete_kv_pair kv key bucket
        else if revision_truthy revision
        then try (kv.update bucket key (value_text codec value) (revision_or_zero revision))
            on_wrong_last_sequence
        else kv.put bucket key (value_text codec value)

  -- `Port.get_dict_value`
  unfoldable pub get_dict_value : String → Bucket → Exec S (Option Json)
  unfolding get_value loads_if loads_text
  get_dict_value name bucket = do result ← get_value kv name bucket; lift (loads_if codec result)

  module _ (c : Conversions) where
    -- The body of the loop of `get_all_subscriptions`; the generator is taken as the list of
    -- what it yields.
    load_subscription : String → Exec S Subscription
    unfolding loads_text
    load_subscription key = do
      entry ← kv.get subscriptions key
      content ← lift (loads_text codec entry.0)
      lift (validate_subscription c content)

    load_subscriptions : List String → Exec S (List Subscription)
    load_subscriptions [] = pure []
    load_subscriptions (key ∷ keys) = do
      sub ← load_subscription key
      subs ← load_subscriptions keys
      pure (sub ∷ subs)

    unfoldable pub get_all_subscriptions : Exec S (List Subscription)
    unfolding load_subscriptions load_subscription get_keys
    get_all_subscriptions = do
      kv.key_value subscriptions
      keys ← get_keys kv subscriptions
      load_subscriptions keys
