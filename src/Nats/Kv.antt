-- ===== src/Nats/Kv.antt =====
-- What is documented of the key-value store of a server that can be reached: each key of each
-- bucket has at most one value, with a revision, and a call changes no other key.
use provisioning_api.Base.{
  ℕ, String, Bool, true, false, ◌&&◌, Option, none, some, ◌≡◌, ◌==◌, num_eq, if◌then◌else◌,
}
use provisioning_api.Base.Exec.{Result, ok, raised, key_not_found, wrong_last_sequence}
use provisioning_api.Models.Json.{Json}
use provisioning_api.Models.Subscription.{Bucket, subscriptions, credentials, cache}
use provisioning_api.Nats.{Codec, KeyValue}

abbrev pub same_bucket : Bucket → Bucket → Bool
same_bucket subscriptions subscriptions = true
same_bucket credentials credentials = true
same_bucket cache cache = true
same_bucket _ _ = false

abbrev pub at_key : Bucket → String → Bucket → String → Bool
at_key b k c j = same_bucket b c && k == j

abbrev pub found {ℓ} : {B : Type ℓ} → Option B → ℕ → Result (B × ℕ)
found (some v) r = ok (v, r)
found none r = raised key_not_found

-- A text that was made from a value is not empty, and is read back as that value.
pub record IsCodec {B : Type 0} (codec : Codec B) : Type 0 where
  pub loads-dumps : (j : Json) → codec.loads (codec.dumps j) ≡ some j
  pub is_empty-dumps : (j : Json) → codec.is_empty (codec.dumps j) ≡ false

-- `value` and `revision` are what the buckets hold.
pub record IsKeyValue {S B : Type 0} (kv : KeyValue S B) (value : S → Bucket → String → Option B)
    (revision : S → Bucket → String → ℕ) : Type 0 where
  pub key_value_lem : (b : Bucket) (s : S) → kv.key_value b s ≡ (ok tt, s)
  pub get_lem :
      (b : Bucket) (k : String) (s : S) → kv.get b k s ≡ (found (value s b k) (revision s b k), s)
  pub put-ok : (b : Bucket) (k : String) (v : B) (s : S) → (kv.put b k v s).0 ≡ ok tt
  pub value-put :
      (b : Bucket) (k : String) (v : B) (s : S) (c : Bucket) (j : String)
      → value (kv.put b k v s).1 c j ≡ (if at_key b k c j then some v else value s c j)
  pub update_lem :
      (b : Bucket) (k : String) (v : B) (r : ℕ) (s : S)
      → (kv.update b k v r s).0
        ≡ (if num_eq r (revision s b k) then ok tt else raised wrong_last_sequence)
  pub value-update :
      (b : Bucket) (k : String) (v : B) (r : ℕ) (s : S) (c : Bucket) (j : String)
      → value (kv.update b k v r s).1 c j
        ≡ (if num_eq r (revision s b k) && at_key b k c j then some v else value s c j)
  pub delete-ok : (b : Bucket) (k : String) (s : S) → (kv.delete b k s).0 ≡ ok tt
  pub value-delete :
      (b : Bucket) (k : String) (s : S) (c : Bucket) (j : String)
      → value (kv.delete b k s).1 c j ≡ (if at_key b k c j then none else value s c j)
