-- ===== src/Adapter/Kv/Laws.antt =====
-- The key-value adapter over a server that can be reached.
use provisioning_api.Base.{
  ℕ, String, true, false, ◌&&◌, num_eq, Option, none, some, ◌≡◌, ap, eq_refl, arith, if◌then◌else◌,
  Bool-cases, inl, inr,
}
use provisioning_api.Base.Exec.{ok, raised, update_conflict}
use provisioning_api.Models.Json.{Json, truthy}
use provisioning_api.Models.Subscription.{Bucket, subscriptions, credentials, cache}
use provisioning_api.Nats.{Codec, KeyValue}
use provisioning_api.Nats.Kv.{IsCodec, IsKeyValue, at_key}
use provisioning_api.Adapter.Kv.{
  Value, json, put_value, get_value, get_value_with_revision, get_dict_value, delete_kv_pair,
  value_truthy, value_text, on_key_not_found, first, loads_if, loads_text, revision_truthy,
}

pub at_key_refl : (b : Bucket) (k : String) → at_key b k b k ≡ true
at_key_refl subscriptions k = eq_refl k
at_key_refl credentials k = eq_refl k
at_key_refl cache k = eq_refl k

-- The text of a value is read back as the value.
pub loads_if-dumps :
    {B : Type 0} {codec : Codec B}
    → IsCodec codec
    → (j : Json) → loads_if codec (some (codec.dumps j)) ≡ ok (some j)
unfolding loads_if loads_text
loads_if-dumps {codec} C j = ground (arith, C.is_empty-dumps j, C.loads-dumps j)

module _ {S B : Type 0} (kv : KeyValue S B) {value : S → Bucket → String → Option B}
    {revision : S → Bucket → String → ℕ} (K : IsKeyValue kv value revision) where
  -- `get_value` returns what the bucket holds, and changes nothing.
  pub get_value_lem : (k : String) (b : Bucket) (s : S) → get_value kv k b s ≡ (ok (value s b k), s)
  unfolding get_value
  get_value_lem k b s = simp (K.key_value_lem, K.get_lem) (ground arith)

  pub delete_kv_pair-ok : (k : String) (b : Bucket) (s : S) → (delete_kv_pair kv k b s).0 ≡ ok tt
  unfolding delete_kv_pair
  delete_kv_pair-ok k b s = simp (K.key_value_lem, K.delete-ok)

  pub value-delete_kv_pair :
      (k : String) (b : Bucket) (s : S) (c : Bucket) (j : String)
      → value (delete_kv_pair kv k b s).1 c j ≡ (if at_key b k c j then none else value s c j)
  unfolding delete_kv_pair
  value-delete_kv_pair k b s c j = simp (K.key_value_lem, K.value-delete)

module _ {S B : Type 0} (codec : Codec B) (kv : KeyValue S B)
    {value : S → Bucket → String → Option B} {revision : S → Bucket → String → ℕ}
    (K : IsKeyValue kv value revision) where
  -- Storing without a revision, or with revision 0, always succeeds.
  pub put_value-ok :
      (k : String) (v : Value B) (b : Bucket) (r : Option ℕ) (s : S)
      → revision_truthy r ≡ false
      → (put_value codec kv k v b r s).0 ≡ ok tt
  unfolding put_value
  put_value-ok k v b r s h = elim (Bool-cases (value_truthy codec v)) [
    | inl e ↦ simp (K.key_value_lem, e, h, K.put-ok)
    | inr e ↦ simp (K.key_value_lem, e, K.delete-ok)
  ]

  pub value-put_value :
      (k : String) (v : Value B) (b : Bucket) (r : Option ℕ) (s : S) (c : Bucket) (j : String)
      → revision_truthy r ≡ false
      → value (put_value codec kv k v b r s).1 c j ≡ (
          if at_key b k c j
          then (if value_truthy codec v then some (value_text codec v) else none)
          else value s c j)
  unfolding put_value
  value-put_value k v b r s c j h = elim (Bool-cases (value_truthy codec v)) [
    | inl e ↦ simp (K.key_value_lem, e, h, K.value-put)
    | inr e ↦ simp (K.key_value_lem, e, K.value-delete)
  ]

  -- A key reads back as what was stored at it, an empty value as no value, and every other key of
  -- every bucket reads as before; storing without a revision, or with revision 0, succeeds.
  pub get_value-put_value :
      (k : String) (v : Value B) (b : Bucket) (r : Option ℕ) (s : S) (c : Bucket) (j : String)
      → revision_truthy r ≡ false
      → ((put_value codec kv k v b r s).0 ≡ ok tt)
        × ((get_value kv j c (put_value codec kv k v b r s).1).0
            ≡ ok (
                if at_key b k c j
                then (if value_truthy codec v then some (value_text codec v) else none)
                else value s c j))
  get_value-put_value k v b r s c j h = (
    put_value-ok k v b r s h,
    rw (get_value_lem kv K j c) (ap ok (value-put_value k v b r s c j h)),
  )

  -- Storing a value that is not empty with a revision other than 0 succeeds exactly where it is the
  -- key's revision. Else it raises `UpdateConflict`, and every key keeps its value.
  pub put_value_revision :
      (k : String) (v : Value B) (b : Bucket) (r : ℕ) (s : S) (c : Bucket) (j : String)
      → value_truthy codec v ≡ true
      → num_eq r 0 ≡ false
      → ((put_value codec kv k v b (some r) s).0
          ≡ (if num_eq r (revision s b k) then ok tt else raised update_conflict))
        × (value (put_value codec kv k v b (some r) s).1 c j ≡ (
            if num_eq r (revision s b k) && at_key b k c j
            then some (value_text codec v)
            else value s c j))
  unfolding put_value
  put_value_revision k v b r s c j t z = elim (Bool-cases (num_eq r (revision s b k))) [
    | inl e ↦ (
      simp (K.key_value_lem, t, z, K.update_lem, e),
      simp (K.key_value_lem, t, z, K.update_lem, e, K.value-update),
    )
    | inr e ↦ (
      simp (K.key_value_lem, t, z, K.update_lem, e),
      simp (K.key_value_lem, t, z, K.update_lem, e, K.value-update),
    )
  ]

  pub get_dict_value_lem :
      (k : String) (b : Bucket) (s : S)
      → get_dict_value codec kv k b s ≡ (loads_if codec (value s b k), s)
  unfolding get_dict_value get_value_with_revision on_key_not_found first
  get_dict_value_lem k b s = rw (get_value_lem kv K k b s)

  -- A dictionary that is not empty is read back as it was stored.
  pub get_dict_value-put_value :
      IsCodec codec
      → (k : String) (j : Json) (b : Bucket) (s : S) → truthy j ≡ true
      → get_dict_value codec kv k b (put_value codec kv k (json j) b none s).1
        ≡ (ok (some j), (put_value codec kv k (json j) b none s).1)
  unfolding value_truthy value_text
  get_dict_value-put_value C k j b s h =
      rw get_dict_value_lem (simp (value-put_value, at_key_refl, h, loads_if-dumps C))
