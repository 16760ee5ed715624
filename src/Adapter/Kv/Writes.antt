-- ===== src/Adapter/Kv/Writes.antt =====
-- Reading a dictionary and storing a value do to the world no more than the single calls do.
use provisioning_api.Base.{ℕ, String, Option, not, some}
use provisioning_api.Base.Exec.{Exn, key_not_found, wrong_last_sequence}
use provisioning_api.Base.Steps.{
  Steps, Steps-pure, Steps-raise, Steps-lift, Steps-bind, Steps-try, Steps-if,
}
use provisioning_api.Models.Subscription.{Bucket}
use provisioning_api.Nats.{Codec, KeyValue}
use provisioning_api.Adapter.Kv.{
  Value, on_key_not_found, on_wrong_last_sequence, get_value_with_revision, get_value,
  get_dict_value, delete_kv_pair, put_value, value_truthy, revision_truthy,
}

module _ {S B : Type 0} (codec : Codec B) (kv : KeyValue S B) {R : S → S → Type 0}
    (here : (s : S) → R s s) (onward : (s t u : S) → R s t → R t u → R s u)
    (opens : (b : Bucket) → Steps R (kv.key_value b)) where
  module _ (gets : (b : Bucket) (k : String) → Steps R (kv.get b k)) where
    Steps-on_key_not_found : (e : Exn) → Steps R (on_key_not_found {S = S} {B = B} e)
    unfolding on_key_not_found
    Steps-on_key_not_found key_not_found = Steps-pure here _
    Steps-on_key_not_found e = Steps-raise here e

    Steps-get_value : (k : String) (b : Bucket) → Steps R (get_value kv k b)
    unfolding get_value get_value_with_revision
    Steps-get_value k b =
        Steps-bind here onward (get_value_with_revision kv k b) _
          (Steps-bind here onward (kv.key_value b) _ (opens b) (λ _.
            Steps-try here onward _ _
              (Steps-bind here onward (kv.get b k) _ (gets b k) (λ r. Steps-pure here (some r)))
              Steps-on_key_not_found))
          (λ r. Steps-pure here _)

    pub Steps-get_dict_value : (k : String) (b : Bucket) → Steps R (get_dict_value codec kv k b)
    unfolding get_dict_value
    Steps-get_dict_value k b =
        Steps-bind here onward (get_value kv k b) _ (Steps-get_value k b) (λ r. Steps-lift here _)

  module _ (puts : (b : Bucket) (k : String) (v : B) → Steps R (kv.put b k v))
      (updates : (b : Bucket) (k : String) (v : B) (n : ℕ) → Steps R (kv.update b k v n))
      (deletes : (b : Bucket) (k : String) → Steps R (kv.delete b k)) where
    Steps-on_wrong_last_sequence : (e : Exn) → Steps R (on_wrong_last_sequence {S = S} e)
    unfolding on_wrong_last_sequence
    Steps-on_wrong_last_sequence wrong_last_sequence = Steps-raise here _
    Steps-on_wrong_last_sequence e = Steps-raise here e

    pub Steps-put_value :
        (k : String) (v : Value B) (b : Bucket) (r : Option ℕ)
        → Steps R (put_value codec kv k v b r)
    unfolding put_value delete_kv_pair
    Steps-put_value k v b r = Steps-bind here onward (kv.key_value b) _ (opens b) (λ _.
        Steps-if (not (value_truthy codec v)) _ _
          (λ _. Steps-bind here onward (kv.key_value b) _ (opens b) (λ _. deletes b k))
          (λ _.
            Steps-if (revision_truthy r) _ _
              (λ _. Steps-try here onward _ _ (updates b k _ _) Steps-on_wrong_last_sequence)
              (λ _. puts b k _)))
