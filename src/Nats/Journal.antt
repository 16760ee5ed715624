-- ===== src/Nats/Journal.antt =====
-- What is documented of publishing and acknowledging, of a server that may fail at any call: the
-- publications and the acknowledgements that took place, in order.
use provisioning_api.Base.{String, Bool, List, [], ◌∷◌, ◌++◌, ◌≡◌, if◌then◌else◌}
use provisioning_api.Base.Exec.{is_ok, ok}
use provisioning_api.Models.Subscription.{Bucket}
use provisioning_api.Nats.{KeyValue, JetStream, StreamConfig, ConsumerConfig, Msg}

pub record Publication (B : Type 0) : Type 0 where
  pub subject : String
  pub content : B
  pub stream : String

abbrev pub if_ok {ℓ} : {A : Type ℓ} → Bool → A → List A
if_ok succeeded a = if succeeded then a ∷ [] else []

pub record IsJournal {S B : Type 0} (js : JetStream S B) (published : S → List (Publication B))
    (acked : S → List (Msg B)) : Type 0 where
  pub published-publish :
      (subj : String) (b : B) (n : String) (s : S)
      → published (js.publish subj b n s).1
        ≡ published s
          ++ if_ok
              (is_ok (js.publish subj b n s).0)
              (record { subject = subj; content = b; stream = n })
  pub acked-publish :
      (subj : String) (b : B) (n : String) (s : S) → acked (js.publish subj b n s).1 ≡ acked s
  pub published-ack : (m : Msg B) (s : S) → published (js.ack m s).1 ≡ published s
  pub acked-ack :
      (m : Msg B) (s : S) → acked (js.ack m s).1 ≡ acked s ++ if_ok (is_ok (js.ack m s).0) m
  pub published-in_progress : (m : Msg B) (s : S) → published (js.in_progress m s).1 ≡ published s
  pub acked-in_progress : (m : Msg B) (s : S) → acked (js.in_progress m s).1 ≡ acked s

-- The calls that read the buckets acknowledge nothing.
pub record KeepsAcked {S B : Type 0} (kv : KeyValue S B) (acked : S → List (Msg B)) : Type 0 where
  pub acked-key_value : (b : Bucket) (s : S) → acked (kv.key_value b s).1 ≡ acked s
  pub acked-watchall : (b : Bucket) (s : S) → acked (kv.watchall b s).1 ≡ acked s
  pub acked-keys : (b : Bucket) (s : S) → acked (kv.keys b s).1 ≡ acked s
  pub acked-get : (b : Bucket) (k : String) (s : S) → acked (kv.get b k s).1 ≡ acked s

-- The calls that set up streams and consumers acknowledge nothing.
pub record SetsUp {S B : Type 0} (js : JetStream S B) (acked : S → List (Msg B)) : Type 0 where
  pub acked-stream_info : (n : String) (s : S) → acked (js.stream_info n s).1 ≡ acked s
  pub acked-add_stream : (c : StreamConfig) (s : S) → acked (js.add_stream c s).1 ≡ acked s
  pub acked-update_stream : (c : StreamConfig) (s : S) → acked (js.update_stream c s).1 ≡ acked s
  pub acked-consumer_info : (n d : String) (s : S) → acked (js.consumer_info n d s).1 ≡ acked s
  pub acked-add_consumer :
      (n : String) (c : ConsumerConfig) (s : S) → acked (js.add_consumer n c s).1 ≡ acked s
  pub acked-subscribe : (subj d n : String) (s : S) → acked (js.subscribe subj d n s).1 ≡ acked s

-- A server that can be reached, and takes every message and every acknowledgement.
pub record IsReliable {S B : Type 0} (js : JetStream S B) : Type 0 where
  pub publish-ok : (subj : String) (b : B) (n : String) (s : S) → (js.publish subj b n s).0 ≡ ok tt
  pub ack-ok : (m : Msg B) (s : S) → (js.ack m s).0 ≡ ok tt
  pub in_progress-ok : (m : Msg B) (s : S) → (js.in_progress m s).0 ≡ ok tt
