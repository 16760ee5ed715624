-- ===== src/Nats/Streams.antt =====
-- What is documented of the streams and consumers of a server that can be reached, and that the
-- calls on them leave the key-value buckets alone.
use Prim.Native.Char.{Char, code}
use provisioning_api.Base.{
  String, Bool, true, not, ◌||◌, num_eq, ◌&&◌, Option, none, some, ◌≡◌, ◌==◌, if◌then◌else◌,
}
use provisioning_api.Base.Exec.{Result, ok, raised, not_found}
use provisioning_api.Models.Subscription.{Bucket}
use provisioning_api.Nats.{JetStream, StreamConfig, ConsumerConfig}

abbrev pub present {ℓ} : {A : Type ℓ} → Option A → Result (Unit {0})
present (some a) = ok tt
present none = raised not_found

-- What a stream may be named: no full stop, wildcard, slash or blank, and not nothing.
abbrev is_allowed : Char → Bool
is_allowed ch = not (
    num_eq (code ch) b'.'
    || num_eq (code ch) b'*'
    || num_eq (code ch) b'>'
    || num_eq (code ch) b'/'
    || num_eq (code ch) 92
    || num_eq (code ch) b' '
    || num_eq (code ch) 9
    || num_eq (code ch) 10
    || num_eq (code ch) 13)

unfoldable pub all_allowed : String → Bool
all_allowed String.[] = true
all_allowed (String.◌∷◌ ch rest) = let others = all_allowed rest in is_allowed ch && others

unfoldable pub is_stream_name : String → Bool
unfolding all_allowed
is_stream_name name = not (name == "") && all_allowed name

-- `stream` and `consumer` are the streams by name, and the consumers by stream and durable name.
-- The name of a new stream has to be one, and a stream's retention policy cannot be changed by an update.
pub record IsJetStream {S B : Type 0} (js : JetStream S B)
    (stream : S → String → Option StreamConfig)
    (consumer : S → String → String → Option ConsumerConfig) : Type 0 where
  pub stream_info_lem : (n : String) (s : S) → js.stream_info n s ≡ (present (stream s n), s)
  pub add_stream-ok :
      (c : StreamConfig) (s : S)
      → stream s c.name ≡ none
      → is_stream_name c.name ≡ true
      → (js.add_stream c s).0 ≡ ok tt
  pub stream-add_stream :
      (c : StreamConfig) (s : S) (m : String)
      → stream s c.name ≡ none
      → is_stream_name c.name ≡ true
      → stream (js.add_stream c s).1 m ≡ (if c.name == m then some c else stream s m)
  pub consumer-add_stream : (c : StreamConfig) (s : S) → consumer (js.add_stream c s).1 ≡ consumer s
  pub update_stream-ok :
      (c old : StreamConfig) (s : S)
      → stream s c.name ≡ some old
      → old.retention ≡ c.retention
      → (js.update_stream c s).0 ≡ ok tt
  pub stream-update_stream :
      (c old : StreamConfig) (s : S) (m : String)
      → stream s c.name ≡ some old
      → old.retention ≡ c.retention
      → stream (js.update_stream c s).1 m ≡ (if c.name == m then some c else stream s m)
  pub consumer-update_stream :
      (c : StreamConfig) (s : S) → consumer (js.update_stream c s).1 ≡ consumer s
  pub delete_stream_lem : (n : String) (s : S) → (js.delete_stream n s).0 ≡ present (stream s n)
  pub stream-delete_stream :
      (n : String) (s : S) (m : String)
      → stream (js.delete_stream n s).1 m ≡ (if n == m then none else stream s m)
  pub consumer-delete_stream :
      (n : String) (s : S) (m d : String)
      → consumer (js.delete_stream n s).1 m d ≡ (if n == m then none else consumer s m d)
  pub consumer_info_lem :
      (n d : String) (s : S) → js.consumer_info n d s ≡ (present (consumer s n d), s)
  pub add_consumer-ok :
      (n : String) (c : ConsumerConfig) (s : S)
      → consumer s n c.durable_name ≡ none
      → (js.add_consumer n c s).0 ≡ ok tt
  pub consumer-add_consumer :
      (n : String) (c : ConsumerConfig) (s : S) (m d : String)
      → consumer s n c.durable_name ≡ none
      → consumer (js.add_consumer n c s).1 m d
        ≡ (if n == m && c.durable_name == d then some c else consumer s m d)
  pub stream-add_consumer :
      (n : String) (c : ConsumerConfig) (s : S) → stream (js.add_consumer n c s).1 ≡ stream s
  pub delete_consumer_lem :
      (n d : String) (s : S) → (js.delete_consumer n d s).0 ≡ present (consumer s n d)
  pub consumer-delete_consumer :
      (n d : String) (s : S) (m e : String)
      → consumer (js.delete_consumer n d s).1 m e
        ≡ (if n == m && d == e then none else consumer s m e)
  pub stream-delete_consumer :
      (n d : String) (s : S) → stream (js.delete_consumer n d s).1 ≡ stream s

-- The buckets keep their values.
pub record KeepsValues {S B : Type 0} (js : JetStream S B) (value : S → Bucket → String → Option B)
    : Type 0 where
  pub value-add_stream : (c : StreamConfig) (s : S) → value (js.add_stream c s).1 ≡ value s
  pub value-update_stream : (c : StreamConfig) (s : S) → value (js.update_stream c s).1 ≡ value s
  pub value-delete_stream : (n : String) (s : S) → value (js.delete_stream n s).1 ≡ value s
  pub value-add_consumer :
      (n : String) (c : ConsumerConfig) (s : S) → value (js.add_consumer n c s).1 ≡ value s
  pub value-delete_consumer : (n d : String) (s : S) → value (js.delete_consumer n d s).1 ≡ value s
  pub value-publish :
      (subj : String) (b : B) (n : String) (s : S) → value (js.publish subj b n s).1 ≡ value s
