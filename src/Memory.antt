-- ===== src/Memory.antt =====
-- A server and libraries in memory: they meet what the theorems assume of the real ones, and the
-- examples run on them. The buckets, streams and consumers are functions of their names.
pub mod Laws
use provisioning_api.Base.{
  ℕ, zero, suc, ◌+◌, String, Bool, true, false, ◌&&◌, Option, none, some, List, [], ◌∷◌, ◌++◌, ◌==◌,
  num_eq, if◌then◌else◌,
}
use provisioning_api.Base.Exec.{
  Exec, Result, ok, raised, pure, key_not_found, wrong_last_sequence, not_found, timed_out,
  client_error,
}
use provisioning_api.Models.Json.{Json, num, str, arr, obj, no_items, item, no_fields, field}
use provisioning_api.Adapter.Rest.{Http}
use provisioning_api.Transformer.{UdmModules}
use provisioning_api.Models.Json
use provisioning_api.Models.Pydantic.{Conversions}
use provisioning_api.Models.Subscription.{Bucket}
use provisioning_api.Nats.{Codec, KeyValue, JetStream, Client, StreamConfig, ConsumerConfig, Msg}
use provisioning_api.Nats.Kv.{at_key, found}
use provisioning_api.Nats.Streams.{present}
use provisioning_api.Nats.Journal.{Publication}
use provisioning_api.Services.Messages.{Clock}
use provisioning_api.Services.Passwords.{PasswordContext, CacheKey, TtlCache}

pub data Blob : Type 0 where
  raw : String → Blob
  dumped : Json → Blob
  packed : Json → Blob

abbrev pub blob_loads : Blob → Option Json
blob_loads (dumped j) = some j
blob_loads _ = none

abbrev pub blob_unpack : Blob → Option Json
blob_unpack (packed j) = some j
blob_unpack _ = none

abbrev pub blob_empty : Blob → Bool
blob_empty (raw t) = t == ""
blob_empty _ = false

abbrev pub codec : Codec Blob
codec = record {
  dumps = dumped;
  loads = blob_loads;
  pack = packed;
  unpack = blob_unpack;
  is_empty = blob_empty;
}

abbrev pub json_bool : Json → Option Bool
json_bool (Json.bool b) = some b
json_bool _ = none

abbrev pub json_text : Json → Option String
json_text (Json.str t) = some t
json_text _ = none

-- Of the numerals the examples use these two.
abbrev pub small_int : String → Option ℕ
small_int t = if t == "17" then some 17 else if t == "18" then some 18 else none

abbrev pub conversions : Conversions
conversions = record { as_bool = json_bool; as_datetime = json_text; as_int = small_int }

pub record World : Type 0 where
  pub value : Bucket → String → Option Blob
  pub revision : Bucket → String → ℕ
  pub names : List String
  pub stream : String → Option StreamConfig
  pub consumer : String → String → Option ConsumerConfig
  pub published : List (Publication Blob)
  pub acked : List (Msg Blob)
  pub inbox : List (Msg Blob)
  pub cell : Option (CacheKey Blob × (Bool × Option Blob))
  pub clock : ℕ
  pub reported : List (String × Json)
  pub tries : ℕ

abbrev pub blank : World
blank = record {
  value = λ b k. none;
  revision = λ b k. 0;
  names = [];
  stream = λ n. none;
  consumer = λ n d. none;
  published = [];
  acked = [];
  inbox = [];
  cell = none;
  clock = 0;
  reported = [];
  tries = 0;
}

abbrev pub set_value : Bucket → String → Option Blob → World → World
set_value b k o s = record s {
  value = λ c j. if at_key b k c j then o else s.value c j;
  revision = λ c j. if at_key b k c j then s.revision c j + 1 else s.revision c j;
}

abbrev pub set_stream : String → Option StreamConfig → World → World
set_stream n o s = record s { stream = λ m. if n == m then o else s.stream m }

abbrev pub set_consumer : String → String → Option ConsumerConfig → World → World
set_consumer n d o s = record s { consumer = λ m e. if n == m && d == e then o else s.consumer m e }

abbrev pub update_at : Bucket → String → Blob → ℕ → Exec World (Unit {0})
update_at b k v r s = (
  if num_eq r (s.revision b k) then ok tt else raised wrong_last_sequence,
  if num_eq r (s.revision b k) then set_value b k (some v) s else s,
)

abbrev pub kv : KeyValue World Blob
kv = record {
  key_value = λ b s. (ok tt, s);
  create_key_value = λ b s. (ok tt, s);
  get = λ b k s. (found (s.value b k) (s.revision b k), s);
  put = λ b k v s. (ok tt, record (set_value b k (some v) s) { names = k ∷ s.names });
  update = update_at;
  delete = λ b k s. (ok tt, set_value b k none s);
  keys = λ b s. (ok s.names, s);
  watchall = λ b s. (ok tt, s);
}

abbrev pub take_first : List (Msg Blob) → Result (List (Msg Blob))
take_first [] = raised timed_out
take_first (m ∷ ms) = ok (m ∷ [])

abbrev pub js : JetStream World Blob
js = record {
  stream_info = λ n s. (present (s.stream n), s);
  add_stream = λ cfg s. (ok tt, set_stream cfg.name (some cfg) s);
  update_stream = λ cfg s. (ok tt, set_stream cfg.name (some cfg) s);
  delete_stream = λ n s. (
    present (s.stream n),
    record (set_stream n none s) { consumer = λ m e. if n == m then none else s.consumer m e },
  );
  consumer_info = λ n d s. (present (s.consumer n d), s);
  add_consumer = λ n cfg s. (ok tt, set_consumer n cfg.durable_name (some cfg) s);
  delete_consumer = λ n d s. (present (s.consumer n d), set_consumer n d none s);
  publish = λ subj b n s. (
    ok tt,
    record s {
      published = s.published ++ (record { subject = subj; content = b; stream = n } ∷ []);
    },
  );
  pull_subscribe = λ subj d n s. (ok tt, s);
  subscribe = λ subj d n s. (ok tt, s);
  fetch = λ n d subj t s. (take_first s.inbox, s);
  ack = λ m s. (ok tt, record s { acked = s.acked ++ (m ∷ []) });
  nak = λ m s. (ok tt, s);
  in_progress = λ m s. (ok tt, s);
  get_msg = λ n i s. (ok tt, s);
  delete_msg = λ n i s. (ok tt, s);
  purge_stream = λ n subj s. (ok tt, s);
}

-- The hash of a password is the password behind a mark, so that it is never empty.
abbrev pub hash_of : String → Blob
hash_of p = packed (Json.str p)

abbrev pub fits : String → Option Blob → Bool
fits p (some (packed (Json.str t))) = p == t
fits p _ = false

abbrev pub passwords : PasswordContext World Blob
passwords = record {
  hash = λ p s. (ok (hash_of p), s);
  verify = λ p h. ok (fits p h);
  verify_and_update = λ p h s. (ok (fits p h, none), s);
}

-- A cache of one entry; a key with a hash that is not of the above is never found.
abbrev pub hash_eq : Option Blob → Option Blob → Bool
hash_eq none none = true
hash_eq (some (packed (Json.str t))) (some (packed (Json.str u))) = t == u
hash_eq _ _ = false

abbrev pub name_eq : Option String → Option String → Bool
name_eq none none = true
name_eq (some t) (some u) = t == u
name_eq _ _ = false

abbrev pub key_eq : CacheKey Blob → CacheKey Blob → Bool
key_eq j k =
    j.cleartext_pw == k.cleartext_pw
    && hash_eq j.hashed_pw k.hashed_pw
    && name_eq j.subscription_name k.subscription_name

abbrev pub cell_at :
    Option (CacheKey Blob × (Bool × Option Blob)) → CacheKey Blob → Option (Bool × Option Blob)
cell_at none j = none
cell_at (some (k, v)) j = if key_eq j k then some v else none

abbrev pub cache : TtlCache World Blob
cache = record {
  cached = λ k s. (ok (cell_at s.cell k), s);
  store = λ k v s. (ok tt, record s { cell = some (k, v) });
  pop = λ k s. (ok tt, record s { cell = none });
}

abbrev pub clock : Clock World
clock = record {
  time = λ s. (ok s.clock, s);
  sleep = λ n s. (ok tt, record s { clock = s.clock + n });
  now = λ s. (ok "2025-01-01T00:00:00", s);
}

-- A UDM with one user, and an internal API that takes all reports.
abbrev pub udm_answer : String → Json
udm_answer url =
    if url == "udm/"
    then obj (
        field "_links"
          (obj (
            field "udm:object-types"
              (arr (item (obj (field "name" (str "users/user") no_fields)) no_items)) no_fields))
          no_fields)
    else if url == "udm/users/user/"
    then obj (
        field "results" (num 1) (
          field "_embedded"
            (obj (
              field "udm:object"
                (arr (item (obj (field "uri" (str "udm/uid=a") no_fields)) no_items)) no_fields))
            no_fields))
    else obj (field "_links" (obj no_fields) (field "dn" (str "uid=a") no_fields))

abbrev pub udm : Http World
udm = record {
  get = λ u l s. (ok (udm_answer u), s);
  patch = λ u j s. (ok tt, s);
  post = λ u j s. (ok tt, s);
  delete = λ u s. (ok tt, s);
}

abbrev pub api : Http World
api = record {
  get = λ u l s. (raised client_error, s);
  patch =
      λ u j s. (ok tt, record s { reported = s.reported ++ ((u, j) ∷ []); tries = suc s.tries });
  post = λ u j s. (ok tt, record s { reported = s.reported ++ ((u, j) ∷ []) });
  delete = λ u s. (ok tt, s);
}

abbrev pub equal_topics : String → String → Result Bool
equal_topics pattern name = ok (pattern == name)

-- A UDM with a module for every type, which fails to represent any entry.
abbrev pub failing_modules : UdmModules World
failing_modules = record {
  get_module = λ t s. (ok tt, s);
  representation = λ t dn entry s. (raised client_error, s);
  reload = λ s. (ok tt, s);
}
