-- ===== src/Services/Registry/Simulation.antt =====
-- The subscription service is the map of names that it stands for.
use provisioning_api.Base.{
  String, Bool, true, false, Option, none, some, List, [], ◌∷◌, ◌≡◌, refl, sym, ap, ◌∙◌, arith,
  eq_iff, Bool-cases, inl, inr, ◌==◌, if◌then◌else◌,
}
use provisioning_api.Base.Exec.{ok}
use provisioning_api.Models.Pydantic.{Conversions}
use provisioning_api.Models.Subscription.{
  Bucket, subscriptions, credentials, FillQueueStatus, NewSubscription,
}
use provisioning_api.Nats.{Codec, KeyValue, JetStream, StreamConfig}
use provisioning_api.Adapter.Mq.{stream_config, stream_key}
use provisioning_api.Adapter.Mq.Streams.{Compatible}
use provisioning_api.Nats.Streams.{is_stream_name}
use provisioning_api.Services.Passwords.{PasswordContext}
use provisioning_api.Services.Backend.{Backend}
use provisioning_api.Services.Subscriptions.{stream_subjects}
use provisioning_api.Services.Subscriptions.Read.{stored_info, get_subscription_info_lem}
use provisioning_api.Services.Subscriptions.Register.{
  same_parameters, register_subscription_new, register_subscription_existing,
  stream-register_subscription,
}
use provisioning_api.Services.Subscriptions.Status.{
  get_subscription_found, get_subscription_missing, set_subscription_queue_status_lem,
  set_subscription_queue_status_missing, stored_info-set_subscription_queue_status,
  stream-set_subscription_queue_status,
}
use provisioning_api.Services.Subscriptions.Delete.{
  delete_subscription_lem, delete_subscription_missing, stored_info-delete_subscription,
}
use provisioning_api.Nats.Kv.{at_key}
use provisioning_api.Services.Registry.{
  Request, register, look, report, cancel, Answer, Entry, Registry, set_entry, new_entry,
  with_status, created, finished, serve, serve_register, serve_look, serve_report, serve_cancel,
  serve_all, perform, perform_all,
}

at_key_apart :
    (a : Bucket) (name : String) (b : Bucket) (k : String)
    → (name == k) ≡ false
    → at_key a name b k ≡ false
at_key_apart a name b k apart = ground arith

module _ {S B : Type 0} {codec : Codec B} {kv : KeyValue S B} {js : JetStream S B}
    {pw : PasswordContext S B} {c : Conversions} (E : Backend codec kv js pw c)
    (own plain : String → Bool) where
  -- What the world holds under a name, for an entry of the map. Of the passwords in `plain` the hash
  -- fits the password of the entry and no other.
  abbrev pub Holds : S → String → Option Entry → Type 0
  Holds s name none = stored_info codec c (E.value s subscriptions name) ≡ ok none
  Holds s name (some entry) =
      (stored_info codec c (E.value s subscriptions name) ≡ ok (some entry.subscription))
      × (E.is_pw.known (E.value s credentials name) ≡ true)
      × ((p : String)
          → plain p ≡ true
          → E.valid p (E.value s credentials name) ≡ (p == entry.password))

  abbrev pub own_config : String → StreamConfig
  own_config name = stream_config name true (stream_subjects name)

  -- The world holds the entries of the map, and no stream that a subscriber cannot use stands in
  -- the way of a name: for the names in `own`, those of the subscribers.
  pub record Represents (s : S) (registry : Registry) : Type 0 where
    pub entries : (name : String) → own name ≡ true → Holds s name (registry name)
    pub streams :
        (name : String)
        → own name ≡ true
        → Compatible (E.stream s (stream_key name)) (own_config name)

  -- The requests are about names in `own`, with passwords in `plain`.
  abbrev pub Admitted : Request → Type 0
  Admitted (register new_sub) = (own new_sub.name ≡ true) × (plain new_sub.password ≡ true)
  Admitted (look name) = own name ≡ true
  Admitted (report name status) = own name ≡ true
  Admitted (cancel name) = own name ≡ true

  abbrev pub AllAdmitted : List Request → Type 0
  AllAdmitted [] = Unit
  AllAdmitted (r ∷ rs) = Admitted r × AllAdmitted rs

  -- The names in `own` are ones that a stream may have, and the hash of a password in `plain` fits
  -- that one of them only.
  pub record Admits : Type 0 where
    pub named : (name : String) → own name ≡ true → is_stream_name (stream_key name) ≡ true
    pub exact :
        (p q : String) (s : S)
        → plain p ≡ true
        → plain q ≡ true
        → E.valid q (some (E.hashed p s)) ≡ (q == p)

  Holds-same :
      (s t : S) (name : String) (o : Option Entry)
      → ((b : Bucket) → E.value t b name ≡ E.value s b name)
      → Holds s name o
      → Holds t name o
  Holds-same s t name none e h = rw e h
  Holds-same s t name (some entry) e (h, k, v) = (rw e h, rw e k, λ p i. rw e (v p i))

  Holds-set :
      (t : S) (name : String) (o : Option Entry) (registry : Registry)
      → Holds t name o
      → ((k : String) → (name == k) ≡ false → own k ≡ true → Holds t k (registry k))
      → (k : String) → own k ≡ true
      → Holds t k (set_entry name o registry k)
  Holds-set t name o registry held other k i = elim (Bool-cases (name == k)) [
    | inl same ↦ rw (same, ← (eq_iff name k).0 same) held
    | inr apart ↦ rw apart (other k apart i)
  ]

  Compatible-own :
      (name k : String) (o : Option StreamConfig)
      → Compatible o (own_config k)
      → Compatible
          (if stream_key name == stream_key k then some (own_config name) else o)
          (own_config k)
  unfolding stream_config
  Compatible-own name k o h = elim (Bool-cases (stream_key name == stream_key k)) [
    | inl same ↦ rw same refl
    | inr apart ↦ rw apart h
  ]

  Compatible-none :
      (name k : String) (o : Option StreamConfig)
      → is_stream_name (stream_key k) ≡ true
      → Compatible o (own_config k)
      → Compatible (if stream_key name == stream_key k then none else o) (own_config k)
  unfolding stream_config
  Compatible-none name k o n h = elim (Bool-cases (stream_key name == stream_key k)) [
    | inl same ↦ rw same n
    | inr apart ↦ rw apart h
  ]

  Represents-set :
      (s t : S) (registry : Registry) (name : String) (o : Option Entry)
      → Represents s registry
      → Holds t name o
      → ((b : Bucket) (k : String) → (name == k) ≡ false → E.value t b k ≡ E.value s b k)
      → ((k : String) → own k ≡ true → Compatible (E.stream t (stream_key k)) (own_config k))
      → Represents t (set_entry name o registry)
  Represents-set s t registry name o rep held keeps streams = record {
    entries =
        Holds-set t name o registry held
          (λ k apart i. Holds-same s t k (registry k) (λ b. keeps b k apart) (rep.entries k i));
    streams = streams;
  }

  -- One request, by the entry of its name.
  abbrev Served : S → Answer × Registry → Answer × S → Type 0
  Served s (answer, registry) (given, t) = (given ≡ answer) × Represents t registry

  module _ (A : Admits) (s : S) (registry : Registry) (rep : Represents s registry) where
    serves_register :
        (new_sub : NewSubscription) (o : Option Entry)
        → Admitted (register new_sub)
        → Holds s new_sub.name o
        → Served s
            (serve_register new_sub o registry)
            (perform codec kv c js pw (register new_sub) s)
    unfolding same_parameters
    serves_register new_sub none (mine, simple) held =
        let (answer, reads, hash, _, keeps) =
          register_subscription_new E new_sub s held (rep.streams new_sub.name mine) in
        (
          ap created answer,
          Represents-set s _ registry new_sub.name (some (new_entry new_sub)) rep
              (
                sym (ap (λ x. x.0) (get_subscription_info_lem E new_sub.name _))
                    ∙ ap (λ x. x.0) reads,
                rw hash (E.is_pw.known-hashed new_sub.password s),
                λ p i. rw hash (A.exact new_sub.password p s simple i),
              )
              keeps
              (λ k i.
                rw
                  (stream-register_subscription E new_sub s held (rep.streams new_sub.name mine)
                    (stream_key k))
                  (Compatible-own new_sub.name k _ (rep.streams k i))),
        )
    serves_register new_sub (some entry) (mine, simple) (reads, known, fits) =
        rw
          (
            register_subscription_existing E new_sub s entry.subscription reads known,
            fits new_sub.password simple,
          )
          (refl, rep)

    serves_look :
        (name : String) (o : Option Entry)
        → Holds s name o
        → Served s (serve_look o, registry) (perform codec kv c js pw (look name) s)
    serves_look name none held = rw (get_subscription_missing E name s held) (refl, rep)
    serves_look name (some entry) (reads, _, _) =
        rw (get_subscription_found E name s entry.subscription reads) (refl, rep)

    serves_report :
        (name : String) (status : FillQueueStatus) (o : Option Entry)
        → Holds s name o
        → Served s
            (serve_report name status o registry)
            (perform codec kv c js pw (report name status) s)
    serves_report name status none held =
        rw (set_subscription_queue_status_missing E name s status held) (refl, rep)
    serves_report name status (some entry) (reads, known, fits) =
        let (answer, _, keeps) =
          set_subscription_queue_status_lem E name s entry.subscription status reads in
        (
          ap finished answer,
          Represents-set s _ registry name (some (with_status status entry)) rep
              (
                stored_info-set_subscription_queue_status E name s entry.subscription status reads,
                rw (keeps credentials name refl) known,
                λ p i. rw (keeps credentials name refl) (fits p i),
              )
              (λ b k apart. keeps b k (at_key_apart subscriptions name b k apart))
              (λ k i.
                rw (stream-set_subscription_queue_status E name s entry.subscription status reads)
                  (rep.streams k i)),
        )

    serves_cancel :
        (name : String) (o : Option Entry)
        → own name ≡ true
        → Holds s name o
        → Served s (serve_cancel name o registry) (perform codec kv c js pw (cancel name) s)
    serves_cancel name none mine held = rw (delete_subscription_missing E name s held) (refl, rep)
    serves_cancel name (some entry) mine (reads, known, fits) =
        let (answer, _, _, streams, keeps) =
          delete_subscription_lem E name s entry.subscription reads in
        (
          ap finished answer,
          Represents-set s _ registry name none rep
              (stored_info-delete_subscription E name s entry.subscription reads) keeps
              (λ k i.
                rw (streams (stream_key k))
                  (Compatible-none name k _ (A.named k i) (rep.streams k i))),
        )

    serves : (r : Request) → Admitted r → Served s (serve r registry) (perform codec kv c js pw r s)
    serves (register new_sub) admitted =
        serves_register new_sub _ admitted (rep.entries new_sub.name admitted.0)
    serves (look name) mine = serves_look name _ (rep.entries name mine)
    serves (report name status) mine = serves_report name status _ (rep.entries name mine)
    serves (cancel name) mine = serves_cancel name _ mine (rep.entries name mine)

  -- The service refines the map: over any sequence of requests about the subscribers' names, from a
  -- world that represents a map for these names, the answers are those of the map, and the world
  -- represents the map that is left. The names are ones that a stream may have, other streams may
  -- stand beside theirs, and of the passwords that are used each hash fits its own only.
  pub perform_all_refines :
      Admits
      → (rs : List Request) (s : S) (registry : Registry) → AllAdmitted rs
      → Represents s registry
      → ((perform_all codec kv c js pw rs s).0 ≡ (serve_all rs registry).0)
        × Represents (perform_all codec kv c js pw rs s).1 (serve_all rs registry).1
  perform_all_refines A [] s registry all rep = (refl, rep)
  perform_all_refines A (r ∷ rs) s registry (first, rest) rep =
      let (answer, next) = serves A s registry rep r first in
      let (answers, last) = perform_all_refines A rs _ _ rest next in (rw (answer, answers), last)
