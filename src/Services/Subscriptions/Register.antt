-- ===== src/Services/Subscriptions/Register.antt =====
-- Registering a subscription: a new one, and one that exists.
use provisioning_api.Base.{
  String, Bool, true, false, ◌&&◌, Option, none, some, ◌≡◌, ◌==◌, refl, ◌∙◌, arith, if◌then◌else◌,
  eq_refl,
}
use provisioning_api.Base.Exec.{ok, raised, http_error}
use provisioning_api.Models.Pydantic.{Conversions}
use provisioning_api.Models.Subscription.{
  Bucket, subscriptions, credentials, cache, Subscription, NewSubscription, dump_subscription,
  realms_topics_eq,
}
use provisioning_api.Models.Subscription.Laws.{realms_topics_eq_iff}
use provisioning_api.Nats.{Codec, KeyValue, JetStream}
use provisioning_api.Nats.Kv.{at_key}
use provisioning_api.Adapter.Kv.{text, put_value, value_text, value_truthy}
use provisioning_api.Adapter.Kv.Laws.{get_value_lem, put_value-ok, value-put_value, at_key_refl}
use provisioning_api.Adapter.Mq.{ensure_stream, ensure_consumer, stream_config, stream_key}
use provisioning_api.Adapter.Mq.Streams.{Compatible, ensure_stream_lem, ensure_consumer_lem}
use provisioning_api.Services.Passwords.{PasswordContext}
use provisioning_api.Services.Backend.{Backend}
use provisioning_api.Services.Backend.Keeps.{
  stream-put_value, value-ensure_stream, value-ensure_consumer, stream-ensure_consumer,
}
use provisioning_api.Services.Subscriptions.{
  bool_eq, get_subscription_info, is_subscriptions_matching, register_subscription,
  prepare_and_store_subscription_info, set_sub_info, initial_subscription, stream_subjects,
}
use provisioning_api.Services.Subscriptions.Read.{
  stored_info, get_subscription_info_lem, set_sub_info-ok, value-set_sub_info, stored_info-dump,
}

bool_eq_refl : (b : Bool) → (bool_eq b b && true && true) ≡ true
bool_eq_refl true = refl
bool_eq_refl false = refl

module _ {S B : Type 0} {codec : Codec B} {kv : KeyValue S B} {js : JetStream S B}
    {pw : PasswordContext S B} {c : Conversions} (E : Backend codec kv js pw c)
    (new_sub : NewSubscription) where
  -- The comparison that the registration of an existing name turns on.
  unfoldable pub same_parameters : Subscription → Option B → Bool
  same_parameters old hash =
      bool_eq old.request_prefill new_sub.request_prefill
      && realms_topics_eq new_sub.realms_topics old.realms_topics
      && E.valid new_sub.password hash

  is_subscriptions_matching_lem :
      (old : Subscription) (s : S)
      → E.is_pw.known (E.value s credentials new_sub.name) ≡ true
      → is_subscriptions_matching codec kv c js pw new_sub old s
        ≡ (ok (same_parameters old (E.value s credentials new_sub.name)), s)
  unfolding is_subscriptions_matching same_parameters
  is_subscriptions_matching_lem old s k = ground (
    arith,
    get_value_lem kv E.is_kv new_sub.name credentials s,
    E.is_pw.verify_lem new_sub.password (E.value s credentials new_sub.name) k,
  )

  -- A name that is registered already, with a hash of a known scheme: if the topics, the prefill request and the password are the
  -- same the answer is that nothing was created, else it is error 409; nothing changes either way.
  pub register_subscription_existing :
      (s : S) (old : Subscription)
      → stored_info codec c (E.value s subscriptions new_sub.name) ≡ ok (some old)
      → E.is_pw.known (E.value s credentials new_sub.name) ≡ true
      → register_subscription codec kv c js pw new_sub s ≡ (
        if same_parameters old (E.value s credentials new_sub.name)
            then ok false
            else raised (http_error 409),
        s,
      )
  unfolding register_subscription
  register_subscription_existing s old h k =
      rw (get_subscription_info_lem E, h, is_subscriptions_matching_lem old s k) (ground arith)

  module _ (s : S) where
    -- The world after each step of a new registration.
    after_hash : S
    after_hash = (pw.hash new_sub.password s).1

    after_put : S
    after_put =
        (put_value codec kv new_sub.name (text (E.hashed new_sub.password s)) credentials none
          after_hash).1

    after_info : S
    after_info = (set_sub_info codec kv new_sub.name (initial_subscription new_sub) after_put).1

    after_stream : S
    after_stream = (ensure_stream js new_sub.name true (stream_subjects new_sub.name) after_info).1

    after_consumer : S
    after_consumer = (ensure_consumer js new_sub.name none after_stream).1

    stream-after_info : E.stream after_info ≡ E.stream s
    unfolding after_info after_put after_hash set_sub_info
    stream-after_info =
        rw (stream-put_value E, stream-put_value E, E.keeps_streams.stream-hash) refl

    value-after_consumer :
        (b : Bucket) (k : String)
        → E.value after_consumer b k ≡ (
            if at_key subscriptions new_sub.name b k
            then some (codec.dumps (dump_subscription (initial_subscription new_sub)))
            else if at_key credentials new_sub.name b k
            then some (E.hashed new_sub.password s)
            else E.value s b k)
    unfolding after_consumer after_stream after_info after_put after_hash value_truthy value_text
    value-after_consumer b k =
        rw (value-ensure_consumer E, value-ensure_stream E)
          (simp
            (
              value-set_sub_info E,
              value-put_value codec kv E.is_kv new_sub.name (text (E.hashed new_sub.password s))
                  credentials none _ _ _ refl,
              E.is_pw.is_empty-hashed,
            )
            (rw E.is_pw.value-hash))

    stream-after_consumer_all :
        Compatible
          (E.stream s (stream_key new_sub.name))
          (stream_config new_sub.name true (stream_subjects new_sub.name))
        → (m : String)
        → E.stream after_consumer m ≡ (
            if stream_key new_sub.name == m
            then some (stream_config new_sub.name true (stream_subjects new_sub.name))
            else E.stream s m)
    unfolding after_consumer after_stream
    stream-after_consumer_all compatible m = rw stream-ensure_consumer (
        (ensure_stream_lem js E.is_js new_sub.name true (stream_subjects new_sub.name) after_info
            (rw stream-after_info compatible)).1
          m
        ∙ rw stream-after_info)

    -- The stream of the subscription, with the subjects of live and prefill messages.
    stream-after_consumer :
        Compatible
          (E.stream s (stream_key new_sub.name))
          (stream_config new_sub.name true (stream_subjects new_sub.name))
        → E.stream after_consumer (stream_key new_sub.name)
          ≡ some (stream_config new_sub.name true (stream_subjects new_sub.name))
    stream-after_consumer compatible =
        stream-after_consumer_all compatible (stream_key new_sub.name)
        ∙ rw (eq_refl (stream_key new_sub.name))

    register_subscription_runs :
        stored_info codec c (E.value s subscriptions new_sub.name) ≡ ok none
        → Compatible
            (E.stream s (stream_key new_sub.name))
            (stream_config new_sub.name true (stream_subjects new_sub.name))
        → register_subscription codec kv c js pw new_sub s ≡ (ok true, after_consumer)
    unfolding register_subscription prepare_and_store_subscription_info after_consumer after_stream
        after_info after_put after_hash
    register_subscription_runs h compatible =
        rw (get_subscription_info_lem E, h)
          (ground (
            arith,
            E.is_pw.hash-ok new_sub.password s,
            put_value-ok codec kv E.is_kv new_sub.name (text (E.hashed new_sub.password s))
                credentials none after_hash refl,
            set_sub_info-ok E new_sub.name (initial_subscription new_sub) after_put,
            (ensure_stream_lem js E.is_js new_sub.name true (stream_subjects new_sub.name)
                after_info (rw stream-after_info compatible)).0,
            (ensure_consumer_lem js E.is_js new_sub.name none after_stream).0,
          ))

    stored_info-after_consumer :
        stored_info codec c (E.value after_consumer subscriptions new_sub.name)
        ≡ ok (some (initial_subscription new_sub))
    stored_info-after_consumer =
        rw (value-after_consumer subscriptions new_sub.name, at_key_refl subscriptions new_sub.name)
          (stored_info-dump E (initial_subscription new_sub))

    value-after_consumer_ne :
        (b : Bucket) (k : String)
        → (new_sub.name == k) ≡ false
        → E.value after_consumer b k ≡ E.value s b k
    value-after_consumer_ne subscriptions k other = value-after_consumer subscriptions k ∙ rw other
    value-after_consumer_ne credentials k other = value-after_consumer credentials k ∙ rw other
    value-after_consumer_ne cache k other = value-after_consumer cache k

    hash-after_consumer :
        E.value after_consumer credentials new_sub.name ≡ some (E.hashed new_sub.password s)
    hash-after_consumer =
        rw (value-after_consumer credentials new_sub.name, at_key_refl credentials new_sub.name)

    pub stream-register_subscription :
        stored_info codec c (E.value s subscriptions new_sub.name) ≡ ok none
        → Compatible
            (E.stream s (stream_key new_sub.name))
            (stream_config new_sub.name true (stream_subjects new_sub.name))
        → (m : String)
        → E.stream (register_subscription codec kv c js pw new_sub s).1 m ≡ (
            if stream_key new_sub.name == m
            then some (stream_config new_sub.name true (stream_subjects new_sub.name))
            else E.stream s m)
    stream-register_subscription h compatible m =
        rw (register_subscription_runs h compatible) (stream-after_consumer_all compatible m)

    -- Registering a new name, whose stream, if there is one, is a consumer stream, and else may be
    -- named so, answers that it
    -- was created. The subscription then reads back with the status that the prefill request asks
    -- for, the hash of its password is stored, its stream takes the subjects of live and of prefill
    -- messages, and every key of another name keeps its value.
    pub register_subscription_new :
        stored_info codec c (E.value s subscriptions new_sub.name) ≡ ok none
        → Compatible
            (E.stream s (stream_key new_sub.name))
            (stream_config new_sub.name true (stream_subjects new_sub.name))
        → let r = register_subscription codec kv c js pw new_sub s in
          (r.0 ≡ ok true)
          × (get_subscription_info codec kv c new_sub.name r.1
              ≡ (ok (some (initial_subscription new_sub)), r.1))
          × (E.value r.1 credentials new_sub.name ≡ some (E.hashed new_sub.password s))
          × (E.stream r.1 (stream_key new_sub.name)
              ≡ some (stream_config new_sub.name true (stream_subjects new_sub.name)))
          × ((b : Bucket) (k : String)
              → (new_sub.name == k) ≡ false
              → E.value r.1 b k ≡ E.value s b k)
    register_subscription_new h compatible = rw (register_subscription_runs h compatible) (
      refl,
      rw (get_subscription_info_lem E, stored_info-after_consumer),
      hash-after_consumer,
      stream-after_consumer compatible,
      λ b k other. value-after_consumer_ne b k other,
    )

    pub same_parameters_initial :
        same_parameters (initial_subscription new_sub) (some (E.hashed new_sub.password s)) ≡ true
    unfolding same_parameters initial_subscription
    same_parameters_initial =
        rw
          (
            E.is_pw.valid-hashed,
            (realms_topics_eq_iff new_sub.realms_topics new_sub.realms_topics).1 refl,
          )
          (bool_eq_refl new_sub.request_prefill)

    -- Registering the same subscription once more answers that nothing was created, and changes
    -- nothing.
    pub register_subscription_twice :
        stored_info codec c (E.value s subscriptions new_sub.name) ≡ ok none
        → Compatible
            (E.stream s (stream_key new_sub.name))
            (stream_config new_sub.name true (stream_subjects new_sub.name))
        → let t = (register_subscription codec kv c js pw new_sub s).1 in
          register_subscription codec kv c js pw new_sub t ≡ (ok false, t)
    register_subscription_twice h compatible = rw (register_subscription_runs h compatible) (
        register_subscription_existing after_consumer (initial_subscription new_sub)
          stored_info-after_consumer
          (rw hash-after_consumer (E.is_pw.known-hashed new_sub.password s))
        ∙ rw (hash-after_consumer, same_parameters_initial))
