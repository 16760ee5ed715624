-- ===== src/Transformer/Loop.antt =====
-- The loop of `transform_events`, round after round.
use mathlib.Core.List.{append-nil}
use provisioning_api.Base.{arith, ℕ, String, Bool, none, some, List, [], ◌∷◌, ◌++◌, ◌≡◌, refl, ◌∙◌}
use provisioning_api.Base.Exec.{Exec, Exn, Result, ok, raised, handle, raise, is_ok, ◌>>=◌, ◌>>◌}
use provisioning_api.Base.Outcome.{bind_ok}
use provisioning_api.Base.Steps.{Steps}
use provisioning_api.Models.Json.{Json, Fields}
use provisioning_api.Models.Pydantic.{Conversions}
use provisioning_api.Models.Subscription.{Bucket, cache}
use provisioning_api.Models.Queue.{PublisherName, Message, MqMessage, validate_message}
use provisioning_api.Nats.{Codec, KeyValue, JetStream, Msg}
use provisioning_api.Nats.Journal.{if_ok}
use provisioning_api.Adapter.Kv.Writes.{Steps-get_dict_value, Steps-put_value}
use provisioning_api.Adapter.Mq.{get_one_message}
use provisioning_api.Adapter.Mq.Taking.{get_one_message_world}
use provisioning_api.Adapter.Mq.Rounds.{arrived, coming, acked-rounds}
use provisioning_api.Adapter.Rest.{Http}
use provisioning_api.AckManager.Interleaved.{
  at_once, awaited, interleaved_js, interleaved_kv, interleaved_http, view-awaited, adds-awaited,
  process_interleaved_message, process_interleaved_message-world,
}
use provisioning_api.Transformer.{
  UdmModules, unawaited, interleaved_handler, handle_changes, handle_message, on_empty,
  transform_message, transform_event, serve_changes,
}
use provisioning_api.Transformer.Trace.{Steps-handle_changes}

-- The messages that were acknowledged, in order: only acknowledging adds to them.
pub record Acknowledges {S B : Type 0} (kv : KeyValue S B) (js : JetStream S B)
    (modules : UdmModules S) (api : Http S) (now : Exec S String) (acked : S → List (Msg B))
    : Type 0 where
  pub acked-ack :
      (m : Msg B) (s : S) → acked (js.ack m s).1 ≡ acked s ++ if_ok (is_ok (js.ack m s).0) m
  pub acked-in_progress : (m : Msg B) (s : S) → acked (js.in_progress m s).1 ≡ acked s
  pub acked-fetch : (n d subj : String) (t : ℕ) (s : S) → acked (js.fetch n d subj t s).1 ≡ acked s
  pub acked-key_value : (b : Bucket) (s : S) → acked (kv.key_value b s).1 ≡ acked s
  pub acked-get : (b : Bucket) (k : String) (s : S) → acked (kv.get b k s).1 ≡ acked s
  pub acked-put : (b : Bucket) (k : String) (v : B) (s : S) → acked (kv.put b k v s).1 ≡ acked s
  pub acked-update :
      (b : Bucket) (k : String) (v : B) (n : ℕ) (s : S) → acked (kv.update b k v n s).1 ≡ acked s
  pub acked-delete : (b : Bucket) (k : String) (s : S) → acked (kv.delete b k s).1 ≡ acked s
  pub acked-get_module : (t : String) (s : S) → acked (modules.get_module t s).1 ≡ acked s
  pub acked-representation :
      (t dn : String) (entry : Fields) (s : S)
      → acked (modules.representation t dn entry s).1 ≡ acked s
  pub acked-reload : (s : S) → acked (modules.reload s).1 ≡ acked s
  pub acked-post : (u : String) (j : Json) (s : S) → acked (api.post u j s).1 ≡ acked s
  pub acked-now : (s : S) → acked (now s).1 ≡ acked s

module _ {S B : Type 0} (codec : Codec B) (kv : KeyValue S B) (js : JetStream S B) (c : Conversions)
    (modules : UdmModules S) (api : Http S) (api_url : String) (now : Exec S String)
    (ldap_publisher_name : PublisherName) {acked : S → List (Msg B)}
    (W : Acknowledges kv js modules api now acked) where
  abbrev Quiet : S → S → Type 0
  Quiet s t = acked t ≡ acked s

  still : (s : S) → Quiet s s
  still s = refl

  onward : (s t u : S) → Quiet s t → Quiet t u → Quiet s u
  onward s t u e f = f ∙ e

  opens : (b : Bucket) → Steps Quiet (kv.key_value b)
  opens b = record { at = W.acked-key_value b }

  acked-handle_changes :
      (new_obj old_obj : Fields) (s : S)
      → acked
          (handle_changes codec kv js c modules api api_url now ldap_publisher_name new_obj old_obj
            s).1
        ≡ acked s
  acked-handle_changes new_obj old_obj =
      (Steps-handle_changes codec kv js c modules api api_url now ldap_publisher_name still onward
        (λ k.
          Steps-get_dict_value codec kv still onward opens (λ b k. record { at = W.acked-get b k })
            k cache)
        (λ uuid new.
          Steps-put_value codec kv still onward opens (λ b k v. record { at = W.acked-put b k v })
            (λ b k v n. record { at = W.acked-update b k v n })
            (λ b k. record { at = W.acked-delete b k }) uuid _ cache none)
        (λ t. record { at = W.acked-get_module t })
        (λ t dn entry. record { at = W.acked-representation t dn entry })
        (record { at = W.acked-reload }) (λ u j. record { at = W.acked-post u j })
        (record { at = W.acked-now }) new_obj old_obj).at

-- Among the extensions of an acknowledgement only acknowledging adds to them, too.
module _ {S B : Type 0} {kv : KeyValue S B} {js : JetStream S B} {modules : UdmModules S}
    {api : Http S} {now : Exec S String} {acked : S → List (Msg B)}
    (W : Acknowledges kv js modules api now acked) (msg : Msg B) where
  abbrev extend : Exec S (Unit {0})
  extend = js.in_progress msg

  abbrev kept :
      {A : Type 0} (m : Exec S A)
      → ((t : S) → acked (m t).1 ≡ acked t)
      → (p : S × List Bool) → acked (awaited extend m p).1.0 ≡ acked p.0
  kept = view-awaited extend acked (W.acked-in_progress msg)

  interleaved-Acknowledges :
      Acknowledges
        (interleaved_kv extend kv)
        (interleaved_js extend js)
        (unawaited modules)
        (interleaved_http extend api)
        (at_once now)
        (λ p. acked p.0)
  unfolding at_once
  interleaved-Acknowledges = record {
    acked-ack =
        λ m. adds-awaited extend acked (W.acked-in_progress msg) (js.ack m) m (W.acked-ack m);
    acked-in_progress = λ m. kept (js.in_progress m) (W.acked-in_progress m);
    acked-fetch = λ n d subj t. kept (js.fetch n d subj t) (W.acked-fetch n d subj t);
    acked-key_value = λ b. kept (kv.key_value b) (W.acked-key_value b);
    acked-get = λ b k. kept (kv.get b k) (W.acked-get b k);
    acked-put = λ b k v. kept (kv.put b k v) (W.acked-put b k v);
    acked-update = λ b k v n. kept (kv.update b k v n) (W.acked-update b k v n);
    acked-delete = λ b k. kept (kv.delete b k) (W.acked-delete b k);
    acked-get_module = λ t p. W.acked-get_module t p.0;
    acked-representation = λ t dn entry p. W.acked-representation t dn entry p.0;
    acked-reload = λ p. W.acked-reload p.0;
    acked-post = λ u j. kept (api.post u j) (W.acked-post u j);
    acked-now = λ p. W.acked-now p.0;
  }

module _ {S B : Type 0} (codec : Codec B) (kv : KeyValue S B) (js : JetStream S B) (c : Conversions)
    (modules : UdmModules S) (api : Http S) (api_url : String) (now : Exec S String)
    (ldap_publisher_name : PublisherName) {acked : S → List (Msg B)}
    (W : Acknowledges kv js modules api now acked) where
  -- A handler that raises again what it caught has not run where the whole succeeded.
  reraised :
      (r : Result (Unit {0})) (m : Exec S (Unit {0})) (t : S)
      → (handle r (λ e. m >> raise e) t).0 ≡ ok tt
      → (r ≡ ok tt) × (handle r (λ e. m >> raise e) t ≡ (r, t))
  reraised (ok _) m t h = (refl, refl)
  reraised (raised x) m t h =
      let (_, _, last, _) = bind_ok m (λ _. raise {A = Unit {0}} x) t tt h in absurd cc

  module _ (schedule : List Bool) (message : Message) (msg : Msg B) (s : S) where
    abbrev transformed : Result (Unit {0}) × S
    transformed =
        handle_message codec kv js c modules api api_url now ldap_publisher_name schedule message
          msg s

    abbrev processed : Result (Unit {0}) × S
    processed =
        process_interleaved_message
          (interleaved_handler codec kv js c modules api api_url now ldap_publisher_name message
            msg)
          schedule s

    acked-processed : acked processed.1 ≡ acked s
    acked-processed =
        rw
          (process_interleaved_message-world
            (interleaved_handler codec kv js c modules api api_url now ldap_publisher_name message
              msg)
            schedule s)
          (acked-handle_changes codec (interleaved_kv (js.in_progress msg) kv)
            (interleaved_js (js.in_progress msg) js) c (unawaited modules)
            (interleaved_http (js.in_progress msg) api) api_url (at_once now) ldap_publisher_name
            (interleaved-Acknowledges W msg) message.body.new message.body.old (s, schedule))

    acked-transformed : transformed.0 ≡ ok tt → acked transformed.1 ≡ acked s
    unfolding handle_message
    acked-transformed h = let (done, same) = reraised _ (js.nak msg) _ h in rw same acked-processed

  -- What a message does that came, behind its validation.
  finish :
      (schedule : List Bool) (message : Message) (msg : Msg B) (s : S)
      → let done =
          (handle_message codec kv js c modules api api_url now ldap_publisher_name schedule message
                msg
              >> js.ack msg)
            s in
        done.0 ≡ ok tt → acked done.1 ≡ acked s ++ (msg ∷ [])
  finish schedule message msg s h =
      let (_, first, last, same) =
        bind_ok
          (handle_message codec kv js c modules api api_url now ldap_publisher_name schedule message
            msg)
          _ s tt h in
      rw same (W.acked-ack msg _ ∙ rw (last, acked-transformed schedule message msg s first))

  valid_cases :
      (schedule : List Bool) (message : MqMessage) (msg : Msg B) (v : Result Message) (s : S)
      → validate_message c message.content ≡ v
      → let done =
          transform_message codec kv js c modules api api_url now ldap_publisher_name schedule
            (some (message, msg))
            s in
        done.0 ≡ ok tt → acked done.1 ≡ acked s ++ (msg ∷ [])
  unfolding transform_message
  valid_cases schedule message msg (ok m) s e = rw e (finish schedule m msg s)
  valid_cases schedule message msg (raised x) s e = rw e (λ h. absurd cc)

  idle_cases :
      (schedule : List Bool) (x : Exn) (s t : S)
      → acked t ≡ acked s
      → let idle =
          (on_empty codec kv js c modules api api_url now ldap_publisher_name x
              >>= transform_message codec kv js c modules api api_url now ldap_publisher_name
                  schedule)
            t in
        idle.0 ≡ ok tt → acked idle.1 ≡ acked s ++ []
  unfolding on_empty transform_message
  idle_cases schedule x s t e = ground (arith, append-nil (acked s))

  module _ (stream durable subject : String) where
    abbrev pub taken : S → Result (MqMessage × Msg B) × S
    taken = get_one_message js codec.unpack c (subject, durable, stream) 10000

    acked-taken : (s : S) → acked (taken s).1 ≡ acked s
    acked-taken s =
        rw (get_one_message_world js codec.unpack c stream durable subject 10000 s)
          (W.acked-fetch stream durable subject 10000 s)

    abbrev pub round : List Bool → S → Result (Unit {0}) × S
    round schedule =
        transform_event codec kv js c modules api api_url now ldap_publisher_name schedule
          (subject, durable, stream)

    round_cases :
        (schedule : List Bool) (r : Result (MqMessage × Msg B)) (s : S)
        → (taken s).0 ≡ r
        → (round schedule s).0 ≡ ok tt
        → acked (round schedule s).1 ≡ acked s ++ arrived r
    unfolding transform_event
    round_cases schedule (ok (message, msg)) s e =
        rw e (λ h. valid_cases schedule message msg _ _ refl h ∙ rw (acked-taken s))
    round_cases schedule (raised x) s e = rw e (idle_cases schedule x s _ (acked-taken s))

    -- As long as nothing is raised, the transformer acknowledges exactly the messages that come,
    -- each once and in their order, whatever their changes and the schedules of the extensions.
    pub acked-serve_changes :
        (rounds : List (List Bool)) (s : S)
        → let served =
            serve_changes codec kv js c modules api api_url now ldap_publisher_name
              (subject, durable, stream)
              rounds
              s in
          served.0 ≡ ok tt → acked served.1 ≡ acked s ++ coming taken round rounds s
    unfolding serve_changes
    acked-serve_changes =
        acked-rounds taken round acked (λ schedule s. round_cases schedule (taken s).0 s refl)
