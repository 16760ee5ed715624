-- ===== src/Dispatcher/Delivery.antt =====
-- What a message that is handled leaves behind, on a server that may fail at any call.
use mathlib.Core.List.{append-nil, append_assoc}
use provisioning_api.Base.{List, [], ◌∷◌, ◌++◌, map, ◌≡◌, refl, sym, ap, ◌∙◌}
use provisioning_api.Base.Exec.{Exn, Result, ok, raised, is_ok, for_each, ◌>>◌}
use provisioning_api.Models.Json.{obj}
use provisioning_api.Models.Pydantic.{Conversions}
use provisioning_api.Models.Subscription.{Subscription}
use provisioning_api.Models.Queue.{
  Message, MqMessage, validate_message, dump_message, dispatcher_subject,
}
use provisioning_api.Nats.{Codec, JetStream, Msg}
use provisioning_api.Nats.Journal.{Publication, IsJournal, if_ok}
use provisioning_api.Adapter.Mq.{nats_message_from, stream_key, add_message}
use provisioning_api.Dispatcher.{
  Mapping, subscribers, log_details, send_message_to_subscription, acknowledge_message,
  handle_message,
}

-- The message in the queue of a subscription.
abbrev pub delivery : {B : Type 0} → Codec B → Message → Subscription → Publication B
delivery codec message sub = record {
  subject = dispatcher_subject sub.name;
  content = codec.dumps (obj (dump_message message));
  stream = stream_key sub.name;
}

module _ {S B : Type 0} (codec : Codec B) (js : JetStream S B) (c : Conversions)
    {published : S → List (Publication B)} {acked : S → List (Msg B)}
    (J : IsJournal js published acked) where
  -- What sending to `subs` has published: a first part of the deliveries, all of them if no call
  -- failed; nothing was acknowledged.
  record Sent (message : Message) (subs : List Subscription) (s : S) (r : Result (Unit {0})) (t : S)
      : Type 0 where
    delivered : List (Publication B)
    missing : List (Publication B)
    together : delivered ++ missing ≡ map (delivery codec message) subs
    published_then : published t ≡ published s ++ delivered
    acked_then : acked t ≡ acked s
    complete : r ≡ ok tt → missing ≡ []

  published-send :
      (message : Message) (sub : Subscription) (s : S)
      → published (send_message_to_subscription codec js c message sub s).1
        ≡ published s
          ++ if_ok
              (is_ok (send_message_to_subscription codec js c message sub s).0)
              (delivery codec message sub)
  unfolding send_message_to_subscription add_message
  published-send message sub s = J.published-publish _ _ _ s

  acked-send :
      (message : Message) (sub : Subscription) (s : S)
      → acked (send_message_to_subscription codec js c message sub s).1 ≡ acked s
  unfolding send_message_to_subscription add_message
  acked-send message sub s = J.acked-publish _ _ _ s

  module _ (message : Message) where
    abbrev send : Subscription → S → Result (Unit {0}) × S
    send = send_message_to_subscription codec js c message

    Sent-cons :
        (sub : Subscription) (subs : List Subscription) (s : S) (r : Result (Unit {0})) (t : S)
        → (send sub s).0 ≡ ok tt
        → Sent message subs (send sub s).1 r t
        → Sent message (sub ∷ subs) s r t
    Sent-cons sub subs s r t e later = record {
      delivered = delivery codec message sub ∷ later.delivered;
      missing = later.missing;
      together = ap (λ (l : List (Publication B)). delivery codec message sub ∷ l) later.together;
      published_then =
          later.published_then
          ∙ rw (published-send message sub s, e)
              (append_assoc (published s) (delivery codec message sub ∷ []) later.delivered);
      acked_then = later.acked_then ∙ acked-send message sub s;
      complete = later.complete;
    }

    send_cases :
        (sub : Subscription) (subs : List Subscription) (s : S) (r : Result (Unit {0}))
        → (send sub s).0 ≡ r
        → Sent message subs
            (send sub s).1
            (for_each send subs (send sub s).1).0
            (for_each send subs (send sub s).1).1
        → Sent message
            (sub ∷ subs)
            s
            (for_each send (sub ∷ subs) s).0
            (for_each send (sub ∷ subs) s).1
    unfolding for_each
    send_cases sub subs s (ok _) e later = rw e (Sent-cons sub subs s _ _ e later)
    send_cases sub subs s (raised x) e later = rw e (record {
      delivered = [];
      missing = map (delivery codec message) (sub ∷ subs);
      together = refl;
      published_then = rw (published-send message sub s, e);
      acked_then = acked-send message sub s;
      complete = λ h. cc;
    })

    send_all :
        (subs : List Subscription) (s : S)
        → Sent message subs s (for_each send subs s).0 (for_each send subs s).1
    unfolding for_each
    send_all [] s = record {
      delivered = [];
      missing = [];
      together = refl;
      published_then = sym (append-nil (published s));
      acked_then = refl;
      complete = λ h. refl;
    }
    send_all (sub ∷ subs) s =
        send_cases sub subs s (send sub s).0 refl (send_all subs (send sub s).1)

  Sent-complete :
      (message : Message) (subs : List Subscription) (s : S) (r : Result (Unit {0})) (t : S)
      → r ≡ ok tt
      → Sent message subs s r t
      → published t ≡ published s ++ map (delivery codec message) subs
  Sent-complete message subs s r t e sent =
      sent.published_then
      ∙ ap (λ (l : List (Publication B)). published s ++ l)
          (sym (append-nil sent.delivered)
            ∙ ap (λ (l : List (Publication B)). sent.delivered ++ l) (sym (sent.complete e))
            ∙ sent.together)

  module _ (mapping : Mapping) (message : MqMessage) (s : S) where
    abbrev pub handled : Result (Unit {0}) × S
    handled = handle_message codec js c mapping message s

    -- The message reached the queue of every subscription for its realm and topic, once for each
    -- and in order, and was acknowledged behind that.
    pub record Delivered (m : Message) (t : S) : Type 0 where
      pub published_then :
          published t ≡ published s ++ map (delivery codec m) (subscribers m.realm m.topic mapping)
      pub acked_then : acked t ≡ acked s ++ (nats_message_from codec message ∷ [])

    ack_after :
        (m : Message) (t : S)
        → published t ≡ published s ++ map (delivery codec m) (subscribers m.realm m.topic mapping)
        → acked t ≡ acked s
        → (acknowledge_message codec js c message t).0 ≡ ok tt
        → Delivered m (acknowledge_message codec js c message t).1
    unfolding acknowledge_message
    ack_after m t p a e = record {
      published_then = J.published-ack _ t ∙ p;
      acked_then = J.acked-ack _ t ∙ rw (e, a);
    }

    ack_failed :
        (t : S) (x : Exn)
        → (acknowledge_message codec js c message t).0 ≡ raised x
        → acked t ≡ acked s
        → acked (acknowledge_message codec js c message t).1 ≡ acked s
    unfolding acknowledge_message
    ack_failed t x e a = J.acked-ack _ t ∙ rw (e, a) (append-nil (acked s))

    -- The part behind the validation.
    abbrev finish : Message → Result (Unit {0}) × S
    finish m =
        (for_each (send_message_to_subscription codec js c m) (subscribers m.realm m.topic mapping)
            >> acknowledge_message codec js c message)
          s

    finish_ok :
        (m : Message) (r : Result (Unit {0}))
        → (for_each
            (send_message_to_subscription codec js c m)
            (subscribers m.realm m.topic mapping)
            s).0
          ≡ r
        → (finish m).0 ≡ ok tt
        → Delivered m (finish m).1
    finish_ok m (raised x) e = rw e (λ h. cc)
    finish_ok m (ok _) e =
        let sent = send_all m (subscribers m.realm m.topic mapping) s in
        rw e (
          ack_after m _ (Sent-complete m (subscribers m.realm m.topic mapping) s _ _ e sent)
            sent.acked_then)

    finish_failed :
        (m : Message) (x : Exn) (r : Result (Unit {0}))
        → (for_each
            (send_message_to_subscription codec js c m)
            (subscribers m.realm m.topic mapping)
            s).0
          ≡ r
        → (finish m).0 ≡ raised x
        → acked (finish m).1 ≡ acked s
    finish_failed m x (raised y) e =
        rw e (λ h. (send_all m (subscribers m.realm m.topic mapping) s).acked_then)
    finish_failed m x (ok _) e =
        rw e (λ h. ack_failed _ x h (send_all m (subscribers m.realm m.topic mapping) s).acked_then)

    outcome_ok :
        (l : Result (Unit {0})) (v : Result Message)
        → log_details message.content ≡ l
        → validate_message c message.content ≡ v
        → handled.0 ≡ ok tt
        → (m : Message) × (validate_message c message.content ≡ ok m) × Delivered m handled.1
    unfolding handle_message
    outcome_ok (raised x) v e f = rw e (λ h. cc)
    outcome_ok (ok _) (raised x) e f = rw (e, f) (λ h. cc)
    outcome_ok (ok _) (ok m) e f = rw (e, f) (λ h. (m, refl, finish_ok m _ refl h))

    failed_cases :
        (x : Exn) (l : Result (Unit {0})) (v : Result Message)
        → log_details message.content ≡ l
        → validate_message c message.content ≡ v
        → handled.0 ≡ raised x
        → acked handled.1 ≡ acked s
    unfolding handle_message
    failed_cases x (raised y) v e f = rw e (λ h. refl)
    failed_cases x (ok _) (raised y) e f = rw (e, f) (λ h. refl)
    failed_cases x (ok _) (ok m) e f = rw (e, f) (λ h. finish_failed m x _ refl h)

    -- A message that was handled without an exception is a valid one. It was published to the queue
    -- of each subscription for its realm and topic, in order and nothing else, and acknowledged.
    handle_message_delivers :
        handled.0 ≡ ok tt
        → (m : Message) × (validate_message c message.content ≡ ok m) × Delivered m handled.1
    handle_message_delivers = outcome_ok _ _ refl refl

    -- A message whose handling raised, for whatever reason, was not acknowledged.
    handle_message_failed : (x : Exn) → handled.0 ≡ raised x → acked handled.1 ≡ acked s
    handle_message_failed x = failed_cases x _ _ refl refl
