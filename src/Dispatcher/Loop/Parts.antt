-- ===== src/Dispatcher/Loop/Parts.antt =====
-- The handler of the dispatcher and its parts: what they do together, however the extensions of the
-- acknowledgement fall between them.
use mathlib.Core.List.{append-nil, append_assoc}
use provisioning_api.Base.{
  Bool, true, false, List, [], ◌∷◌, ◌++◌, map, ◌≡◌, ◌≢◌, refl, sym, ap, ◌∙◌,
}
use provisioning_api.Base.Exec.{Exec, Exn, Result, ok, raised, continue, for_each, ◌>>◌}
use provisioning_api.Models.Pydantic.{Conversions}
use provisioning_api.Models.Subscription.{Subscription}
use provisioning_api.Models.Queue.{Message, MqMessage, validate_message}
use provisioning_api.Nats.{Codec, JetStream, Msg}
use provisioning_api.Nats.Journal.{Publication, IsJournal}
use provisioning_api.Adapter.Mq.{nats_message_from, add_message}
use provisioning_api.Adapter.Mq.Push.{acknowledge_message_in_progress}
use provisioning_api.AckManager.{tasks}
use provisioning_api.AckManager.Parts.{
  Effect, Effects, parts_in, apply_all, tasks-Effects, process_message-ok, process_message-world,
  then_ok,
}
use provisioning_api.Dispatcher.{
  Mapping, subscribers, log_details, send_message_to_subscription, acknowledge_message,
  handle_message,
}
use provisioning_api.Dispatcher.Delivery.{delivery}
use provisioning_api.Dispatcher.Loop.{checked, parts_of, handler_parts, dispatch_message}

module _ {S B : Type 0} (codec : Codec B) (js : JetStream S B) (c : Conversions) where
  continue_assoc :
      (r : Result (Unit {0})) (m k : Exec S (Unit {0})) (t : S)
      → continue r (λ _. m >> k) t ≡ (continue r (λ _. m) >> k) t
  continue_assoc (ok _) m k t = refl
  continue_assoc (raised x) m k t = refl

  continue_then :
      (r : Result (Unit {0})) (k l : Exec S (Unit {0})) (t : S)
      → k t ≡ l t
      → continue r (λ _. k) t ≡ continue r (λ _. l) t
  continue_then (ok _) k l t e = e
  continue_then (raised x) k l t e = refl

  continue_tt : (r : Result (Unit {0})) (t : S) → continue r (λ _ s. (ok tt, s)) t ≡ (r, t)
  continue_tt (ok _) t = refl
  continue_tt (raised x) t = refl

  tasks_sends :
      (in_progress : Exec S (Unit {0})) (send : Subscription → Exec S (Unit {0}))
      (last : Exec S (Unit {0})) (subs : List Subscription) (s : S)
      → tasks in_progress (map send subs ++ (last ∷ [])) [] s ≡ (for_each send subs >> last) s
  unfolding tasks for_each
  tasks_sends in_progress send last [] s = continue_tt (last s).0 (last s).1
  tasks_sends in_progress send last (sub ∷ subs) s =
      continue_then (send sub s).0 _ (for_each send subs >> last) (send sub s).1
        (tasks_sends in_progress send last subs (send sub s).1)
      ∙ continue_assoc (send sub s).0 (for_each send subs) last (send sub s).1

  parts_of_raised :
      (in_progress : Exec S (Unit {0})) (mapping : Mapping) (message : MqMessage) (x : Exn) (s : S)
      → tasks in_progress (parts_of codec js c mapping message (raised x)) [] s ≡ (raised x, s)
  unfolding tasks parts_of
  parts_of_raised in_progress mapping message x s = refl

  handler_parts_cases :
      (in_progress : Exec S (Unit {0})) (mapping : Mapping) (message : MqMessage) (s : S)
      (l : Result (Unit {0})) (v : Result Message)
      → log_details message.content ≡ l
      → validate_message c message.content ≡ v
      → tasks in_progress (handler_parts codec js c mapping message) [] s
        ≡ handle_message codec js c mapping message s
  unfolding handler_parts checked handle_message parts_of
  handler_parts_cases in_progress mapping message s (raised x) v e f =
      rw e (parts_of_raised in_progress mapping message x s)
  handler_parts_cases in_progress mapping message s (ok _) (raised x) e f =
      rw (e, f) (parts_of_raised in_progress mapping message x s)
  handler_parts_cases in_progress mapping message s (ok _) (ok m) e f =
      rw (e, f)
        (tasks_sends in_progress (send_message_to_subscription codec js c m)
          (acknowledge_message codec js c message) (subscribers m.realm m.topic mapping) s)

  -- Run without an extension, the parts of the handler are the handler, results and exceptions
  -- included.
  handler_parts_lem :
      (in_progress : Exec S (Unit {0})) (mapping : Mapping) (message : MqMessage) (s : S)
      → tasks in_progress (handler_parts codec js c mapping message) [] s
        ≡ handle_message codec js c mapping message s
  handler_parts_lem in_progress mapping message s =
      handler_parts_cases in_progress mapping message s _ _ refl refl

  module _ {published : S → List (Publication B)} {acked : S → List (Msg B)}
      (J : IsJournal js published acked) (mapping : Mapping) (message : MqMessage) where
    abbrev Part : Type 0
    Part = Exec S (Unit {0})

    -- The parts with their effects on a view: that of each sending, and that of the last part.
    module _ {V : Type 0} (on_send : Subscription → V → V) (on_ack : V → V) (m : Message) where
      abbrev effects : List Subscription → List (Part × (V → V))
      effects [] = (acknowledge_message codec js c message, on_ack) ∷ []
      effects (sub ∷ subs) =
          (send_message_to_subscription codec js c m sub, on_send sub) ∷ effects subs

      parts_in-effects :
          (subs : List Subscription)
          → parts_in (effects subs)
            ≡ map (send_message_to_subscription codec js c m) subs
              ++ (acknowledge_message codec js c message ∷ [])
      parts_in-effects [] = refl
      parts_in-effects (sub ∷ subs) =
          ap (λ (l : List Part). send_message_to_subscription codec js c m sub ∷ l)
            (parts_in-effects subs)

      module _ (view : S → V)
          (sends : (sub : Subscription)
            → Effect view (send_message_to_subscription codec js c m sub) (on_send sub))
          (acks : Effect view (acknowledge_message codec js c message) on_ack) where
        all_effects : (subs : List Subscription) → Effects view (effects subs)
        all_effects [] = (acks, tt)
        all_effects (sub ∷ subs) = (sends sub, all_effects subs)

        parts_effect :
            (in_progress : Part) (schedule : List Bool) (subs : List Subscription) (s : S)
            → ((t : S) → view (in_progress t).1 ≡ view t)
            → (tasks in_progress
                (map (send_message_to_subscription codec js c m) subs
                  ++ (acknowledge_message codec js c message ∷ []))
                schedule
                s).0
              ≡ ok tt
            → view
                (tasks in_progress
                  (map (send_message_to_subscription codec js c m) subs
                    ++ (acknowledge_message codec js c message ∷ []))
                  schedule
                  s).1
              ≡ apply_all (effects subs) (view s)
        parts_effect in_progress schedule subs s keeps =
            rw (← parts_in-effects subs)
              (tasks-Effects in_progress view (effects subs) schedule s keeps (all_effects subs))

    abbrev sent : Message → Subscription → List (Publication B) → List (Publication B)
    sent m sub l = l ++ (delivery codec m sub ∷ [])

    abbrev acknowledged : List (Msg B) → List (Msg B)
    acknowledged l = l ++ (nats_message_from codec message ∷ [])

    published-effects :
        (m : Message) (subs : List Subscription) (l : List (Publication B))
        → apply_all (effects (sent m) (λ x. x) m subs) l ≡ l ++ map (delivery codec m) subs
    published-effects m [] l = sym (append-nil l)
    published-effects m (sub ∷ subs) l =
        published-effects m subs (sent m sub l)
        ∙ append_assoc l (delivery codec m sub ∷ []) (map (delivery codec m) subs)

    acked-effects :
        (m : Message) (subs : List Subscription) (l : List (Msg B))
        → apply_all (effects (λ sub x. x) acknowledged m subs) l ≡ acknowledged l
    acked-effects m [] l = refl
    acked-effects m (sub ∷ subs) l = acked-effects m subs l

    published-part :
        (m : Message) (sub : Subscription)
        → Effect published (send_message_to_subscription codec js c m sub) (sent m sub)
    unfolding send_message_to_subscription add_message
    published-part m sub s h = J.published-publish _ _ _ s ∙ rw h

    acked-part :
        (m : Message) (sub : Subscription)
        → Effect acked (send_message_to_subscription codec js c m sub) (λ x. x)
    unfolding send_message_to_subscription add_message
    acked-part m sub s h = J.acked-publish _ _ _ s

    published-last : Effect published (acknowledge_message codec js c message) (λ x. x)
    unfolding acknowledge_message
    published-last s h = J.published-ack _ s

    acked-last : Effect acked (acknowledge_message codec js c message) acknowledged
    unfolding acknowledge_message
    acked-last s h = J.acked-ack _ s ∙ rw h

    -- A message that was dispatched by `mapping`, from the world `s` to `t`.
    pub record Dispatched (m : Message) (s t : S) : Type 0 where
      pub published_then :
          published t ≡ published s ++ map (delivery codec m) (subscribers m.realm m.topic mapping)
      pub acked_then : acked t ≡ acked s ++ (nats_message_from codec message ∷ [])

    module _ (schedule : List Bool) (s : S) where
      abbrev dispatched : Result (Unit {0}) × S
      dispatched = dispatch_message codec js c mapping schedule message s

      abbrev extend : Part
      extend = acknowledge_message_in_progress js codec message

      Dispatched-ok :
          (m : Message)
          → (tasks extend (parts_of codec js c mapping message (ok m)) schedule s).0 ≡ ok tt
          → Dispatched m s (tasks extend (parts_of codec js c mapping message (ok m)) schedule s).1
      unfolding parts_of
      Dispatched-ok m h = record {
        published_then =
            parts_effect (sent m) (λ x. x) m published (published-part m) published-last extend
              schedule (subscribers m.realm m.topic mapping) s (J.published-in_progress _) h
            ∙ published-effects m (subscribers m.realm m.topic mapping) (published s);
        acked_then =
            parts_effect (λ sub x. x) acknowledged m acked (acked-part m) acked-last extend schedule
              (subscribers m.realm m.topic mapping) s (J.acked-in_progress _) h
            ∙ acked-effects m (subscribers m.realm m.topic mapping) (acked s);
      }

      refused :
          (x : Exn) (sch : List Bool) (t : S)
          → (tasks extend (parts_of codec js c mapping message (raised x)) sch t).0 ≢ ok tt
      unfolding parts_of tasks
      refused x [] t h = cc
      refused x (true ∷ sch) t h = refused x sch _ (then_ok extend _ t h).1
      refused x (false ∷ sch) t h = cc

      Dispatched-cases :
          (v : Result Message)
          → checked c message ≡ v
          → (tasks extend (handler_parts codec js c mapping message) schedule s).0 ≡ ok tt
          → (m : Message) × (checked c message ≡ ok m)
            × Dispatched m s (tasks extend (handler_parts codec js c mapping message) schedule s).1
      unfolding handler_parts
      Dispatched-cases (ok m) e = rw e (λ h. (m, refl, Dispatched-ok m h))
      Dispatched-cases (raised x) e = rw e (λ h. absurd (refused x schedule s h))

      -- Whenever and however often the acknowledgement is extended while a message is handled: if
      -- nothing was raised, the message is a valid one, every subscription of its realm and topic
      -- got it once, in order, and it was acknowledged.
      pub dispatch_message_lem :
          dispatched.0 ≡ ok tt
          → (m : Message) × (checked c message ≡ ok m) × Dispatched m s dispatched.1
      unfolding dispatch_message
      dispatch_message_lem h =
          rw (process_message-world extend (handler_parts codec js c mapping message) schedule s) (
            Dispatched-cases _ refl
              (process_message-ok extend (handler_parts codec js c mapping message) schedule s h))
