-- ===== src/Dispatcher/Loop/Failing.antt =====
-- A message whose dispatching raises.
use provisioning_api.Base.{Bool, List, [], ◌∷◌, ◌++◌, map, ◌≡◌, refl, ◌∙◌}
use mathlib.Core.List.{append-nil}
use provisioning_api.Base.Exec.{Exn, Result, ok, raised}
use provisioning_api.Models.Pydantic.{Conversions}
use provisioning_api.Models.Subscription.{Subscription}
use provisioning_api.Models.Queue.{Message, MqMessage}
use provisioning_api.Nats.{Codec, JetStream, Msg}
use provisioning_api.Nats.Journal.{Publication, IsJournal}
use provisioning_api.Adapter.Mq.{add_message}
use provisioning_api.Adapter.Mq.Push.{acknowledge_message_in_progress}
use provisioning_api.AckManager.Parts.{
  IsCareful, tasks_raised, process_message-raised, process_message-world,
}
use provisioning_api.Dispatcher.{
  Mapping, subscribers, send_message_to_subscription, acknowledge_message,
}
use provisioning_api.Dispatcher.Loop.{checked, parts_of, handler_parts, dispatch_message}

module _ {S B : Type 0} (codec : Codec B) (js : JetStream S B) (c : Conversions)
    {published : S → List (Publication B)} {acked : S → List (Msg B)}
    (J : IsJournal js published acked) (mapping : Mapping) (message : MqMessage) where
  acked-send :
      (m : Message) (sub : Subscription) (s : S)
      → acked (send_message_to_subscription codec js c m sub s).1 ≡ acked s
  unfolding send_message_to_subscription add_message
  acked-send m sub s = J.acked-publish _ _ _ s

  acked-acknowledge :
      (s : S) (x : Exn)
      → (acknowledge_message codec js c message s).0 ≡ raised x
      → acked (acknowledge_message codec js c message s).1 ≡ acked s
  unfolding acknowledge_message
  acked-acknowledge s x h = J.acked-ack _ s ∙ rw h (append-nil (acked s))

  sends-IsCareful :
      (m : Message) (subs : List Subscription)
      → IsCareful acked (
          map (send_message_to_subscription codec js c m) subs
          ++ (acknowledge_message codec js c message ∷ []))
  sends-IsCareful m [] = acked-acknowledge
  sends-IsCareful m (sub ∷ []) = (acked-send m sub, acked-acknowledge)
  sends-IsCareful m (sub ∷ next ∷ subs) = (acked-send m sub, sends-IsCareful m (next ∷ subs))

  parts-IsCareful : (v : Result Message) → IsCareful acked (parts_of codec js c mapping message v)
  unfolding parts_of
  parts-IsCareful (ok m) = sends-IsCareful m (subscribers m.realm m.topic mapping)
  parts-IsCareful (raised e) = λ s x h. refl

  -- A message whose dispatching raised, be it in the handler, in a publication or in an extension
  -- of the acknowledgement, was not acknowledged: the server delivers it again.
  pub dispatch_message_failed :
      (schedule : List Bool) (s : S) (x : Exn)
      → (dispatch_message codec js c mapping schedule message s).0 ≡ raised x
      → acked (dispatch_message codec js c mapping schedule message s).1 ≡ acked s
  unfolding dispatch_message handler_parts
  dispatch_message_failed schedule s x h =
      let extend = acknowledge_message_in_progress js codec message in
      let parts = parts_of codec js c mapping message (checked c message) in
      let (y, e) = process_message-raised extend parts schedule s x h in
      rw (process_message-world extend parts schedule s) (
        tasks_raised extend acked parts schedule s y (J.acked-in_progress _)
          (parts-IsCareful (checked c message)) e)
