-- ===== src/Dispatcher/Loop/Draining.antt =====
-- The dispatcher's loop gets through its queue.
use mathlib.Core.List.{append-nil}
use provisioning_api.Base.{Bool, List, [], ◌∷◌, ◌++◌, map, ◌≡◌, refl, sym, ap, ◌∙◌}
use provisioning_api.Base.Exec.{Result, ok, for_each}
use provisioning_api.Models.Pydantic.{Conversions}
use provisioning_api.Models.Subscription.{Subscription}
use provisioning_api.Models.Queue.{Message, MqMessage}
use provisioning_api.Nats.{Codec, KeyValue, JetStream, Msg}
use provisioning_api.Nats.Journal.{Publication, IsJournal, KeepsAcked, IsReliable}
use provisioning_api.Adapter.Mq.{mq_message_from, add_message}
use provisioning_api.Adapter.Mq.Push.{wait_for_event, acknowledge_message_in_progress}
use provisioning_api.AckManager.Parts.{
  NeverFails, AllNeverFail, tasks-ok, process_message-ok_of_tasks,
}
use provisioning_api.Dispatcher.{
  Mapping, subscribers, send_message_to_subscription, acknowledge_message,
}
use provisioning_api.Dispatcher.Loop.{
  Process, Happening, turn, checked, parts_of, handler_parts, dispatch_message, take_turn,
  on_happening, run_tasks,
}
use provisioning_api.Dispatcher.Loop.Conservation.{AllQuiet, arrivals, ledger, ledger-run_tasks}

-- Rounds of the loop: the message that waits for each, and the schedule of its extensions.
module _ {B : Type 0} where
  abbrev pub waiting : List (Msg B × List Bool) → List (Msg B)
  waiting [] = []
  waiting ((msg, schedule) ∷ rounds) = msg ∷ waiting rounds

  abbrev pub turns : {S : Type 0} → List (Msg B × List Bool) → List (Happening S B)
  turns [] = []
  turns ((msg, schedule) ∷ rounds) = turn schedule ∷ turns rounds

arrivals-turns :
    (S : Type 0) {B : Type 0} (rounds : List (Msg B × List Bool))
    → arrivals (turns {S = S} rounds) ≡ []
arrivals-turns S [] = refl
arrivals-turns S (round ∷ rounds) = arrivals-turns S rounds

module _ {S B : Type 0} (codec : Codec B) (js : JetStream S B) (c : Conversions)
    (L : IsReliable js) where
  -- A message that the adapter decodes, and the service takes for a valid one.
  abbrev pub IsDispatchable : Msg B → Type 0
  IsDispatchable msg =
      (m : MqMessage) × (v : Message) × (mq_message_from c codec.loads msg ≡ ok m)
      × (checked c m ≡ ok v)

  abbrev pub AllDispatchable : List (Msg B) → Type 0
  AllDispatchable [] = Unit
  AllDispatchable (msg ∷ queue) = IsDispatchable msg × AllDispatchable queue

  send-NeverFails :
      (v : Message) (sub : Subscription)
      → NeverFails (send_message_to_subscription codec js c v sub)
  unfolding send_message_to_subscription add_message
  send-NeverFails v sub s = L.publish-ok _ _ _ s

  acknowledge-NeverFails : (m : MqMessage) → NeverFails (acknowledge_message codec js c m)
  unfolding acknowledge_message
  acknowledge-NeverFails m s = L.ack-ok _ s

  parts-AllNeverFail :
      (v : Message) (m : MqMessage) (subs : List Subscription)
      → AllNeverFail (
          map (send_message_to_subscription codec js c v) subs
          ++ (acknowledge_message codec js c m ∷ []))
  parts-AllNeverFail v m [] = (acknowledge-NeverFails m, tt)
  parts-AllNeverFail v m (sub ∷ subs) = (send-NeverFails v sub, parts-AllNeverFail v m subs)

  pub dispatch_message-ok :
      (mapping : Mapping) (schedule : List Bool) (m : MqMessage) (v : Message) (s : S)
      → checked c m ≡ ok v
      → (dispatch_message codec js c mapping schedule m s).0 ≡ ok tt
  unfolding dispatch_message handler_parts parts_of
  dispatch_message-ok mapping schedule m v s e = rw e (
      process_message-ok_of_tasks (acknowledge_message_in_progress js codec m) _ schedule s (
        tasks-ok (acknowledge_message_in_progress js codec m) _ schedule s (L.in_progress-ok _)
          (parts-AllNeverFail v m (subscribers v.realm v.topic mapping))))

  -- What a round of the loop does with a message in front.
  Taken : List (Msg B) → Process S B → Result (Unit {0}) × Process S B → Type 0
  Taken rest p after = (after.0 ≡ ok tt) × (after.1.queue ≡ rest) × (after.1.mapping ≡ p.mapping)

  take_turn_lem :
      (msg : Msg B) (rest : List (Msg B)) (schedule : List Bool) (p : Process S B)
      → IsDispatchable msg
      → p.queue ≡ msg ∷ rest
      → Taken rest p (take_turn codec js c schedule (wait_for_event codec c p.queue) p)
  unfolding take_turn wait_for_event Taken
  take_turn_lem msg rest schedule p (m, v, e, f) q =
      rw (q, e) (dispatch_message-ok p.mapping schedule m v p.world f, refl, refl)

  module _ (kv : KeyValue S B) where
    drains :
        (rounds : List (Msg B × List Bool)) (p : Process S B)
        → AllDispatchable (waiting rounds)
        → p.queue ≡ waiting rounds
        → Taken [] p (run_tasks codec js c kv (turns rounds) p)
    unfolding run_tasks for_each on_happening Taken
    drains [] p all q = (refl, q, refl)
    drains ((msg, schedule) ∷ rounds) p (first, rest) q =
        let (done, left, same) = take_turn_lem msg (waiting rounds) schedule p first q in
        let (all_done, empty, kept) = drains rounds _ rest left in
        rw done (all_done, empty, kept ∙ same)

    turns_quiet :
        {acked : S → List (Msg B)} {published : S → List (Publication B)}
        (J : IsJournal js published acked) (K : KeepsAcked kv acked)
        (rounds : List (Msg B × List Bool))
        → AllQuiet codec js c kv J K (turns rounds)
    turns_quiet J K [] = tt
    turns_quiet J K ((msg, schedule) ∷ rounds) = (tt, turns_quiet J K rounds)

    -- On a server that takes every message and acknowledgement, a queue of valid messages is empty
    -- after as many rounds of the loop, whatever their schedules: no round waits or raises, and the
    -- mapping stays.
    pub run_tasks_drains :
        {acked : S → List (Msg B)} {published : S → List (Publication B)}
        (J : IsJournal js published acked) (K : KeepsAcked kv acked)
        (rounds : List (Msg B × List Bool)) (p : Process S B)
        → AllDispatchable (waiting rounds)
        → p.queue ≡ waiting rounds
        → let after = run_tasks codec js c kv (turns rounds) p in
          (after.0 ≡ ok tt)
          × (after.1.queue ≡ [])
          × (map (λ m. m.reply) (acked after.1.world)
              ≡ map (λ m. m.reply) (acked p.world) ++ map (λ m. m.reply) p.queue)
    unfolding Taken
    run_tasks_drains {acked = acked} J K rounds p all q =
        let after = (run_tasks codec js c kv (turns rounds) p).1 in
        let (done, empty, _) = drains rounds p all q in
        (
          done,
          empty,
          sym (append-nil _)
              ∙ ap
                  (λ (l : List (Msg B)).
                    map (λ m. m.reply) (acked after.world) ++ map (λ m. m.reply) l)
                  (sym empty)
              ∙ ledger-run_tasks codec js c kv J K (turns rounds) p (turns_quiet J K rounds) done
              ∙ rw (arrivals-turns S rounds) (append-nil (ledger codec js c kv J K p)),
        )
