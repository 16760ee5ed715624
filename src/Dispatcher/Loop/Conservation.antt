-- ===== src/Dispatcher/Loop/Conservation.antt =====
-- The dispatcher's loop loses no message, and keeps their order.
use mathlib.Core.List.{append-nil, append_assoc}
use provisioning_api.Base.{
  String, Bool, Option, none, some, List, [], ◌∷◌, ◌++◌, map, ◌≡◌, refl, sym, ap, ◌∙◌, arith,
}
use provisioning_api.Base.Exec.{Result, ok, raised, continue, for_each}
use provisioning_api.Base.Steps.{Steps-pure, Steps-bind}
use provisioning_api.Models.Json.{Json}
use provisioning_api.Models.Pydantic.{Conversions}
use provisioning_api.Models.Queue.{MqMessage}
use provisioning_api.Nats.{Codec, KeyValue, JetStream, Msg, Update}
use provisioning_api.Nats.Journal.{Publication, IsJournal, KeepsAcked}
use provisioning_api.Adapter.Kv.{get_all_subscriptions}
use provisioning_api.Adapter.Kv.Reads.{Steps-get_all_subscriptions}
use provisioning_api.Adapter.Kv.Watch.{watch_update}
use provisioning_api.Adapter.Mq.{mq_message_from, nats_message_from}
use provisioning_api.Adapter.Mq.Push.{cb, wait_for_event}
use provisioning_api.AckManager.Parts.{then_ok}
use provisioning_api.Dispatcher.{Mapping, update_subscriptions_mapping}
use provisioning_api.Dispatcher.Loop.{
  Process, Happening, arrival, change, turn, elsewhere, take_turn, refresh_mapping, on_happening,
  run_tasks, set_mapping,
}
use provisioning_api.Dispatcher.Loop.Parts.{dispatch_message_lem}

-- The messages that arrive among the happenings.
abbrev pub arrivals : {S B : Type 0} → List (Happening S B) → List (Msg B)
arrivals [] = []
arrivals (arrival msg ∷ rest) = msg ∷ arrivals rest
arrivals (_ ∷ rest) = arrivals rest

reply-mq_message_from :
    {B : Type 0} (c : Conversions) (decode : B → Option Json) (msg : Msg B) (m : MqMessage)
    → mq_message_from c decode msg ≡ ok m
    → m.reply ≡ msg.reply
unfolding mq_message_from
reply-mq_message_from c decode msg m h = ground arith

pub map-append {ℓ κ} :
    {A : Type ℓ} {C : Type κ} (f : A → C) (xs ys : List A) → map f (xs ++ ys) ≡ map f xs ++ map f ys
map-append f [] ys = refl
map-append {C = C} f (x ∷ xs) ys = ap (λ (l : List C). f x ∷ l) (map-append f xs ys)

module _ {S B : Type 0} (codec : Codec B) (js : JetStream S B) (c : Conversions) (kv : KeyValue S B)
    {published : S → List (Publication B)} {acked : S → List (Msg B)}
    (J : IsJournal js published acked) (K : KeepsAcked kv acked) where
  -- What another process does to the world acknowledges no message of this one.
  abbrev pub Quiet : Happening S B → Type 0
  Quiet (elsewhere f) = (s : S) → acked (f s) ≡ acked s
  Quiet _ = Unit

  abbrev pub AllQuiet : List (Happening S B) → Type 0
  AllQuiet [] = Unit
  AllQuiet (h ∷ hs) = Quiet h × AllQuiet hs

  -- The replies of the messages that were acknowledged, and of those that wait behind them.
  abbrev pub ledger : Process S B → List String
  ledger p = map (λ m. m.reply) (acked p.world) ++ map (λ m. m.reply) p.queue

  SameAcked : S → S → Type 0
  SameAcked s t = acked t ≡ acked s

  pub acked-update_subscriptions_mapping :
      (s : S) → acked (update_subscriptions_mapping codec kv c s).1 ≡ acked s
  unfolding update_subscriptions_mapping SameAcked
  acked-update_subscriptions_mapping =
      (Steps-bind {R = SameAcked} (λ s. refl) (λ s t u e f. f ∙ e)
        (get_all_subscriptions codec kv c) _
        (Steps-get_all_subscriptions codec kv c (λ s. refl) (λ s t u e f. f ∙ e)
          (λ b. record { at = K.acked-key_value b }) (λ b. record { at = K.acked-keys b })
          (λ b k. record { at = K.acked-get b k }))
        (λ subs. Steps-pure (λ s. refl) _)).at

  ledger-refresh_cases :
      (r : Result Mapping) (p : Process S B) (t : S)
      → acked t ≡ acked p.world
      → ledger (continue r set_mapping (record p { world = t })).1 ≡ ledger p
  ledger-refresh_cases (ok mapping) p t e = rw e
  ledger-refresh_cases (raised x) p t e = rw e

  ledger-watch_update :
      (u : Option (Update B)) (p : Process S B)
      → ledger (watch_update (refresh_mapping codec js c kv) u p).1 ≡ ledger p
  unfolding watch_update refresh_mapping
  ledger-watch_update none p = refl
  ledger-watch_update (some u) p =
      ledger-refresh_cases _ p _ (acked-update_subscriptions_mapping p.world)

  ledger-arrival :
      (msg : Msg B) (p : Process S B)
      → ledger (record p { queue = cb msg p.queue }) ≡ ledger p ++ (msg.reply ∷ [])
  unfolding cb
  ledger-arrival msg p =
      ap (λ (l : List String). map (λ m. m.reply) (acked p.world) ++ l)
        (map-append (λ m. m.reply) p.queue (msg ∷ []))
      ∙ sym (
          append_assoc (map (λ m. m.reply) (acked p.world)) (map (λ m. m.reply) p.queue)
            (msg.reply ∷ []))

  -- Acknowledging the message in front moves it from one part of the ledger to the other.
  ledger-dispatched :
      (msg : Msg B) (m : MqMessage) (rest : List (Msg B)) (mapping : Mapping) (s t : S)
      → m.reply ≡ msg.reply
      → acked t ≡ acked s ++ (nats_message_from codec m ∷ [])
      → ledger (record { world = t; queue = rest; mapping = mapping })
        ≡ ledger (record { world = s; queue = msg ∷ rest; mapping = mapping })
  unfolding nats_message_from
  ledger-dispatched msg m rest mapping s t e a =
      rw (a, map-append, ← e)
        (append_assoc (map (λ m. m.reply) (acked s)) (m.reply ∷ []) (map (λ m. m.reply) rest))

  ledger-waiting :
      (schedule : List Bool) (p : Process S B)
      → ledger (take_turn codec js c schedule none p).1 ≡ ledger p
  unfolding take_turn
  ledger-waiting schedule p = refl

  ledger-turn_cases :
      (msg : Msg B) (rest : List (Msg B)) (schedule : List Bool) (p : Process S B)
      (r : Result MqMessage)
      → mq_message_from c codec.loads msg ≡ r
      → p.queue ≡ msg ∷ rest
      → (take_turn codec js c schedule (some (r, rest)) p).0 ≡ ok tt
      → ledger (take_turn codec js c schedule (some (r, rest)) p).1 ≡ ledger p
  unfolding take_turn
  ledger-turn_cases msg rest schedule p (raised x) e q h = absurd cc
  ledger-turn_cases msg rest schedule p (ok m) e q h =
      let (_, _, sent) = dispatch_message_lem codec js c J p.mapping m schedule p.world h in
      ledger-dispatched msg m rest p.mapping p.world _ (reply-mq_message_from c codec.loads msg m e)
        sent.acked_then
      ∙ ap (λ (l : List (Msg B)). map (λ m. m.reply) (acked p.world) ++ map (λ m. m.reply) l)
          (sym q)

  ledger-turn :
      (queue : List (Msg B)) (schedule : List Bool) (p : Process S B)
      → p.queue ≡ queue
      → (take_turn codec js c schedule (wait_for_event codec c queue) p).0 ≡ ok tt
      → ledger (take_turn codec js c schedule (wait_for_event codec c queue) p).1 ≡ ledger p
  unfolding wait_for_event
  ledger-turn [] schedule p q h = ledger-waiting schedule p
  ledger-turn (msg ∷ rest) schedule p q h = ledger-turn_cases msg rest schedule p _ refl q h

  -- Each happening adds to the ledger what arrives by it.
  ledger-on_happening :
      (h : Happening S B) (p : Process S B)
      → Quiet h
      → (on_happening codec js c kv h p).0 ≡ ok tt
      → ledger (on_happening codec js c kv h p).1
        ≡ ledger p ++ map (λ m. m.reply) (arrivals (h ∷ []))
  unfolding on_happening
  ledger-on_happening (arrival msg) p quiet h = ledger-arrival msg p
  ledger-on_happening (change u) p quiet h = ledger-watch_update u p ∙ sym (append-nil (ledger p))
  ledger-on_happening (turn schedule) p quiet h =
      ledger-turn p.queue schedule p refl h ∙ sym (append-nil (ledger p))
  ledger-on_happening (elsewhere f) p quiet h = rw quiet (sym (append-nil (ledger p)))

  arrivals-cons :
      (h : Happening S B) (hs : List (Happening S B))
      → arrivals (h ∷ hs) ≡ arrivals (h ∷ []) ++ arrivals hs
  arrivals-cons (arrival msg) hs = refl
  arrivals-cons (change u) hs = refl
  arrivals-cons (turn schedule) hs = refl
  arrivals-cons (elsewhere f) hs = refl

  -- However the pushed messages, the changes of the subscriptions, the rounds of the loop and other
  -- processes interleave: as long as nothing is raised, the messages that were acknowledged,
  -- followed by those in the queue, are the ones that were acknowledged or in the queue before and
  -- those that have arrived since, in that order. None is lost, acknowledged twice or overtaken.
  pub ledger-run_tasks :
      (hs : List (Happening S B)) (p : Process S B)
      → AllQuiet hs
      → (run_tasks codec js c kv hs p).0 ≡ ok tt
      → ledger (run_tasks codec js c kv hs p).1 ≡ ledger p ++ map (λ m. m.reply) (arrivals hs)
  unfolding run_tasks for_each
  ledger-run_tasks [] p quiet h = sym (append-nil (ledger p))
  ledger-run_tasks (happening ∷ hs) p (q, qs) h =
      let (first, rest, same) = then_ok (on_happening codec js c kv happening) _ p h in
      rw (same, arrivals-cons happening hs, map-append)
        (ledger-run_tasks hs _ qs rest
          ∙ ap (λ (l : List String). l ++ map (λ m. m.reply) (arrivals hs))
              (ledger-on_happening happening p q first)
          ∙ append_assoc (ledger p) (map (λ m. m.reply) (arrivals (happening ∷ [])))
              (map (λ m. m.reply) (arrivals hs)))
