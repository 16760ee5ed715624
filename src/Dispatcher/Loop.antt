-- ===== src/Dispatcher/Loop.antt =====
-- `dispatch_events` of `src/server/core/dispatcher/service/dispatcher.py`: the loop, the watch on
-- the subscriptions and the messages that the server pushes, interleaved.
pub mod Parts
pub mod Conservation
pub mod Draining
pub mod Failing
pub mod Start
use provisioning_api.Base.{ℕ, String, Bool, Option, none, some, List, [], ◌∷◌, ◌++◌, map}
use provisioning_api.Base.Exec.{
  Exec, Exn, Result, ok, raised, and_then, pure, raise, lift, try, for_each, ◌>>=◌, ◌>>◌, group,
}
use provisioning_api.Models.Pydantic.{Conversions}
use provisioning_api.Models.Subscription.{subscriptions}
use provisioning_api.Models.Queue.{Message, MqMessage, validate_message, dispatcher_stream}
use provisioning_api.Nats.{Codec, KeyValue, JetStream, Msg, Update}
use provisioning_api.Adapter.Mq.Push.{
  subscribe_to_queue, cb, wait_for_event, acknowledge_message_in_progress,
}
use provisioning_api.Adapter.Kv.Watch.{watch_update}
use provisioning_api.AckManager.{process_message_with_ack_wait_extension}
use provisioning_api.Dispatcher.{
  Mapping, subscribers, log_details, send_message_to_subscription, acknowledge_message,
  update_subscriptions_mapping,
}

-- The world outside, the adapter's `_message_queue` and the service's `_subscriptions`.
pub record Process (S B : Type 0) : Type 0 where
  pub world : S
  pub queue : List (Msg B)
  pub mapping : Mapping

-- What may happen next: the server pushes a message, the watch yields an update, the loop goes
-- round once, with its schedule of extensions, or another process changes the world.
pub data Happening (S B : Type 0) : Type 0 where
  arrival : Msg B → Happening S B
  change : Option (Update B) → Happening S B
  turn : List Bool → Happening S B
  elsewhere : (S → S) → Happening S B

module _ {S B : Type 0} where
  -- What touches the world only.
  abbrev pub in_world {ℓ} : {A : Type ℓ} → Exec S A → Exec (Process S B) A
  in_world m p = let (r, t) = m p.world in (r, record p { world = t })

  abbrev pub set_mapping : Mapping → Exec (Process S B) (Unit {0})
  set_mapping mapping p = (ok tt, record p { mapping = mapping })

  abbrev pub set_queue : List (Msg B) → Exec (Process S B) (Unit {0})
  set_queue queue p = (ok tt, record p { queue = queue })

-- `handle_message`, cut where it waits for the server: first what comes before any such wait.
unfoldable pub checked : Conversions → MqMessage → Result Message
checked c message = and_then (log_details message.content) λ _. validate_message c message.content

module _ {S B : Type 0} (codec : Codec B) (js : JetStream S B) (c : Conversions) where
  unfoldable pub parts_of : Mapping → MqMessage → Result Message → List (Exec S (Unit {0}))
  parts_of mapping message (raised e) = raise e ∷ []
  parts_of mapping message (ok m) =
      map (send_message_to_subscription codec js c m) (subscribers m.realm m.topic mapping)
      ++ (acknowledge_message codec js c message ∷ [])

  unfoldable pub handler_parts : Mapping → MqMessage → List (Exec S (Unit {0}))
  handler_parts mapping message = parts_of mapping message (checked c message)

  -- The body of the loop behind `wait_for_event`.
  unfoldable pub dispatch_message : Mapping → List Bool → MqMessage → Exec S (Unit {0})
  dispatch_message mapping schedule message =
      process_message_with_ack_wait_extension (acknowledge_message_in_progress js codec message)
        (handler_parts mapping message) schedule

  -- One round of the loop; on an empty queue it waits.
  unfoldable pub take_turn :
      List Bool → Option (Result MqMessage × List (Msg B)) → Exec (Process S B) (Unit {0})
  take_turn schedule none = pure tt
  take_turn schedule (some (event, queue)) = do
    set_queue queue
    message ← lift event
    λ p. in_world (dispatch_message p.mapping schedule message) p

  module _ (kv : KeyValue S B) where
    -- `self._subscriptions = …`, on the world and the mapping; the arguments are ignored.
    unfoldable pub refresh_mapping : String → Option B → Exec (Process S B) (Unit {0})
    refresh_mapping key value = do
      mapping ← in_world (update_subscriptions_mapping codec kv c)
      set_mapping mapping

    unfoldable pub on_happening : Happening S B → Exec (Process S B) (Unit {0})
    on_happening (arrival msg) p = set_queue (cb msg p.queue) p
    on_happening (change update) p = watch_update refresh_mapping update p
    on_happening (turn schedule) p = take_turn schedule (wait_for_event codec c p.queue) p
    on_happening (elsewhere f) p = (ok tt, record p { world = f p.world })

    -- The two tasks, as far as the happenings go.
    unfoldable pub run_tasks : List (Happening S B) → Exec (Process S B) (Unit {0})
    run_tasks happenings = for_each on_happening happenings

    unfoldable pub dispatch_events : List (Happening S B) → Exec (Process S B) (Unit {0})
    dispatch_events happenings = do
      in_world (subscribe_to_queue js dispatcher_stream "dispatcher-service")
      mapping ← in_world (update_subscriptions_mapping codec kv c)
      set_mapping mapping
      try
          (do
            in_world (kv.key_value subscriptions)
            in_world (kv.watchall subscriptions)
            run_tasks happenings)
          (λ e. raise (group e))
