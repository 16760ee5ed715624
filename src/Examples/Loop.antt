-- ===== src/Examples/Loop.antt =====
-- The loop of the dispatcher on the server in memory.
use provisioning_api.Base.{String, Bool, true, false, none, List, [], ◌∷◌, ◌≡◌, refl, map, some}
use provisioning_api.Base.Exec.{ok, raised, group, validation_error, for_each}
use provisioning_api.Models.Json.{obj, no_fields, get_field}
use provisioning_api.Models.Queue.{
  Message, MqMessage, dump_message, validate_message, publisher_value,
}
use provisioning_api.Models.Subscription.{as_str, subscriptions, dump_subscription}
use provisioning_api.Nats.{Msg}
use provisioning_api.Adapter.Mq.{mq_message_from, add_message}
use provisioning_api.Adapter.Mq.Reply.{sequence_text}
use provisioning_api.Adapter.Mq.Push.{cb, wait_for_event}
use provisioning_api.Adapter.Kv.Watch.{watch_update}
use provisioning_api.AckManager.{process_message_with_ack_wait_extension}
use provisioning_api.Dispatcher.{
  log_details, subscribers, topic_subscribers, send_message_to_subscription, acknowledge_message,
}
use provisioning_api.Dispatcher.Loop.{
  Process, Happening, arrival, change, turn, elsewhere, checked, handler_parts, dispatch_message,
  run_tasks, dispatch_events, on_happening, take_turn, parts_of,
}
use provisioning_api.Dispatcher.Loop.Parts.{Dispatched, dispatch_message_lem}
use provisioning_api.Dispatcher.Loop.Conservation.{ledger}
use provisioning_api.Dispatcher.Loop.Start.{ledger-dispatch_events}
use provisioning_api.Dispatcher.Loop.Failing.{dispatch_message_failed}
use provisioning_api.Dispatcher.Loop.Draining.{turns, IsDispatchable, run_tasks_drains}
use provisioning_api.Adapter.Mq.{ensure_stream, ensure_consumer, stream_config}
use provisioning_api.Adapter.Mq.Push.{subscribe_to_queue}
use provisioning_api.Adapter.Kv.{get_all_subscriptions, get_keys, loads_text}
use provisioning_api.Models.Subscription.{
  validate_subscription, as_realms_topics, optional_bool, status_of_value, status_value,
  realms_topics_eq,
}
use provisioning_api.Dispatcher.{
  update_subscriptions_mapping, build_mapping, add_subscription, add_realm, add_topic, contains_sub,
  subscription_eq,
}
use provisioning_api.Memory.{Blob, dumped, World, blank, codec, conversions, js, kv, set_value}
use provisioning_api.Memory.Laws.{js-IsJournal, kv-KeepsAcked, js-IsReliable, js-SetsUp}
use provisioning_api.Examples.Dispatcher.{app, mapping, created}

abbrev reply : String
reply = "$JS.ACK.stream:app.durable_name:app.1.17.18.1700000000.0"

abbrev pushed : Msg Blob
pushed = record {
  subject = "incoming";
  reply = reply;
  payload = dumped (obj (dump_message created));
  headers = none;
  num_delivered = 1;
}

abbrev decoded : MqMessage
decoded = record {
  subject = "incoming";
  reply = reply;
  content = dump_message created;
  num_delivered = 1;
  sequence_number = 17;
  headers = none;
}

decoded_ok : mq_message_from conversions codec.loads pushed ≡ ok decoded
unfolding mq_message_from sequence_text
decoded_ok = refl

checked_ok : checked conversions decoded ≡ ok created
unfolding checked log_details get_field dump_message validate_message publisher_value as_str
checked_ok = refl

-- The acknowledgement is extended before the message is sent and before it is acknowledged.
abbrev schedule : List Bool
schedule = true ∷ false ∷ true ∷ []

dispatched_ok : (dispatch_message codec js conversions mapping schedule decoded blank).0 ≡ ok tt
unfolding dispatch_message process_message_with_ack_wait_extension handler_parts parts_of checked
    log_details get_field dump_message validate_message publisher_value as_str subscribers
    topic_subscribers send_message_to_subscription add_message acknowledge_message
dispatched_ok = refl

dispatch_message_lem_example :
    (m : Message) × (checked conversions decoded ≡ ok m)
    × Dispatched codec js conversions js-IsJournal mapping decoded m blank
        (dispatch_message codec js conversions mapping schedule decoded blank).1
dispatch_message_lem_example =
    dispatch_message_lem codec js conversions js-IsJournal mapping decoded schedule blank
      dispatched_ok

abbrev waiting_process : Process World Blob
waiting_process = record { world = blank; queue = pushed ∷ []; mapping = mapping }

-- The subscription is stored; a message comes, another process changes the world, and the loop goes
-- round once.
abbrev holding : World
holding = record (set_value subscriptions "app" (some (dumped (dump_subscription app))) blank) {
  names = "app" ∷ [];
}

abbrev starting : Process World Blob
starting = record { world = holding; queue = []; mapping = [] }

abbrev happenings : List (Happening World Blob)
happenings =
    arrival pushed ∷ change none ∷ elsewhere (λ s. record s { clock = 1 }) ∷ turn schedule ∷ []

run_ok : (dispatch_events codec js conversions kv happenings starting).0 ≡ ok tt
unfolding dispatch_events run_tasks for_each on_happening watch_update take_turn wait_for_event cb
    mq_message_from sequence_text dispatch_message process_message_with_ack_wait_extension
    handler_parts parts_of checked log_details get_field dump_message validate_message
    publisher_value as_str subscribers topic_subscribers send_message_to_subscription add_message
    acknowledge_message subscribe_to_queue ensure_stream ensure_consumer stream_config
    update_subscriptions_mapping get_all_subscriptions get_keys loads_text validate_subscription
    dump_subscription as_realms_topics optional_bool build_mapping add_subscription add_realm
    add_topic status_of_value status_value contains_sub subscription_eq realms_topics_eq
run_ok = refl

ledger-dispatch_events_example :
    ledger codec js conversions kv js-IsJournal kv-KeepsAcked
      (dispatch_events codec js conversions kv happenings starting).1
    ≡ reply ∷ []
ledger-dispatch_events_example =
    ledger-dispatch_events codec js conversions kv js-IsJournal kv-KeepsAcked js-SetsUp happenings
      (tt, (tt, ((λ s. refl), (tt, tt)))) starting run_ok

-- A message without content is refused.
abbrev empty_message : MqMessage
empty_message = record decoded { content = no_fields }

dispatched_raised :
    (dispatch_message codec js conversions mapping schedule empty_message blank).0
    ≡ raised (group validation_error)
unfolding dispatch_message process_message_with_ack_wait_extension handler_parts parts_of checked
    log_details get_field validate_message
dispatched_raised = refl

dispatch_message_failed_example :
    (dispatch_message codec js conversions mapping schedule empty_message blank).1.acked ≡ []
dispatch_message_failed_example =
    dispatch_message_failed codec js conversions js-IsJournal mapping empty_message schedule blank
      (group validation_error) dispatched_raised

pushed-IsDispatchable : IsDispatchable codec js conversions js-IsReliable pushed
pushed-IsDispatchable = (decoded, created, decoded_ok, checked_ok)

run_tasks_drains_example :
    let after =
      run_tasks codec js conversions kv (turns ((pushed, schedule) ∷ [])) waiting_process in
    (after.0 ≡ ok tt) × (after.1.queue ≡ []) × (map (λ m. m.reply) after.1.world.acked ≡ reply ∷ [])
run_tasks_drains_example =
    run_tasks_drains codec js conversions js-IsReliable kv js-IsJournal kv-KeepsAcked
      ((pushed, schedule) ∷ []) waiting_process (pushed-IsDispatchable, tt) refl
