-- ===== src/Examples/TransformerLoop.antt =====
-- Rounds of the transformer's loop in memory, where the first message of the inbox comes again in
-- every round: the change of an object of a type that is not supported.
use provisioning_api.Base.{Bool, true, false, none, List, [], ◌∷◌, ◌≡◌, refl, arith}
use provisioning_api.Base.Exec.{Result, ok, for_each}
use provisioning_api.Models.Json.{obj, get_field}
use provisioning_api.Models.Subscription.{as_str}
use provisioning_api.Models.Queue.{
  Message, ldif_producer, publisher_value, dump_message, validate_message,
}
use provisioning_api.Nats.{Msg}
use provisioning_api.Adapter.Kv.{get_dict_value}
use provisioning_api.Adapter.Mq.{get_one_message, mq_message_from, build_mq_message}
use provisioning_api.Adapter.Mq.Reply.{sequence_text}
use provisioning_api.Adapter.Rest
use provisioning_api.AckManager.Interleaved.{
  process_interleaved_message, awaited, extend_ack_wait, at_once,
}
use provisioning_api.Transformer.{
  handle_message, handle_changes, ldap_to_udm, old_of, retrieve, reload_udm, send_event,
  transform_event, serve_changes,
}
use provisioning_api.Transformer.Values.{
  object_type_of, is_in, first_value, as_cached, triggers_reload, event_type, as_topic, or_empty,
  new_or_old, option_truthy,
}
use provisioning_api.Transformer.Loop.{Acknowledges, acked-serve_changes}
use provisioning_api.Memory.{
  Blob, packed, World, codec, kv, js, conversions, failing_modules, api, clock,
}
use provisioning_api.Examples.Transformer.{entry, old_entry, holding}

abbrev changed : Message
changed = record {
  publisher_name = ldif_producer;
  ts = "2025-01-01T00:00:00";
  realm = "ldap";
  topic = "ldap";
  body = record { old = old_entry; new = entry };
}

abbrev announced : Msg Blob
announced = record {
  subject = "ldif-producer-subject";
  reply = "$JS.ACK.stream:ldif-producer.durable_name:ldif-producer.1.17.18.1700000000.0";
  payload = packed (obj (dump_message changed));
  headers = none;
  num_delivered = 1;
}

abbrev waiting : World
waiting = record holding { inbox = announced ∷ [] }

abbrev rounds : List (List Bool)
rounds = (true ∷ false ∷ true ∷ false ∷ []) ∷ [] ∷ []

abbrev served : Result (Unit {0}) × World
served =
    serve_changes codec kv js conversions failing_modules api "api" clock.now ldif_producer
      ("ldif-producer-subject", "durable_name:ldif-producer", "stream:ldif-producer") rounds waiting

memory-Acknowledges : Acknowledges kv js failing_modules api clock.now (λ (s : World). s.acked)
memory-Acknowledges = record {
  acked-ack = λ m s. refl;
  acked-in_progress = λ m s. refl;
  acked-fetch = λ n d subj t s. refl;
  acked-key_value = λ b s. refl;
  acked-get = λ b k s. refl;
  acked-put = λ b k v s. refl;
  acked-update = λ b k v n s. ground arith;
  acked-delete = λ b k s. refl;
  acked-get_module = λ t s. refl;
  acked-representation = λ t dn e s. refl;
  acked-reload = λ s. refl;
  acked-post = λ u j s. refl;
  acked-now = λ s. refl;
}

served_ok : served.0 ≡ ok tt
unfolding serve_changes transform_event for_each get_one_message mq_message_from build_mq_message
    sequence_text process_interleaved_message awaited extend_ack_wait at_once handle_message
    handle_changes ldap_to_udm old_of retrieve reload_udm send_event validate_message dump_message
    get_field publisher_value as_str get_dict_value Rest.send_event object_type_of is_in first_value
    as_cached triggers_reload event_type as_topic or_empty new_or_old option_truthy
served_ok = refl

acked-serve_changes_example : served.1.acked ≡ announced ∷ announced ∷ []
unfolding serve_changes transform_event for_each get_one_message mq_message_from build_mq_message
    sequence_text process_interleaved_message awaited extend_ack_wait at_once handle_message
    handle_changes ldap_to_udm old_of retrieve reload_udm send_event validate_message dump_message
    get_field publisher_value as_str get_dict_value Rest.send_event object_type_of is_in first_value
    as_cached triggers_reload event_type as_topic or_empty new_or_old option_truthy
acked-serve_changes_example =
    acked-serve_changes codec kv js conversions failing_modules api "api" clock.now ldif_producer
      memory-Acknowledges "stream:ldif-producer" "durable_name:ldif-producer"
      "ldif-producer-subject" rounds waiting served_ok
