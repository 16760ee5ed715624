-- ===== src/Examples/PrefillLoop.antt =====
-- Rounds of the prefill loop on the servers in memory, where the first message of the inbox comes
-- again in every round.
use provisioning_api.Base.{Bool, true, false, none, some, List, [], ◌∷◌, ◌≡◌, refl}
use provisioning_api.Base.Exec.{Result, ok, for_each}
use provisioning_api.Models.Json.{obj, get_field, pop_field}
use provisioning_api.Models.Queue.{
  publisher_value, dump_message, dump_prefill_message, prefill_subject, validate_prefill_message,
}
use provisioning_api.Models.Subscription.{
  as_str, as_realms_topics, dump_realms_topics, status_value,
}
use provisioning_api.Nats.{Msg}
use provisioning_api.Adapter.Mq.{
  purge_subject_from_messages, add_message, get_one_message, mq_message_from, build_mq_message,
}
use provisioning_api.Adapter.Mq.Reply.{sequence_text}
use provisioning_api.Adapter.Rest.{
  update_subscription_queue_status, get_object_types, get_object, index, list_objects,
  status_report, status_url,
}
use provisioning_api.AckManager.Interleaved.{
  process_interleaved_message, awaited, extend_ack_wait, at_once,
}
use provisioning_api.Prefill.{
  handle_message, handle_validated, attempts_exceeded, fill, fill_realm_topic, update_status,
  fetch_udm, create_prefill_message, fill_object, fill_udm_topic, matching_modules, module_name,
  process_request, handle_request, serve_requests,
}
use provisioning_api.Prefill.Loop.{acked-serve_requests}
use provisioning_api.Memory.{
  Blob, dumped, World, blank, codec, js, conversions, udm, api, clock, equal_topics,
}
use provisioning_api.Memory.Laws.{world-IsPrefillWorld}
use provisioning_api.Examples.Prefill.{request}

abbrev asked : Msg Blob
asked = record {
  subject = "prefill";
  reply = "$JS.ACK.stream:prefill.durable_name:prefill.1.17.18.1700000000.0";
  payload = dumped (obj (dump_prefill_message request));
  headers = none;
  num_delivered = 1;
}

abbrev waiting : World
waiting = record blank { inbox = asked ∷ [] }

abbrev rounds : List (List Bool)
rounds = (true ∷ false ∷ true ∷ false ∷ []) ∷ [] ∷ []

abbrev served : Result (Unit {0}) × World
served =
    serve_requests codec js conversions udm "udm/" api "api" clock.now equal_topics (some 3)
      ("prefill", "durable_name:prefill", "stream:prefill") rounds waiting

served_ok : served.0 ≡ ok tt
unfolding serve_requests handle_request process_request for_each get_one_message mq_message_from
    build_mq_message sequence_text process_interleaved_message awaited extend_ack_wait at_once
    handle_message attempts_exceeded validate_prefill_message dump_prefill_message get_field
    pop_field publisher_value dump_message prefill_subject as_str as_realms_topics
    dump_realms_topics status_value handle_validated fill fill_realm_topic update_status fetch_udm
    create_prefill_message fill_object fill_udm_topic matching_modules module_name
    purge_subject_from_messages add_message update_subscription_queue_status get_object_types
    get_object index list_objects status_report status_url
served_ok = refl

acked-serve_requests_example : served.1.acked ≡ asked ∷ asked ∷ []
unfolding serve_requests handle_request process_request for_each get_one_message mq_message_from
    build_mq_message sequence_text process_interleaved_message awaited extend_ack_wait at_once
    handle_message attempts_exceeded validate_prefill_message dump_prefill_message get_field
    pop_field publisher_value dump_message prefill_subject as_str as_realms_topics
    dump_realms_topics status_value handle_validated fill fill_realm_topic update_status fetch_udm
    create_prefill_message fill_object fill_udm_topic matching_modules module_name
    purge_subject_from_messages add_message update_subscription_queue_status get_object_types
    get_object index list_objects status_report status_url
acked-serve_requests_example =
    acked-serve_requests codec js conversions udm "udm/" api "api" clock.now equal_topics
      world-IsPrefillWorld (some 3) "stream:prefill" "durable_name:prefill" "prefill" (λ t. refl)
      rounds waiting served_ok
