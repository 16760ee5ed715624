-- ===== src/Examples/Prefill.antt =====
-- A prefill on the servers in memory.
use provisioning_api.Base.{ℕ, true, none, some, [], ◌∷◌, ◌≡◌, refl}
use provisioning_api.Base.Exec.{Result, ok, raised, Exn, ◌>>◌, raise, group}
use provisioning_api.Models.Queue.{
  PrefillMessage, MqMessage, consumer_registration, validate_prefill_message, dump_prefill_message,
}
use provisioning_api.Nats.{Msg}
use provisioning_api.Models.Json.{get_field, pop_field}
use provisioning_api.Models.Queue.{
  publisher_value, dump_message, dump_simple_message, prefill_subject,
}
use provisioning_api.Models.Subscription.{
  as_str, as_realms_topics, dump_realms_topics, status_value,
}
use provisioning_api.Prefill.{
  handle_validated, fill, fill_realm_topic, update_status, fetch_udm, add_to_failure_queue,
  create_prefill_message, fill_object, fill_udm_topic, matching_modules, module_name,
}
use provisioning_api.Adapter.Mq.{purge_subject_from_messages, add_message}
use provisioning_api.Base.Exec.{for_each}
use provisioning_api.Adapter.Rest.{
  update_subscription_queue_status, get_object_types, get_object, index, list_objects,
  status_report, status_url,
}
use provisioning_api.Adapter.Rest.{Http}
use provisioning_api.Prefill.{attempts_exceeded, handle_message}
use provisioning_api.Prefill.Outcome.{
  Finished, GivenUp, handle_message_fills, handle_message_gives_up,
}
use provisioning_api.Prefill.Requests.{processed, requested, process_request_lem}
use provisioning_api.Memory.{
  Blob, raw, World, blank, codec, js, conversions, udm, api, clock, equal_topics,
}
use provisioning_api.Memory.Laws.{world-IsPrefillWorld}

abbrev pub request : PrefillMessage
request = record {
  publisher_name = consumer_registration;
  ts = "2025-01-01T00:00:00";
  subscription_name = "app";
  realms_topics = record { realm = "udm"; topic = "users/user" } ∷ [];
}

abbrev delivered : ℕ → MqMessage
delivered times = record {
  subject = "prefill";
  reply = "reply";
  content = dump_prefill_message request;
  num_delivered = times;
  sequence_number = 1;
  headers = none;
}

request_valid : validate_prefill_message conversions (dump_prefill_message request) ≡ ok request
unfolding validate_prefill_message dump_prefill_message get_field publisher_value as_str
    as_realms_topics dump_realms_topics
request_valid = refl

-- The session of UDM, and how often the request has been delivered. The API is no UDM: its `get` fails.
abbrev run : Http World → ℕ → Result (Unit {0}) × World
run session times =
    handle_message codec js conversions session "udm/" api "api" clock.now equal_topics (some 3)
      (delivered times) blank

first_ok : (run udm 1).0 ≡ ok tt
unfolding handle_message attempts_exceeded validate_prefill_message dump_prefill_message get_field
    pop_field publisher_value dump_message dump_simple_message prefill_subject as_str
    as_realms_topics dump_realms_topics status_value handle_validated fill fill_realm_topic
    update_status fetch_udm add_to_failure_queue create_prefill_message fill_object fill_udm_topic
    matching_modules module_name purge_subject_from_messages add_message for_each
    update_subscription_queue_status get_object_types get_object index list_objects status_report
    status_url
first_ok = refl

fourth_ok : (run udm 4).0 ≡ ok tt
unfolding handle_message attempts_exceeded validate_prefill_message dump_prefill_message get_field
    pop_field publisher_value dump_message dump_simple_message prefill_subject as_str
    as_realms_topics dump_realms_topics status_value handle_validated fill fill_realm_topic
    update_status fetch_udm add_to_failure_queue create_prefill_message fill_object fill_udm_topic
    matching_modules module_name purge_subject_from_messages add_message for_each
    update_subscription_queue_status get_object_types get_object index list_objects status_report
    status_url
fourth_ok = refl

handle_message_fills_example :
    Finished codec js conversions udm "udm/" api "api" clock.now equal_topics world-IsPrefillWorld
      (some 3)
      (delivered 1)
      request
      blank
      request_valid
      (run udm 1).1
unfolding attempts_exceeded
handle_message_fills_example =
    handle_message_fills codec js conversions udm "udm/" api "api" clock.now equal_topics
      world-IsPrefillWorld (some 3) (delivered 1) request blank request_valid refl first_ok

handle_message_gives_up_example :
    GivenUp codec js conversions udm "udm/" api "api" clock.now equal_topics world-IsPrefillWorld
      (some 3)
      (delivered 4)
      request
      blank
      request_valid
      (run udm 4).1
unfolding attempts_exceeded
handle_message_gives_up_example =
    handle_message_gives_up codec js conversions udm "udm/" api "api" clock.now equal_topics
      world-IsPrefillWorld (some 3) (delivered 4) request blank request_valid refl fourth_ok

abbrev reply : Msg Blob
reply = record {
  subject = "prefill";
  reply = "reply";
  payload = raw "";
  headers = none;
  num_delivered = 1;
}

process_request_lem_example :
    let done =
      processed codec js conversions udm "udm/" api "api" clock.now equal_topics
        (some 3)
        (true ∷ [])
        (delivered 1)
        reply
        blank in
    let all =
      requested codec js conversions udm "udm/" api "api" clock.now equal_topics
        (some 3)
        (true ∷ [])
        (delivered 1)
        reply
        blank in
    (done.0 ≡ ok tt → all ≡ js.ack reply done.1)
    × ((e : Exn)
        → done.0 ≡ raised e
        → (x : Exn) × (e ≡ group x) × (all ≡ (js.nak reply >> raise (group x)) done.1))
process_request_lem_example =
    process_request_lem codec js conversions udm "udm/" api "api" clock.now equal_topics (some 3)
      (true ∷ []) (delivered 1) reply blank
