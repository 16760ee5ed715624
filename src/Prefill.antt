-- ===== src/Prefill.antt =====
-- `UDMPreFill` of `src/server/core/prefill/service/udm_prefill.py`. Python's `re.fullmatch` is the
-- parameter `fullmatch`, of the pattern and the text; it may raise.
pub mod Progress
pub mod Outcome
pub mod Requests
pub mod Interleaved
pub mod Loop
use provisioning_api.Base.{
  ℕ, String, Bool, true, false, ltb, not, Option, none, some, List, [], ◌∷◌, ◌==◌, if◌then◌else◌,
}
use provisioning_api.Base.Exec.{
  Exec, Exn, Result, ok, raised, and_then, pure, raise, lift, try, for_each, ◌>>=◌, ◌>>◌,
  empty_queue, prefill_failed, validation_error, key_error, type_error,
}
use provisioning_api.Models.Json.{Json, Fields, str, no_fields, get_field}
use provisioning_api.Models.Pydantic.{Conversions}
use provisioning_api.Models.Subscription.{FillQueueStatus, running, failed, done, RealmTopic}
use provisioning_api.Models.Queue.{
  Message, PrefillMessage, SimpleMessage, MqMessage, udm_pre_fill, validate_prefill_message,
  dump_message, dump_simple_message, prefill_subject, prefill_stream,
}
use provisioning_api.Nats.{Codec, JetStream, Msg}
use provisioning_api.Adapter.Mq
use provisioning_api.Adapter.Rest
use provisioning_api.Adapter.Rest.{Http}
use provisioning_api.AckManager.Interleaved.{
  at_once, interleaved_js, interleaved_http, process_interleaved_message,
}

abbrev pub failures_stream : String
failures_stream = "prefill-failures"

-- `module["name"]`, a text
abbrev text_or_raise : Option Json → Result String
text_or_raise none = raised key_error
text_or_raise (some (str s)) = ok s
text_or_raise (some _) = raised type_error

unfoldable pub module_name : Fields → Result String
module_name fs = text_or_raise (get_field "name" fs)

-- `[module for module in udm_modules if match_topic(topic, module["name"])]`, by the names
keep_if : Bool → String → List String → List String
keep_if true name names = name ∷ names
keep_if false name names = names

unfoldable pub matching_modules :
    (String → String → Result Bool) → String → List Fields → Result (List String)
unfolding keep_if
matching_modules fullmatch topic [] = ok []
matching_modules fullmatch topic (fs ∷ rest) = and_then (module_name fs) λ name.
    and_then (fullmatch topic name) λ matches.
      and_then (matching_modules fullmatch topic rest) λ names. ok (keep_if matches name names)

-- `self.max_prefill_attempts != -1 and message.num_delivered > self.max_prefill_attempts`; no bound
-- is -1.
unfoldable pub attempts_exceeded : Option ℕ → ℕ → Bool
attempts_exceeded none num_delivered = false
attempts_exceeded (some bound) num_delivered = ltb bound num_delivered

module _ {S B : Type 0} (codec : Codec B) (js : JetStream S B) (c : Conversions) (udm : Http S)
    (udm_url : String) (api : Http S) (api_url : String) (now : Exec S String)
    (fullmatch : String → String → Result Bool) where
  unfoldable pub update_status : String → FillQueueStatus → Exec S (Unit {0})
  update_status = Rest.update_subscription_queue_status api api_url

  unfoldable pub create_prefill_message : String → Message → Exec S (Unit {0})
  create_prefill_message name message =
      Mq.add_message js name (prefill_subject name) (dump_message message) codec.dumps

  unfoldable pub fill_object : String → String → String → Exec S (Unit {0})
  fill_object object_type subscription_name url = do
    object ← Rest.get_object udm udm_url url
    ts ← now
    create_prefill_message subscription_name (record {
      publisher_name = udm_pre_fill;
      ts = ts;
      realm = "udm";
      topic = object_type;
      body = record { old = no_fields; new = object };
    })

  unfoldable pub fill_udm_topic : String → String → Exec S (Unit {0})
  fill_udm_topic subscription_name object_type = do
    urls ← Rest.list_objects udm udm_url object_type
    for_each (fill_object object_type subscription_name) urls

  unfoldable pub fetch_udm : String → String → Exec S (Unit {0})
  fetch_udm subscription_name topic = do
    udm_modules ← Rest.get_object_types udm udm_url
    udm_match ← lift (matching_modules fullmatch topic udm_modules)
    for_each (fill_udm_topic subscription_name) udm_match

  unfoldable pub fill_realm_topic : String → RealmTopic → Exec S (Unit {0})
  fill_realm_topic subscription_name rt =
      if not (rt.realm == "udm")
      then pure tt
      else (do update_status subscription_name running; fetch_udm subscription_name rt.topic)

  -- `_handle_message`
  unfoldable pub fill : PrefillMessage → Exec S (Unit {0})
  fill message = do
    Mq.purge_subject_from_messages js message.subscription_name
        (prefill_subject message.subscription_name)
    for_each (fill_realm_topic message.subscription_name) message.realms_topics

  unfoldable pub add_to_failure_queue : Fields → Exec S (Unit {0})
  add_to_failure_queue content = do
    ts ← now
    let message : SimpleMessage = record { publisher_name = udm_pre_fill; ts = ts; body = content }
    Mq.add_message js failures_stream failures_stream (dump_simple_message message) codec.dumps

  -- What follows the validation of the request.
  unfoldable pub handle_validated : Option ℕ → MqMessage → PrefillMessage → Exec S (Unit {0})
  handle_validated max_prefill_attempts message validated_message =
      if attempts_exceeded max_prefill_attempts message.num_delivered
      then (do
        add_to_failure_queue message.content
        update_status validated_message.subscription_name failed)
      else (do fill validated_message; update_status validated_message.subscription_name done)

  unfoldable pub handle_message : Option ℕ → MqMessage → Exec S (Unit {0})
  handle_message max_prefill_attempts message = do
    validated_message ← lift (validate_prefill_message c message.content)
    handle_validated max_prefill_attempts message validated_message

-- The handler among the extensions of its acknowledgement, and the loop around it.
module _ {S B : Type 0} (codec : Codec B) (js : JetStream S B) (c : Conversions) (udm : Http S)
    (udm_url : String) (api : Http S) (api_url : String) (now : Exec S String)
    (fullmatch : String → String → Result Bool) where
  -- Of the calls of the handler only `datetime.now` is not waited for.
  abbrev pub interleaved_handler : Option ℕ → MqMessage → Msg B → Exec (S × List Bool) (Unit {0})
  interleaved_handler max_prefill_attempts message msg =
      handle_message codec (interleaved_js (js.in_progress msg) js) c
        (interleaved_http (js.in_progress msg) udm) udm_url
        (interleaved_http (js.in_progress msg) api) api_url (at_once now) fullmatch
        max_prefill_attempts message

  -- The `except` clauses around the processing; the flag tells whether to go on to the
  -- acknowledgement, and not to `continue`.
  on_error : Msg B → Exn → Exec S Bool
  on_error msg prefill_failed = do js.nak msg; pure false
  on_error msg e = do js.nak msg; raise e

  -- `except Empty: continue`
  on_empty : Exn → Exec S (Option (MqMessage × Msg B))
  on_empty empty_queue = pure none
  on_empty e = raise e

  unfoldable pub process_request :
      Option ℕ → List Bool → Option (MqMessage × Msg B) → Exec S (Unit {0})
  unfolding on_error
  process_request max_prefill_attempts schedule none = pure tt
  process_request max_prefill_attempts schedule (some (message, msg)) = do
    processed ←
        try
          (do
            process_interleaved_message (interleaved_handler max_prefill_attempts message msg)
                schedule
            pure true)
          (on_error msg)
    if processed then js.ack msg else pure tt

  -- One round of the loop of `handle_requests_to_prefill`.
  unfoldable pub handle_request :
      Option ℕ → List Bool → String × String × String → Exec S (Unit {0})
  unfolding process_request on_empty
  handle_request max_prefill_attempts schedule subscription = do
    request ←
        try (do found ← Mq.get_one_message js codec.loads c subscription 10000; pure (some found))
          on_empty
    process_request max_prefill_attempts schedule request

  -- What comes before the loop: the stream for failures, and the queue of the requests.
  unfoldable pub prepare_prefill : Exec S (String × String × String)
  prepare_prefill = do
    Mq.ensure_stream js failures_stream false none
    Mq.ensure_consumer js failures_stream none
    Mq.initialize_subscription js prefill_stream false none

  -- As many rounds of the endless loop as there are schedules, and what comes before them.
  unfoldable pub serve_requests :
      Option ℕ → String × String × String → List (List Bool) → Exec S (Unit {0})
  serve_requests max_prefill_attempts subscription rounds =
      for_each (λ schedule. handle_request max_prefill_attempts schedule subscription) rounds

  unfoldable pub handle_requests_to_prefill : Option ℕ → List (List Bool) → Exec S (Unit {0})
  handle_requests_to_prefill max_prefill_attempts rounds = do
    subscription ← prepare_prefill
    serve_requests max_prefill_attempts subscription rounds
