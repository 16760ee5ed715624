-- ===== src/Transformer.antt =====
-- `UDMMessagingService` of `src/udm_transformer/service/udm.py`, `UDMTransformerController` of
-- `src/udm_transformer/controller.py`, and what `src/udm_transformer/port.py` adds to the adapters.
-- A byte string of an LDAP entry is kept by the text that it decodes to. UDM itself, of which the
-- repository has no source, is the parameter `modules`.
pub mod Cache
pub mod Failures
pub mod Trace
pub mod Loop
pub mod Values
use provisioning_api.Base.{
  ℕ, String, Bool, true, false, not, ◌||◌, Option, none, some, List, [], ◌∷◌, ◌==◌, if◌then◌else◌,
}
use provisioning_api.Base.Exec.{
  Exec, Exn, Result, ok, raised, and_then, pure, raise, lift, try, for_each, ◌>>=◌, ◌>>◌,
  empty_queue, key_error, index_error, attribute_error, type_error, validation_error,
  module_not_found,
}
use provisioning_api.Models.Json.{
  Json, Items, Fields, str, arr, obj, no_items, item, no_fields, field, get_field, truthy,
  fields_truthy,
}
use provisioning_api.Models.Pydantic.{Conversions}
use provisioning_api.Models.Subscription.{Bucket, cache}
use provisioning_api.Models.Queue.{
  PublisherName, udm_listener, ldif_producer, Message, MqMessage, validate_message, ldif_stream,
  ldif_subject, ldap_stream, ldap_subject,
}
use provisioning_api.Nats.{Codec, KeyValue, JetStream, Msg}
use provisioning_api.Adapter.Kv.{text, get_dict_value, put_value}
use provisioning_api.Adapter.Mq
use provisioning_api.Adapter.Rest
use provisioning_api.Adapter.Rest.{Http}
use provisioning_api.AckManager.Interleaved.{
  at_once, interleaved_js, interleaved_kv, interleaved_http, process_interleaved_message,
}
use provisioning_api.Transformer.Values.{
  supported_object_types, udm_modules_reload_trigger, is_in, triggers_reload, first_text,
  first_value, object_type_of, new_or_old, option_truthy, as_cached, without_type, known_type,
  event_type, as_topic, or_empty, source_stream, source_subject,
}

-- `UDM_Module(...)` for an object type, which raises `ModuleNotFound` in `_get_module`; the
-- representation of an entry by its object type and its DN; `importlib.reload` of the modules.
pub record UdmModules (S : Type 0) : Type 0 where
  pub get_module : String → Exec S (Unit {0})
  pub representation : String → String → Fields → Exec S Fields
  pub reload : Exec S (Unit {0})

module _ {S B : Type 0} (codec : Codec B) (kv : KeyValue S B) (js : JetStream S B) (c : Conversions)
    (modules : UdmModules S) (api : Http S) (api_url : String) (now : Exec S String)
    (ldap_publisher_name : PublisherName) where
  unfoldable pub reload_udm : Fields → Exec S (Unit {0})
  reload_udm entry = do
    triggers ← lift (triggers_reload (get_field "objectType" entry))
    if triggers then modules.reload else pure tt

  unfoldable pub retrieve : String → Exec S Fields
  retrieve dn = do result ← get_dict_value codec kv dn cache; lift (as_cached result)

  -- `new_obj["uuid"]` is a text.
  uuid_of : Option Json → Result String
  uuid_of none = raised key_error
  uuid_of (some (str s)) = ok s
  uuid_of (some _) = raised type_error

  unfoldable pub store : Fields → Exec S (Unit {0})
  unfolding uuid_of
  store new = do
    uuid ← lift (uuid_of (get_field "uuid" new))
    put_value codec kv uuid (text (codec.dumps (obj new))) cache none

  publish_event : Option Fields → Fields → Option Json → Exec S (Unit {0})
  publish_event new old none = pure tt
  publish_event new old (some object_type) = do
    ts ← now
    topic ← lift (as_topic object_type)
    Rest.send_event api api_url (record {
      publisher_name = ldap_publisher_name;
      ts = ts;
      realm = "udm";
      topic = topic;
      body = record { old = old; new = or_empty new };
    })

  unfoldable pub send_event : Option Fields → Fields → Exec S (Unit {0})
  unfolding publish_event
  send_event new old =
      if not (option_truthy new || fields_truthy old)
      then pure tt
      else (do object_type ← lift (event_type new old); publish_event new old object_type)

  -- The `except` clauses; `none` is the `None` of the last one.
  on_error : String → Exn → Exec S (Option Fields)
  on_error object_type module_not_found = pure (some no_fields)
  on_error object_type e = if is_in object_type supported_object_types then raise e else pure none

  transform : Fields → Option String → Exec S (Option Fields)
  unfolding on_error
  transform entry none = pure (some no_fields)
  transform entry (some object_type) =
      try
        (do
          modules.get_module object_type
          dn ← lift (first_value "entryDN" entry)
          found ← modules.representation object_type dn entry
          pure (some found))
        (on_error object_type)

  unfoldable pub ldap_to_udm : Fields → Exec S (Option Fields)
  unfolding transform
  ldap_to_udm entry = do object_type ← lift (object_type_of entry); transform entry object_type

  unfoldable pub old_of : Fields → Exec S Fields
  old_of entry =
      if fields_truthy entry
      then (do uuid ← lift (first_value "entryUUID" entry); retrieve uuid)
      else pure no_fields

  -- `if new: await self.store(new)`
  store_if : Option Fields → Exec S (Unit {0})
  store_if none = pure tt
  store_if (some new) = if fields_truthy new then store new else pure tt

  new_of : Fields → Exec S (Option Fields)
  unfolding store_if
  new_of entry =
      if fields_truthy entry
      then (do new ← ldap_to_udm entry; store_if new; pure new)
      else pure (some no_fields)

  unfoldable pub handle_changes : Fields → Fields → Exec S (Unit {0})
  unfolding old_of new_of
  handle_changes new_obj old_obj = do
    old ← old_of old_obj
    new ← new_of new_obj
    reload_udm (new_or_old new old)
    send_event new old

-- The calls on UDM are not waited for.
abbrev pub unawaited : {S : Type 0} → UdmModules S → UdmModules (S × List Bool)
unawaited modules = record {
  get_module = λ t. at_once (modules.get_module t);
  representation = λ t dn entry. at_once (modules.representation t dn entry);
  reload = at_once modules.reload;
}

-- The handler among the extensions of its acknowledgement, and the loop around it.
module _ {S B : Type 0} (codec : Codec B) (kv : KeyValue S B) (js : JetStream S B) (c : Conversions)
    (modules : UdmModules S) (api : Http S) (api_url : String) (now : Exec S String)
    (ldap_publisher_name : PublisherName) where
  abbrev pub interleaved_handler : Message → Msg B → Exec (S × List Bool) (Unit {0})
  interleaved_handler message msg =
      handle_changes codec (interleaved_kv (js.in_progress msg) kv)
        (interleaved_js (js.in_progress msg) js) c (unawaited modules)
        (interleaved_http (js.in_progress msg) api) api_url (at_once now) ldap_publisher_name
        message.body.new message.body.old

  -- `UDMTransformerController`
  unfoldable pub handle_message : List Bool → Message → Msg B → Exec S (Unit {0})
  handle_message schedule message msg =
      try (process_interleaved_message (interleaved_handler message msg) schedule)
        (λ e. do js.nak msg; raise e)

  -- `except Empty: continue`
  on_empty : Exn → Exec S (Option (MqMessage × Msg B))
  on_empty empty_queue = pure none
  on_empty e = raise e

  transform_message : List Bool → Option (MqMessage × Msg B) → Exec S (Unit {0})
  transform_message schedule none = pure tt
  transform_message schedule (some (message, msg)) = do
    validated_message ← lift (validate_message c message.content)
    handle_message schedule validated_message msg
    js.ack msg

  -- One round of the loop of `transform_events`.
  unfoldable pub transform_event : List Bool → String × String × String → Exec S (Unit {0})
  unfolding on_empty transform_message
  transform_event schedule subscription = do
    found ←
        try
          (do
            message ← Mq.get_one_message js codec.unpack c subscription 10000
            pure (some message))
          on_empty
    transform_message schedule found

  -- What comes before the loop.
  unfoldable pub start_transform : Exec S (String × String × String)
  start_transform = do
    stream ← lift (source_stream ldap_publisher_name)
    subject ← lift (source_subject ldap_publisher_name)
    Mq.initialize_subscription js stream false (some subject)

  -- As many rounds of the endless loop as there are schedules, and what comes before them.
  unfoldable pub serve_changes : String × String × String → List (List Bool) → Exec S (Unit {0})
  serve_changes subscription rounds =
      for_each (λ schedule. transform_event schedule subscription) rounds

  unfoldable pub transform_events : List (List Bool) → Exec S (Unit {0})
  transform_events rounds = do subscription ← start_transform; serve_changes subscription rounds
