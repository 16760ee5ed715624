-- ===== src/Models/Queue.antt =====
-- `src/univention/provisioning/models/queue.py`. A datetime is kept by its ISO text.
pub mod Laws
pub mod Publishers
use provisioning_api.Base.{ℕ, String, ◌<>◌, Option, none, some, List, ◌==◌, if◌then◌else◌}
use provisioning_api.Base.Exec.{Result, ok, raised, validation_error}
use provisioning_api.Models.Json.{Json, Fields, str, arr, obj, no_fields, field, get_field, truthy}
use provisioning_api.Models.Pydantic.{Conversions}
use provisioning_api.Models.Subscription.{RealmTopic, dump_realms_topics, as_str, as_realms_topics}

-- `PREFILL_SUBJECT_TEMPLATE.format(...)` and `DISPATCHER_SUBJECT_TEMPLATE.format(...)`
unfoldable pub prefill_subject : String → String
prefill_subject subscription = subscription <> ".prefill"

unfoldable pub dispatcher_subject : String → String
dispatcher_subject subscription = subscription <> ".main"

abbrev pub prefill_stream : String
prefill_stream = "prefill"

abbrev pub dispatcher_stream : String
dispatcher_stream = "incoming"

abbrev pub ldif_stream : String
ldif_stream = "ldif-producer"

abbrev pub ldif_subject : String
ldif_subject = "ldif-producer-subject"

abbrev pub ldap_stream : String
ldap_stream = "ldap-producer"

abbrev pub ldap_subject : String
ldap_subject = "ldap-producer-subject"

pub data PublisherName : Type 0 where
  udm_listener ldif_producer udm_pre_fill consumer_registration : PublisherName
  consumer_client_test : PublisherName

unfoldable pub publisher_value : PublisherName → String
publisher_value udm_listener = "udm-listener"
publisher_value ldif_producer = "ldif-producer"
publisher_value udm_pre_fill = "udm-pre-fill"
publisher_value consumer_registration = "consumer-registration"
publisher_value consumer_client_test = "consumer_client_test"

pub publisher_of_value : String → Option PublisherName
publisher_of_value v =
    if v == "udm-listener"
    then some udm_listener
    else if v == "ldif-producer"
    then some ldif_producer
    else if v == "udm-pre-fill"
    then some udm_pre_fill
    else if v == "consumer-registration"
    then some consumer_registration
    else if v == "consumer_client_test"
    then some consumer_client_test
    else none

pub record Body : Type 0 where
  pub old : Fields
  pub new : Fields

pub record SimpleMessage : Type 0 where
  pub publisher_name : PublisherName
  pub ts : String
  pub body : Fields

pub record Message : Type 0 where
  pub publisher_name : PublisherName
  pub ts : String
  pub realm : String
  pub topic : String
  pub body : Body

pub record PrefillMessage : Type 0 where
  pub publisher_name : PublisherName
  pub ts : String
  pub subscription_name : String
  pub realms_topics : List RealmTopic

pub record MqMessage : Type 0 where
  pub subject : String
  pub reply : String
  pub content : Fields
  pub num_delivered : ℕ
  pub sequence_number : ℕ
  pub headers : Option (List (String × String))

pub record ProvisioningMessage : Type 0 where
  pub message : Message
  pub sequence_number : ℕ
  pub num_delivered : ℕ

-- `model_dump()`
unfoldable pub dump_message : Message → Fields
dump_message m = field "publisher_name" (str (publisher_value m.publisher_name)) (
    field "ts" (str m.ts) (
      field "realm" (str m.realm) (
        field "topic" (str m.topic) (
          field "body" (obj (field "old" (obj m.body.old) (field "new" (obj m.body.new) no_fields)))
            no_fields))))

unfoldable pub dump_simple_message : SimpleMessage → Fields
dump_simple_message m =
    field "publisher_name" (str (publisher_value m.publisher_name))
      (field "ts" (str m.ts) (field "body" (obj m.body) no_fields))

unfoldable pub dump_prefill_message : PrefillMessage → Fields
dump_prefill_message m = field "publisher_name" (str (publisher_value m.publisher_name)) (
    field "ts" (str m.ts) (
      field "subscription_name" (str m.subscription_name)
        (field "realms_topics" (arr (dump_realms_topics m.realms_topics)) no_fields)))

-- The validator `set_empty_dict`, `v or {}`, and the annotation `Dict[str, Any]` behind it.
set_empty_dict : Json → Json
set_empty_dict v = if truthy v then v else obj no_fields

as_dict : Json → Option Fields
as_dict (obj fs) = some fs
as_dict _ = none

pub body_field : Option Json → Option Fields
body_field none = none
body_field (some v) = as_dict (set_empty_dict v)

build_body : Option Fields → Option Fields → Option Body
build_body (some old) (some new) = some (record { old = old; new = new })
build_body _ _ = none

as_body : Option Json → Option Body
as_body (some (obj fs)) =
    build_body (body_field (get_field "old" fs)) (body_field (get_field "new" fs))
as_body _ = none

as_publisher : Option Json → Option PublisherName
as_publisher (some (str s)) = publisher_of_value s
as_publisher _ = none

build_message :
    Option PublisherName
    → Option String
    → Option String
    → Option String
    → Option Body
    → Result Message
build_message (some p) (some t) (some r) (some topic) (some b) =
    ok (record { publisher_name = p; ts = t; realm = r; topic = topic; body = b })
build_message _ _ _ _ _ = raised validation_error

build_prefill_message :
    Option PublisherName
    → Option String
    → Option String
    → Option (List RealmTopic)
    → Result PrefillMessage
build_prefill_message (some p) (some t) (some n) (some rts) =
    ok (record { publisher_name = p; ts = t; subscription_name = n; realms_topics = rts })
build_prefill_message _ _ _ _ = raised validation_error

module _ (c : Conversions) where
  as_ts : Option Json → Option String
  as_ts (some j) = c.as_datetime j
  as_ts none = none

  -- `Message.model_validate`, of a dictionary
  unfoldable pub validate_message : Fields → Result Message
  unfolding as_ts build_message as_body build_body body_field as_dict set_empty_dict as_publisher
      publisher_of_value
  validate_message fs =
      build_message (as_publisher (get_field "publisher_name" fs)) (as_ts (get_field "ts" fs))
        (as_str (get_field "realm" fs)) (as_str (get_field "topic" fs))
        (as_body (get_field "body" fs))

  -- `PrefillMessage.model_validate`, of a dictionary
  unfoldable pub validate_prefill_message : Fields → Result PrefillMessage
  unfolding as_ts build_prefill_message as_publisher publisher_of_value
  validate_prefill_message fs =
      build_prefill_message (as_publisher (get_field "publisher_name" fs))
        (as_ts (get_field "ts" fs)) (as_str (get_field "subscription_name" fs))
        (as_realms_topics (get_field "realms_topics" fs))
