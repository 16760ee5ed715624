-- ===== src/Models/Queue/Publishers.antt =====
-- The message classes of the publishers in `src/univention/provisioning/models/queue.py`:
-- `LDIFProducerMessage` and `UDMMessage`. They inherit the fields of `Message` and `BaseMessage`.
use provisioning_api.Base.{ℕ, String, some, ◌≡◌, ◌==◌, if◌then◌else◌, arith}
use provisioning_api.Base.Exec.{Result, ok, raised, and_then, attribute_error}
use provisioning_api.Models.Json.{Fields, num, str, obj, no_fields, field, get_field}
use provisioning_api.Models.Pydantic.{Conversions}
use provisioning_api.Models.Subscription.{as_str}
use provisioning_api.Models.Queue.{
  PublisherName, Body, Message, publisher_value, as_publisher, as_ts, as_body, build_body,
  build_message, validate_message,
}
use provisioning_api.Models.Queue.Laws.{publisher_of_value-publisher_value, body_field-obj}

pub data LdapRequestType : Type 0 where
  add modify modrdn delete : LdapRequestType

unfoldable pub request_type_value : LdapRequestType → String
request_type_value add = "ADD"
request_type_value modify = "MODIFY"
request_type_value modrdn = "MODRDN"
request_type_value delete = "DELETE"

pub record LdifProducerBody : Type 0 where
  pub old : Fields
  pub new : Fields
  pub ldap_request_type : LdapRequestType
  pub binddn : String
  pub message_id : ℕ
  pub request_id : String

pub record LdifProducerMessage : Type 0 where
  pub publisher_name : PublisherName
  pub ts : String
  pub realm : String
  pub topic : String
  pub body : LdifProducerBody

-- `model_dump()`
unfoldable pub dump_ldif_body : LdifProducerBody → Fields
dump_ldif_body b = field "old" (obj b.old) (
    field "new" (obj b.new) (
      field "ldap_request_type" (str (request_type_value b.ldap_request_type)) (
        field "binddn" (str b.binddn) (
          field "message_id" (num b.message_id)
            (field "request_id" (str b.request_id) no_fields)))))

unfoldable pub dump_ldif_message : LdifProducerMessage → Fields
dump_ldif_message m = field "publisher_name" (str (publisher_value m.publisher_name)) (
    field "ts" (str m.ts) (
      field "realm" (str m.realm)
        (field "topic" (str m.topic) (field "body" (obj (dump_ldif_body m.body)) no_fields))))

pub record UdmMessage : Type 0 where
  pub publisher_name : PublisherName
  pub ts : String
  pub realm : String
  pub topic : String
  pub old : Fields
  pub new : Fields

-- `msg.body.get(key, {})`: a `Body` has no attribute `get`.
unfoldable pub body_get : Body → String → Result Fields
body_get body key = raised attribute_error

unfoldable pub from_message : Message → Result UdmMessage
from_message msg =
    if msg.realm == "udm"
    then (and_then (body_get msg.body "new") λ new. and_then (body_get msg.body "old") λ old.
        ok (record {
          publisher_name = msg.publisher_name;
          ts = msg.ts;
          realm = msg.realm;
          topic = msg.topic;
          old = old;
          new = new;
        }))
    else raised attribute_error

-- No message is taken for one of UDM.
from_message-raises : (msg : Message) → from_message msg ≡ raised attribute_error
unfolding from_message body_get
from_message-raises msg = ground arith

-- The fields that every message has.
abbrev pub as_message : LdifProducerMessage → Message
as_message m = record {
  publisher_name = m.publisher_name;
  ts = m.ts;
  realm = m.realm;
  topic = m.topic;
  body = record { old = m.body.old; new = m.body.new };
}

module _ (c : Conversions) where
  -- A message of the LDIF producer has the type of a message: what `model_dump` made of it, with
  -- its four more fields in the body, validates as the `Message` with the fields that it inherits,
  -- where its timestamp is a text that reads as itself.
  pub validate_message-dump_ldif_message :
      (m : LdifProducerMessage)
      → c.as_datetime (str m.ts) ≡ some m.ts
      → validate_message c (dump_ldif_message m) ≡ ok (as_message m)
  unfolding validate_message dump_ldif_message dump_ldif_body get_field as_publisher as_ts as_body
      build_body build_message as_str
  validate_message-dump_ldif_message m h =
      rw (
        publisher_of_value-publisher_value,
        body_field-obj m.body.old,
        body_field-obj m.body.new,
        h,
      )
