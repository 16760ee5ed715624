-- ===== src/Models/Queue/Laws.antt =====
-- Dumping and validating the messages of the queues.
use provisioning_api.Base.{some, ◌≡◌, refl}
use provisioning_api.Base.Exec.{ok}
use provisioning_api.Models.Json.{Fields, str, obj, no_fields, field, get_field}
use provisioning_api.Models.Pydantic.{Conversions}
use provisioning_api.Models.Subscription.{as_realms_topics, as_str}
use provisioning_api.Models.Subscription.Laws.{realm_topic_items-dump}
use provisioning_api.Models.Queue.{
  PublisherName, udm_listener, ldif_producer, udm_pre_fill, consumer_registration,
  consumer_client_test, Message, PrefillMessage, publisher_value, publisher_of_value, as_publisher,
  as_ts, body_field, as_dict, set_empty_dict, as_body, build_body, build_message,
  build_prefill_message, dump_message, dump_prefill_message, validate_message,
  validate_prefill_message,
}

pub publisher_of_value-publisher_value :
    (p : PublisherName) → publisher_of_value (publisher_value p) ≡ some p
unfolding publisher_of_value publisher_value
publisher_of_value-publisher_value udm_listener = refl
publisher_of_value-publisher_value ldif_producer = refl
publisher_of_value-publisher_value udm_pre_fill = refl
publisher_of_value-publisher_value consumer_registration = refl
publisher_of_value-publisher_value consumer_client_test = refl

pub body_field-obj : (fs : Fields) → body_field (some (obj fs)) ≡ some fs
unfolding body_field as_dict set_empty_dict
body_field-obj no_fields = refl
body_field-obj (field k v rest) = refl

module _ (c : Conversions) where
  -- Validating what `model_dump` made of a message gives the message back, with its body, where the
  -- timestamp is a text that reads as itself; and so it is with a request to prefill.
  pub validate_message-dump_message :
      ((m : Message)
        → c.as_datetime (str m.ts) ≡ some m.ts
        → validate_message c (dump_message m) ≡ ok m)
      × ((p : PrefillMessage)
          → c.as_datetime (str p.ts) ≡ some p.ts
          → validate_prefill_message c (dump_prefill_message p) ≡ ok p)
  unfolding validate_message dump_message validate_prefill_message dump_prefill_message get_field
      as_publisher as_ts as_body build_body build_message build_prefill_message as_str
      as_realms_topics
  validate_message-dump_message = (
    (λ m h. rw (
      publisher_of_value-publisher_value,
      body_field-obj m.body.old,
      body_field-obj m.body.new,
      h,
    )),
    (λ p h. rw (publisher_of_value-publisher_value, realm_topic_items-dump, h)),
  )
