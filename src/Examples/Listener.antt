-- ===== src/Examples/Listener.antt =====
-- The listener in memory, and messages that are dumped and validated.
use provisioning_api.Models.Queue.{ldif_producer}
use provisioning_api.Models.Queue.Publishers.{
  LdifProducerMessage, modify, dump_ldif_message, as_message, validate_message-dump_ldif_message,
}
use provisioning_api.Base.{◌≡◌, refl}
use provisioning_api.Base.Exec.{ok}
use provisioning_api.Models.Json.{Fields, str, arr, item, no_items, no_fields, field}
use provisioning_api.Models.Queue.{validate_message}
use provisioning_api.Models.Json.{str}
use provisioning_api.Adapter.Mq.{add_message}
use provisioning_api.Listener.{handle_changes}
use provisioning_api.Listener.Delivery.{Announced, handle_changes_announces}
use provisioning_api.Memory.{blank, codec, js, conversions, clock}
use provisioning_api.Memory.Laws.{js-IsJournal}

abbrev modified : LdifProducerMessage
modified = record {
  publisher_name = ldif_producer;
  ts = "2025-01-01T00:00:00";
  realm = "ldap";
  topic = "ldap";
  body = record {
    old = no_fields;
    new = field "entryDN" (arr (item (str "cn=a") no_items)) no_fields;
    ldap_request_type = modify;
    binddn = "cn=admin";
    message_id = 2;
    request_id = "a";
  };
}

validate_message-dump_ldif_message_example :
    validate_message conversions (dump_ldif_message modified) ≡ ok (as_message modified)
validate_message-dump_ldif_message_example =
    validate_message-dump_ldif_message conversions modified refl

abbrev entry : Fields
entry = field "entryDN" (arr (item (str "cn=a") no_items)) no_fields

announced_ok : (handle_changes codec js clock.now entry no_fields blank).0 ≡ ok tt
unfolding handle_changes add_message
announced_ok = refl

handle_changes_announces_example :
    Announced codec js clock.now conversions js-IsJournal
      (λ s. refl)
      (λ j. refl)
      entry
      no_fields
      blank
      (handle_changes codec js clock.now entry no_fields blank).1
handle_changes_announces_example =
    handle_changes_announces codec js clock.now conversions js-IsJournal (λ s. refl) (λ j. refl)
      entry no_fields blank (λ t e. refl) announced_ok
