-- ===== src/Examples/Transformer.antt =====
-- The transformation of entries and the consumer's handler in memory.
use provisioning_api.Base.{◌+◌, ◌≤◌, String, true, false, none, some, [], ◌∷◌, ◌≡◌, ◌≢◌, refl}
use provisioning_api.Base.Exec.{Exn, ok, raised, pure, client_error}
use provisioning_api.Models.Json.{
  Fields, str, obj, arr, item, no_items, no_fields, field, get_field,
}
use provisioning_api.Models.Subscription.{Bucket, cache}
use provisioning_api.Models.Queue.{ProvisioningMessage, udm_listener, ldif_producer}
use provisioning_api.Nats.Kv.{at_key}
use provisioning_api.Transformer.{retrieve, store, ldap_to_udm, handle_changes, old_of}
use provisioning_api.Transformer.Values.{object_type_of, is_in, first_value, as_cached}
use provisioning_api.Adapter.Kv.{get_dict_value}
use provisioning_api.Transformer.Cache.{retrieve-store}
use provisioning_api.Transformer.Failures.{handle_changes_of_failure}
use provisioning_api.Consumer.{Texts, acknowledge_message_with_retries}
use provisioning_api.Consumer.Retries.{acknowledge_message_with_retries_lem}
use provisioning_api.Consumer.Handling.{handled, prepared, handle_one_acknowledges}
use provisioning_api.Memory.{
  World, blank, codec, kv, js, conversions, failing_modules, api, clock, set_value, dumped,
}
use provisioning_api.Memory.Laws.{kv-IsKeyValue, codec-IsCodec, api-IsPatient}

abbrev user : Fields
user = field "uuid" (str "1") (field "objectType" (str "oxmail/unknown") no_fields)

retrieve-store_example :
    let r =
      store codec kv js conversions failing_modules api "api" clock.now ldif_producer user blank in
    (r.0 ≡ ok tt)
    × (retrieve codec kv js conversions failing_modules api "api" clock.now ldif_producer "1" r.1
        ≡ (ok user, r.1))
    × ((b : Bucket) (k : String) → at_key cache "1" b k ≡ false → r.1.value b k ≡ none)
unfolding get_field
retrieve-store_example =
    retrieve-store codec kv js conversions failing_modules api "api" clock.now ldif_producer
      kv-IsKeyValue codec-IsCodec user "1" blank refl refl

-- Entries of LDAP: a changed one of a type that is not supported, and the one before.
abbrev pub entry : Fields
entry =
    field "univentionObjectType" (arr (item (str "oxmail/unknown") no_items))
      (field "entryDN" (arr (item (str "cn=a") no_items)) no_fields)

abbrev pub old_entry : Fields
old_entry = field "entryUUID" (arr (item (str "1") no_items)) no_fields

abbrev pub holding : World
holding = set_value cache "1" (some (dumped (obj user))) blank

entry_type : object_type_of entry ≡ ok (some "oxmail/unknown")
unfolding object_type_of get_field
entry_type = refl

old_found :
    old_of codec kv js conversions failing_modules api "api" clock.now ldif_producer old_entry
      holding
    ≡ (ok user, holding)
unfolding old_of first_value get_field retrieve get_dict_value as_cached
old_found = refl

nothing_found :
    ldap_to_udm codec kv js conversions failing_modules api "api" clock.now ldif_producer entry
      holding
    ≡ (ok none, holding)
unfolding ldap_to_udm object_type_of get_field first_value is_in
nothing_found = refl

handle_changes_of_failure_example :
    handle_changes codec kv js conversions failing_modules api "api" clock.now ldif_producer entry
      old_entry holding
    ≡ handle_changes codec kv js conversions failing_modules api "api" clock.now ldif_producer
        no_fields old_entry holding
unfolding get_field
handle_changes_of_failure_example =
    handle_changes_of_failure codec kv js conversions failing_modules api "api" clock.now
      ldif_producer entry "oxmail/unknown" holding old_entry user refl old_found
      (str "oxmail/unknown", refl, refl, refl) nothing_found

abbrev texts : Texts
texts = record { number = λ n. "7"; ten_seconds = "10" }

abbrev received : ProvisioningMessage
received = record {
  message = record {
    publisher_name = udm_listener;
    ts = "2025-01-01T00:00:00";
    realm = "portal";
    topic = "tile";
    body = record { old = no_fields; new = no_fields };
  };
  sequence_number = 7;
  num_delivered = 1;
}

acknowledge_message_with_retries_lem_example :
    let r =
      acknowledge_message_with_retries api "subs" texts conversions clock "app" 3 received blank in
    (1 ≤ r.1.tries) × (r.1.tries ≤ 0 + 4) × ((x : Exn) → r.0 ≡ raised x → x ≢ client_error)
acknowledge_message_with_retries_lem_example =
    acknowledge_message_with_retries_lem api "subs" texts conversions clock "app" api-IsPatient 3
      received blank

handle_one_acknowledges_example :
    let h =
      handled api "subs" texts conversions clock "app" api-IsPatient
        ((λ m. pure tt) ∷ [])
        received
        ((λ s. refl), tt)
        3
        blank in
    let p =
      prepared api "subs" texts conversions clock "app" api-IsPatient
        ((λ m. pure tt) ∷ [])
        received
        ((λ s. refl), tt)
        3
        blank in
    (p.1.tries ≡ 0)
    × (p.0 ≡ ok tt → 1 ≤ (h true).1.tries)
    × ((x : Exn) → p.0 ≡ raised x → h true ≡ (raised x, p.1))
    × (h false ≡ p)
handle_one_acknowledges_example =
    handle_one_acknowledges api "subs" texts conversions clock "app" api-IsPatient
      ((λ m. pure tt) ∷ []) received ((λ s. refl), tt) 3 blank
