-- ===== src/Transformer/Failures.antt =====
-- What becomes of an entry that UDM does not represent.
use provisioning_api.Base.{String, true, Option, some, none, ◌≡◌, ◌≢◌, arith, if◌then◌else◌}
use provisioning_api.Base.Exec.{Exec, Exn, Result, ok, raised, module_not_found}
use provisioning_api.Models.Json.{Json, Fields, no_fields, get_field, fields_truthy, truthy}
use provisioning_api.Models.Pydantic.{Conversions}
use provisioning_api.Models.Queue.{PublisherName}
use provisioning_api.Nats.{Codec, KeyValue, JetStream}
use provisioning_api.Adapter.Rest.{Http}
use provisioning_api.Transformer.{
  UdmModules, ldap_to_udm, handle_changes, send_event, old_of, new_of, transform, on_error,
  store_if, publish_event,
}
use provisioning_api.Transformer.Values.{
  object_type_of, is_in, supported_object_types, new_or_old, first_value, event_type, known_type,
  or_empty, option_truthy,
}

module _ {S B : Type 0} (codec : Codec B) (kv : KeyValue S B) (js : JetStream S B) (c : Conversions)
    (modules : UdmModules S) (api : Http S) (api_url : String) (now : Exec S String)
    (ldap_publisher_name : PublisherName) (entry : Fields) (object_type : String) (s : S) where
  abbrev pub transformed : Result (Option Fields) × S
  transformed = ldap_to_udm codec kv js c modules api api_url now ldap_publisher_name entry s

  -- UDM knows the object type, and then raises.
  abbrev pub Unrepresented : Exn → S → Type 0
  Unrepresented e t =
      (dn : String) × ((modules.get_module object_type s).0 ≡ ok tt)
      × (first_value "entryDN" entry ≡ ok dn)
      × (modules.representation object_type dn entry (modules.get_module object_type s).1
          ≡ (raised e, t))

  on_error_lem :
      (e : Exn) (t : S)
      → e ≢ module_not_found
      → on_error codec kv js c modules api api_url now ldap_publisher_name object_type e t
        ≡ (if is_in object_type supported_object_types then raised e else ok none, t)
  unfolding on_error
  on_error_lem e t other = ground arith

  -- An entry of a type that UDM has no module for comes out empty. Where UDM has the module and
  -- raises, the exception comes through for a supported type; for another type, nothing comes out.
  pub ldap_to_udm_failures :
      object_type_of entry ≡ ok (some object_type)
      → ((t : S)
          → modules.get_module object_type s ≡ (raised module_not_found, t)
          → transformed ≡ (ok (some no_fields), t))
        × ((e : Exn) (t : S)
            → e ≢ module_not_found
            → Unrepresented e t
            → transformed
              ≡ (if is_in object_type supported_object_types then raised e else ok none, t))
  unfolding ldap_to_udm transform
  ldap_to_udm_failures h =
      ((λ t m. rw (h, m)), (λ e t other (dn, m, d, r). rw (h, m, d, r) (on_error_lem e t other)))

  -- A dictionary that an event can be sent for.
  abbrev pub HasType : Fields → Type 0
  HasType old =
      (j : Json) × (fields_truthy old ≡ true)
      × (get_field "objectType" old ≡ some j)
      × (truthy j ≡ true)

  event_type-none :
      (old : Fields) (j : Json)
      → get_field "objectType" old ≡ some j
      → truthy j ≡ true
      → (event_type none old ≡ ok (some j)) × (event_type (some no_fields) old ≡ ok (some j))
  unfolding event_type known_type new_or_old
  event_type-none old j typed truth = (rw (typed, truth), rw (typed, truth))

  send_event-none :
      (old : Fields) (t : S)
      → HasType old
      → send_event codec kv js c modules api api_url now ldap_publisher_name none old t
        ≡ send_event codec kv js c modules api api_url now ldap_publisher_name
            (some no_fields)
            old
            t
  unfolding send_event option_truthy publish_event or_empty
  send_event-none old t (j, filled, typed, truth) =
      let (e, f) = event_type-none old j typed truth in rw (filled, e, f)

  send_event_deletes :
      (old : Fields)
      → HasType old
      → send_event codec kv js c modules api api_url now ldap_publisher_name none old
        ≡ send_event codec kv js c modules api api_url now ldap_publisher_name (some no_fields) old
  send_event_deletes old typed = λ i t. send_event-none old t typed i

  -- Where nothing comes out of a changed entry, the cached object before the change is sent as if
  -- the entry had been deleted: the handling is the same as for a change to no entry.
  pub handle_changes_of_failure :
      (old_entry old : Fields)
      → fields_truthy entry ≡ true
      → old_of codec kv js c modules api api_url now ldap_publisher_name old_entry s ≡ (ok old, s)
      → HasType old
      → transformed ≡ (ok none, s)
      → handle_changes codec kv js c modules api api_url now ldap_publisher_name entry old_entry s
        ≡ handle_changes codec kv js c modules api api_url now ldap_publisher_name no_fields
            old_entry s
  unfolding handle_changes new_of store_if new_or_old
  handle_changes_of_failure old_entry old changed before typed nothing =
      rw (before, changed, nothing, send_event_deletes old typed)
