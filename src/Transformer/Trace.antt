-- ===== src/Transformer/Trace.antt =====
-- What the transformation of a change does to the world: no more than its calls on the cache, on
-- UDM, on the clock and on the internal API do.
use provisioning_api.Base.{String, ◌||◌, not, Option, none, some}
use provisioning_api.Base.Exec.{Exec, Exn, module_not_found}
use provisioning_api.Base.Steps.{
  Steps, Steps-pure, Steps-raise, Steps-lift, Steps-bind, Steps-lift-bind, Steps-try, Steps-if,
}
use provisioning_api.Models.Json.{Json, Fields, obj, fields_truthy, get_field}
use provisioning_api.Models.Pydantic.{Conversions}
use provisioning_api.Models.Queue.{PublisherName}
use provisioning_api.Models.Subscription.{cache}
use provisioning_api.Nats.{Codec, KeyValue, JetStream}
use provisioning_api.Adapter.Kv.{text, get_dict_value, put_value}
use provisioning_api.Adapter.Rest
use provisioning_api.Adapter.Rest.{Http}
use provisioning_api.Transformer.{
  UdmModules, reload_udm, retrieve, uuid_of, store, publish_event, send_event, on_error, transform,
  ldap_to_udm, old_of, store_if, new_of, handle_changes,
}
use provisioning_api.Transformer.Values.{
  is_in, supported_object_types, triggers_reload, first_value, object_type_of, option_truthy,
  event_type, as_topic, as_cached, new_or_old,
}

module _ {S B : Type 0} (codec : Codec B) (kv : KeyValue S B) (js : JetStream S B) (c : Conversions)
    (modules : UdmModules S) (api : Http S) (api_url : String) (now : Exec S String)
    (ldap_publisher_name : PublisherName) {R : S → S → Type 0} (here : (s : S) → R s s)
    (onward : (s t u : S) → R s t → R t u → R s u)
    (gets : (k : String) → Steps R (get_dict_value codec kv k cache))
    (puts : (uuid : String) (new : Fields)
      → Steps R (put_value codec kv uuid (text (codec.dumps (obj new))) cache none))
    (finds : (t : String) → Steps R (modules.get_module t))
    (represents : (t dn : String) (entry : Fields) → Steps R (modules.representation t dn entry))
    (reloads : Steps R modules.reload) (posts : (u : String) (j : Json) → Steps R (api.post u j))
    (tells : Steps R now) where
  Steps-reload_udm :
      (entry : Fields)
      → Steps R (reload_udm codec kv js c modules api api_url now ldap_publisher_name entry)
  unfolding reload_udm
  Steps-reload_udm entry =
      Steps-lift-bind here (triggers_reload (get_field "objectType" entry)) _
        (λ t e. Steps-if t _ _ (λ _. reloads) (λ _. Steps-pure here tt))

  Steps-retrieve :
      (dn : String)
      → Steps R (retrieve codec kv js c modules api api_url now ldap_publisher_name dn)
  unfolding retrieve
  Steps-retrieve dn =
      Steps-bind here onward (get_dict_value codec kv dn cache) _ (gets dn)
        (λ r. Steps-lift here (as_cached r))

  Steps-store :
      (new : Fields) → Steps R (store codec kv js c modules api api_url now ldap_publisher_name new)
  unfolding store
  Steps-store new =
      Steps-lift-bind here
        (uuid_of codec kv js c modules api api_url now ldap_publisher_name (get_field "uuid" new)) _
        (λ uuid e. puts uuid new)

  Steps-publish_event :
      (new : Option Fields) (old : Fields) (object_type : Option Json)
      → Steps R (
          publish_event codec kv js c modules api api_url now ldap_publisher_name new old
            object_type)
  unfolding publish_event Rest.send_event
  Steps-publish_event new old none = Steps-pure here tt
  Steps-publish_event new old (some object_type) =
      Steps-bind here onward now _ tells
        (λ ts. Steps-lift-bind here (as_topic object_type) _ (λ topic e. posts _ _))

  Steps-send_event :
      (new : Option Fields) (old : Fields)
      → Steps R (send_event codec kv js c modules api api_url now ldap_publisher_name new old)
  unfolding send_event
  Steps-send_event new old =
      Steps-if (not (option_truthy new || fields_truthy old)) _ _ (λ _. Steps-pure here tt)
        (λ _. Steps-lift-bind here (event_type new old) _ (λ t e. Steps-publish_event new old t))

  Steps-on_error :
      (object_type : String) (e : Exn)
      → Steps R (on_error codec kv js c modules api api_url now ldap_publisher_name object_type e)
  unfolding on_error
  Steps-on_error object_type module_not_found = Steps-pure here _
  Steps-on_error object_type e =
      Steps-if (is_in object_type supported_object_types) _ _ (λ _. Steps-raise here e)
        (λ _. Steps-pure here _)

  Steps-transform :
      (entry : Fields) (object_type : Option String)
      → Steps R
          (transform codec kv js c modules api api_url now ldap_publisher_name entry object_type)
  unfolding transform
  Steps-transform entry none = Steps-pure here _
  Steps-transform entry (some object_type) =
      Steps-try here onward _ _
        (Steps-bind here onward (modules.get_module object_type) _ (finds object_type) (λ _.
          Steps-lift-bind here (first_value "entryDN" entry) _ (λ dn e.
            Steps-bind here onward (modules.representation object_type dn entry) _
              (represents object_type dn entry) (λ found. Steps-pure here (some found)))))
        (Steps-on_error object_type)

  Steps-old_of :
      (entry : Fields)
      → Steps R (old_of codec kv js c modules api api_url now ldap_publisher_name entry)
  unfolding old_of
  Steps-old_of entry =
      Steps-if (fields_truthy entry) _ _
        (λ _.
          Steps-lift-bind here (first_value "entryUUID" entry) _ (λ uuid e. Steps-retrieve uuid))
        (λ _. Steps-pure here _)

  Steps-store_if :
      (new : Option Fields)
      → Steps R (store_if codec kv js c modules api api_url now ldap_publisher_name new)
  unfolding store_if
  Steps-store_if none = Steps-pure here tt
  Steps-store_if (some new) =
      Steps-if (fields_truthy new) _ _ (λ _. Steps-store new) (λ _. Steps-pure here tt)

  Steps-new_of :
      (entry : Fields)
      → Steps R (new_of codec kv js c modules api api_url now ldap_publisher_name entry)
  unfolding new_of ldap_to_udm
  Steps-new_of entry =
      Steps-if (fields_truthy entry) _ _
        (λ _.
          Steps-bind here onward
            (ldap_to_udm codec kv js c modules api api_url now ldap_publisher_name entry) _
            (Steps-lift-bind here (object_type_of entry) _ (λ t e. Steps-transform entry t))
            (λ new.
              Steps-bind here onward
                (store_if codec kv js c modules api api_url now ldap_publisher_name new) _
                (Steps-store_if new) (λ _. Steps-pure here new)))
        (λ _. Steps-pure here _)

  pub Steps-handle_changes :
      (new_obj old_obj : Fields)
      → Steps R
          (handle_changes codec kv js c modules api api_url now ldap_publisher_name new_obj old_obj)
  unfolding handle_changes
  Steps-handle_changes new_obj old_obj =
      Steps-bind here onward
        (old_of codec kv js c modules api api_url now ldap_publisher_name old_obj) _
        (Steps-old_of old_obj)
        (λ old.
          Steps-bind here onward
            (new_of codec kv js c modules api api_url now ldap_publisher_name new_obj) _
            (Steps-new_of new_obj)
            (λ new.
              Steps-bind here onward
                (reload_udm codec kv js c modules api api_url now ldap_publisher_name
                  (new_or_old new old))
                _ (Steps-reload_udm _) (λ _. Steps-send_event new old)))
