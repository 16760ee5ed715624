-- ===== src/Listener.antt =====
-- `handle_changes` and `ensure_stream` of `provisioning-listener/provisioning_listener/service.py`,
-- their port, and the handlers of `ldap_listener.py`, which run them to their end. The listener has
-- a copy of the NATS adapter, with the same calls. An attribute of LDAP has a list of byte strings.
pub mod Delivery
use provisioning_api.Base.{String, false, some, [], ◌∷◌}
use provisioning_api.Base.Exec.{Exec, ◌>>=◌}
use provisioning_api.Models.Json.{Fields, no_fields}
use provisioning_api.Models.Queue.{Message, ldif_producer, dump_message, ldap_stream, ldap_subject}
use provisioning_api.Nats.{Codec, JetStream}
use provisioning_api.Adapter.Mq

unfoldable pub change_message : String → Fields → Fields → Message
change_message ts new old = record {
  publisher_name = ldif_producer;
  ts = ts;
  realm = "ldap";
  topic = "ldap";
  body = record { old = old; new = new };
}

module _ {S B : Type 0} (codec : Codec B) (js : JetStream S B) (now : Exec S String) where
  -- `LdapListener.initialize`
  unfoldable pub ensure_stream : Exec S (Unit {0})
  ensure_stream = Mq.ensure_stream js ldap_stream false (some (ldap_subject ∷ []))

  unfoldable pub handle_changes : Fields → Fields → Exec S (Unit {0})
  handle_changes new old = do
    ts ← now
    Mq.add_message js ldap_stream ldap_subject (dump_message (change_message ts new old)) codec.pack

  unfoldable pub create : Fields → Exec S (Unit {0})
  create new = handle_changes new no_fields

  unfoldable pub modify : Fields → Fields → Exec S (Unit {0})
  modify old new = handle_changes new old

  unfoldable pub remove : Fields → Exec S (Unit {0})
  remove old = handle_changes no_fields old
