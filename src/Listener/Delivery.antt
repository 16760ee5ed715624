-- ===== src/Listener/Delivery.antt =====
-- What the transformer reads of what the listener writes.
use provisioning_api.Base.{String, some, List, [], ◌∷◌, ◌++◌, ◌≡◌, refl, ◌∙◌}
use provisioning_api.Base.Exec.{Exec, Result, ok, raised}
use provisioning_api.Models.Json.{Json, Fields, str, obj}
use provisioning_api.Models.Pydantic.{Conversions}
use provisioning_api.Models.Queue.{
  Message, dump_message, validate_message, ldap_stream, ldap_subject,
}
use provisioning_api.Models.Queue.Laws.{validate_message-dump_message}
use provisioning_api.Nats.{Codec, JetStream, Msg}
use provisioning_api.Nats.Journal.{Publication, IsJournal}
use provisioning_api.Adapter.Mq
use provisioning_api.Adapter.Mq.{stream_key}
use provisioning_api.Listener.{change_message, handle_changes}

module _ {S B : Type 0} (codec : Codec B) (js : JetStream S B) (now : Exec S String)
    (c : Conversions) {published : S → List (Publication B)} {acked : S → List (Msg B)}
    (J : IsJournal js published acked) (published-now : (s : S) → published (now s).1 ≡ published s)
    (unpack-pack : (j : Json) → codec.unpack (codec.pack j) ≡ some j) (new old : Fields)
    (s : S) where
  abbrev pub changed : Result (Unit {0}) × S
  changed = handle_changes codec js now new old s

  -- One message was published, to the subject and the stream that the transformer reads; what it
  -- unpacks to validates as a message with the two entries.
  pub record Announced (t : S) : Type 0 where
    pub content : B
    pub fields : Fields
    pub message : Message
    pub published_then :
        published t
        ≡ published s
          ++ (record { subject = ldap_subject; content = content; stream = stream_key ldap_stream }
              ∷ [])
    pub unpacked : codec.unpack content ≡ some (obj fields)
    pub validated : validate_message c fields ≡ ok message
    pub new_then : message.body.new ≡ new
    pub old_then : message.body.old ≡ old

  by_clock :
      (r : Result String)
      → (now s).0 ≡ r
      → ((t : String) → (now s).0 ≡ ok t → c.as_datetime (str t) ≡ some t)
      → changed.0 ≡ ok tt
      → Announced changed.1
  unfolding handle_changes Mq.add_message change_message
  by_clock (raised x) e iso = rw e (λ h. cc)
  by_clock (ok ts) e iso = rw e (λ h. record {
    content = codec.pack (obj (dump_message (change_message ts new old)));
    fields = dump_message (change_message ts new old);
    message = change_message ts new old;
    published_then = J.published-publish _ _ _ (now s).1 ∙ rw (h, published-now);
    unpacked = unpack-pack _;
    validated = (validate_message-dump_message c).0 (change_message ts new old) (iso ts e);
    new_then = refl;
    old_then = refl;
  })

  -- Where the listener's handling of a change ends without an exception, one message was published,
  -- to the queue that the transformer reads with its publisher name, and what the transformer
  -- unpacks and validates of it has the entries of the change, an empty one included.
  pub handle_changes_announces :
      ((t : String) → (now s).0 ≡ ok t → c.as_datetime (str t) ≡ some t)
      → changed.0 ≡ ok tt
      → Announced changed.1
  handle_changes_announces = by_clock (now s).0 refl
