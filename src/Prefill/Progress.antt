-- ===== src/Prefill/Progress.antt =====
-- What a prefill in the making leaves behind, on servers that may fail at any call.
use mathlib.Core.List.{append-nil, append_assoc, map-append}
use provisioning_api.Base.{
  String, Bool, true, false, not, List, [], ◌∷◌, ◌++◌, map, ◌≡◌, refl, sym, ◌∙◌, ◌==◌,
}
use provisioning_api.Base.Exec.{Exec, Result, is_ok}
use provisioning_api.Base.Steps.{
  Steps, Steps-pure, Steps-lift-bind, Steps-bind, Steps-for_each, Steps-if,
}
use provisioning_api.Models.Json.{Json, obj}
use provisioning_api.Models.Pydantic.{Conversions}
use provisioning_api.Models.Subscription.{running, RealmTopic}
use provisioning_api.Models.Queue.{Message, PublisherName, dump_message, prefill_subject}
use provisioning_api.Nats.{Codec, JetStream, Msg}
use provisioning_api.Nats.Journal.{Publication, IsJournal, if_ok}
use provisioning_api.Adapter.Mq
use provisioning_api.Adapter.Mq.{stream_key}
use provisioning_api.Adapter.Rest
use provisioning_api.Adapter.Rest.{Http, status_url, status_report}
use provisioning_api.Adapter.Rest.Reads.{
  get_object_world, list_objects_world, get_object_types_world,
}
use provisioning_api.Prefill.{
  matching_modules, update_status, create_prefill_message, fill_object, fill_udm_topic, fetch_udm,
  fill_realm_topic, fill,
}

-- `reported` are the reports that the internal API took, with their addresses. Reading objects and
-- the time and removing old messages leave no trace in the journals.
pub record IsPrefillWorld {S B : Type 0} (js : JetStream S B) (udm api : Http S)
    (now : Exec S String) (published : S → List (Publication B)) (acked : S → List (Msg B))
    (reported : S → List (String × Json)) : Type 0 where
  pub journal : IsJournal js published acked
  pub reported-in_progress : (m : Msg B) (s : S) → reported (js.in_progress m s).1 ≡ reported s
  pub reported-publish :
      (subj : String) (b : B) (n : String) (s : S) → reported (js.publish subj b n s).1 ≡ reported s
  pub reported-patch :
      (u : String) (j : Json) (s : S)
      → reported (api.patch u j s).1 ≡ reported s ++ if_ok (is_ok (api.patch u j s).0) (u, j)
  pub published-patch :
      (u : String) (j : Json) (s : S) → published (api.patch u j s).1 ≡ published s
  pub acked-patch : (u : String) (j : Json) (s : S) → acked (api.patch u j s).1 ≡ acked s
  pub published-get :
      (u : String) (l : List (String × String)) (s : S) → published (udm.get u l s).1 ≡ published s
  pub acked-get :
      (u : String) (l : List (String × String)) (s : S) → acked (udm.get u l s).1 ≡ acked s
  pub reported-get :
      (u : String) (l : List (String × String)) (s : S) → reported (udm.get u l s).1 ≡ reported s
  pub published-now : (s : S) → published (now s).1 ≡ published s
  pub acked-now : (s : S) → acked (now s).1 ≡ acked s
  pub reported-now : (s : S) → reported (now s).1 ≡ reported s
  pub published-purge :
      (n subj : String) (s : S) → published (js.purge_stream n subj s).1 ≡ published s
  pub acked-purge : (n subj : String) (s : S) → acked (js.purge_stream n subj s).1 ≡ acked s
  pub reported-purge :
      (n subj : String) (s : S) → reported (js.purge_stream n subj s).1 ≡ reported s

-- A message in the prefill queue of a subscription.
abbrev pub prefilled : {B : Type 0} → Codec B → String → Message → Publication B
prefilled codec name message = record {
  subject = prefill_subject name;
  content = codec.dumps (obj (dump_message message));
  stream = stream_key name;
}

module _ {S B : Type 0} (codec : Codec B) (js : JetStream S B) (c : Conversions) (udm : Http S)
    (udm_url : String) (api : Http S) (api_url : String) (now : Exec S String)
    (fullmatch : String → String → Result Bool) {published : S → List (Publication B)}
    {acked : S → List (Msg B)} {reported : S → List (String × Json)}
    (W : IsPrefillWorld js udm api now published acked reported) (name : String) where
  abbrev running_report : Unit {0} → String × Json
  running_report _ = (status_url api_url name, status_report running)

  -- From `s` to `t` nothing was reported but that the prefill of `name` is running, nothing was
  -- published but messages to its prefill queue, and nothing was acknowledged.
  pub record Progress (s t : S) : Type 0 where
    pub rounds : List (Unit {0})
    pub messages : List Message
    pub reported_then : reported t ≡ reported s ++ map running_report rounds
    pub published_then : published t ≡ published s ++ map (prefilled codec name) messages
    pub acked_then : acked t ≡ acked s

  same :
      (s t : S)
      → reported t ≡ reported s
      → published t ≡ published s
      → acked t ≡ acked s
      → Progress s t
  same s t r p a = record {
    rounds = [];
    messages = [];
    reported_then = r ∙ sym (append-nil (reported s));
    published_then = p ∙ sym (append-nil (published s));
    acked_then = a;
  }

  here : (s : S) → Progress s s
  here s = same s s refl refl refl

  onward : (s t u : S) → Progress s t → Progress t u → Progress s u
  onward s t u p q = record {
    rounds = p.rounds ++ q.rounds;
    messages = p.messages ++ q.messages;
    reported_then =
        q.reported_then
        ∙ rw (p.reported_then, map-append)
            (append_assoc (reported s) (map running_report p.rounds) (map running_report q.rounds));
    published_then =
        q.published_then
        ∙ rw (p.published_then, map-append)
            (append_assoc (published s) (map (prefilled codec name) p.messages)
              (map (prefilled codec name) q.messages));
    acked_then = q.acked_then ∙ p.acked_then;
  }

  Steps-get : (u : String) (l : List (String × String)) → Steps Progress (udm.get u l)
  Steps-get u l = record {
    at = λ s. same s _ (W.reported-get u l s) (W.published-get u l s) (W.acked-get u l s);
  }

  Steps-now : Steps Progress now
  Steps-now = record { at = λ s. same s _ (W.reported-now s) (W.published-now s) (W.acked-now s) }

  Steps-purge : (n subj : String) → Steps Progress (js.purge_stream n subj)
  Steps-purge n subj = record {
    at = λ s.
        same s _ (W.reported-purge n subj s) (W.published-purge n subj s) (W.acked-purge n subj s);
  }

  abbrev report_running : Exec S (Unit {0})
  report_running = update_status codec js c udm udm_url api api_url now fullmatch name running

  -- A call that may fail adds one entry or none.
  one_report :
      (b : Bool) (s t : S)
      → reported t ≡ reported s ++ if_ok b (running_report tt)
      → published t ≡ published s
      → acked t ≡ acked s
      → Progress s t
  one_report true s t r p a = record {
    rounds = tt ∷ [];
    messages = [];
    reported_then = r;
    published_then = p ∙ sym (append-nil (published s));
    acked_then = a;
  }
  one_report false s t r p a = same s t (r ∙ append-nil (reported s)) p a

  one_message :
      (b : Bool) (m : Message) (s t : S)
      → reported t ≡ reported s
      → published t ≡ published s ++ if_ok b (prefilled codec name m)
      → acked t ≡ acked s
      → Progress s t
  one_message true m s t r p a = record {
    rounds = [];
    messages = m ∷ [];
    reported_then = r ∙ sym (append-nil (reported s));
    published_then = p;
    acked_then = a;
  }
  one_message false m s t r p a = same s t r (p ∙ append-nil (published s)) a

  Steps-report : Steps Progress report_running
  unfolding update_status Rest.update_subscription_queue_status
  Steps-report = record {
    at = λ s.
        one_report _ s _ (W.reported-patch _ _ s) (W.published-patch _ _ s) (W.acked-patch _ _ s);
  }

  Steps-publish :
      (m : Message)
      → Steps Progress
          (create_prefill_message codec js c udm udm_url api api_url now fullmatch name m)
  unfolding create_prefill_message Mq.add_message
  Steps-publish m = record {
    at = λ s.
        one_message _ m s _ (W.reported-publish _ _ _ s) (W.journal.published-publish _ _ _ s)
          (W.journal.acked-publish _ _ _ s);
  }

  -- Reading from UDM.
  Progress-get :
      (u : String) (l : List (String × String)) (s t : S) → t ≡ (udm.get u l s).1 → Progress s t
  Progress-get u l s t e =
      rw e (same s _ (W.reported-get u l s) (W.published-get u l s) (W.acked-get u l s))

  Steps-get_object : (url : String) → Steps Progress (Rest.get_object udm udm_url url)
  Steps-get_object url = record {
    at = λ s. Progress-get url [] s _ (get_object_world udm udm_url s url);
  }

  Steps-list_objects :
      (object_type : String) → Steps Progress (Rest.list_objects udm udm_url object_type)
  Steps-list_objects object_type = record {
    at = λ s. Progress-get _ _ s _ (list_objects_world udm udm_url s object_type);
  }

  Steps-get_object_types : Steps Progress (Rest.get_object_types udm udm_url)
  Steps-get_object_types = record {
    at = λ s. Progress-get _ _ s _ (get_object_types_world udm udm_url s);
  }

  Steps-fill_object :
      (object_type url : String)
      → Steps Progress
          (fill_object codec js c udm udm_url api api_url now fullmatch object_type name url)
  unfolding fill_object
  Steps-fill_object object_type url =
      Steps-bind here onward _ _ (Steps-get_object url)
        (λ object. Steps-bind here onward _ _ Steps-now (λ ts. Steps-publish _))

  Steps-fill_udm_topic :
      (object_type : String)
      → Steps Progress
          (fill_udm_topic codec js c udm udm_url api api_url now fullmatch name object_type)
  unfolding fill_udm_topic
  Steps-fill_udm_topic object_type =
      Steps-bind here onward _ _ (Steps-list_objects object_type)
        (λ urls. Steps-for_each here onward _ urls (λ url. Steps-fill_object object_type url))

  Steps-fetch_udm :
      (topic : String)
      → Steps Progress (fetch_udm codec js c udm udm_url api api_url now fullmatch name topic)
  unfolding fetch_udm
  Steps-fetch_udm topic = Steps-bind here onward _ _ Steps-get_object_types (λ modules.
      Steps-lift-bind here (matching_modules fullmatch topic modules) _
        (λ names e. Steps-for_each here onward _ names Steps-fill_udm_topic))

  Steps-fill_realm_topic :
      (rt : RealmTopic)
      → Steps Progress (fill_realm_topic codec js c udm udm_url api api_url now fullmatch name rt)
  unfolding fill_realm_topic
  Steps-fill_realm_topic rt =
      Steps-if (not (rt.realm == "udm")) _ _ (λ _. Steps-pure here tt)
        (λ _. Steps-bind here onward _ _ Steps-report (λ _. Steps-fetch_udm rt.topic))

  pub Steps-fill :
      (ts : String) (p : PublisherName) (rts : List RealmTopic)
      → Steps Progress (
          fill codec js c udm udm_url api api_url now fullmatch
            (record { publisher_name = p; ts = ts; subscription_name = name; realms_topics = rts }))
  unfolding fill Mq.purge_subject_from_messages
  Steps-fill ts p rts =
      Steps-bind here onward _ _ (Steps-purge _ _)
        (λ _. Steps-for_each here onward _ rts Steps-fill_realm_topic)
