-- ===== src/Prefill/Outcome.antt =====
-- What a request that was handled leaves behind.
use provisioning_api.Base.{
  ℕ, String, Bool, true, false, Option, List, [], ◌∷◌, ◌++◌, ◌≡◌, refl, ◌∙◌,
}
use provisioning_api.Base.Exec.{Exec, Result, ok, raised}
use provisioning_api.Models.Json.{Json, Fields, obj}
use provisioning_api.Models.Pydantic.{Conversions}
use provisioning_api.Models.Subscription.{FillQueueStatus, failed, done}
use provisioning_api.Models.Queue.{
  PrefillMessage, MqMessage, udm_pre_fill, validate_prefill_message, dump_simple_message,
}
use provisioning_api.Nats.{Codec, JetStream, Msg}
use provisioning_api.Nats.Journal.{Publication}
use provisioning_api.Adapter.Mq
use provisioning_api.Adapter.Mq.{stream_key}
use provisioning_api.Adapter.Rest
use provisioning_api.Adapter.Rest.{Http, status_url, status_report}
use provisioning_api.Prefill.{
  failures_stream, attempts_exceeded, update_status, fill, add_to_failure_queue, handle_validated,
  handle_message,
}
use provisioning_api.Prefill.Progress.{IsPrefillWorld, Progress, Steps-fill}

-- The request in the queue of the failures.
abbrev pub failure : {B : Type 0} → Codec B → String → Fields → Publication B
failure codec ts content = record {
  subject = failures_stream;
  content = codec.dumps (
      obj
        (dump_simple_message (record { publisher_name = udm_pre_fill; ts = ts; body = content })));
  stream = stream_key failures_stream;
}

module _ {S B : Type 0} (codec : Codec B) (js : JetStream S B) (c : Conversions) (udm : Http S)
    (udm_url : String) (api : Http S) (api_url : String) (now : Exec S String)
    (fullmatch : String → String → Result Bool) {published : S → List (Publication B)}
    {acked : S → List (Msg B)} {reported : S → List (String × Json)}
    (W : IsPrefillWorld js udm api now published acked reported) (bound : Option ℕ)
    (message : MqMessage) (m : PrefillMessage) (s : S)
    (valid : validate_prefill_message c message.content ≡ ok m) where
  abbrev pub handled : Result (Unit {0}) × S
  handled = handle_message codec js c udm udm_url api api_url now fullmatch bound message s

  abbrev pub filled : Result (Unit {0}) × S
  filled = fill codec js c udm udm_url api api_url now fullmatch m s

  abbrev pub Filled : S → S → Type 0
  Filled = Progress codec js c udm udm_url api api_url now fullmatch W m.subscription_name

  abbrev pub report : FillQueueStatus → String × Json
  report status = (status_url api_url m.subscription_name, status_report status)

  fill_progresses : Filled s filled.1
  fill_progresses =
      (Steps-fill codec js c udm udm_url api api_url now fullmatch W m.subscription_name m.ts
          m.publisher_name m.realms_topics).at
        s

  abbrev reporting : FillQueueStatus → Exec S (Unit {0})
  reporting = update_status codec js c udm udm_url api api_url now fullmatch m.subscription_name

  -- The end of a prefill that came through: the whole `fill`, and behind it the report.
  pub record Finished (t : S) : Type 0 where
    pub complete : filled.0 ≡ ok tt
    pub filled_then : Filled s filled.1
    pub reported_then : reported t ≡ reported filled.1 ++ (report done ∷ [])
    pub published_then : published t ≡ published filled.1
    pub acked_then : acked t ≡ acked s

  finish_done :
      filled.0 ≡ ok tt → (reporting done filled.1).0 ≡ ok tt → Finished (reporting done filled.1).1
  unfolding update_status Rest.update_subscription_queue_status
  finish_done all e = record {
    complete = all;
    filled_then = fill_progresses;
    reported_then = W.reported-patch _ _ filled.1 ∙ rw e;
    published_then = W.published-patch _ _ filled.1;
    acked_then = W.acked-patch _ _ filled.1 ∙ fill_progresses.acked_then;
  }

  done_cases :
      (r : Result (Unit {0}))
      → filled.0 ≡ r
      → attempts_exceeded bound message.num_delivered ≡ false
      → handled.0 ≡ ok tt
      → Finished handled.1
  unfolding handle_message handle_validated
  done_cases (raised x) e few = rw (valid, few, e) (λ h. cc)
  done_cases (ok _) e few = rw (valid, few, e) (finish_done e)

  -- A valid request within the bound of attempts whose handling ends without an exception: `fill`
  -- ran from its start to its end without one, which leaves reports that the prefill is running and
  -- messages to the prefill queue only; one report `done` follows it, and nothing else is published,
  -- reported or acknowledged.
  pub handle_message_fills :
      attempts_exceeded bound message.num_delivered ≡ false → handled.0 ≡ ok tt → Finished handled.1
  handle_message_fills = done_cases filled.0 refl

  -- The request was given up.
  pub record GivenUp (t : S) : Type 0 where
    pub ts : String
    pub published_then : published t ≡ published s ++ (failure codec ts message.content ∷ [])
    pub reported_then : reported t ≡ reported s ++ (report failed ∷ [])
    pub acked_then : acked t ≡ acked s

  abbrev queued : Result (Unit {0}) × S
  queued = add_to_failure_queue codec js c udm udm_url api api_url now fullmatch message.content s

  -- The request is in the queue of the failures, and nothing is reported.
  record Queued (t : S) : Type 0 where
    ts : String
    published_then : published t ≡ published s ++ (failure codec ts message.content ∷ [])
    reported_then : reported t ≡ reported s
    acked_then : acked t ≡ acked s

  queue_cases : (r : Result String) → (now s).0 ≡ r → queued.0 ≡ ok tt → Queued queued.1
  unfolding add_to_failure_queue Mq.add_message
  queue_cases (raised x) e = rw e (λ h. cc)
  queue_cases (ok ts) e = rw e (λ h. record {
    ts = ts;
    published_then = W.journal.published-publish _ _ _ (now s).1 ∙ rw (h, W.published-now);
    reported_then = W.reported-publish _ _ _ (now s).1 ∙ W.reported-now s;
    acked_then = W.journal.acked-publish _ _ _ (now s).1 ∙ W.acked-now s;
  })

  report_failed :
      (t : S) → Queued t → (reporting failed t).0 ≡ ok tt → GivenUp (reporting failed t).1
  unfolding update_status Rest.update_subscription_queue_status
  report_failed t q e = record {
    ts = q.ts;
    published_then = W.published-patch _ _ t ∙ q.published_then;
    reported_then = W.reported-patch _ _ t ∙ rw (e, q.reported_then);
    acked_then = W.acked-patch _ _ t ∙ q.acked_then;
  }

  give_up_cases :
      (r : Result (Unit {0}))
      → queued.0 ≡ r
      → attempts_exceeded bound message.num_delivered ≡ true
      → handled.0 ≡ ok tt
      → GivenUp handled.1
  unfolding handle_message handle_validated
  give_up_cases (raised x) e many = rw (valid, many, e) (λ h. cc)
  give_up_cases (ok _) e many =
      rw (valid, many, e) (report_failed queued.1 (queue_cases (now s).0 refl e))

  -- A valid request beyond the bound of attempts whose handling ends without an exception: the
  -- request went to the queue of the failures and the prefill was reported as failed, once each;
  -- nothing was published to a prefill queue, and nothing acknowledged.
  pub handle_message_gives_up :
      attempts_exceeded bound message.num_delivered ≡ true → handled.0 ≡ ok tt → GivenUp handled.1
  handle_message_gives_up = give_up_cases queued.0 refl
