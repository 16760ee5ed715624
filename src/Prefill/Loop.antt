-- ===== src/Prefill/Loop.antt =====
-- The loop of `handle_requests_to_prefill`, round after round.
use mathlib.Core.List.{append-nil}
use provisioning_api.Base.{arith, ℕ, String, Bool, Option, List, [], ◌∷◌, ◌++◌, ◌≡◌, refl, ◌∙◌}
use provisioning_api.Base.Exec.{Exec, Exn, Result, ok, raised, raise, ◌>>=◌, ◌>>◌, group}
use provisioning_api.Base.Outcome.{bind_ok}
use provisioning_api.Base.Steps.{Steps, Steps-bind, Steps-lift-bind, Steps-if}
use provisioning_api.Models.Json.{Json, Fields}
use provisioning_api.Models.Pydantic.{Conversions}
use provisioning_api.Models.Subscription.{FillQueueStatus}
use provisioning_api.Models.Queue.{MqMessage, PrefillMessage, validate_prefill_message}
use provisioning_api.Nats.{Codec, JetStream, Msg}
use provisioning_api.Nats.Journal.{Publication}
use provisioning_api.Adapter.Mq
use provisioning_api.Adapter.Mq.{get_one_message}
use provisioning_api.Adapter.Mq.Taking.{get_one_message_world}
use provisioning_api.Adapter.Mq.Rounds.{arrived, coming, acked-rounds}
use provisioning_api.Adapter.Rest
use provisioning_api.Adapter.Rest.{Http}
use provisioning_api.AckManager.Interleaved.{
  at_once, interleaved_js, interleaved_http, process_interleaved_message-world,
}
use provisioning_api.Prefill.Interleaved.{interleaved-IsPrefillWorld}
use provisioning_api.Prefill.{interleaved_handler}
use provisioning_api.Prefill.{
  attempts_exceeded, update_status, fill, add_to_failure_queue, handle_validated, handle_message,
  process_request, handle_request, serve_requests, on_empty,
}
use provisioning_api.Prefill.Progress.{IsPrefillWorld, Steps-fill}
use provisioning_api.Prefill.Requests.{processed, requested, process_request_lem}

module _ {S B : Type 0} (codec : Codec B) (js : JetStream S B) (c : Conversions) (udm : Http S)
    (udm_url : String) (api : Http S) (api_url : String) (now : Exec S String)
    (fullmatch : String → String → Result Bool) {published : S → List (Publication B)}
    {acked : S → List (Msg B)} {reported : S → List (String × Json)}
    (W : IsPrefillWorld js udm api now published acked reported) (bound : Option ℕ) where
  abbrev Quiet : S → S → Type 0
  Quiet s t = acked t ≡ acked s

  still : (s : S) → Quiet s s
  still s = refl

  after : (s t u : S) → Quiet s t → Quiet t u → Quiet s u
  after s t u e f = f ∙ e

  Steps-status :
      (name : String) (status : FillQueueStatus)
      → Steps Quiet (update_status codec js c udm udm_url api api_url now fullmatch name status)
  unfolding update_status Rest.update_subscription_queue_status
  Steps-status name status = record { at = λ s. W.acked-patch _ _ s }

  Steps-failure :
      (content : Fields)
      → Steps Quiet (add_to_failure_queue codec js c udm udm_url api api_url now fullmatch content)
  unfolding add_to_failure_queue Mq.add_message
  Steps-failure content =
      Steps-bind still after now _ (record { at = W.acked-now })
        (λ ts. record { at = λ s. W.journal.acked-publish _ _ _ s })

  Steps-filling :
      (m : PrefillMessage) → Steps Quiet (fill codec js c udm udm_url api api_url now fullmatch m)
  Steps-filling m = record {
    at = λ s.
        ((Steps-fill codec js c udm udm_url api api_url now fullmatch W m.subscription_name m.ts
            m.publisher_name m.realms_topics).at
          s).acked_then;
  }

  Steps-handle_message :
      (message : MqMessage)
      → Steps Quiet (handle_message codec js c udm udm_url api api_url now fullmatch bound message)
  unfolding handle_message handle_validated
  Steps-handle_message message =
      Steps-lift-bind still (validate_prefill_message c message.content) _ (λ m e.
        Steps-if (attempts_exceeded bound message.num_delivered) _ _
          (λ _. Steps-bind still after _ _ (Steps-failure _) (λ _. Steps-status _ _))
          (λ _. Steps-bind still after _ _ (Steps-filling m) (λ _. Steps-status _ _)))

module _ {S B : Type 0} (codec : Codec B) (js : JetStream S B) (c : Conversions) (udm : Http S)
    (udm_url : String) (api : Http S) (api_url : String) (now : Exec S String)
    (fullmatch : String → String → Result Bool) {published : S → List (Publication B)}
    {acked : S → List (Msg B)} {reported : S → List (String × Json)}
    (W : IsPrefillWorld js udm api now published acked reported) (bound : Option ℕ) where
  never_ok {ℓ} :
      {A : Type ℓ} (m : Exec S (Unit {0})) (x : Exn) (s : S)
      → ((m >> raise {A = Unit {0}} x) s).0 ≡ ok tt
      → A
  never_ok m x s h =
      let (_, _, last, _) = bind_ok m (λ _. raise {A = Unit {0}} x) s tt h in absurd cc

  module _ (schedule : List Bool) (message : MqMessage) (msg : Msg B) where
    abbrev process : S → Result (Unit {0}) × S
    process = processed codec js c udm udm_url api api_url now fullmatch bound schedule message msg

    acked-processed : (s : S) → acked (process s).1 ≡ acked s
    acked-processed s =
        rw
          (process_interleaved_message-world
            (interleaved_handler codec js c udm udm_url api api_url now fullmatch bound message msg)
            schedule s)
          ((Steps-handle_message codec (interleaved_js (js.in_progress msg) js) c
              (interleaved_http (js.in_progress msg) udm) udm_url
              (interleaved_http (js.in_progress msg) api) api_url (at_once now) fullmatch
              (interleaved-IsPrefillWorld W msg) bound message).at
            (s, schedule))

    accepted_cases :
        (r : Result (Unit {0})) (s : S)
        → (process s).0 ≡ r
        → let request =
            requested codec js c udm udm_url api api_url now fullmatch bound schedule message msg
              s in
          request.0 ≡ ok tt → acked request.1 ≡ acked s ++ (msg ∷ [])
    accepted_cases (ok _) s e =
        rw
          ((process_request_lem codec js c udm udm_url api api_url now fullmatch bound schedule
              message msg s).0
            e)
          (λ h. W.journal.acked-ack msg _ ∙ rw (h, acked-processed s))
    accepted_cases (raised x) s e =
        let (y, f, same) =
          (process_request_lem codec js c udm udm_url api api_url now fullmatch bound schedule
              message msg s).1
            x e in
        rw same (λ h. never_ok (js.nak msg) (group y) _ h)

  module _ (stream durable subject : String)
      (acked-fetch : (t : S) → acked (js.fetch stream durable subject 10000 t).1 ≡ acked t) where
    abbrev pub taken : S → Result (MqMessage × Msg B) × S
    taken = get_one_message js codec.loads c (subject, durable, stream) 10000

    acked-taken : (s : S) → acked (taken s).1 ≡ acked s
    acked-taken s =
        rw (get_one_message_world js codec.loads c stream durable subject 10000 s) (acked-fetch s)

    abbrev pub round : List Bool → S → Result (Unit {0}) × S
    round schedule =
        handle_request codec js c udm udm_url api api_url now fullmatch bound schedule
          (subject, durable, stream)

    idle_cases :
        (schedule : List Bool) (x : Exn) (s t : S)
        → acked t ≡ acked s
        → let idle =
            (on_empty codec js c udm udm_url api api_url now fullmatch x
                >>= process_request codec js c udm udm_url api api_url now fullmatch bound schedule)
              t in
          idle.0 ≡ ok tt → acked idle.1 ≡ acked s ++ []
    unfolding on_empty process_request
    idle_cases schedule x s t e = ground (arith, append-nil (acked s))

    round_cases :
        (schedule : List Bool) (r : Result (MqMessage × Msg B)) (s : S)
        → (taken s).0 ≡ r
        → (round schedule s).0 ≡ ok tt
        → acked (round schedule s).1 ≡ acked s ++ arrived r
    unfolding handle_request
    round_cases schedule (ok (message, msg)) s e =
        rw e (λ h. accepted_cases schedule message msg _ _ refl h ∙ rw (acked-taken s))
    round_cases schedule (raised x) s e = rw e (idle_cases schedule x s _ (acked-taken s))

    -- As long as nothing is raised, the prefill service acknowledges exactly the requests that come,
    -- each once and in their order, whatever the schedules of the extensions; a round in which none
    -- comes acknowledges nothing.
    pub acked-serve_requests :
        (rounds : List (List Bool)) (s : S)
        → let served =
            serve_requests codec js c udm udm_url api api_url now fullmatch bound
              (subject, durable, stream)
              rounds
              s in
          served.0 ≡ ok tt → acked served.1 ≡ acked s ++ coming taken round rounds s
    unfolding serve_requests
    acked-serve_requests =
        acked-rounds taken round acked (λ schedule s. round_cases schedule (taken s).0 s refl)
