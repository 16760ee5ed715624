-- ===== src/Prefill/Requests.antt =====
-- What follows the processing of a request: the acknowledgement, or the rejection and the end.
use provisioning_api.Base.{ℕ, String, Bool, Option, some, List, ◌≡◌, arith}
use provisioning_api.Base.Exec.{Exec, Exn, Result, ok, raised, group, raise, ◌>>◌}
use provisioning_api.Models.Pydantic.{Conversions}
use provisioning_api.Models.Queue.{MqMessage}
use provisioning_api.Nats.{Codec, JetStream, Msg}
use provisioning_api.Adapter.Rest.{Http}
use provisioning_api.AckManager.Interleaved.{
  process_interleaved_message, process_interleaved_message_raises_group,
}
use provisioning_api.Prefill.{interleaved_handler, process_request, on_error}

module _ {S B : Type 0} (codec : Codec B) (js : JetStream S B) (c : Conversions) (udm : Http S)
    (udm_url : String) (api : Http S) (api_url : String) (now : Exec S String)
    (fullmatch : String → String → Result Bool) (bound : Option ℕ) (schedule : List Bool)
    (message : MqMessage) (msg : Msg B) (s : S) where
  abbrev pub processed : Result (Unit {0}) × S
  processed =
      process_interleaved_message
        (interleaved_handler codec js c udm udm_url api api_url now fullmatch bound message msg)
        schedule s

  abbrev pub requested : Result (Unit {0}) × S
  requested =
      process_request codec js c udm udm_url api api_url now fullmatch bound schedule
        (some (message, msg)) s

  accepted : processed.0 ≡ ok tt → requested ≡ js.ack msg processed.1
  unfolding process_request
  accepted h = rw h

  rejected :
      (x : Exn)
      → processed.0 ≡ raised (group x)
      → requested ≡ (js.nak msg >> raise (group x)) processed.1
  unfolding process_request on_error
  rejected x h = rw h (ground arith)

  rejected_cases :
      (e : Exn)
      → processed.0 ≡ raised e
      → (x : Exn) × (e ≡ group x) × (requested ≡ (js.nak msg >> raise (group x)) processed.1)
  rejected_cases e h =
      let (x, same) =
        process_interleaved_message_raises_group
          (interleaved_handler codec js c udm udm_url api api_url now fullmatch bound message msg)
          schedule s e h in
      (x, same, rejected x (rw (← same) h))

  -- A request is acknowledged where its processing ends without an exception. Where the processing
  -- raises, whatever the handler raised, the request is rejected and the exception, a group, ends the
  -- loop: the clause that rejects and goes on is never taken.
  pub process_request_lem :
      (processed.0 ≡ ok tt → requested ≡ js.ack msg processed.1)
      × ((e : Exn)
          → processed.0 ≡ raised e
          → (x : Exn) × (e ≡ group x) × (requested ≡ (js.nak msg >> raise (group x)) processed.1))
  process_request_lem = (accepted, rejected_cases)
