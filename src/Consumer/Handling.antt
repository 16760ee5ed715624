-- ===== src/Consumer/Handling.antt =====
-- The acknowledgement of messages in `MessageHandler.run`.
use provisioning_api.Base.{
  ℕ, suc, ◌≤◌, String, Bool, true, false, List, [], ◌∷◌, ◌≡◌, refl, ◌∙◌, arith,
}
use provisioning_api.Base.Exec.{Exec, Exn, Result, ok, raised, for_each, lift, pure, continue, ◌>>◌}
use provisioning_api.Base.{if◌then◌else◌, ap, sym}
use provisioning_api.Models.Pydantic.{Conversions}
use provisioning_api.Models.Queue.{ProvisioningMessage}
use provisioning_api.Adapter.Rest.{Http}
use provisioning_api.Services.Messages.{Clock}
use provisioning_api.Consumer.{Texts, debug_msg, handle_one, acknowledge_message_with_retries}
use provisioning_api.Consumer.Retries.{IsPatient, acknowledge_message_with_retries_lem}

-- No callback acknowledges the message itself.
abbrev pub AllQuiet :
    {S : Type 0}
    → (S → ℕ)
    → ProvisioningMessage
    → List (ProvisioningMessage → Exec S (Unit {0}))
    → Type 0
AllQuiet tries message [] = Unit
AllQuiet tries message (f ∷ fs) =
    ((s : _) → tries (f message s).1 ≡ tries s) × AllQuiet tries message fs

abbrev calls :
    {S : Type 0}
    → ProvisioningMessage
    → List (ProvisioningMessage → Exec S (Unit {0}))
    → Exec S (Unit {0})
calls message callbacks = for_each (λ callback. callback message) callbacks

module _ {S : Type 0} (tries : S → ℕ) (message : ProvisioningMessage) where
  calls_cases :
      (f : ProvisioningMessage → Exec S (Unit {0}))
      (fs : List (ProvisioningMessage → Exec S (Unit {0}))) (r : Result (Unit {0})) (s : S)
      → (f message s).0 ≡ r
      → tries (f message s).1 ≡ tries s
      → tries (calls message fs (f message s).1).1 ≡ tries (f message s).1
      → tries (calls message (f ∷ fs) s).1 ≡ tries s
  unfolding for_each
  calls_cases f fs (ok _) s e first others = rw e (others ∙ first)
  calls_cases f fs (raised x) s e first others = rw e first

  tries-calls :
      (callbacks : List (ProvisioningMessage → Exec S (Unit {0}))) (s : S)
      → AllQuiet tries message callbacks
      → tries (calls message callbacks s).1 ≡ tries s
  unfolding for_each
  tries-calls [] s quiet = refl
  tries-calls (f ∷ fs) s (q, qs) =
      calls_cases f fs (f message s).0 s refl (q s) (tries-calls fs (f message s).1 qs)

module _ {S : Type 0} (session : Http S) (subscriptions_url : String) (texts : Texts)
    (c : Conversions) (clock : Clock S) (subscription_name : String) {tries : S → ℕ}
    (I : IsPatient session clock tries) (callbacks : List (ProvisioningMessage → Exec S (Unit {0})))
    (message : ProvisioningMessage) (quiet : AllQuiet tries message callbacks) (max_retries : ℕ)
    (s : S) where
  abbrev pub handled : Bool → Result (Unit {0}) × S
  handled pop_after_handling =
      handle_one session subscriptions_url texts c clock subscription_name callbacks
        pop_after_handling max_retries message s

  -- The text for the log, and the callbacks.
  abbrev pub prepared : Result (Unit {0}) × S
  prepared = (lift (debug_msg message.message) >> calls message callbacks) s

  prepared_cases :
      (d : Result (Unit {0})) → debug_msg message.message ≡ d → tries prepared.1 ≡ tries s
  prepared_cases (ok _) e = rw e (tries-calls tries message callbacks s quiet)
  prepared_cases (raised x) e = rw e

  handled_cases :
      (pop : Bool) (d : Result (Unit {0}))
      → debug_msg message.message ≡ d
      → handled pop
        ≡ (λ (q : Result (Unit {0}) × S).
              continue q.0
                (λ _.
                  if pop
                  then acknowledge_message_with_retries session subscriptions_url texts c clock
                      subscription_name max_retries message
                  else pure tt)
                q.1)
            prepared
  unfolding handle_one
  handled_cases pop (ok _) e = rw e refl
  handled_cases pop (raised x) e = rw e refl

  popped_cases :
      (r : Result (Unit {0}))
      → prepared.0 ≡ r
      → (prepared.0 ≡ ok tt → suc (tries s) ≤ tries (handled true).1)
        × ((x : Exn) → prepared.0 ≡ raised x → handled true ≡ (raised x, prepared.1))
  popped_cases (ok _) e =
      let (some_then, _, _) =
        acknowledge_message_with_retries_lem session subscriptions_url texts c clock
          subscription_name I max_retries message prepared.1 in
      (
        λ h. rw (handled_cases true _ refl, h) (omega (arith, some_then, prepared_cases _ refl)),
        λ x h. absurd cc,
      )
  popped_cases (raised y) e = (λ h. absurd cc, λ x h. rw (handled_cases true _ refl, h) refl)

  unpopped : (r : Result (Unit {0})) → prepared.0 ≡ r → handled false ≡ prepared
  unpopped (ok _) e =
      rw (handled_cases false _ refl, e) (ap (λ (q : Result (Unit {0})). (q, prepared.1)) (sym e))
  unpopped (raised y) e =
      rw (handled_cases false _ refl, e) (ap (λ (q : Result (Unit {0})). (q, prepared.1)) (sym e))

  -- With `pop_after_handling` a message is acknowledged, or that is tried, behind all callbacks
  -- that ended without an exception, whatever comes of it. Where a callback or the text for the log
  -- raises, that exception comes out and nothing is tried. Without `pop_after_handling` nothing is
  -- done behind the callbacks, and no message is acknowledged.
  pub handle_one_acknowledges :
      (tries prepared.1 ≡ tries s)
      × (prepared.0 ≡ ok tt → suc (tries s) ≤ tries (handled true).1)
      × ((x : Exn) → prepared.0 ≡ raised x → handled true ≡ (raised x, prepared.1))
      × (handled false ≡ prepared)
  handle_one_acknowledges =
      let (tried, failed) = popped_cases _ refl in
      (prepared_cases _ refl, tried, failed, unpopped _ refl)
