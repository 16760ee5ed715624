-- ===== src/Consumer/Retries.antt =====
-- The retries of `acknowledge_message_with_retries`.
use Prim.Native.Nat.{min}
use provisioning_api.Base.{
  ℕ, zero, suc, ◌+◌, ◌≤◌, String, Bool, true, false, ◌≡◌, ◌≢◌, refl, ap, ◌∙◌, arith,
}
use provisioning_api.Base.Exec.{Exn, Result, ok, raised, client_error}
use provisioning_api.Models.Json.{Json}
use provisioning_api.Models.Pydantic.{Conversions}
use provisioning_api.Models.Queue.{ProvisioningMessage}
use provisioning_api.Adapter.Rest.{Http}
use provisioning_api.Services.Messages.{Clock}
use provisioning_api.Consumer.{
  Texts, backoff, set_message_status, acknowledge_message, pause, retry,
  acknowledge_message_with_retries, on_client_error,
}

-- `tries` counts the requests with the method PATCH, which may raise anything; sleeping does not.
pub record IsPatient {S : Type 0} (session : Http S) (clock : Clock S) (tries : S → ℕ)
    : Type 0 where
  pub tries-patch : (u : String) (j : Json) (s : S) → tries (session.patch u j s).1 ≡ suc (tries s)
  pub sleep-ok : (n : ℕ) (s : S) → (clock.sleep n s).0 ≡ ok tt
  pub tries-sleep : (n : ℕ) (s : S) → tries (clock.sleep n s).1 ≡ tries s

module _ {S : Type 0} (session : Http S) (subscriptions_url : String) (texts : Texts)
    (c : Conversions) (clock : Clock S) (subscription_name : String) {tries : S → ℕ}
    (I : IsPatient session clock tries) where
  abbrev sent : ℕ → S → Result (Unit {0}) × S
  sent = set_message_status session subscriptions_url texts c clock subscription_name

  tries-sent : (seq_num : ℕ) (s : S) → tries (sent seq_num s).1 ≡ suc (tries s)
  unfolding set_message_status
  tries-sent seq_num s = I.tries-patch _ _ s

  abbrev once : ℕ → S → Result Bool × S
  once = acknowledge_message session subscriptions_url texts c clock subscription_name

  abbrev again : Result (Unit {0}) → Result Bool
  again (ok _) = ok true
  again (raised x) = raised x

  -- What comes through the `except` clause is no `ClientError`.
  caught :
      (e x : Exn) (t : S)
      → (on_client_error session subscriptions_url texts c clock subscription_name e t).0 ≡ raised x
      → x ≢ client_error
  unfolding on_client_error
  caught e x t = ground arith

  caught_world :
      (e : Exn) (t : S)
      → (on_client_error session subscriptions_url texts c clock subscription_name e t).1 ≡ t
  unfolding on_client_error
  caught_world e t = ground arith

  sent_cases :
      (r : Result (Unit {0})) (seq_num : ℕ) (s : S) (x : Exn)
      → (sent seq_num s).0 ≡ r
      → (once seq_num s).0 ≡ raised x
      → x ≢ client_error
  unfolding acknowledge_message
  sent_cases (ok _) seq_num s x e = rw e (λ h. absurd cc)
  sent_cases (raised y) seq_num s x e = rw e (caught y x _)

  tried_cases :
      (r : Result (Unit {0})) (seq_num : ℕ) (s : S)
      → (sent seq_num s).0 ≡ r
      → tries (once seq_num s).1 ≡ suc (tries s)
  unfolding acknowledge_message on_client_error
  tried_cases (ok _) seq_num s e = rw e (tries-sent seq_num s)
  tried_cases (raised y) seq_num s e = rw e (ap tries (caught_world y _) ∙ tries-sent seq_num s)

  pause_lem :
      (m r : ℕ) (s : S)
      → ((pause session subscriptions_url texts c clock subscription_name m r s).0 ≡ ok tt)
        × (tries (pause session subscriptions_url texts c clock subscription_name m r s).1
            ≡ tries s)
  unfolding pause
  pause_lem m r s = ground (arith, I.sleep-ok (backoff r) s, I.tries-sleep (backoff r) s)

  -- The outcome of at most `left` tries.
  record Tried (left : ℕ) (s : S) (r : Result (Unit {0})) (t : S) : Type 0 where
    unexpected : (x : Exn) → r ≡ raised x → x ≢ client_error
    some_then : tries s + min left 1 ≤ tries t
    bounded : tries t ≤ tries s + left

  abbrev rest : ℕ → ℕ → ℕ → ℕ → S → Result (Unit {0}) × S
  rest = retry session subscriptions_url texts c clock subscription_name

  abbrev paused : ℕ → ℕ → S → Result (Unit {0}) × S
  paused = pause session subscriptions_url texts c clock subscription_name

  -- The first of the tries that are left, by its result; `later` is about the others.
  retry_cases :
      (m seq_num r left : ℕ) (s : S) (answer : Result Bool)
      → (once seq_num s).0 ≡ answer
      → ((t : S) → Tried left t (rest m seq_num (suc r) left t).0 (rest m seq_num (suc r) left t).1)
      → Tried (suc left) s (rest m seq_num r (suc left) s).0 (rest m seq_num r (suc left) s).1
  unfolding retry
  retry_cases m seq_num r left s (ok true) e later =
      let n = tried_cases (sent seq_num s).0 seq_num s refl in
      rw e (record {
        unexpected = λ x h. absurd cc;
        some_then = omega (arith, n);
        bounded = omega (arith, n);
      })
  retry_cases m seq_num r left s (ok false) e later =
      let n = tried_cases (sent seq_num s).0 seq_num s refl in
      let (fine, same) = pause_lem m r (once seq_num s).1 in
      let after = later (paused m r (once seq_num s).1).1 in
      rw (e, fine)
        (record {
          unexpected = after.unexpected;
          some_then = omega (arith, n, same, after.some_then);
          bounded = omega (arith, n, same, after.bounded);
        })
  retry_cases m seq_num r left s (raised y) e later =
      let n = tried_cases (sent seq_num s).0 seq_num s refl in
      rw e (record {
        unexpected = λ x h. sent_cases (sent seq_num s).0 seq_num s x refl (e ∙ ap again h);
        some_then = omega (arith, n);
        bounded = omega (arith, n);
      })

  retry_lem :
      (m seq_num r left : ℕ) (s : S)
      → Tried left s (rest m seq_num r left s).0 (rest m seq_num r left s).1
  unfolding retry
  retry_lem m seq_num r zero s = record {
    unexpected = λ x h. absurd cc;
    some_then = omega arith;
    bounded = omega arith;
  }
  retry_lem m seq_num r (suc left) s =
      retry_cases m seq_num r left s (once seq_num s).0 refl (retry_lem m seq_num (suc r) left)

  -- However the requests fail: a message is tried to be acknowledged at least once, and once more
  -- than the number of retries at most. A `ClientError` never comes out of it; what comes out is
  -- another exception of a request, which the code does not catch.
  pub acknowledge_message_with_retries_lem :
      (max_retries : ℕ) (message : ProvisioningMessage) (s : S)
      → let r =
          acknowledge_message_with_retries session subscriptions_url texts c clock subscription_name
            max_retries message s in
        (suc (tries s) ≤ tries r.1)
        × (tries r.1 ≤ tries s + (max_retries + 1))
        × ((x : Exn) → r.0 ≡ raised x → x ≢ client_error)
  unfolding acknowledge_message_with_retries
  acknowledge_message_with_retries_lem max_retries message s =
      let all = retry_lem max_retries message.sequence_number 0 (max_retries + 1) s in
      (omega (arith, all.some_then), all.bounded, all.unexpected)
