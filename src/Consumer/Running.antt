-- ===== src/Consumer/Running.antt =====
-- The loop of `MessageHandler.run`, up to its limit of messages.
use provisioning_api.Base.{
  ℕ, zero, suc, ◌+◌, String, Bool, true, false, some, List, [], ◌∷◌, ◌≡◌, refl, Bool-cases, inl,
  inr, arith,
}
use provisioning_api.Base.Exec.{Exec, Result, ok, raised, for_each, client_error}
use provisioning_api.Base.{◌⊎◌, ◌∙◌, ◌<>◌}
use provisioning_api.Models.Json.{Json}
use provisioning_api.Models.Pydantic.{Conversions}
use provisioning_api.Models.Queue.{ProvisioningMessage}
use provisioning_api.Adapter.Rest.{Http}
use provisioning_api.Services.Messages.{Clock}
use provisioning_api.Consumer.{
  Texts, subscriptions_messages_url, backoff, on_client_error, acknowledge_message,
  set_message_status, pause, retry, acknowledge_message_with_retries, debug_msg,
  get_subscription_message, handle_one, limit_reached, run,
}

-- `count` counts the messages that went through the callbacks: all of them together count one, and
-- none of them raises.
module _ {S : Type 0} (count : S → ℕ)
    (callbacks : List (ProvisioningMessage → Exec S (Unit {0}))) where
  abbrev pub calls : ProvisioningMessage → Exec S (Unit {0})
  calls message = for_each (λ callback. callback message) callbacks

  abbrev pub Counting : ProvisioningMessage → Type 0
  Counting message =
      (s : S) → ((calls message s).0 ≡ ok tt) × (count (calls message s).1 ≡ suc (count s))

-- The session raises nothing but `ClientError`, which is what the handler is made for, and sleeping
-- does not raise; neither counts a message.
pub record IsSteady {S : Type 0} (session : Http S) (clock : Clock S) (count : S → ℕ) : Type 0 where
  pub patch_cases :
      (u : String) (j : Json) (s : S)
      → ((session.patch u j s).0 ≡ ok tt) ⊎ ((session.patch u j s).0 ≡ raised client_error)
  pub count-patch : (u : String) (j : Json) (s : S) → count (session.patch u j s).1 ≡ count s
  pub count-get :
      (u : String) (l : List (String × String)) (s : S) → count (session.get u l s).1 ≡ count s
  pub sleep-ok : (n : ℕ) (s : S) → (clock.sleep n s).0 ≡ ok tt
  pub count-sleep : (n : ℕ) (s : S) → count (clock.sleep n s).1 ≡ count s

module _ {S : Type 0} (session : Http S) (subscriptions_url : String) (texts : Texts)
    (c : Conversions) (clock : Clock S) (subscription_name : String) {count : S → ℕ}
    (I : IsSteady session clock count) (callbacks : List (ProvisioningMessage → Exec S (Unit {0})))
    (pop_after_handling : Bool) (max_retries : ℕ) where
  -- Every poll gives a message that can be handled.
  abbrev pub Supplied : Type 0
  Supplied =
      (s : S)
      → (m : ProvisioningMessage) × ((get_subscription_message session subscriptions_url texts c
            clock subscription_name s).0
          ≡ ok (some m))
        × (debug_msg m.message ≡ ok tt)
        × Counting count callbacks m

  -- A step that succeeds and counts nothing.
  abbrev Silent : {A : Type 0} → Result A × S → A → S → Type 0
  Silent (r, t) a s = (r ≡ ok a) × (count t ≡ count s)

  abbrev once : ℕ → S → Result Bool × S
  once = acknowledge_message session subscriptions_url texts c clock subscription_name

  abbrev sent : ℕ → S → Result (Unit {0}) × S
  sent = set_message_status session subscriptions_url texts c clock subscription_name

  sent_cases :
      (seq_num : ℕ) (s : S)
      → ((sent seq_num s).0 ≡ ok tt) ⊎ ((sent seq_num s).0 ≡ raised client_error)
  unfolding set_message_status
  sent_cases seq_num s = I.patch_cases _ _ s

  count-sent : (seq_num : ℕ) (s : S) → count (sent seq_num s).1 ≡ count s
  unfolding set_message_status
  count-sent seq_num s = I.count-patch _ _ s

  once_cases : (seq_num : ℕ) (s : S) → (b : Bool) × Silent (once seq_num s) b s
  unfolding acknowledge_message on_client_error
  once_cases seq_num s = elim (sent_cases seq_num s) [
    | inl e ↦ (true, (rw e, rw e (count-sent seq_num s)))
    | inr e ↦ (false, (rw e, rw e (count-sent seq_num s)))
  ]

  pause-Silent :
      (m r : ℕ) (s : S)
      → Silent (pause session subscriptions_url texts c clock subscription_name m r s) tt s
  unfolding pause
  pause-Silent m r s = ground (arith, I.sleep-ok (backoff r) s, I.count-sleep (backoff r) s)

  abbrev rest : ℕ → ℕ → ℕ → ℕ → S → Result (Unit {0}) × S
  rest = retry session subscriptions_url texts c clock subscription_name

  retry_cases :
      (m seq_num r left : ℕ) (s : S) (b : Bool)
      → Silent (once seq_num s) b s
      → ((t : S) → Silent (rest m seq_num (suc r) left t) tt t)
      → Silent (rest m seq_num r (suc left) s) tt s
  unfolding retry
  retry_cases m seq_num r left s true (e, n) later = rw e (refl, n)
  retry_cases m seq_num r left s false (e, n) later =
      let (fine, same) = pause-Silent m r (once seq_num s).1 in
      let (done, kept) =
        later
          (pause session subscriptions_url texts c clock subscription_name m r
            (once seq_num s).1).1 in
      rw (e, fine) (done, kept ∙ same ∙ n)

  retry-Silent : (m seq_num r left : ℕ) (s : S) → Silent (rest m seq_num r left s) tt s
  unfolding retry
  retry-Silent m seq_num r zero s = (refl, refl)
  retry-Silent m seq_num r (suc left) s =
      let (b, silent) = once_cases seq_num s in
      retry_cases m seq_num r left s b silent (retry-Silent m seq_num (suc r) left)

  abbrev one : ProvisioningMessage → S → Result (Unit {0}) × S
  one =
      handle_one session subscriptions_url texts c clock subscription_name callbacks
        pop_after_handling max_retries

  handle_one_counts :
      (m : ProvisioningMessage) (s : S)
      → debug_msg m.message ≡ ok tt
      → Counting count callbacks m
      → ((one m s).0 ≡ ok tt) × (count (one m s).1 ≡ suc (count s))
  unfolding handle_one acknowledge_message_with_retries
  handle_one_counts m s e counting =
      let (fine, counted) = counting s in
      elim (Bool-cases pop_after_handling) [
        | inl pops ↦
            let (done, kept) =
              retry-Silent max_retries m.sequence_number 0 (max_retries + 1)
                (calls count callbacks m s).1 in
            rw (e, fine, pops) (done, kept ∙ counted)
        | inr keeps ↦ rw (e, fine, keeps) (refl, counted)
      ]

  abbrev polled : S → S
  polled s =
      (get_subscription_message session subscriptions_url texts c clock subscription_name s).1

  count-get_subscription_message :
      (s : S)
      → count
          (get_subscription_message session subscriptions_url texts c clock subscription_name s).1
        ≡ count s
  unfolding get_subscription_message
  count-get_subscription_message s = ground (
    arith,
    I.count-get (subscriptions_messages_url subscriptions_url subscription_name <> "/next")
        (("timeout", texts.ten_seconds) ∷ []) s,
  )

  last_reached :
      (limit handled : ℕ) → limit ≡ suc handled → limit_reached (some limit) (suc handled) ≡ true
  unfolding limit_reached
  last_reached limit handled e = ground arith

  not_reached :
      (limit handled left : ℕ)
      → limit ≡ handled + suc (suc left)
      → limit_reached (some limit) (suc handled) ≡ false
  unfolding limit_reached
  not_reached limit handled left e = ground arith

  -- With a limit of messages, of which `handled` have been handled before, the handler returns
  -- once it has handled the rest, and exactly those: if every poll gives a message, no callback
  -- raises, and the session raises nothing but `ClientError`. A failed acknowledgement does not
  -- stop it.
  pub run_ends :
      Supplied
      → (limit left handled : ℕ) (s : S) → limit ≡ handled + suc left
      → let ended =
          run session subscriptions_url texts c clock subscription_name callbacks pop_after_handling
            max_retries
            (some limit)
            (suc left)
            handled
            s in
        (ended.0 ≡ ok tt) × (count ended.1 ≡ count s + suc left)
  unfolding run
  run_ends supplied limit zero handled s e =
      let (m, got, shown, counting) = supplied s in
      let (done, counted) = handle_one_counts m (polled s) shown counting in
      rw (got, done, last_reached limit handled (omega (arith, e)))
        (refl, omega (arith, counted, count-get_subscription_message s))
  run_ends supplied limit (suc left) handled s e =
      let (m, got, shown, counting) = supplied s in
      let (done, counted) = handle_one_counts m (polled s) shown counting in
      let (ended, all) =
        run_ends supplied limit left (suc handled) (one m (polled s)).1 (omega (arith, e)) in
      rw (got, done, not_reached limit handled left e)
        (ended, omega (arith, all, counted, count-get_subscription_message s))
