-- ===== src/Services/Messages/Polling.antt =====
-- The wait for the status `done` in `check_subscription_status`.
use provisioning_api.Base.{ℕ, zero, suc, ◌+◌, ◌*◌, ◌/◌, ◌≤◌, ◌<◌, String, ◌≡◌, ◌≢◌, arith}
use provisioning_api.Base.Exec.{ok, raised, out_of_fuel}
use provisioning_api.Models.Pydantic.{Conversions}
use provisioning_api.Nats.{Codec, KeyValue, JetStream}
use provisioning_api.Services.Passwords.{PasswordContext}
use provisioning_api.Services.Backend.{Backend}
use provisioning_api.Services.Subscriptions.{get_subscription_queue_status}
use provisioning_api.Services.Subscriptions.Looks.{
  get_subscription_queue_status_keeps, get_subscription_queue_status_ends,
}
use provisioning_api.Services.Messages.{Clock, poll, check_subscription_status}

-- `instant` is what the clock shows: asking for it changes nothing, and to sleep takes its time.
pub record IsClock {S : Type 0} (clock : Clock S) (instant : S → ℕ) : Type 0 where
  pub time_lem : (s : S) → clock.time s ≡ (ok (instant s), s)
  pub sleep-ok : (n : ℕ) (s : S) → (clock.sleep n s).0 ≡ ok tt
  pub instant-sleep : (n : ℕ) (s : S) → instant s + n ≤ instant (clock.sleep n s).1

module _ {S B : Type 0} (codec : Codec B) (kv : KeyValue S B) (js : JetStream S B) (c : Conversions)
    (clock : Clock S) {instant : S → ℕ} {pw : PasswordContext S B} (C : IsClock clock instant)
    (E : Backend codec kv js pw c) (name : String) where
  onward : (s : S) → instant s ≤ instant (get_subscription_queue_status codec kv c name s).1
  onward s = rw (get_subscription_queue_status_keeps E name s) (omega arith)

  ends : (s : S) → (get_subscription_queue_status codec kv c name s).0 ≢ raised out_of_fuel
  ends = get_subscription_queue_status_ends E name

  after_round : S → S
  after_round s = (clock.sleep 1000 (get_subscription_queue_status codec kv c name s).1).1

  later : (s : S) → instant s + 1000 ≤ instant (after_round s)
  unfolding after_round
  later s =
      omega
        (arith, onward s, C.instant-sleep 1000 (get_subscription_queue_status codec kv c name s).1)

  -- One round ends the loop, or goes on from a later time.
  poll_round :
      (fuel end_time : ℕ) (s : S)
      → (instant s < end_time
          → (poll codec kv js c clock fuel name end_time (after_round s)).0 ≢ raised out_of_fuel)
      → (poll codec kv js c clock (suc fuel) name end_time s).0 ≢ raised out_of_fuel
  unfolding poll after_round
  poll_round fuel end_time s rest =
      simp (C.time_lem, C.sleep-ok)
        (ground
          (arith, ends s, C.sleep-ok 1000 (get_subscription_queue_status codec kv c name s).1))

  poll_ends :
      (fuel end_time : ℕ) (s : S)
      → end_time ≤ instant s + 1000 * fuel
      → (poll codec kv js c clock (suc fuel) name end_time s).0 ≢ raised out_of_fuel
  poll_ends zero end_time s h = poll_round zero end_time s (λ l. absurd (omega arith))
  poll_ends (suc fuel) end_time s h =
      poll_round (suc fuel) end_time s
        (λ l. poll_ends fuel end_time (after_round s) (omega (arith, later s)))

  -- On servers that behave as documented, and with a clock that sleeping moves on by its time, the
  -- wait for the status `done` ends by its own tests: the fuel of the loop never runs out.
  pub check_subscription_status_ends :
      (timeout : ℕ) (s : S)
      → (check_subscription_status codec kv js c clock name timeout s).0 ≢ raised out_of_fuel
  unfolding check_subscription_status
  check_subscription_status_ends timeout s =
      let enough : timeout / 1000 + 2 ≡ suc (timeout / 1000 + 1) = omega arith in
      simp C.time_lem
        (rw enough (poll_ends (timeout / 1000 + 1) (instant s + timeout) s (omega arith)))
