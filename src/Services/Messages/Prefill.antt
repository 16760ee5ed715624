-- ===== src/Services/Messages/Prefill.antt =====
-- The prefill queue and the main queue in `get_next_message`.
use Prim.Native.Nat.{max}
use provisioning_api.Base.{
  ℕ, String, Bool, true, false, Option, none, ◌≡◌, ◌↔◌, eq_refl, ◌==◌, arith,
}
use provisioning_api.Base.Exec.{Result, ok}
use provisioning_api.Models.Pydantic.{Conversions}
use provisioning_api.Models.Subscription.{FillQueueStatus, status_is_done}
use provisioning_api.Models.Queue.{ProvisioningMessage}
use provisioning_api.Nats.{Codec, KeyValue, JetStream}
use provisioning_api.Services.Messages.{
  Clock, Process, outside, mark_done, check_subscription_status, get_messages_from_main_queue,
  get_messages_from_prefill_queue, get_next_message,
}

module _ {S B : Type 0} (codec : Codec B) (kv : KeyValue S B) (js : JetStream S B) (c : Conversions)
    (clock : Clock S) (name : String) (timeout : ℕ) (pop : Bool) (p : Process S) where
  pub get_next_message-prefill_done :
      p.prefill_done name ≡ true
      → get_next_message codec kv js c clock name timeout pop p
        ≡ outside (get_messages_from_main_queue codec kv js c clock name (max timeout 100) pop) p
  unfolding get_next_message
  get_next_message-prefill_done h = rw h

  -- What a call with the flag unset looks at: the status, and then the prefill queue.
  abbrev pub checked : Result FillQueueStatus × S
  checked = check_subscription_status codec kv js c clock name (max timeout 100) p.outside

  abbrev pub fetched : Result (Option ProvisioningMessage) × S
  fetched = get_messages_from_prefill_queue codec kv js c clock name (max timeout 100) pop checked.1

  -- The status came out as `done`, and then the fetch from the prefill queue as no message.
  abbrev pub Exhausted : Type 0
  Exhausted =
      (status : FillQueueStatus) × (checked.0 ≡ ok status)
      × (status_is_done status ≡ true)
      × (fetched.0 ≡ ok none)

  pub flag_needs_exhausted :
      p.prefill_done name ≡ false
      → (get_next_message codec kv js c clock name timeout pop p).1.prefill_done name ≡ true
      → Exhausted
  unfolding get_next_message mark_done
  flag_needs_exhausted h g = ground arith

  pub exhausted_sets_flag :
      p.prefill_done name ≡ false
      → Exhausted
      → (get_next_message codec kv js c clock name timeout pop p).1.prefill_done name ≡ true
  unfolding get_next_message mark_done
  exhausted_sets_flag h (status, e, d, f) = rw h (simp (e, d, f, eq_refl))

  pub other_flags :
      (other : String)
      → (name == other) ≡ false
      → (get_next_message codec kv js c clock name timeout pop p).1.prefill_done other
        ≡ p.prefill_done other
  unfolding get_next_message mark_done
  other_flags other ne = ground arith

  -- A call with the flag of its name unset sets it exactly where the status was found to be `done`
  -- and the fetch from the prefill queue then came out without a message, as it also does where the
  -- stream is missing or the fetch times out; the flags of other names keep their values.
  pub get_next_message_sets_flag :
      p.prefill_done name ≡ false
      → (((get_next_message codec kv js c clock name timeout pop p).1.prefill_done name ≡ true)
          ↔ Exhausted)
        × ((other : String)
            → (name == other) ≡ false
            → (get_next_message codec kv js c clock name timeout pop p).1.prefill_done other
              ≡ p.prefill_done other)
  get_next_message_sets_flag h = ((flag_needs_exhausted h, exhausted_sets_flag h), other_flags)
