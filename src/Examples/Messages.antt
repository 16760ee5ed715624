-- ===== src/Examples/Messages.antt =====
-- The queues of a subscription on the server in memory.
use provisioning_api.Base.{String, Bool, true, false, some, ◌≡◌, ◌≢◌, ◌↔◌, refl, ◌==◌, []}
use provisioning_api.Base.Exec.{raised, out_of_fuel}
use provisioning_api.Models.Subscription.{
  subscriptions, FillQueueStatus, running, done, Subscription, dump_subscription,
}
use provisioning_api.Services.Messages.{Process, check_subscription_status, get_next_message}
use provisioning_api.Services.Messages.Prefill.{get_next_message_sets_flag, Exhausted}
use provisioning_api.Base.{List, ◌∷◌, inl}
use provisioning_api.Services.Messages.{
  outside, get_messages_from_main_queue, get_messages_from_prefill_queue,
}
use provisioning_api.Models.Json.{get_field}
use provisioning_api.Models.Subscription.{
  validate_subscription, status_of_value, status_value, status_is_done,
}
use provisioning_api.Adapter.Kv.{get_dict_value}
use provisioning_api.Adapter.Mq
use provisioning_api.Services.Subscriptions.{
  get_subscription_queue_status, get_subscription, get_subscription_info, validate_if,
}
use provisioning_api.Services.Messages.History.{
  Happening, next, elsewhere, history, ExhaustedIn, prefill_done-history, get_next_message-history,
}
use provisioning_api.Services.Messages.Polling.{check_subscription_status_ends}
use provisioning_api.Memory.{World, blank, codec, kv, js, conversions, clock, set_value, dumped}
use provisioning_api.Memory.Laws.{backend, clock-IsClock}

abbrev info : FillQueueStatus → Subscription
info status = record {
  name = "app";
  realms_topics = [];
  request_prefill = true;
  prefill_queue_status = status;
}

-- The prefill of `app` is in the status.
abbrev world : FillQueueStatus → World
world status = set_value subscriptions "app" (some (dumped (dump_subscription (info status)))) blank

abbrev process : FillQueueStatus → Bool → Process World
process status flag = record { outside = world status; prefill_done = λ n. flag }

get_next_message_sets_flag_example :
    (((get_next_message codec kv js conversions clock "app" 0 true
            (process done false)).1.prefill_done
          "app"
        ≡ true)
      ↔ Exhausted codec kv js conversions clock "app" 0 true (process done false))
    × ((other : String)
        → ("app" == other) ≡ false
        → (get_next_message codec kv js conversions clock "app" 0 true
              (process done false)).1.prefill_done
            other
          ≡ false)
get_next_message_sets_flag_example =
    get_next_message_sets_flag codec kv js conversions clock "app" 0 true (process done false) refl

-- The call finds the status `done` and no message; then the subscription is registered anew, with a
-- prefill that is running.
abbrev happenings : List (Happening World)
happenings = next "app" 0 true ∷ elsewhere (λ s. world running) ∷ []

exhausted : ExhaustedIn codec kv js conversions clock "app" happenings (process done false)
unfolding check_subscription_status get_subscription_queue_status get_subscription
    get_subscription_info get_dict_value validate_if dump_subscription validate_subscription
    get_field status_of_value status_value status_is_done get_messages_from_prefill_queue
    Mq.get_message
exhausted = inl (refl, refl, (done, refl, refl, refl))

prefill_done-history_example :
    ((history codec kv js conversions clock happenings (process done false)).prefill_done "app"
      ≡ true)
    ↔ ExhaustedIn codec kv js conversions clock "app" happenings (process done false)
prefill_done-history_example =
    prefill_done-history codec kv js conversions clock "app" happenings (process done false) refl

get_next_message-history_example :
    get_next_message codec kv js conversions clock "app" 0 true
      (history codec kv js conversions clock happenings (process done false))
    ≡ outside
        (get_messages_from_main_queue codec kv js conversions clock "app" 100 true)
        (history codec kv js conversions clock happenings (process done false))
get_next_message-history_example =
    get_next_message-history codec kv js conversions clock "app" happenings (process done false) 0
      true exhausted

check_subscription_status_ends_example :
    (check_subscription_status codec kv js conversions clock "app" 5000 (world running)).0
    ≢ raised out_of_fuel
check_subscription_status_ends_example =
    check_subscription_status_ends codec kv js conversions clock clock-IsClock backend "app" 5000
      (world running)
