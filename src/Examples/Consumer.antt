-- ===== src/Examples/Consumer.antt =====
-- The client library and the example client on concrete data.
use provisioning_api.Base.{false}
use provisioning_api.Examples.Dispatcher.{created}
use provisioning_api.Base.{◌<>◌, true, some, [], ◌∷◌, ◌≡◌, refl, inl}
use provisioning_api.Base.Exec.{Exec, ok, for_each}
use provisioning_api.Base.{◌+◌, arith}
use provisioning_api.Services.Messages.{Clock}
use provisioning_api.Models.Json.{Json, num, str, obj, no_fields, field, get_field}
use provisioning_api.Models.Subscription.{as_str}
use provisioning_api.Models.Queue.{ProvisioningMessage, udm_listener, validate_message}
use provisioning_api.Models.Requests.{validate_new_subscription}
use provisioning_api.Adapter.Rest.{Http}
use provisioning_api.Consumer.{
  Texts, run, get_subscription_message, message_if, validate_provisioning_message, debug_msg,
}
use provisioning_api.Consumer.Client.{
  ClientSettings, subscriptions_url, create_subscription, create_subscription_posts,
}
use provisioning_api.Consumer.Example.{Printing, handle_udm_message, shrink, publisher_text}
use provisioning_api.Consumer.Example.Shown.{inverse, green, handle_udm_message_lem}
use provisioning_api.Consumer.Running.{IsSteady, Supplied, run_ends}
use provisioning_api.Memory.{World, blank, api, clock, conversions}
use provisioning_api.Examples.Subscriptions.{app, users}

abbrev settings : ClientSettings
settings = record {
  provisioning_api_base_url = "http://api";
  provisioning_api_username = "admin";
  provisioning_api_password = "secret";
}

create_subscription_posts_example :
    (body : Json) × (create_subscription ◌<>◌ api conversions settings "app" "secret" users true
        blank
      ≡ api.post "http://api/v1/subscriptions" body blank)
    × (validate_new_subscription conversions body ≡ ok app)
unfolding subscriptions_url
create_subscription_posts_example =
    create_subscription_posts ◌<>◌ api conversions settings (λ b. refl) app blank

abbrev printing : Printing
printing = record {
  number = λ n. "3";
  dumps_lines = λ fs. "{" ∷ "}" ∷ [];
  sorted_lines = λ fs. "{" ∷ "}" ∷ [];
  unified_diff = λ old new. new;
  starts_with = λ line start. false;
  datetime_text = λ iso. "2025-01-01 00:00:00";
}

handle_udm_message_lem_example :
    handle_udm_message printing created
    ≡ ok (
        ""
        ∷ inverse printing (
            "Action: Object created  ##  Topic: users/user  "
            <> "##  From: PublisherName.udm_listener  ##  Time: 2025-01-01 00:00:00")
        ∷ green printing "+ {"
        ∷ green printing "+ }"
        ∷ [])
unfolding shrink publisher_text
handle_udm_message_lem_example = handle_udm_message_lem printing created

abbrev texts : Texts
texts = record { number = λ n. "7"; ten_seconds = "10" }

abbrev answer : Json
answer = obj (
    field "publisher_name" (str "udm-listener") (
      field "ts" (str "2025-01-01T00:00:00") (
        field "realm" (str "portal") (
          field "topic" (str "tile") (
            field "body" (obj (field "old" (obj no_fields) (field "new" (obj no_fields) no_fields)))
              (field "sequence_number" (num 7) (field "num_delivered" (num 1) no_fields)))))))

abbrev answered : ProvisioningMessage
answered = record {
  message = record {
    publisher_name = udm_listener;
    ts = "2025-01-01T00:00:00";
    realm = "portal";
    topic = "tile";
    body = record { old = no_fields; new = no_fields };
  };
  sequence_number = 7;
  num_delivered = 1;
}

abbrev busy : Http World
busy = record api { get = λ u l s. (ok answer, s) }

-- Sleeping takes no time here, so that the clock counts the messages.
abbrev instant : Clock World
instant = record clock { sleep = λ n s. (ok tt, s) }

abbrev counted : ProvisioningMessage → Exec World (Unit {0})
counted m s = (ok tt, record s { clock = s.clock + 1 })

busy-IsSteady : IsSteady busy instant (λ s. s.clock)
busy-IsSteady = record {
  patch_cases = λ u j s. inl refl;
  count-patch = λ u j s. refl;
  count-get = λ u l s. refl;
  sleep-ok = λ n s. refl;
  count-sleep = λ n s. refl;
}

busy-Supplied :
    Supplied busy "subs" texts conversions instant "app" busy-IsSteady (counted ∷ []) true 3
unfolding get_subscription_message message_if validate_provisioning_message validate_message
    get_field as_str debug_msg for_each
busy-Supplied s = (answered, refl, refl, (λ t. (refl, omega arith)))

run_ends_example :
    let ended =
      run busy "subs" texts conversions instant "app" (counted ∷ []) true 3 (some 2) 2 0 blank in
    (ended.0 ≡ ok tt) × (ended.1.clock ≡ 2)
run_ends_example =
    run_ends busy "subs" texts conversions instant "app" busy-IsSteady (counted ∷ []) true 3
      busy-Supplied 2 1 0 blank refl
