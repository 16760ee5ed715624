-- ===== src/Examples/Api.antt =====
-- The routes on the server in memory.
use provisioning_api.Base.{true}
use provisioning_api.Adapter.Mq.{stream_config, stream_key}
use provisioning_api.Adapter.Mq.Streams.{Compatible}
use provisioning_api.Nats.Streams.{is_stream_name}
use provisioning_api.Services.Subscriptions.{stream_subjects}
use provisioning_api.Base.{true, false, none, [], ◌≡◌, refl}
use provisioning_api.Base.Exec.{ok, raised, http_error, pure, ◌>>◌}
use provisioning_api.Models.Json.{no_fields}
use provisioning_api.Models.Subscription.{NewSubscription, done}
use provisioning_api.Models.Queue.{Message, udm_listener}
use provisioning_api.Services.Auth.{is_foreign}
use provisioning_api.Services.Messages
use provisioning_api.Services.Messages.{Process}
use provisioning_api.Services.Subscriptions.Read.{stored_info, stored_info-none}
use provisioning_api.Api.{
  Credentials, AppSettings, get_subscriptions, get_subscription, delete_subscription,
  create_subscription, update_subscription_prefill_status, get_next_message, update_message_status,
  create_new_message,
}
use provisioning_api.Api.Access.{is_account, foreign_subscriber_refused, account_refused}
use provisioning_api.Api.Answers.{
  missing_subscription_answers, create_subscription_lem, registered, answered,
}
use provisioning_api.Memory.{World, blank, codec, kv, js, passwords, cache, conversions, clock}
use provisioning_api.Memory.Laws.{backend}

abbrev settings : AppSettings
settings = record {
  admin = record { username = "admin"; password = "a" };
  events = record { username = "events"; password = "b" };
  prefill = record { username = "prefill"; password = "c" };
}

abbrev other : Credentials
other = record { username = "other"; password = "secret" }

abbrev process : Process World
process = record { outside = blank; prefill_done = λ n. false }

foreign_subscriber_refused_example :
    (get_subscription codec kv js passwords cache conversions clock settings other "app" blank
      ≡ (raised (http_error 401), blank))
    × (delete_subscription codec kv js passwords cache conversions clock settings other "app" blank
        ≡ (raised (http_error 401), blank))
    × (update_message_status codec kv js passwords cache conversions clock settings other "app" 1
          blank
        ≡ (raised (http_error 401), blank))
    × (get_next_message codec kv js passwords cache conversions clock settings other "app" 5000
          false process
        ≡ (raised (http_error 401), process))
unfolding is_foreign
foreign_subscriber_refused_example =
    foreign_subscriber_refused codec kv js passwords cache conversions clock settings other "app"
      5000 1 false blank process refl refl

abbrev app : NewSubscription
app = record { name = "app"; realms_topics = []; request_prefill = true; password = "secret" }

abbrev event : Message
event = record {
  publisher_name = udm_listener;
  ts = "2025-01-01T00:00:00";
  realm = "udm";
  topic = "users/user";
  body = record { old = no_fields; new = no_fields };
}

account_refused_example :
    (is_account settings.admin other ≡ false
      → (create_subscription codec kv js passwords cache conversions clock settings other app blank
          ≡ (raised (http_error 401), blank))
        × (get_subscriptions codec kv js passwords cache conversions clock settings other blank
            ≡ (raised (http_error 401), blank)))
    × (is_account settings.prefill other ≡ false
        → update_subscription_prefill_status codec kv js passwords cache conversions clock settings
            other "app" done blank
          ≡ (raised (http_error 401), blank))
    × (is_account settings.events other ≡ false
        → create_new_message codec kv js passwords cache conversions clock settings other event
            blank
          ≡ (raised (http_error 401), blank))
account_refused_example =
    account_refused codec kv js passwords cache conversions clock settings other app "app" done
      event blank

app_free : stored_info codec conversions none ≡ ok none
app_free = stored_info-none backend

missing_subscription_answers_example :
    (is_account settings.admin settings.admin ≡ true
      → delete_subscription codec kv js passwords cache conversions clock settings settings.admin
          "app" blank
        ≡ (raised (http_error 404), blank))
    × (is_account settings.prefill settings.admin ≡ true
        → update_subscription_prefill_status codec kv js passwords cache conversions clock settings
            settings.admin "app" done blank
          ≡ (raised (http_error 404), blank))
missing_subscription_answers_example =
    missing_subscription_answers backend cache clock settings settings.admin blank "app" done
      app_free

app_compatible :
    Compatible
      (backend.stream blank (stream_key "app"))
      (stream_config "app" true (stream_subjects "app"))
unfolding is_stream_name stream_config stream_key
app_compatible = refl

create_subscription_lem_example :
    let t =
      registered backend cache clock settings settings.admin blank app refl app_free
        app_compatible in
    let u =
      answered backend cache clock settings settings.admin blank app refl app_free app_compatible in
    (create_subscription codec kv js passwords cache conversions clock settings settings.admin app
        blank
      ≡ (Messages.send_request_to_prefill codec js clock app >> pure 201) t)
    × (create_subscription codec kv js passwords cache conversions clock settings settings.admin app
          u
        ≡ (ok 200, u))
create_subscription_lem_example =
    create_subscription_lem backend cache clock settings settings.admin blank app refl app_free
      app_compatible (λ t. refl)
