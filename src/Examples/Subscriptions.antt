-- ===== src/Examples/Subscriptions.antt =====
-- The key-value adapter and the subscription service on the server in memory.
use provisioning_api.Base.{
  String, Bool, true, false, none, some, List, [], ◌∷◌, ◌≡◌, refl, ◌==◌, if◌then◌else◌,
}
use provisioning_api.Base.Exec.{Result, ok, raised, value_error, update_conflict}
use provisioning_api.Models.Subscription.{
  Bucket, subscriptions, credentials, pending, RealmTopic, Subscription, NewSubscription,
  dump_subscription,
}
use provisioning_api.Adapter.Kv.{text, put_value, value_truthy}
use provisioning_api.Adapter.Kv.Laws.{put_value_revision}
use provisioning_api.Adapter.Mq.{stream_config, stream_key}
use provisioning_api.Adapter.Mq.Streams.{Compatible}
use provisioning_api.Nats.Streams.{is_stream_name}
use provisioning_api.Services.Subscriptions.{
  register_subscription, get_subscription_info, get_subscription, initial_subscription,
  stream_subjects, delete_subscription,
}
use provisioning_api.Services.Subscriptions.Register.{register_subscription_new}
use provisioning_api.Services.Subscriptions.Delete.{delete_subscription_lem}
use provisioning_api.Services.Subscriptions.Read.{stored_info, stored_info-none, stored_info-dump}
use provisioning_api.Memory.{
  raw, dumped, World, blank, codec, conversions, kv, js, passwords, set_value, hash_of,
}
use provisioning_api.Memory.Laws.{backend, kv-IsKeyValue}

abbrev pub users : List RealmTopic
users = record { realm = "udm"; topic = "users/user" } ∷ []

abbrev pub app : NewSubscription
app = record { name = "app"; realms_topics = users; request_prefill = true; password = "secret" }

abbrev app_info : Subscription
app_info = record {
  name = "app";
  realms_topics = users;
  request_prefill = true;
  prefill_queue_status = pending;
}

-- A world that holds the subscription.
abbrev registered : World
registered = set_value subscriptions "app" (some (dumped (dump_subscription app_info))) blank

put_value_revision_example :
    ((put_value codec kv "app" (text (raw "v")) subscriptions (some 2) registered).0
      ≡ raised update_conflict)
    × (registered.value subscriptions "app" ≡ some (dumped (dump_subscription app_info)))
unfolding value_truthy put_value
put_value_revision_example =
    put_value_revision codec kv kv-IsKeyValue "app" (text (raw "v")) subscriptions 2 registered
      subscriptions "app" refl refl

app_compatible :
    Compatible (blank.stream (stream_key "app")) (stream_config "app" true (stream_subjects "app"))
unfolding is_stream_name stream_config stream_key
app_compatible = refl

-- What is stored for the subscription, and for a name that is free.
app_stored :
    stored_info codec conversions (registered.value subscriptions "app") ≡ ok (some app_info)
app_stored = stored_info-dump backend app_info

app_free : stored_info codec conversions (blank.value subscriptions "app") ≡ ok none
app_free = stored_info-none backend

abbrev created : Result Bool × World
created = register_subscription codec kv conversions js passwords app blank

register_subscription_new_example :
    (created.0 ≡ ok true)
    × (get_subscription_info codec kv conversions "app" created.1
        ≡ (ok (some (initial_subscription app)), created.1))
    × (created.1.value credentials "app" ≡ some (hash_of "secret"))
    × (created.1.stream (stream_key "app")
        ≡ some (stream_config "app" true (stream_subjects "app")))
    × ((b : Bucket) (k : String) → ("app" == k) ≡ false → created.1.value b k ≡ none)
register_subscription_new_example =
    register_subscription_new backend app blank app_free app_compatible

delete_subscription_lem_example :
    let r = delete_subscription codec kv conversions js "app" registered in
    (r.0 ≡ ok tt)
    × (get_subscription codec kv conversions "app" r.1 ≡ (raised value_error, r.1))
    × (r.1.value credentials "app" ≡ none)
    × ((m : String) → r.1.stream m ≡ (if stream_key "app" == m then none else registered.stream m))
    × ((b : Bucket) (k : String) → ("app" == k) ≡ false → r.1.value b k ≡ registered.value b k)
delete_subscription_lem_example =
    delete_subscription_lem backend "app" registered app_info app_stored
