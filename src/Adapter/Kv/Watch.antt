-- ===== src/Adapter/Kv/Watch.antt =====
-- `NatsKVAdapter`: the connection, and the watch on the changes of the subscriptions.
use provisioning_api.Base.{String, Option, none, some, List}
use provisioning_api.Base.Exec.{Exec, pure, for_each, ◌>>◌}
use provisioning_api.Models.Subscription.{Bucket, subscriptions}
use provisioning_api.Nats.{KeyValue, Client, Operation, put, deleted, purged, Update}
use provisioning_api.Adapter.Kv.{create_kv_store}

module _ {S B : Type 0} (nats : Client S) (kv : KeyValue S B) where
  unfoldable pub init : String → String → String → List Bucket → Exec S (Unit {0})
  init server user password buckets = do
    nats.connect server user password 1
    for_each (create_kv_store kv) buckets

unfoldable pub close : {S : Type 0} → Client S → Exec S (Unit {0})
close nats = nats.close

-- `None if update.operation in {KV_DEL, KV_PURGE} else update.value`
abbrev pub value_unless_deleted : {B : Type 0} → Operation → Option B → Option B
value_unless_deleted put value = value
value_unless_deleted deleted value = none
value_unless_deleted purged value = none

module _ {S B : Type 0} (callback : String → Option B → Exec S (Unit {0})) where
  -- The body of the loop: `none` is the update that is skipped.
  unfoldable pub watch_update : Option (Update B) → Exec S (Unit {0})
  watch_update none = pure tt
  watch_update (some update) =
      callback update.key (value_unless_deleted update.operation update.value)

  -- Up to the end of the updates that have come so far.
  unfoldable pub watch_for_subscription_changes :
      KeyValue S B → List (Option (Update B)) → Exec S (Unit {0})
  watch_for_subscription_changes kv updates = do
    kv.key_value subscriptions
    kv.watchall subscriptions
    for_each watch_update updates
