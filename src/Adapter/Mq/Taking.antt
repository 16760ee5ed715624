-- ===== src/Adapter/Mq/Taking.antt =====
-- `get_one_message` changes the world by its fetch only.
use provisioning_api.Base.{ℕ, String, Option, ◌≡◌, arith}
use provisioning_api.Models.Json.{Json}
use provisioning_api.Models.Pydantic.{Conversions}
use provisioning_api.Nats.{JetStream}
use provisioning_api.Adapter.Mq.{get_one_message, empty_if_late}

module _ {S B : Type 0} (js : JetStream S B) (decoder : B → Option Json) (c : Conversions)
    (stream durable subject : String) (timeout : ℕ) (s : S) where
  pub get_one_message_world :
      (get_one_message js decoder c (subject, durable, stream) timeout s).1
      ≡ (js.fetch stream durable subject timeout s).1
  unfolding get_one_message empty_if_late
  get_one_message_world = ground arith
