-- ===== src/Examples/Dispatcher.antt =====
-- Dispatching on the server in memory.
use provisioning_api.Base.{true, none, [], ◌∷◌}
use provisioning_api.Models.Json.{Fields, str, no_fields, field}
use provisioning_api.Models.Subscription.{Subscription, done}
use provisioning_api.Models.Queue.{Message, MqMessage, udm_listener}
use provisioning_api.Dispatcher.{Mapping}

-- The pair of realm and topic is listed twice.
abbrev pub app : Subscription
app = record {
  name = "app";
  realms_topics =
      record { realm = "udm"; topic = "users/user" }
      ∷ record { realm = "udm"; topic = "users/user" }
      ∷ [];
  request_prefill = true;
  prefill_queue_status = done;
}

abbrev pub mapping : Mapping
mapping = ("udm", ("users/user", app ∷ []) ∷ []) ∷ []

abbrev pub created : Message
created = record {
  publisher_name = udm_listener;
  ts = "2025-01-01T00:00:00";
  realm = "udm";
  topic = "users/user";
  body = record { old = no_fields; new = field "dn" (str "uid=a") no_fields };
}

abbrev pub incoming : Fields → MqMessage
incoming content = record {
  subject = "incoming";
  reply = "reply";
  content = content;
  num_delivered = 1;
  sequence_number = 1;
  headers = none;
}
