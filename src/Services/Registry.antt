-- ===== src/Services/Registry.antt =====
-- What `SubscriptionService` of `src/server/services/subscriptions.py` stands for: a map of names
-- to subscriptions and their passwords. `perform` are the calls of the service, `serve` the same
-- requests to the map.
pub mod Simulation
use provisioning_api.Base.{
  ℕ, String, Bool, true, false, ◌&&◌, Option, none, some, List, [], ◌∷◌, ◌==◌, if◌then◌else◌,
}
use provisioning_api.Base.Exec.{Exec, Result, ok, raised, http_error, value_error}
use provisioning_api.Models.Pydantic.{Conversions}
use provisioning_api.Models.Subscription.{
  FillQueueStatus, Subscription, NewSubscription, realms_topics_eq,
}
use provisioning_api.Nats.{Codec, KeyValue, JetStream}
use provisioning_api.Services.Passwords.{PasswordContext}
use provisioning_api.Services.Subscriptions.{
  bool_eq, initial_subscription, register_subscription, get_subscription,
  set_subscription_queue_status, delete_subscription,
}

pub data Request : Type 0 where
  register : NewSubscription → Request
  look : String → Request
  report : String → FillQueueStatus → Request
  cancel : String → Request

pub data Answer : Type 0 where
  created : Result Bool → Answer
  found : Result Subscription → Answer
  finished : Result (Unit {0}) → Answer

pub record Entry : Type 0 where
  pub subscription : Subscription
  pub password : String

abbrev pub Registry : Type 0
Registry = String → Option Entry

abbrev pub set_entry : String → Option Entry → Registry → Registry
set_entry name o registry k = if name == k then o else registry k

abbrev pub same_request : Entry → NewSubscription → Bool
same_request entry new_sub =
    bool_eq entry.subscription.request_prefill new_sub.request_prefill
    && realms_topics_eq new_sub.realms_topics entry.subscription.realms_topics
    && new_sub.password == entry.password

abbrev pub new_entry : NewSubscription → Entry
new_entry new_sub = record {
  subscription = initial_subscription new_sub;
  password = new_sub.password;
}

abbrev pub with_status : FillQueueStatus → Entry → Entry
with_status status entry = record entry {
  subscription = record (entry.subscription) { prefill_queue_status = status };
}

-- The answer for what the map has of the name, and the map afterwards.
abbrev pub serve_register : NewSubscription → Option Entry → Registry → Answer × Registry
serve_register new_sub none registry =
    (created (ok true), set_entry new_sub.name (some (new_entry new_sub)) registry)
serve_register new_sub (some entry) registry =
    (created (if same_request entry new_sub then ok false else raised (http_error 409)), registry)

abbrev pub serve_look : Option Entry → Answer
serve_look none = found (raised value_error)
serve_look (some entry) = found (ok entry.subscription)

abbrev pub serve_report : String → FillQueueStatus → Option Entry → Registry → Answer × Registry
serve_report name status none registry = (finished (raised value_error), registry)
serve_report name status (some entry) registry =
    (finished (ok tt), set_entry name (some (with_status status entry)) registry)

abbrev pub serve_cancel : String → Option Entry → Registry → Answer × Registry
serve_cancel name none registry = (finished (raised value_error), registry)
serve_cancel name (some entry) registry = (finished (ok tt), set_entry name none registry)

abbrev pub serve : Request → Registry → Answer × Registry
serve (register new_sub) registry = serve_register new_sub (registry new_sub.name) registry
serve (look name) registry = (serve_look (registry name), registry)
serve (report name status) registry = serve_report name status (registry name) registry
serve (cancel name) registry = serve_cancel name (registry name) registry

abbrev pub serve_all : List Request → Registry → List Answer × Registry
serve_all [] registry = ([], registry)
serve_all (r ∷ rs) registry =
    let (answer, next) = serve r registry in
    let (answers, last) = serve_all rs next in (answer ∷ answers, last)

module _ {S B : Type 0} (codec : Codec B) (kv : KeyValue S B) (c : Conversions) (js : JetStream S B)
    (pw : PasswordContext S B) where
  abbrev pub perform : Request → S → Answer × S
  perform (register new_sub) s =
      let (r, t) = register_subscription codec kv c js pw new_sub s in (created r, t)
  perform (look name) s = let (r, t) = get_subscription codec kv c name s in (found r, t)
  perform (report name status) s =
      let (r, t) = set_subscription_queue_status codec kv c name status s in (finished r, t)
  perform (cancel name) s = let (r, t) = delete_subscription codec kv c js name s in (finished r, t)

  abbrev pub perform_all : List Request → S → List Answer × S
  perform_all [] s = ([], s)
  perform_all (r ∷ rs) s =
      let (answer, next) = perform r s in
      let (answers, last) = perform_all rs next in (answer ∷ answers, last)
