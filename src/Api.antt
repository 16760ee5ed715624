-- ===== src/Api.antt =====
-- The routes of `src/server/core/app/subscriptions.py` and `messages.py` and their dependencies in
-- `dependencies.py`. What FastAPI does around them, routing and the validation of parameters and
-- bodies, is not part of the repository. Times are in milliseconds.
pub mod Access
pub mod Answers
use provisioning_api.Base.{
  ℕ, String, Bool, true, false, ◌&&◌, Option, some, List, ◌==◌, if◌then◌else◌,
}
use provisioning_api.Base.Exec.{
  Exec, Exn, pure, raise, try, ◌>>=◌, ◌>>◌, http_error, value_error, validation_error,
}
use provisioning_api.Models.Pydantic.{Conversions}
use provisioning_api.Models.Subscription.{FillQueueStatus, Subscription, NewSubscription}
use provisioning_api.Models.Queue.{Message, ProvisioningMessage}
use provisioning_api.Nats.{Codec, KeyValue, JetStream}
use provisioning_api.Services.Passwords.{PasswordContext, TtlCache}
use provisioning_api.Services.Subscriptions
use provisioning_api.Services.Auth
use provisioning_api.Services.Messages
use provisioning_api.Services.Messages.{Clock, Process, outside}

-- `HTTPBasicCredentials`
pub record Credentials : Type 0 where
  pub username : String
  pub password : String

-- The accounts of `AppSettings`.
pub record AppSettings : Type 0 where
  pub admin : Credentials
  pub events : Credentials
  pub prefill : Credentials

module _ {S : Type 0} where
  unfoldable pub authenticate_user : Credentials → String → String → Exec S (Unit {0})
  authenticate_user credentials username password =
      if credentials.username == username && credentials.password == password
      then pure tt
      else raise (http_error 401)

  unfoldable pub authenticate_admin : AppSettings → Credentials → Exec S (Unit {0})
  authenticate_admin settings credentials =
      authenticate_user credentials settings.admin.username settings.admin.password

  unfoldable pub authenticate_events_endpoint : AppSettings → Credentials → Exec S (Unit {0})
  authenticate_events_endpoint settings credentials =
      authenticate_user credentials settings.events.username settings.events.password

  unfoldable pub authenticate_prefill : AppSettings → Credentials → Exec S (Unit {0})
  authenticate_prefill settings credentials =
      authenticate_user credentials settings.prefill.username settings.prefill.password

  -- `except ValueError`; a `ValidationError` is one, too.
  unfoldable pub not_found_if_value : {A : Type 0} → Exn → Exec S A
  not_found_if_value value_error = raise (http_error 404)
  not_found_if_value validation_error = raise (http_error 404)
  not_found_if_value e = raise e

  -- `except HTTPException: await other`
  unfoldable pub or_else : Exec S (Unit {0}) → Exn → Exec S (Unit {0})
  or_else other (http_error n) = other
  or_else other e = raise e

module _ {S B : Type 0} (codec : Codec B) (kv : KeyValue S B) (js : JetStream S B)
    (pw : PasswordContext S B) (cache : TtlCache S B) (c : Conversions) (clock : Clock S)
    (settings : AppSettings) where
  -- `service.authenticate_user(credentials, name)`
  unfoldable pub authenticate_subscriber : Credentials → String → Exec S (Unit {0})
  authenticate_subscriber credentials name =
      Auth.authenticate_user codec kv pw cache credentials.username credentials.password (some name)

  unfoldable pub get_subscriptions : Credentials → Exec S (List (Option Subscription))
  get_subscriptions credentials = do
    authenticate_admin settings credentials
    Subscriptions.get_subscriptions codec kv c

  unfoldable pub get_subscription : Credentials → String → Exec S Subscription
  get_subscription credentials name = do
    authenticate_subscriber credentials name
    try (Subscriptions.get_subscription codec kv c name) not_found_if_value

  unfoldable pub delete_subscription : Credentials → String → Exec S (Unit {0})
  delete_subscription credentials name = do
    try (authenticate_admin settings credentials)
        (or_else (authenticate_subscriber credentials name))
    try (Subscriptions.delete_subscription codec kv c js name) not_found_if_value

  -- What follows the registration; the result is the status code.
  unfoldable pub answer_registered : NewSubscription → Bool → Exec S ℕ
  answer_registered subscription registered =
      if registered
      then if subscription.request_prefill
        then (do Messages.send_request_to_prefill codec js clock subscription; pure 201)
        else pure 201
      else pure 200

  unfoldable pub create_subscription : Credentials → NewSubscription → Exec S ℕ
  create_subscription credentials subscription = do
    authenticate_admin settings credentials
    registered ← Subscriptions.register_subscription codec kv c js pw subscription
    answer_registered subscription registered

  unfoldable pub update_subscription_prefill_status :
      Credentials → String → FillQueueStatus → Exec S (Unit {0})
  update_subscription_prefill_status credentials name status = do
    authenticate_prefill settings credentials
    try (Subscriptions.set_subscription_queue_status codec kv c name status) not_found_if_value

  unfoldable pub get_next_message :
      Credentials → String → ℕ → Bool → Exec (Process S) (Option ProvisioningMessage)
  get_next_message credentials name timeout pop = do
    outside (authenticate_subscriber credentials name)
    Messages.get_next_message codec kv js c clock name timeout pop

  unfoldable pub update_message_status : Credentials → String → ℕ → Exec S (Unit {0})
  update_message_status credentials name seq_num = do
    authenticate_subscriber credentials name
    try (Messages.post_message_status codec js name seq_num) not_found_if_value

  unfoldable pub create_new_message : Credentials → Message → Exec S (Unit {0})
  create_new_message credentials msg = do
    authenticate_events_endpoint settings credentials
    Messages.add_live_event codec js msg
