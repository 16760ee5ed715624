-- ===== src/Api/Access.antt =====
-- Who is let in by the routes of the subscriptions.
use provisioning_api.Base.{ℕ, String, Bool, true, false, ◌&&◌, some, ◌≡◌, ◌==◌}
use provisioning_api.Base.Exec.{raised, http_error}
use provisioning_api.Models.Pydantic.{Conversions}
use provisioning_api.Models.Subscription.{FillQueueStatus, NewSubscription}
use provisioning_api.Models.Queue.{Message}
use provisioning_api.Nats.{Codec, KeyValue, JetStream}
use provisioning_api.Services.Passwords.{PasswordContext, TtlCache}
use provisioning_api.Services.Auth
use provisioning_api.Services.Auth.{is_foreign}
use provisioning_api.Services.Messages.{Clock, Process}
use provisioning_api.Api.{
  Credentials, AppSettings, authenticate_user, authenticate_admin, authenticate_prefill,
  authenticate_events_endpoint, or_else, authenticate_subscriber, get_subscriptions,
  get_subscription, delete_subscription, create_subscription, update_subscription_prefill_status,
  get_next_message, update_message_status, create_new_message,
}

-- The credentials are those of the account.
abbrev pub is_account : Credentials → Credentials → Bool
is_account account credentials =
    credentials.username == account.username && credentials.password == account.password

module _ {S B : Type 0} (codec : Codec B) (kv : KeyValue S B) (js : JetStream S B)
    (pw : PasswordContext S B) (cache : TtlCache S B) (c : Conversions) (clock : Clock S)
    (settings : AppSettings) (credentials : Credentials) where
  refused :
      (account : Credentials) (s : S)
      → is_account account credentials ≡ false
      → authenticate_user credentials account.username account.password s
        ≡ (raised (http_error 401), s)
  unfolding authenticate_user
  refused account s h = rw h

  foreign_refused :
      (name : String) (s : S)
      → is_foreign (some name) credentials.username ≡ true
      → authenticate_subscriber codec kv js pw cache c clock settings credentials name s
        ≡ (raised (http_error 401), s)
  unfolding authenticate_subscriber Auth.authenticate_user
  foreign_refused name s h = rw h

  -- A subscriber that asks for another one's subscription, and is not the administrator where that
  -- would do, is refused with error 401 by each route of a subscription, and nothing happens.
  pub foreign_subscriber_refused :
      (name : String) (timeout seq_num : ℕ) (pop : Bool) (s : S) (p : Process S)
      → is_foreign (some name) credentials.username ≡ true
      → is_account settings.admin credentials ≡ false
      → (get_subscription codec kv js pw cache c clock settings credentials name s
          ≡ (raised (http_error 401), s))
        × (delete_subscription codec kv js pw cache c clock settings credentials name s
            ≡ (raised (http_error 401), s))
        × (update_message_status codec kv js pw cache c clock settings credentials name seq_num s
            ≡ (raised (http_error 401), s))
        × (get_next_message codec kv js pw cache c clock settings credentials name timeout pop p
            ≡ (raised (http_error 401), p))
  unfolding get_subscription delete_subscription update_message_status get_next_message
      authenticate_admin or_else
  foreign_subscriber_refused name timeout seq_num pop s p h a = (
    rw (foreign_refused name s h),
    rw (refused settings.admin s a, foreign_refused name s h),
    rw (foreign_refused name s h),
    rw (foreign_refused name p.outside h),
  )

  -- The routes of the administrator, of the prefill and of the events refuse all credentials but
  -- those of their account with error 401, and nothing happens.
  pub account_refused :
      (new_sub : NewSubscription) (name : String) (status : FillQueueStatus) (msg : Message) (s : S)
      → (is_account settings.admin credentials ≡ false
          → (create_subscription codec kv js pw cache c clock settings credentials new_sub s
              ≡ (raised (http_error 401), s))
            × (get_subscriptions codec kv js pw cache c clock settings credentials s
                ≡ (raised (http_error 401), s)))
        × (is_account settings.prefill credentials ≡ false
            → update_subscription_prefill_status codec kv js pw cache c clock settings credentials
                name status s
              ≡ (raised (http_error 401), s))
        × (is_account settings.events credentials ≡ false
            → create_new_message codec kv js pw cache c clock settings credentials msg s
              ≡ (raised (http_error 401), s))
  unfolding create_subscription get_subscriptions update_subscription_prefill_status
      create_new_message authenticate_admin authenticate_prefill authenticate_events_endpoint
  account_refused new_sub name status msg s = (
    (λ a. (rw (refused settings.admin s a), rw (refused settings.admin s a))),
    (λ a. rw (refused settings.prefill s a)),
    (λ a. rw (refused settings.events s a)),
  )
