-- ===== src/Consumer/Client.antt =====
-- `ProvisioningConsumerClient` of `src/univention/provisioning/consumer/api.py`: the requests that the
-- message handler does not make, and the URLs of `consumer/config.py`.
use provisioning_api.Base.{String, ◌<>◌, Bool, List, [], ◌∷◌, ◌≡◌, refl}
use provisioning_api.Base.Exec.{
  Exec, Result, ok, raised, lift, pure, value_error, validation_error, ◌>>=◌,
}
use provisioning_api.Models.Json.{Json, Items, Fields, arr}
use provisioning_api.Models.Pydantic.{Conversions, KeepsBool}
use provisioning_api.Models.Subscription.{
  RealmTopic, Subscription, NewSubscription, validate_subscription,
}
use provisioning_api.Models.Requests.{dump_new_subscription, dump_event, validate_new_subscription}
use provisioning_api.Models.Requests.Laws.{validate-dump_new_subscription}
use provisioning_api.Adapter.Rest.{Http}

pub record ClientSettings : Type 0 where
  pub provisioning_api_base_url : String
  pub provisioning_api_username : String
  pub provisioning_api_password : String

-- `urllib.parse.urljoin`
module _ (urljoin : String → String → String) where
  unfoldable pub subscriptions_url : ClientSettings → String
  subscriptions_url settings = urljoin settings.provisioning_api_base_url "/v1/subscriptions"

  unfoldable pub messages_url : ClientSettings → String
  messages_url settings = urljoin settings.provisioning_api_base_url "/v1/messages"

  module _ {S : Type 0} (session : Http S) (c : Conversions) (settings : ClientSettings) where
    unfoldable pub create_subscription :
        String → String → List RealmTopic → Bool → Exec S (Unit {0})
    create_subscription name password realms_topics request_prefill =
        session.post (subscriptions_url settings) (
          dump_new_subscription (record {
            name = name;
            realms_topics = realms_topics;
            request_prefill = request_prefill;
            password = password;
          }))

    unfoldable pub cancel_subscription : String → Exec S (Unit {0})
    cancel_subscription name = session.delete (subscriptions_url settings <> "/" <> name)

    unfoldable pub get_subscription : String → Exec S Subscription
    get_subscription name = do
      content ← session.get (subscriptions_url settings <> "/" <> name) []
      lift (validate_subscription c content)

    -- One subscription is read, and a list of it returned.
    unfoldable pub get_subscriptions : Exec S (List Subscription)
    get_subscriptions = do
      content ← session.get (subscriptions_url settings) []
      sub ← lift (validate_subscription c content)
      pure (sub ∷ [])

    -- The name is not used.
    unfoldable pub submit_message : String → String → Fields → String → Exec S (Unit {0})
    submit_message realm topic body name =
        session.post (messages_url settings)
          (dump_event (record { realm = realm; topic = topic; body = body }))

module _ (urljoin : String → String → String) {S : Type 0} (session : Http S) (c : Conversions)
    (settings : ClientSettings) where
  -- What `create_subscription` posts, the model of the server reads as the subscription that was
  -- asked for, where the conversion to `bool` keeps Boolean values.
  pub create_subscription_posts :
      KeepsBool c
      → (new_sub : NewSubscription) (s : S)
      → (body : Json) × (create_subscription urljoin session c settings new_sub.name
            new_sub.password new_sub.realms_topics new_sub.request_prefill s
          ≡ session.post (subscriptions_url urljoin settings) body s)
        × (validate_new_subscription c body ≡ ok new_sub)
  unfolding create_subscription
  create_subscription_posts keeps new_sub s =
      (dump_new_subscription new_sub, refl, validate-dump_new_subscription c keeps new_sub)

  -- The server answers with a list of subscriptions, and whatever the list is, `get_subscriptions`
  -- raises on it: it reads the list as one subscription.
  get_subscriptions_of_list :
      (subs : Items) (s t : S)
      → session.get (subscriptions_url urljoin settings) [] s ≡ (ok (arr subs), t)
      → get_subscriptions urljoin session c settings s ≡ (raised validation_error, t)
  unfolding get_subscriptions validate_subscription
  get_subscriptions_of_list subs s t h = rw h

-- `if not callbacks: raise ValueError(...)`, of `MessageHandler.__init__`
unfoldable pub check_callbacks {ℓ} : {A : Type ℓ} → List A → Result (List A)
check_callbacks [] = raised value_error
check_callbacks (callback ∷ callbacks) = ok (callback ∷ callbacks)
