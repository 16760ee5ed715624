-- ===== src/Api/Answers.antt =====
-- The status codes of the routes that change subscriptions.
use provisioning_api.Api.Access.{is_account}
use provisioning_api.Base.{
  ℕ, String, Bool, true, false, none, ◌≡◌, refl, sym, ap, ◌∙◌, arith, if◌then◌else◌,
}
use provisioning_api.Base.Exec.{Result, continue, pure, ◌>>◌, ok, raised, http_error}
use provisioning_api.Models.Pydantic.{Conversions}
use provisioning_api.Models.Subscription.{subscriptions, FillQueueStatus, NewSubscription}
use provisioning_api.Nats.{Codec, KeyValue, JetStream}
use provisioning_api.Services.Passwords.{PasswordContext, TtlCache}
use provisioning_api.Services.Backend.{Backend}
use provisioning_api.Services.Subscriptions
use provisioning_api.Services.Subscriptions.Read.{stored_info, get_subscription_info_lem}
use provisioning_api.Services.Subscriptions.Register.{
  register_subscription_existing, register_subscription_new, same_parameters_initial,
}
use provisioning_api.Adapter.Mq.{stream_config, stream_key, add_message}
use provisioning_api.Adapter.Mq.Streams.{Compatible}
use provisioning_api.Services.Subscriptions.{
  stream_subjects, initial_subscription, register_subscription,
}
use provisioning_api.Services.Messages
use provisioning_api.Services.Subscriptions.Status.{set_subscription_queue_status_missing}
use provisioning_api.Services.Subscriptions.Delete.{delete_subscription_missing}
use provisioning_api.Services.Messages.{Clock}
use provisioning_api.Api.{
  Credentials, AppSettings, authenticate_user, authenticate_admin, authenticate_prefill,
  not_found_if_value, answer_registered, delete_subscription, create_subscription,
  update_subscription_prefill_status,
}

module _ {S B : Type 0} {codec : Codec B} {kv : KeyValue S B} {js : JetStream S B}
    {pw : PasswordContext S B} {c : Conversions} (E : Backend codec kv js pw c)
    (cache : TtlCache S B) (clock : Clock S) (settings : AppSettings) (credentials : Credentials)
    (s : S) where
  let_in :
      (account : Credentials) (t : S)
      → is_account account credentials ≡ true
      → authenticate_user credentials account.username account.password t ≡ (ok tt, t)
  unfolding authenticate_user
  let_in account t h = rw h

  -- For a name that is not registered the administrator's request to delete it and a report of its
  -- prefill are answered with error 404, and nothing changes.
  pub missing_subscription_answers :
      (name : String) (status : FillQueueStatus)
      → stored_info codec c (E.value s subscriptions name) ≡ ok none
      → (is_account settings.admin credentials ≡ true
          → delete_subscription codec kv js pw cache c clock settings credentials name s
            ≡ (raised (http_error 404), s))
        × (is_account settings.prefill credentials ≡ true
            → update_subscription_prefill_status codec kv js pw cache c clock settings credentials
                name status s
              ≡ (raised (http_error 404), s))
  unfolding delete_subscription update_subscription_prefill_status authenticate_admin
      authenticate_prefill not_found_if_value
  missing_subscription_answers name status free = (
    (λ a. rw (let_in settings.admin s a, delete_subscription_missing E name s free)),
    (λ a.
        rw (
          let_in settings.prefill s a,
          set_subscription_queue_status_missing E name s status free,
        )),
  )

  module _ (new_sub : NewSubscription) (admin : is_account settings.admin credentials ≡ true)
      (free : stored_info codec c (E.value s subscriptions new_sub.name) ≡ ok none)
      (compatible : Compatible
        (E.stream s (stream_key new_sub.name))
        (stream_config new_sub.name true (stream_subjects new_sub.name))) where
    -- The world once the subscription is registered, and once the request for it is answered.
    abbrev pub registered : S
    registered = (Subscriptions.register_subscription codec kv c js pw new_sub s).1

    abbrev pub answered : S
    answered = (create_subscription codec kv js pw cache c clock settings credentials new_sub s).1

    create_runs :
        create_subscription codec kv js pw cache c clock settings credentials new_sub s ≡ (
          if new_sub.request_prefill
          then (Messages.send_request_to_prefill codec js clock new_sub >> pure 201) registered
          else (ok 201, registered))
    unfolding create_subscription authenticate_admin answer_registered
    create_runs =
        let (created, info, hash, stream, others) =
          register_subscription_new E new_sub s free compatible in
        rw (let_in settings.admin s admin, created) (ground arith)

    module _ (value-now : (t : S) → E.value (clock.now t).1 ≡ E.value t) where
      then_world : (r : Result (Unit {0})) (t : S) → (continue r (λ _. pure {A = ℕ} 201) t).1 ≡ t
      then_world (ok _) t = refl
      then_world (raised x) t = refl

      value-sent_cases :
          (r : Result String) (t : S)
          → (clock.now t).0 ≡ r
          → E.value
              ((Messages.send_request_to_prefill codec js clock new_sub >> pure {A = ℕ} 201) t).1
            ≡ E.value t
      unfolding Messages.send_request_to_prefill add_message
      value-sent_cases (raised x) t e = rw e (value-now t)
      value-sent_cases (ok ts) t e = rw e (
          ap E.value (then_world _ _)
          ∙ E.keeps_values.value-publish _ _ _ (clock.now t).1
          ∙ value-now t)

      value-branch :
          (asks : Bool)
          → E.value
              (if asks
                then (Messages.send_request_to_prefill codec js clock new_sub >> pure {A = ℕ} 201)
                    registered
                else (ok 201, registered)).1
            ≡ E.value registered
      value-branch true = value-sent_cases (clock.now registered).0 registered refl
      value-branch false = refl

      value-answered : E.value answered ≡ E.value registered
      value-answered =
          ap (λ (x : Result ℕ × S). E.value x.1) create_runs ∙ value-branch new_sub.request_prefill

      again : register_subscription codec kv c js pw new_sub answered ≡ (ok false, answered)
      again =
          let (created, info, hash, stream, others) =
            register_subscription_new E new_sub s free compatible in
          register_subscription_existing E new_sub answered (initial_subscription new_sub)
            (rw value-answered (
              sym (ap (λ x. x.0) (get_subscription_info_lem E new_sub.name registered))
              ∙ ap (λ x. x.0) info))
            (rw (value-answered, hash) (E.is_pw.known-hashed new_sub.password s))
          ∙ rw (value-answered, hash, same_parameters_initial E new_sub s)

      -- The administrator's request for a new subscription is answered with 201, behind a request to
      -- prefill it where it asks for that. Made again in the world that this leaves, also where the
      -- request to prefill has failed, it is answered with 200, and nothing changes: no further
      -- prefill is requested.
      pub create_subscription_lem :
          (create_subscription codec kv js pw cache c clock settings credentials new_sub s ≡ (
            if new_sub.request_prefill
            then (Messages.send_request_to_prefill codec js clock new_sub >> pure 201) registered
            else (ok 201, registered)))
          × (create_subscription codec kv js pw cache c clock settings credentials new_sub answered
              ≡ (ok 200, answered))
      unfolding create_subscription authenticate_admin answer_registered
      create_subscription_lem = (create_runs, rw (let_in settings.admin answered admin, again))
