-- ===== src/Consumer.antt =====
-- `ProvisioningConsumerClient` and `MessageHandler` of `src/univention/provisioning/consumer/api.py`
-- over the calls of an `aiohttp` session. Times are in milliseconds. What is written to the log has
-- no effect, except that it may raise: see `debug_msg`.
pub mod Retries
pub mod Handling
pub mod Client
pub mod Running
pub mod Example
use Prim.Native.Nat.{min}
use provisioning_api.Base.{
  ℕ, zero, suc, ◌+◌, ◌*◌, ◌^◌, String, ◌<>◌, Bool, true, false, ltb, leb, not, ◌&&◌, num_eq, Option,
  none, some, List, [], ◌∷◌, ◌==◌, if◌then◌else◌,
}
use provisioning_api.Base.Exec.{
  Exec, Exn, Result, ok, raised, and_then, or_raise, pure, raise, lift, try, for_each, ◌>>=◌, ◌>>◌,
  client_error, key_error, validation_error, out_of_fuel,
}
use provisioning_api.Models.Json.{
  Json, Fields, num, str, obj, no_fields, field, get_field, truthy, fields_truthy,
}
use provisioning_api.Models.Pydantic.{Conversions}
use provisioning_api.Models.Queue.{Message, ProvisioningMessage, validate_message}
use provisioning_api.Adapter.Rest.{Http}
use provisioning_api.Services.Messages.{Clock}

-- `ProvisioningMessage.model_validate`; the numbers are numbers in JSON.
as_num : Option Json → Option ℕ
as_num (some (num n)) = some n
as_num _ = none

validate_fields : Conversions → Fields → Result ProvisioningMessage
validate_fields c fs = and_then (validate_message c fs) λ message.
    and_then (or_raise validation_error (as_num (get_field "sequence_number" fs)))
      λ sequence_number.
        and_then (or_raise validation_error (as_num (get_field "num_delivered" fs)))
          λ num_delivered. ok (record {
            message = message;
            sequence_number = sequence_number;
            num_delivered = num_delivered;
          })

unfoldable pub validate_provisioning_message : Conversions → Json → Result ProvisioningMessage
unfolding validate_fields as_num
validate_provisioning_message c (obj fs) = validate_fields c fs
validate_provisioning_message c _ = raised validation_error

-- `ProvisioningMessage.model_validate(msg) if msg else msg`
unfoldable pub message_if : Conversions → Json → Result (Option ProvisioningMessage)
message_if c j =
    if truthy j
    then and_then (validate_provisioning_message c j) (λ message. ok (some message))
    else ok none

-- The text of a number in a URL, and the texts of the parameters of a request.
pub record Texts : Type 0 where
  pub number : ℕ → String
  pub ten_seconds : String

unfoldable pub subscriptions_messages_url : String → String → String
subscriptions_messages_url subscriptions_url name = subscriptions_url <> "/" <> name <> "/messages"

-- The look at the DNs of a change in `debug_msg`; the rest of its text is left out.
unfoldable pub require_dn : Fields → Result (Unit {0})
require_dn fs = elim (get_field "dn" fs) [ none ↦ raised key_error | some j ↦ ok tt ]

unfoldable pub debug_msg : Message → Result (Unit {0})
debug_msg message =
    if message.realm == "udm"
    then if fields_truthy message.body.old && fields_truthy message.body.new
      then and_then (require_dn message.body.old) (λ _. require_dn message.body.new)
      else if not (fields_truthy message.body.old)
      then require_dn message.body.new
      else require_dn message.body.old
    else ok tt

-- Whether the loop ends behind a message: `counter` counts this one.
unfoldable pub limit_reached : Option ℕ → ℕ → Bool
limit_reached none counter = false
limit_reached (some limit) counter = not (num_eq limit 0) && leb limit counter

-- `min(2**retries / 10, 30)` seconds
unfoldable pub backoff : ℕ → ℕ
backoff retries = min (2 ^ retries * 100) 30000

module _ {S : Type 0} (session : Http S) (subscriptions_url : String) (texts : Texts)
    (c : Conversions) (clock : Clock S) (subscription_name : String) where
  -- With the timeout of the handler, and no `pop`.
  unfoldable pub get_subscription_message : Exec S (Option ProvisioningMessage)
  get_subscription_message = do
    msg ←
        session.get (subscriptions_messages_url subscriptions_url subscription_name <> "/next")
          (("timeout", texts.ten_seconds) ∷ [])
    lift (message_if c msg)

  unfoldable pub set_message_status : ℕ → Exec S (Unit {0})
  set_message_status seq_num =
      session.patch
        (subscriptions_messages_url subscriptions_url subscription_name
          <> "/"
          <> texts.number seq_num
          <> "/status")
        (obj (field "status" (str "ok") no_fields))

  on_client_error : Exn → Exec S Bool
  on_client_error client_error = pure false
  on_client_error e = raise e

  unfoldable pub acknowledge_message : ℕ → Exec S Bool
  unfolding on_client_error
  acknowledge_message seq_num = try (do set_message_status seq_num; pure true) on_client_error

  -- `if retries != self.settings.max_acknowledgement_retries: await asyncio.sleep(timeout)`
  pause : ℕ → ℕ → Exec S (Unit {0})
  pause max_retries retries =
      if not (num_eq retries max_retries) then clock.sleep (backoff retries) else pure tt

  -- The rest of the loop, of `left` rounds from `retries` on.
  unfoldable pub retry : ℕ → ℕ → ℕ → ℕ → Exec S (Unit {0})
  unfolding pause
  retry max_retries seq_num retries zero = pure tt
  retry max_retries seq_num retries (suc left) = do
    acknowledged ← acknowledge_message seq_num
    elim acknowledged [
      | true ↦ pure tt
      | false ↦ do pause max_retries retries; retry max_retries seq_num (suc retries) left
    ]

  unfoldable pub acknowledge_message_with_retries : ℕ → ProvisioningMessage → Exec S (Unit {0})
  acknowledge_message_with_retries max_retries message =
      retry max_retries message.sequence_number 0 (max_retries + 1)

  module _ (callbacks : List (ProvisioningMessage → Exec S (Unit {0}))) (pop_after_handling : Bool)
      (max_retries : ℕ) where
    -- The body of the loop behind the receipt of a message, up to the count.
    unfoldable pub handle_one : ProvisioningMessage → Exec S (Unit {0})
    handle_one message = do
      lift (debug_msg message.message)
      for_each (λ callback. callback message) callbacks
      if pop_after_handling then acknowledge_message_with_retries max_retries message else pure tt

    -- `rounds` bounds the number of polls; the loop of the source has no bound.
    unfoldable pub run : Option ℕ → ℕ → ℕ → Exec S (Unit {0})
    run message_limit zero counter = raise out_of_fuel
    run message_limit (suc rounds) counter = do
      message ← get_subscription_message
      elim message [
        | none ↦ run message_limit rounds counter
        | some found ↦ do
          handle_one found
          elim (limit_reached message_limit (suc counter)) [
            | true ↦ pure tt
            | false ↦ run message_limit rounds (suc counter)
          ]
      ]
