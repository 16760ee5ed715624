-- ===== src/Consumer/Example/Topics.antt =====
-- The arguments of the example client, and `main`. `split_colons` is `text.split(":")`.
use Prim.Native.Char.{Char, code}
use text.Mathlib.TextLemmas.{nil-append, cons-append}
use provisioning_api.Base.{
  ℕ, String, ◌<>◌, Bool, true, false, num_eq, ◌||◌, Option, none, some, List, [], ◌∷◌, ◌≡◌, refl,
  arith, ap, ◌∙◌, if◌then◌else◌,
}
use provisioning_api.Base.Exec.{
  Exec, Exn, Result, ok, raised, and_then, or_raise, raise, lift, try, finally, ◌>>=◌, ◌>>◌,
  assertion_error, type_error, validation_error,
}
use provisioning_api.Models.Pydantic.{Conversions}
use provisioning_api.Models.Subscription.{RealmTopic}
use provisioning_api.Models.Queue.{ProvisioningMessage}
use provisioning_api.Adapter.Rest.{Http}
use provisioning_api.Services.Messages.{Clock}
use provisioning_api.Consumer.{Texts, run}
use provisioning_api.Consumer.Client.{ClientSettings, subscriptions_url, create_subscription}
use provisioning_api.Consumer.Example.{Printing, handle_message}

-- A character in front of the first part.
abbrev extend : Char → List String → List String
extend ch [] = (String.◌∷◌ ch String.[]) ∷ []
extend ch (part ∷ parts) = (String.◌∷◌ ch part) ∷ parts

unfoldable pub split_colons : String → List String
split_colons String.[] = String.[] ∷ []
split_colons (String.◌∷◌ ch rest) =
    let parts = split_colons rest in
    if num_eq (code ch) b':' then String.[] ∷ parts else extend ch parts

abbrev pub has_colon : String → Bool
has_colon String.[] = false
has_colon (String.◌∷◌ ch rest) = num_eq (code ch) b':' || has_colon rest

-- `len(x) == 2`, and `realm, topic = x`
abbrev as_pair : List String → Result RealmTopic
as_pair (realm ∷ topic ∷ []) = ok (record { realm = realm; topic = topic })
as_pair _ = raised assertion_error

unfoldable pub parse_realm_topics : List String → Result (List RealmTopic)
parse_realm_topics [] = ok []
parse_realm_topics (arg ∷ args) =
    and_then (as_pair (split_colons arg))
      λ rt. and_then (parse_realm_topics args) λ rts. ok (rt ∷ rts)

-- `argparse.Namespace` of `parse_args`; what was not given is `None`.
pub record Arguments : Type 0 where
  pub realm_topic : Option (List String)
  pub prefill : Bool
  pub admin_username : Option String
  pub admin_password : Option String

-- The settings take texts only.
unfoldable pub admin_settings : ClientSettings → Arguments → Result ClientSettings
admin_settings settings arguments =
    and_then (or_raise validation_error arguments.admin_username) λ username.
      and_then (or_raise validation_error arguments.admin_password) λ password. ok (record {
        provisioning_api_base_url = settings.provisioning_api_base_url;
        provisioning_api_username = username;
        provisioning_api_password = password;
      })

-- The sessions are those of the administrator and of the subscriber, each with its `close`.
-- `is_response_error` tells `ClientResponseError` among the exceptions.
module _ {S : Type 0} (urljoin : String → String → String) (py : Printing) (texts : Texts)
    (c : Conversions) (clock : Clock S) (log : List String → Exec S (Unit {0}))
    (is_response_error : Exn → Bool) (max_retries : ℕ) where
  -- `except ClientResponseError` with its warning
  abbrev on_response_error : Exn → Exec S (Unit {0})
  on_response_error e = if is_response_error e then log [] else raise e

  unfoldable pub register_client :
      Http S → Exec S (Unit {0}) → ClientSettings → Arguments → Exec S (Unit {0})
  register_client admin_session close_admin settings arguments = do
    admin ← lift (admin_settings settings arguments)
    args ← lift (or_raise type_error arguments.realm_topic)
    realms_topics ← lift (parse_realm_topics args)
    finally
        (try
          (create_subscription urljoin admin_session c admin settings.provisioning_api_username
            settings.provisioning_api_password realms_topics arguments.prefill)
          on_response_error)
        close_admin

  abbrev pub show_message : ProvisioningMessage → Exec S (Unit {0})
  show_message message = do lines ← lift (handle_message py message.message); log lines

  -- The message handler has no limit; `rounds` bounds its polls.
  unfoldable pub listen : Http S → Exec S (Unit {0}) → ClientSettings → ℕ → Exec S (Unit {0})
  listen session close settings rounds =
      finally
        (run session (subscriptions_url urljoin settings) texts c clock
          settings.provisioning_api_username (show_message ∷ []) true max_retries none rounds 0)
        close

  -- No arguments are `none`.
  unfoldable pub main :
      Http S
      → Exec S (Unit {0})
      → Http S
      → Exec S (Unit {0})
      → ClientSettings
      → Option Arguments
      → ℕ
      → Exec S (Unit {0})
  main admin_session close_admin session close settings none rounds =
      listen session close settings rounds
  main admin_session close_admin session close settings (some arguments) rounds = do
    register_client admin_session close_admin settings arguments
    listen session close settings rounds

or_false : (a b : Bool) → (a || b) ≡ false → (a ≡ false) × (b ≡ false)
or_false a b h = ground arith

split_colons_whole : (text : String) → has_colon text ≡ false → split_colons text ≡ text ∷ []
unfolding split_colons
split_colons_whole String.[] h = refl
split_colons_whole (String.◌∷◌ ch rest) h =
    let (first, others) = or_false (num_eq (code ch) b':') (has_colon rest) h in
    rw (first, split_colons_whole rest others) refl

colon-append : (text : String) → ":" <> text ≡ String.◌∷◌ ":" text
colon-append text =
    cons-append ":" String.[] text ∙ ap (λ (t : String). String.◌∷◌ ":" t) (nil-append text)

split_colons_pair :
    (realm topic : String)
    → has_colon realm ≡ false
    → has_colon topic ≡ false
    → split_colons (realm <> ":" <> topic) ≡ realm ∷ topic ∷ []
unfolding split_colons
split_colons_pair String.[] topic h k =
    rw (nil-append (":" <> topic), colon-append topic, split_colons_whole topic k) refl
split_colons_pair (String.◌∷◌ ch rest) topic h k =
    let (first, others) = or_false (num_eq (code ch) b':') (has_colon rest) h in
    rw (cons-append ch rest (":" <> topic), first, split_colons_pair rest topic others k) refl

-- The texts `REALM:TOPIC` of realms and topics.
abbrev pub as_arguments : List RealmTopic → List String
as_arguments [] = []
as_arguments (rt ∷ rts) = (rt.realm <> ":" <> rt.topic) ∷ as_arguments rts

abbrev pub NoColons : List RealmTopic → Type 0
NoColons [] = Unit
NoColons (rt ∷ rts) = (has_colon rt.realm ≡ false) × (has_colon rt.topic ≡ false) × NoColons rts

-- The arguments `REALM:TOPIC` are read as those realms and topics, in order, where there is no
-- colon within a realm or a topic.
pub parse_realm_topics-as_arguments :
    (rts : List RealmTopic) → NoColons rts → parse_realm_topics (as_arguments rts) ≡ ok rts
unfolding parse_realm_topics
parse_realm_topics-as_arguments [] none_within = refl
parse_realm_topics-as_arguments (rt ∷ rts) (realm, topic, rest) =
    rw (split_colons_pair rt.realm rt.topic realm topic, parse_realm_topics-as_arguments rts rest)
      refl
