-- ===== src/Services/Auth.antt =====
-- `verify_and_update_password` and `SubscriptionService.authenticate_user` of
-- `src/server/services/subscriptions.py`.
pub mod Verdict
use provisioning_api.Base.{
  String, Bool, true, false, not, ◌&&◌, Option, none, some, if◌then◌else◌, ◌==◌,
}
use provisioning_api.Base.Exec.{Exec, ok, raised, pure, raise, ◌>>=◌, ◌>>◌, http_error}
use provisioning_api.Models.Subscription.{Bucket, credentials}
use provisioning_api.Nats.{Codec, KeyValue}
use provisioning_api.Adapter.Kv.{text, get_value, put_value}
use provisioning_api.Services.Passwords.{PasswordContext, CacheKey, TtlCache}

-- `subscription_name and subscription_name != credentials.username`
unfoldable pub is_foreign : Option String → String → Bool
is_foreign none username = false
is_foreign (some name) username = not (name == "") && not (name == username)

unfoldable pub cache_key : {B : Type 0} → String → Option B → Option String → CacheKey B
cache_key password hashed_password subscription_name = record {
  cleartext_pw = password;
  hashed_pw = hashed_password;
  subscription_name = subscription_name;
}

module _ {S B : Type 0} (codec : Codec B) (kv : KeyValue S B) (pw : PasswordContext S B)
    (cache : TtlCache S B) where
  on_hit : CacheKey B → Option (Bool × Option B) → Exec S (Bool × Option B)
  on_hit key (some v) = pure v
  on_hit key none = do
    v ← pw.verify_and_update key.cleartext_pw key.hashed_pw
    cache.store key v
    pure v

  unfoldable pub verify_and_update_password : CacheKey B → Exec S (Bool × Option B)
  unfolding on_hit
  verify_and_update_password key = do hit ← cache.cached key; on_hit key hit

  -- `if new_hash: put_value(...)`
  store_new_hash : String → Option B → Exec S (Unit {0})
  store_new_hash username none = pure tt
  store_new_hash username (some new_hash) =
      if codec.is_empty new_hash
      then pure tt
      else put_value codec kv username (text new_hash) credentials none

  conclude : String → CacheKey B → Bool → Option B → Exec S (Unit {0})
  conclude username key true new_hash = store_new_hash username new_hash
  conclude username key false new_hash = do cache.pop key; raise (http_error 401)

  unfoldable pub authenticate_user : String → String → Option String → Exec S (Unit {0})
  unfolding conclude store_new_hash
  authenticate_user username password subscription_name =
      if is_foreign subscription_name username then raise (http_error 401) else do
        hashed_password ← get_value kv username credentials
        let key = cache_key password hashed_password subscription_name
        verdict ← verify_and_update_password key
        conclude username key verdict.0 verdict.1
