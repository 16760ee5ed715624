-- ===== src/Examples/Auth.antt =====
-- Logging in on the server in memory.
use provisioning_api.Base.{true, none, some, ◌≡◌, refl, arith}
use provisioning_api.Base.Exec.{ok}
use provisioning_api.Models.Subscription.{credentials}
use provisioning_api.Services.Passwords.{CacheKey}
use provisioning_api.Services.Auth.{
  authenticate_user, is_foreign, cache_key, verify_and_update_password,
}
use provisioning_api.Adapter.Kv.{get_value}
use provisioning_api.Services.Auth.Verdict.{
  IsSound, authenticate_user_lem, authenticate_user-IsSound,
}
use provisioning_api.Memory.{
  World, blank, codec, Blob, kv, passwords, cache, cell_at, fits, set_value, hash_of,
}
use provisioning_api.Memory.Laws.{kv-IsKeyValue, cache-IsTtlCache}

-- The password of `app` is stored, and nothing is cached.
abbrev known : World
known = set_value credentials "app" (some (hash_of "secret")) blank

known-IsSound : IsSound codec kv passwords cache kv-IsKeyValue cache-IsTtlCache known
known-IsSound k w h = absurd (ground arith)

authenticate_user_lem_example :
    (authenticate_user codec kv passwords cache "app" "secret" (some "app") known).0 ≡ ok tt
unfolding is_foreign
authenticate_user_lem_example =
    authenticate_user_lem codec kv passwords cache kv-IsKeyValue cache-IsTtlCache "app" "secret"
      (some "app") known known-IsSound

-- What the cache holds behind the right password.
abbrev entry : CacheKey Blob
entry = cache_key "secret" (some (hash_of "secret")) none

entry_cached :
    cell_at (authenticate_user codec kv passwords cache "app" "secret" none known).1.cell entry
    ≡ some (true, none)
unfolding authenticate_user is_foreign get_value verify_and_update_password cache_key
entry_cached = refl

authenticate_user-IsSound_example : (true ≡ true) × (fits "secret" (some (hash_of "secret")) ≡ true)
unfolding cache_key
authenticate_user-IsSound_example =
    authenticate_user-IsSound codec kv passwords cache kv-IsKeyValue cache-IsTtlCache "app" "secret"
      none known known-IsSound entry (true, none) entry_cached
