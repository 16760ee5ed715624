-- ===== src/Services/Passwords.antt =====
-- What the subscription service uses of `passlib.context.CryptContext` and of the `ttl_cache` of
-- `cachetools`, of which the repository has no source.
use provisioning_api.Base.{String, Bool, true, false, Option, none, some, ◌≡◌, ◌≢◌, ◌⊎◌}
use provisioning_api.Base.Exec.{Exec, Result, ok}
use provisioning_api.Nats.{Codec, KeyValue}
use provisioning_api.Models.Subscription.{Bucket}

-- Hashing draws a salt, so it is a coroutine. `verify` raises where the hash is of no known scheme.
-- A missing hash fits no password.
pub record PasswordContext (S B : Type 0) : Type 0 where
  pub hash : String → Exec S B
  pub verify : String → Option B → Result Bool
  pub verify_and_update : String → Option B → Exec S (Bool × Option B)

-- The arguments of `verify_and_update_password`.
pub record CacheKey (B : Type 0) : Type 0 where
  pub cleartext_pw : String
  pub hashed_pw : Option B
  pub subscription_name : Option String

-- The cache behind the decorated function: `cached` finds a live entry.
pub record TtlCache (S B : Type 0) : Type 0 where
  pub cached : CacheKey B → Exec S (Option (Bool × Option B))
  pub store : CacheKey B → Bool × Option B → Exec S (Unit {0})
  pub pop : CacheKey B → Exec S (Unit {0})

-- `known` are the hashes of a known scheme, and the missing one; `valid` tells which passwords fit
-- such a hash, and `hashed` is the hash that is made in a state.
pub record IsPasswordContext {S B : Type 0} (pw : PasswordContext S B) (codec : Codec B)
    (value : S → Bucket → String → Option B) (valid : String → Option B → Bool)
    (hashed : String → S → B) : Type 0 where
  pub known : Option B → Bool
  pub known-none : known none ≡ true
  pub known-hashed : (p : String) (s : S) → known (some (hashed p s)) ≡ true
  pub verify_lem : (p : String) (h : Option B) → known h ≡ true → pw.verify p h ≡ ok (valid p h)
  pub hash-ok : (p : String) (s : S) → (pw.hash p s).0 ≡ ok (hashed p s)
  pub value-hash : (p : String) (s : S) → value (pw.hash p s).1 ≡ value s
  pub valid-hashed : (p : String) (s : S) → valid p (some (hashed p s)) ≡ true
  pub is_empty-hashed : (p : String) (s : S) → codec.is_empty (hashed p s) ≡ false

-- `entries` are the live entries: storing adds at most the stored one, and `pop` takes one out.
-- Hashing, verifying and the calls on the buckets may only let entries expire.
pub record IsTtlCache {S B : Type 0} (kv : KeyValue S B) (pw : PasswordContext S B)
    (cache : TtlCache S B) (value : S → Bucket → String → Option B)
    (valid : String → Option B → Bool) (entries : S → CacheKey B → Option (Bool × Option B))
    : Type 0 where
  pub new_hash : String → Option B → S → Option B
  pub cached_lem : (k : CacheKey B) (s : S) → cache.cached k s ≡ (ok (entries s k), s)
  pub store-ok : (k : CacheKey B) (v : Bool × Option B) (s : S) → (cache.store k v s).0 ≡ ok tt
  pub store_entries :
      (k : CacheKey B) (v : Bool × Option B) (s : S) (j : CacheKey B) (w : Bool × Option B)
      → entries (cache.store k v s).1 j ≡ some w
      → ((j ≡ k) × (w ≡ v)) ⊎ (entries s j ≡ some w)
  pub pop-ok : (k : CacheKey B) (s : S) → (cache.pop k s).0 ≡ ok tt
  pub pop_entries :
      (k : CacheKey B) (s : S) (j : CacheKey B) (w : Bool × Option B)
      → entries (cache.pop k s).1 j ≡ some w
      → (j ≢ k) × (entries s j ≡ some w)
  pub verify_and_update_lem :
      (p : String) (h : Option B) (s : S)
      → (pw.verify_and_update p h s).0 ≡ ok (valid p h, new_hash p h s)
  pub verify_entries :
      (p : String) (h : Option B) (s : S) (j : CacheKey B) (w : Bool × Option B)
      → entries (pw.verify_and_update p h s).1 j ≡ some w
      → entries s j ≡ some w
  pub put_entries :
      (b : Bucket) (k : String) (v : B) (s : S) (j : CacheKey B) (w : Bool × Option B)
      → entries (kv.put b k v s).1 j ≡ some w
      → entries s j ≡ some w
