-- ===== src/Services/Auth/Verdict.antt =====
-- Logging in: the verdict, and what the password cache holds, for `authenticate_user`.
use provisioning_api.Base.{
  ℕ, String, Bool, true, false, Option, none, some, ◌≡◌, ◌⊎◌, inl, inr, refl, ap, arith,
  if◌then◌else◌, Bool-cases,
}
use provisioning_api.Base.Exec.{ok, raised, http_error}
use provisioning_api.Models.Subscription.{Bucket, credentials}
use provisioning_api.Nats.{Codec, KeyValue}
use provisioning_api.Nats.Kv.{IsKeyValue}
use provisioning_api.Adapter.Kv.{text, put_value, value_truthy, value_text}
use provisioning_api.Adapter.Kv.Laws.{get_value_lem, put_value-ok}
use provisioning_api.Services.Passwords.{PasswordContext, CacheKey, TtlCache, IsTtlCache}
use provisioning_api.Services.Auth.{
  is_foreign, cache_key, verify_and_update_password, store_new_hash, conclude, authenticate_user,
}

module _ {S B : Type 0} (codec : Codec B) (kv : KeyValue S B) (pw : PasswordContext S B)
    (cache : TtlCache S B) {value : S → Bucket → String → Option B}
    {revision : S → Bucket → String → ℕ} {valid : String → Option B → Bool}
    {entries : S → CacheKey B → Option (Bool × Option B)} (K : IsKeyValue kv value revision)
    (T : IsTtlCache kv pw cache value valid entries) where
  -- Every live entry is a positive answer, and a right one.
  abbrev pub IsSound : S → Type 0
  IsSound s =
      (k : CacheKey B) (w : Bool × Option B)
      → entries s k ≡ some w
      → (w.0 ≡ true) × (valid k.cleartext_pw k.hashed_pw ≡ true)

  store_new_hash-ok :
      (u : String) (h : Option B) (s : S) → (store_new_hash codec kv pw cache u h s).0 ≡ ok tt
  unfolding store_new_hash
  store_new_hash-ok u none s = refl
  store_new_hash-ok u (some h) s =
      ground (arith, put_value-ok codec kv K u (text h) credentials none s refl)

  conclude_lem :
      (u : String) (key : CacheKey B) (v : Bool) (h : Option B) (s : S)
      → (conclude codec kv pw cache u key v h s).0 ≡ (if v then ok tt else raised (http_error 401))
  unfolding conclude
  conclude_lem u key true h s = store_new_hash-ok u h s
  conclude_lem u key false h s = simp T.pop-ok

  verify_cases :
      (key : CacheKey B) (s : S)
      → IsSound s
      → (o : Option (Bool × Option B)) → entries s key ≡ o
      → (h : Option B) × ((verify_and_update_password codec kv pw cache key s).0
          ≡ ok (valid key.cleartext_pw key.hashed_pw, h))
  unfolding verify_and_update_password
  verify_cases key s sound none e = (
    T.new_hash key.cleartext_pw key.hashed_pw s,
    simp (T.cached_lem, e, T.verify_and_update_lem, T.store-ok),
  )
  verify_cases key s sound (some (v, h)) e =
      let (p, q) = sound key (v, h) e in (h, simp (T.cached_lem, e) (cc (p, q)))

  verify_lem :
      (key : CacheKey B) (s : S)
      → IsSound s
      → (h : Option B) × ((verify_and_update_password codec kv pw cache key s).0
          ≡ ok (valid key.cleartext_pw key.hashed_pw, h))
  verify_lem key s sound = verify_cases key s sound (entries s key) refl

  -- With a sound cache a user is let in exactly where the name that is asked for is the own one, or
  -- none, and the password fits the stored hash; else the answer is error 401.
  pub authenticate_user_lem :
      (u p : String) (name : Option String) (s : S)
      → IsSound s
      → (authenticate_user codec kv pw cache u p name s).0 ≡ (
          if is_foreign name u
          then raised (http_error 401)
          else if valid p (value s credentials u)
          then ok tt
          else raised (http_error 401))
  unfolding authenticate_user cache_key
  authenticate_user_lem u p name s sound =
      let key : CacheKey B = cache_key p (value s credentials u) name in
      let (h, e) = verify_lem key s sound in
      elim (Bool-cases (is_foreign name u)) [
        | inl f ↦ rw f
        | inr f ↦ simp (f, get_value_lem kv K, e, conclude_lem)
      ]

  put_value_entries :
      (u : String) (h : B) (s : S) (j : CacheKey B) (w : Bool × Option B)
      → codec.is_empty h ≡ false
      → entries (put_value codec kv u (text h) credentials none s).1 j ≡ some w
      → entries s j ≡ some w
  unfolding put_value value_truthy value_text
  put_value_entries u h s j w filled =
      simp (filled, K.key_value_lem) (T.put_entries credentials u h s j w)

  store_new_hash_entries :
      (u : String) (h : Option B) (s : S) (j : CacheKey B) (w : Bool × Option B)
      → entries (store_new_hash codec kv pw cache u h s).1 j ≡ some w
      → entries s j ≡ some w
  unfolding store_new_hash
  store_new_hash_entries u none s j w = λ e. e
  store_new_hash_entries u (some h) s j w = elim (Bool-cases (codec.is_empty h)) [
    | inl f ↦ rw f (λ e. e)
    | inr f ↦ rw f (put_value_entries u h s j w f)
  ]

  -- What the cache may hold after a check of `key`: old entries, and the answer for `key`.
  verify_entries_cases :
      (key : CacheKey B) (s : S) (o : Option (Bool × Option B))
      → entries s key ≡ o
      → (j : CacheKey B) (w : Bool × Option B)
      → entries (verify_and_update_password codec kv pw cache key s).1 j ≡ some w
      → ((j ≡ key) × (w.0 ≡ valid key.cleartext_pw key.hashed_pw)) ⊎ (entries s j ≡ some w)
  unfolding verify_and_update_password
  verify_entries_cases key s none e j w =
      simp (T.cached_lem, e, T.verify_and_update_lem, T.store-ok)
        λ m. elim (T.store_entries key _ _ j w m) [
          | inl (same, answer) ↦ inl (same, ap (λ (x : Bool × Option B). x.0) answer)
          | inr older ↦ inr (T.verify_entries key.cleartext_pw key.hashed_pw s j w older)
        ]
  verify_entries_cases key s (some v) e j w = simp (T.cached_lem, e) inr

  module _ (u : String) (key : CacheKey B) (s t : S) (h : Option B) (sound : IsSound s) where
    -- `t` is the world after a check of `key`.
    abbrev Checked : Type 0
    Checked =
        (j : CacheKey B) (w : Bool × Option B)
        → entries t j ≡ some w
        → ((j ≡ key) × (w.0 ≡ valid key.cleartext_pw key.hashed_pw)) ⊎ (entries s j ≡ some w)

    sound_key :
        valid key.cleartext_pw key.hashed_pw ≡ true
        → (j : CacheKey B) (w : Bool × Option B)
        → ((j ≡ key) × (w.0 ≡ valid key.cleartext_pw key.hashed_pw)) ⊎ (entries s j ≡ some w)
        → (w.0 ≡ true) × (valid j.cleartext_pw j.hashed_pw ≡ true)
    sound_key good j w (inl (same, answer)) = (rw (← good) answer, rw same good)
    sound_key good j w (inr older) = sound j w older

    conclude-IsSound :
        Checked
        → (v : Bool) → valid key.cleartext_pw key.hashed_pw ≡ v
        → IsSound (conclude codec kv pw cache u key v h t).1
    unfolding conclude
    conclude-IsSound checked true good j w m =
        sound_key good j w (checked j w (store_new_hash_entries u h t j w m))
    conclude-IsSound checked false bad j w m =
        let (other, kept) = T.pop_entries key t j w (simp T.pop-ok at m) in
        elim (checked j w kept) [
          | inl (same, answer) ↦ absurd (other same)
          | inr older ↦ sound j w older
        ]

  -- No refusal stays in the cache: if its entries were positive and right before an attempt to log
  -- in, they are after it.
  pub authenticate_user-IsSound :
      (u p : String) (name : Option String) (s : S)
      → IsSound s
      → IsSound (authenticate_user codec kv pw cache u p name s).1
  unfolding authenticate_user cache_key
  authenticate_user-IsSound u p name s sound =
      let key : CacheKey B = cache_key p (value s credentials u) name in
      let (h, e) = verify_lem key s sound in
      elim (Bool-cases (is_foreign name u)) [
        | inl f ↦ rw f sound
        | inr f ↦
            simp (f, get_value_lem kv K, e)
              (conclude-IsSound u key s _ h sound (verify_entries_cases key s (entries s key) refl)
                (valid p (value s credentials u)) refl)
      ]
