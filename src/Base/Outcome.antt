-- ===== src/Base/Outcome.antt =====
-- A chain of coroutines that has succeeded: so has each of them.
use mathlib.Core.Path.{◌≡◌, refl}
use provisioning_api.Base.Exec.{
  Exec, Result, ok, raised, continue, handle, raise, try, group, ◌>>=◌,
}

module _ {ℓ κ μ} {S : Type ℓ} {A : Type κ} {B : Type μ} where
  bind_cases :
      (r : Result A) (f : A → Exec S B) (t : S) (b : B)
      → (continue r f t).0 ≡ ok b
      → (a : A) × (r ≡ ok a) × ((f a t).0 ≡ ok b) × (continue r f t ≡ f a t)
  bind_cases (ok a) f t b h = (a, refl, h, refl)
  bind_cases (raised e) f t b h = absurd cc

  pub bind_ok :
      (m : Exec S A) (f : A → Exec S B) (s : S) (b : B)
      → ((m >>= f) s).0 ≡ ok b
      → (a : A) × ((m s).0 ≡ ok a) × ((f a (m s).1).0 ≡ ok b) × ((m >>= f) s ≡ f a (m s).1)
  bind_ok m f s b h = bind_cases (m s).0 f (m s).1 b h

module _ {ℓ κ} {S : Type ℓ} {A : Type κ} where
  group_cases :
      (r : Result A) (t : S) (a : A)
      → (handle r (λ e. raise (group e)) t).0 ≡ ok a
      → (r ≡ ok a) × (handle r (λ e. raise (group e)) t ≡ (r, t))
  group_cases (ok b) t a h = (h, refl)
  group_cases (raised e) t a h = absurd cc

  -- A task group that has succeeded came to what its tasks did.
  pub group_ok :
      (m : Exec S A) (s : S) (a : A)
      → (try m (λ e. raise (group e)) s).0 ≡ ok a
      → ((m s).0 ≡ ok a) × (try m (λ e. raise (group e)) s ≡ m s)
  group_ok m s a h = group_cases (m s).0 (m s).1 a h
