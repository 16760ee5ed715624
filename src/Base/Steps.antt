-- ===== src/Base/Steps.antt =====
-- What a coroutine may do to the world, as a relation between the world before and after it: one
-- rule for each way to build a coroutine. The relation is reflexive and transitive.
use mathlib.Core.Path.{◌≡◌, refl}
use mathlib.Core.Bool.{Bool, true, false}
use mathlib.Core.List.{List, [], ◌∷◌}
use provisioning_api.Base.Tests.{if◌then◌else◌}
use provisioning_api.Base.Exec.{
  Exec, Exn, Result, ok, raised, pure, raise, lift, continue, handle, try, for_each, ◌>>=◌,
}

pub record Steps {ℓ κ μ} {S : Type ℓ} {A : Type κ} (R : S → S → Type μ) (m : Exec S A)
    : Type (ℓ ⊔ μ) where
  pub at : (s : S) → R s (m s).1

module _ {ℓ μ} {S : Type ℓ} {R : S → S → Type μ} (here : (s : S) → R s s) where
  pub Steps-pure {κ} : {A : Type κ} (a : A) → Steps R (pure {S = S} a)
  Steps-pure a = record { at = here }

  pub Steps-raise {κ} : {A : Type κ} (e : Exn) → Steps R (raise {S = S} {A = A} e)
  Steps-raise e = record { at = here }

  pub Steps-lift {κ} : {A : Type κ} (r : Result A) → Steps R (lift {S = S} r)
  Steps-lift r = record { at = here }

  Steps-continue {κ ν} :
      {A : Type κ} {B : Type ν} (r : Result A) (f : A → Exec S B)
      → ((a : A) → r ≡ ok a → Steps R (f a))
      → Steps R (continue r f)
  Steps-continue (ok a) f kf = record { at = (kf a refl).at }
  Steps-continue (raised e) f kf = record { at = here }

  pub Steps-lift-bind {κ ν} :
      {A : Type κ} {B : Type ν} (r : Result A) (f : A → Exec S B)
      → ((a : A) → r ≡ ok a → Steps R (f a))
      → Steps R (lift {S = S} r >>= f)
  Steps-lift-bind r f kf = record { at = (Steps-continue r f kf).at }

  Steps-handle {κ} :
      {A : Type κ} (r : Result A) (h : Exn → Exec S A)
      → ((e : Exn) → Steps R (h e))
      → Steps R (handle r h)
  Steps-handle (ok a) h kh = record { at = here }
  Steps-handle (raised e) h kh = record { at = (kh e).at }

  module _ (onward : (s t u : S) → R s t → R t u → R s u) where
    pub Steps-bind {κ ν} :
        {A : Type κ} {B : Type ν} (m : Exec S A) (f : A → Exec S B)
        → Steps R m
        → ((a : A) → Steps R (f a))
        → Steps R (m >>= f)
    Steps-bind m f km kf = record {
      at = λ s.
          let (r, t) = m s in
          onward s t (continue r f t).1 (km.at s) ((Steps-continue r f (λ a e. kf a)).at t);
    }

    pub Steps-try {κ} :
        {A : Type κ} (m : Exec S A) (h : Exn → Exec S A)
        → Steps R m
        → ((e : Exn) → Steps R (h e))
        → Steps R (try m h)
    Steps-try m h km kh = record {
      at = λ s.
          let (r, t) = m s in onward s t (handle r h t).1 (km.at s) ((Steps-handle r h kh).at t);
    }

    pub Steps-for_each {κ} :
        {A : Type κ} (body : A → Exec S (Unit {0})) (xs : List A)
        → ((x : A) → Steps R (body x))
        → Steps R (for_each body xs)
    unfolding for_each
    Steps-for_each body [] kb = record { at = here }
    Steps-for_each body (x ∷ xs) kb = record {
      at = (Steps-bind (body x) (λ _. for_each body xs) (kb x) (λ _. Steps-for_each body xs kb)).at;
    }

pub Steps-if {ℓ κ μ} :
    {S : Type ℓ} {A : Type κ} {R : S → S → Type μ} (b : Bool) (m n : Exec S A)
    → (b ≡ true → Steps R m)
    → (b ≡ false → Steps R n)
    → Steps R (if b then m else n)
Steps-if true m n km kn = km refl
Steps-if false m n km kn = kn refl
