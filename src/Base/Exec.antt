-- ===== src/Base/Exec.antt =====
-- Coroutines as functions of the outside world. What was done before a raise stays done, so the
-- world comes back beside an exception too.
use Prim.Native.Nat.{ℕ}
use mathlib.Core.Bool.{Bool, true, false}
use mathlib.Core.Option.{Option, none, some}
use mathlib.Core.List.{List, [], ◌∷◌}

-- The exception classes that the sources raise or catch, those of the libraries included.
-- `out_of_fuel` is none of them: it tells that the fuel of a loop ran out. `cancelled` is the
-- `CancelledError` of a task whose sibling has raised. `group` is the `ExceptionGroup` with one member that `asyncio.TaskGroup` raises.
pub data Exn : Type 0 where
  http_error : ℕ → Exn
  value_error validation_error key_error attribute_error index_error : Exn
  type_error module_not_found assertion_error : Exn
  not_found key_not_found no_keys bucket_not_found wrong_last_sequence server_error : Exn
  timed_out client_error update_conflict empty_queue prefill_failed : Exn
  group : Exn → Exn
  cancelled : Exn → Exn
  other : ℕ → Exn
  out_of_fuel : Exn

pub data Result {ℓ} (A : Type ℓ) : Type ℓ where
  ok : A → Result A
  raised : Exn → Result A

abbrev pub is_ok {ℓ} : {A : Type ℓ} → Result A → Bool
is_ok (ok a) = true
is_ok (raised e) = false

abbrev pub and_then {ℓ κ} : {A : Type ℓ} {B : Type κ} → Result A → (A → Result B) → Result B
and_then (ok a) f = f a
and_then (raised e) f = raised e

-- A value that may be missing, or an exception for it.
abbrev pub or_raise {ℓ} : {A : Type ℓ} → Exn → Option A → Result A
or_raise e none = raised e
or_raise e (some a) = ok a

abbrev pub Exec {ℓ κ} : Type ℓ → Type κ → Type (ℓ ⊔ κ)
Exec S A = S → Result A × S

module _ {ℓ κ} {S : Type ℓ} {A : Type κ} where
  abbrev pub pure : A → Exec S A
  pure a s = (ok a, s)

  abbrev pub raise : Exn → Exec S A
  raise e s = (raised e, s)

  abbrev pub lift : Result A → Exec S A
  lift r s = (r, s)

module _ {ℓ κ μ} {S : Type ℓ} {A : Type κ} {B : Type μ} where
  abbrev pub continue : Result A → (A → Exec S B) → Exec S B
  continue (ok a) f s = f a s
  continue (raised e) f s = (raised e, s)

  infixl 10 ◌>>=◌ ◌>>◌
  abbrev pub ◌>>=◌ : Exec S A → (A → Exec S B) → Exec S B
  ◌>>=◌ m f s = let (r, t) = m s in continue r f t

  abbrev pub ◌>>◌ : Exec S A → Exec S B → Exec S B
  m >> n = m >>= λ _. n

module _ {ℓ κ} {S : Type ℓ} {A : Type κ} where
  abbrev pub handle : Result A → (Exn → Exec S A) → Exec S A
  handle (ok a) h s = (ok a, s)
  handle (raised e) h s = h e s

  -- `try: m`, `except Exception as e: h(e)`; a handler re-raises what its clauses do not name.
  abbrev pub try : Exec S A → (Exn → Exec S A) → Exec S A
  try m h s = let (r, t) = m s in handle r h t

abbrev pub after_last {ℓ} : {A : Type ℓ} → Result (Unit {0}) → Result A → Result A
after_last (ok _) r = r
after_last (raised e) r = raised e

-- `try: m`, `finally: last`: an exception of `last` replaces what `m` came to.
module _ {ℓ κ} {S : Type ℓ} {A : Type κ} where
  abbrev pub finally : Exec S A → Exec S (Unit {0}) → Exec S A
  finally m last s = let (r, t) = m s in let (q, u) = last t in (after_last q r, u)

-- `for x in xs: body(x)`
module _ {ℓ κ} {S : Type ℓ} {A : Type κ} where
  unfoldable pub for_each : (A → Exec S (Unit {0})) → List A → Exec S (Unit {0})
  for_each body [] s = (ok tt, s)
  for_each body (x ∷ xs) s = (body x >>= λ _. for_each body xs) s
