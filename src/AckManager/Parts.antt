-- ===== src/AckManager/Parts.antt =====
-- The two tasks of the acknowledgement manager, by what each part of the handler does.
use provisioning_api.Base.{Bool, true, false, List, [], ◌∷◌, ◌≡◌, refl, ◌∙◌, ap}
use provisioning_api.Base.Exec.{Exec, Exn, Result, ok, raised, continue, handle, raise, group, ◌>>◌}
use provisioning_api.AckManager.{tasks, process_message_with_ack_wait_extension}

module _ {S : Type 0} where
  continue_ok :
      (r : Result (Unit {0})) (k : Exec S (Unit {0})) (t : S)
      → (continue r (λ _. k) t).0 ≡ ok tt
      → (r ≡ ok tt) × ((k t).0 ≡ ok tt) × (continue r (λ _. k) t ≡ k t)
  continue_ok (ok _) k t h = (refl, h, refl)
  continue_ok (raised x) k t h = absurd cc

  -- Both of two coroutines succeed where the one behind the other does.
  pub then_ok :
      (m k : Exec S (Unit {0})) (s : S)
      → ((m >> k) s).0 ≡ ok tt
      → ((m s).0 ≡ ok tt) × ((k (m s).1).0 ≡ ok tt) × ((m >> k) s ≡ k (m s).1)
  then_ok m k s h = continue_ok (m s).0 k (m s).1 h

  pub then-ok :
      (m k : Exec S (Unit {0})) (s : S)
      → (m s).0 ≡ ok tt
      → (k (m s).1).0 ≡ ok tt
      → ((m >> k) s).0 ≡ ok tt
  then-ok m k s e f = rw e f

-- Parts of a handler, each with what it does to a view of the world.
module _ {S V : Type 0} where
  abbrev pub parts_in : List (Exec S (Unit {0}) × (V → V)) → List (Exec S (Unit {0}))
  parts_in [] = []
  parts_in ((part, f) ∷ rest) = part ∷ parts_in rest

  abbrev pub apply_all : List (Exec S (Unit {0}) × (V → V)) → V → V
  apply_all [] x = x
  apply_all ((part, f) ∷ rest) x = apply_all rest (f x)

module _ {S : Type 0} where
  abbrev pub NeverFails : Exec S (Unit {0}) → Type 0
  NeverFails m = (s : S) → (m s).0 ≡ ok tt

  abbrev pub AllNeverFail : List (Exec S (Unit {0})) → Type 0
  AllNeverFail [] = Unit
  AllNeverFail (part ∷ parts) = NeverFails part × AllNeverFail parts

-- What a part does to a view of the world where it succeeds.
module _ {S V : Type 0} (view : S → V) where
  abbrev pub Effect : Exec S (Unit {0}) → (V → V) → Type 0
  Effect m f = (s : S) → (m s).0 ≡ ok tt → view (m s).1 ≡ f (view s)

  abbrev pub Effects : List (Exec S (Unit {0}) × (V → V)) → Type 0
  Effects [] = Unit
  Effects ((part, f) ∷ rest) = Effect part f × Effects rest

-- Of the parts only the last one changes the view, and not where it raises.
module _ {S V : Type 0} (view : S → V) where
  abbrev pub IsCareful : List (Exec S (Unit {0})) → Type 0
  IsCareful [] = Unit
  IsCareful (part ∷ []) = (s : S) (x : Exn) → (part s).0 ≡ raised x → view (part s).1 ≡ view s
  IsCareful (part ∷ next ∷ parts) = ((s : S) → view (part s).1 ≡ view s) × IsCareful (next ∷ parts)

module _ {S : Type 0} (in_progress : Exec S (Unit {0})) where
  -- The tasks succeed behind a message, and come out of the group as they are.
  ungroup :
      (r : Result (Unit {0})) (t : S) → (handle r (λ x. raise (group x)) t).0 ≡ ok tt → r ≡ ok tt
  ungroup (ok _) t h = refl
  ungroup (raised x) t h = cc

  handle-world : (r : Result (Unit {0})) (t : S) → (handle r (λ x. raise (group x)) t).1 ≡ t
  handle-world (ok _) t = refl
  handle-world (raised x) t = refl

  pub process_message-ok :
      (parts : List (Exec S (Unit {0}))) (schedule : List Bool) (s : S)
      → (process_message_with_ack_wait_extension in_progress parts schedule s).0 ≡ ok tt
      → (tasks in_progress parts schedule s).0 ≡ ok tt
  unfolding process_message_with_ack_wait_extension
  process_message-ok parts schedule s h = ungroup _ _ h

  regroup :
      (r : Result (Unit {0})) (t : S) → r ≡ ok tt → (handle r (λ x. raise (group x)) t).0 ≡ ok tt
  regroup (ok _) t h = refl
  regroup (raised x) t h = absurd cc

  ungroup_raised :
      (r : Result (Unit {0})) (t : S) (x : Exn)
      → (handle r (λ y. raise (group y)) t).0 ≡ raised x
      → (y : Exn) × (r ≡ raised y)
  ungroup_raised (ok _) t x h = absurd cc
  ungroup_raised (raised y) t x h = (y, refl)

  pub process_message-raised :
      (parts : List (Exec S (Unit {0}))) (schedule : List Bool) (s : S) (x : Exn)
      → (process_message_with_ack_wait_extension in_progress parts schedule s).0 ≡ raised x
      → (y : Exn) × ((tasks in_progress parts schedule s).0 ≡ raised y)
  unfolding process_message_with_ack_wait_extension
  process_message-raised parts schedule s x h = ungroup_raised _ _ x h

  pub process_message-ok_of_tasks :
      (parts : List (Exec S (Unit {0}))) (schedule : List Bool) (s : S)
      → (tasks in_progress parts schedule s).0 ≡ ok tt
      → (process_message_with_ack_wait_extension in_progress parts schedule s).0 ≡ ok tt
  unfolding process_message_with_ack_wait_extension
  process_message-ok_of_tasks parts schedule s h = regroup _ _ h

  pub process_message-world :
      (parts : List (Exec S (Unit {0}))) (schedule : List Bool) (s : S)
      → (process_message_with_ack_wait_extension in_progress parts schedule s).1
        ≡ (tasks in_progress parts schedule s).1
  unfolding process_message_with_ack_wait_extension
  process_message-world parts schedule s = handle-world _ _

  -- A handler whose parts never fail is never stopped by the extensions, where those succeed.
  pub tasks-ok :
      (parts : List (Exec S (Unit {0}))) (schedule : List Bool) (s : S)
      → NeverFails in_progress
      → AllNeverFail parts
      → (tasks in_progress parts schedule s).0 ≡ ok tt
  unfolding tasks
  tasks-ok [] schedule s extends all = refl
  tasks-ok (part ∷ parts) [] s extends (first, rest) =
      then-ok part (tasks in_progress parts []) s (first s)
        (tasks-ok parts [] (part s).1 extends rest)
  tasks-ok (part ∷ parts) (true ∷ schedule) s extends (first, rest) =
      then-ok in_progress (tasks in_progress (part ∷ parts) schedule) s (extends s)
        (tasks-ok (part ∷ parts) schedule (in_progress s).1 extends (first, rest))
  tasks-ok (part ∷ parts) (false ∷ schedule) s extends (first, rest) =
      then-ok part (tasks in_progress parts schedule) s (first s)
        (tasks-ok parts schedule (part s).1 extends rest)

  -- What the parts do to a view of the world where they succeed.
  module _ {V : Type 0} (view : S → V) where
    step-Effect :
        (m k : Exec S (Unit {0})) (f : V → V) (g : V → V) (s : S)
        → Effect view m f
        → ((k (m s).1).0 ≡ ok tt → view (k (m s).1).1 ≡ g (view (m s).1))
        → ((m >> k) s).0 ≡ ok tt
        → view ((m >> k) s).1 ≡ g (f (view s))
    step-Effect m k f g s em ek h =
        let (first, rest, same) = then_ok m k s h in rw same (ek rest ∙ ap g (em s first))

    pub tasks-Effects :
        (effects : List (Exec S (Unit {0}) × (V → V))) (schedule : List Bool) (s : S)
        → ((t : S) → view (in_progress t).1 ≡ view t)
        → Effects view effects
        → (tasks in_progress (parts_in effects) schedule s).0 ≡ ok tt
        → view (tasks in_progress (parts_in effects) schedule s).1 ≡ apply_all effects (view s)
    unfolding tasks
    tasks-Effects [] schedule s keeps all h = refl
    tasks-Effects ((part, f) ∷ rest) [] s keeps (e, es) h =
        step-Effect part _ f (apply_all rest) s e (tasks-Effects rest [] _ keeps es) h
    tasks-Effects ((part, f) ∷ rest) (true ∷ schedule) s keeps (e, es) h =
        step-Effect in_progress _ (λ x. x) (apply_all ((part, f) ∷ rest)) s (λ t _. keeps t)
          (tasks-Effects ((part, f) ∷ rest) schedule _ keeps (e, es)) h
    tasks-Effects ((part, f) ∷ rest) (false ∷ schedule) s keeps (e, es) h =
        step-Effect part _ f (apply_all rest) s e (tasks-Effects rest schedule _ keeps es) h

  -- A handler of which only the last part touches a view of the world, and leaves it alone where it
  -- raises.
  module _ {V : Type 0} (view : S → V) where
    raised_cases :
        (r : Result (Unit {0})) (k : Exec S (Unit {0})) (t : S) (x : Exn) (v : V)
        → (r ≡ raised x → view t ≡ v)
        → ((k t).0 ≡ raised x → view (k t).1 ≡ v)
        → (continue r (λ _. k) t).0 ≡ raised x
        → view (continue r (λ _. k) t).1 ≡ v
    raised_cases (ok _) k t x v first rest h = rest h
    raised_cases (raised y) k t x v first rest h = first h

    then_raised :
        (m k : Exec S (Unit {0})) (s : S) (x : Exn)
        → ((m s).0 ≡ raised x → view (m s).1 ≡ view s)
        → ((k (m s).1).0 ≡ raised x → view (k (m s).1).1 ≡ view s)
        → ((m >> k) s).0 ≡ raised x
        → view ((m >> k) s).1 ≡ view s
    then_raised m k s x first rest h = raised_cases (m s).0 k (m s).1 x (view s) first rest h

    pub tasks_raised :
        (parts : List (Exec S (Unit {0}))) (schedule : List Bool) (s : S) (x : Exn)
        → ((t : S) → view (in_progress t).1 ≡ view t)
        → IsCareful view parts
        → (tasks in_progress parts schedule s).0 ≡ raised x
        → view (tasks in_progress parts schedule s).1 ≡ view s
    unfolding tasks
    tasks_raised [] schedule s x keeps careful h = refl
    tasks_raised (part ∷ []) [] s x keeps careful h =
        then_raised part (tasks in_progress [] []) s x (careful s x) (λ h. absurd cc) h
    tasks_raised (part ∷ []) (true ∷ schedule) s x keeps careful h =
        then_raised in_progress (tasks in_progress (part ∷ []) schedule) s x (λ e. keeps s)
          (λ h. tasks_raised (part ∷ []) schedule (in_progress s).1 x keeps careful h ∙ keeps s) h
    tasks_raised (part ∷ []) (false ∷ schedule) s x keeps careful h =
        then_raised part (tasks in_progress [] schedule) s x (careful s x) (λ h. absurd cc) h
    tasks_raised (part ∷ next ∷ parts) [] s x keeps (first, rest) h =
        then_raised part (tasks in_progress (next ∷ parts) []) s x (λ e. first s)
          (λ h. tasks_raised (next ∷ parts) [] (part s).1 x keeps rest h ∙ first s) h
    tasks_raised (part ∷ next ∷ parts) (true ∷ schedule) s x keeps careful h =
        then_raised in_progress (tasks in_progress (part ∷ next ∷ parts) schedule) s x
          (λ e. keeps s)
          (λ h.
            tasks_raised (part ∷ next ∷ parts) schedule (in_progress s).1 x keeps careful h
            ∙ keeps s)
          h
    tasks_raised (part ∷ next ∷ parts) (false ∷ schedule) s x keeps (first, rest) h =
        then_raised part (tasks in_progress (next ∷ parts) schedule) s x (λ e. first s)
          (λ h. tasks_raised (next ∷ parts) schedule (part s).1 x keeps rest h ∙ first s) h
