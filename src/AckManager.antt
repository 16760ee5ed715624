-- ===== src/AckManager.antt =====
-- `MessageAckManager` of `src/server/utils/message_ack_manager.py` and `old_message_ack_manager.py`.
-- Here the handler is a list of parts, as the dispatcher has it, each of which waits for one call; a
-- schedule says before each part how often the acknowledgement is extended there. Interleaved has it
-- for a handler whose calls depend on what it finds.
pub mod Interleaved
pub mod Parts
use provisioning_api.Base.{String, Bool, true, false, List, [], ◌∷◌, ◌≡◌, refl, arith}
use provisioning_api.Base.Exec.{
  Exec, Exn, Result, ok, raised, pure, raise, try, handle, group, ◌>>=◌, ◌>>◌,
}

module _ {S : Type 0} (in_progress : Exec S (Unit {0})) where
  -- The two tasks, up to the end of the handler or the first exception; a schedule that has ended
  -- extends no more.
  unfoldable pub tasks : List (Exec S (Unit {0})) → List Bool → Exec S (Unit {0})
  tasks [] schedule = pure tt
  tasks (part ∷ parts) [] = do part; tasks parts []
  tasks (part ∷ parts) (true ∷ schedule) = do in_progress; tasks (part ∷ parts) schedule
  tasks (part ∷ parts) (false ∷ schedule) = do part; tasks parts schedule

  -- `asyncio.TaskGroup` raises the exception of a task in an `ExceptionGroup`.
  unfoldable pub process_message_with_ack_wait_extension :
      List (Exec S (Unit {0})) → List Bool → Exec S (Unit {0})
  unfolding tasks
  process_message_with_ack_wait_extension parts schedule =
      try (tasks parts schedule) (λ e. raise (group e))

  group_cases :
      (r : Result (Unit {0})) (t : S) (e : Exn)
      → (handle r (λ x. raise (group x)) t).0 ≡ raised e
      → (x : Exn) × (r ≡ raised x) × (e ≡ group x)
  group_cases (ok _) t e h = cc
  group_cases (raised x) t e h = (x, refl, cc)

  -- Whatever a task raises, what comes out is a group around it and never the exception itself: an
  -- `except` clause for a class of the handler's exceptions does not catch it.
  pub process_message_raises_group :
      (parts : List (Exec S (Unit {0}))) (schedule : List Bool) (s : S) (e : Exn)
      → (process_message_with_ack_wait_extension parts schedule s).0 ≡ raised e
      → (x : Exn) × ((tasks parts schedule s).0 ≡ raised x) × (e ≡ group x)
  unfolding process_message_with_ack_wait_extension
  process_message_raises_group parts schedule s e h = group_cases _ _ e h
