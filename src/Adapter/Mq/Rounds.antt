-- ===== src/Adapter/Mq/Rounds.antt =====
-- Rounds of a loop that takes one message each by `get_one_message`, or none.
use mathlib.Core.List.{append-nil, append_assoc}
use provisioning_api.Base.{List, [], ◌∷◌, ◌++◌, ◌≡◌, sym, ◌∙◌}
use provisioning_api.Base.Exec.{Exec, Result, ok, raised, for_each}
use provisioning_api.Base.Outcome.{bind_ok}
use provisioning_api.Models.Queue.{MqMessage}
use provisioning_api.Nats.{Msg}

abbrev pub arrived : {B : Type 0} → Result (MqMessage × Msg B) → List (Msg B)
arrived (ok (message, msg)) = msg ∷ []
arrived (raised e) = []

module _ {S B X : Type 0} (taken : Exec S (MqMessage × Msg B)) (round : X → Exec S (Unit {0})) where
  -- The messages that come, round after round: what is fetched where the rounds before have left
  -- the world.
  abbrev pub coming : List X → S → List (Msg B)
  coming [] s = []
  coming (x ∷ rounds) s = arrived (taken s).0 ++ coming rounds (round x s).1

  -- Rounds that acknowledge what comes in them, where they succeed.
  pub acked-rounds :
      (acked : S → List (Msg B))
      → ((x : X) (s : S)
          → (round x s).0 ≡ ok tt
          → acked (round x s).1 ≡ acked s ++ arrived (taken s).0)
      → (rounds : List X) (s : S) → (for_each round rounds s).0 ≡ ok tt
      → acked (for_each round rounds s).1 ≡ acked s ++ coming rounds s
  unfolding for_each
  acked-rounds acked one [] s h = sym (append-nil (acked s))
  acked-rounds acked one (x ∷ rounds) s h =
      let (_, first, rest, same) = bind_ok (round x) _ s tt h in
      rw same (
        acked-rounds acked one rounds (round x s).1 rest
        ∙ rw (one x s first)
            (append_assoc (acked s) (arrived (taken s).0) (coming rounds (round x s).1)))
