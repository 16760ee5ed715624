-- ===== src/Services/Messages/History.antt =====
-- The flag of a finished prefill over the calls of `get_next_message` in the life of a process, from
-- `src/server/services/messages.py`.
use provisioning_api.Base.{
  ℕ, String, Bool, true, false, List, [], ◌∷◌, ◌≡◌, ◌↔◌, ◌⊎◌, inl, inr, ap, sym, ◌∙◌, ◌==◌, eq_iff,
  Bool-cases,
}
use mathlib.Core.Path.{subst}
use Prim.Native.Nat.{max}
use provisioning_api.Models.Pydantic.{Conversions}
use provisioning_api.Nats.{Codec, KeyValue, JetStream}
use provisioning_api.Services.Messages.{
  Clock, Process, outside, get_messages_from_main_queue, get_next_message,
}
use provisioning_api.Services.Messages.Prefill.{
  Exhausted, get_next_message-prefill_done, exhausted_sets_flag, flag_needs_exhausted, other_flags,
}

-- What happens in turn: the process answers a call for a name, or the world outside changes, by other
-- routes and other processes.
pub data Happening (S : Type 0) : Type 0 where
  next : String → ℕ → Bool → Happening S
  elsewhere : (S → S) → Happening S

module _ {S B : Type 0} (codec : Codec B) (kv : KeyValue S B) (js : JetStream S B) (c : Conversions)
    (clock : Clock S) where
  abbrev pub happen : Happening S → Process S → Process S
  happen (next name timeout pop) p = (get_next_message codec kv js c clock name timeout pop p).1
  happen (elsewhere change) p = record p { outside = change p.outside }

  abbrev pub history : List (Happening S) → Process S → Process S
  history [] p = p
  history (h ∷ hs) p = history hs (happen h p)

  module _ (name : String) where
    -- It was a call for the name, with its flag unset, that found the status `done` and fetched no message.
    abbrev pub Exhausts : Happening S → Process S → Type 0
    Exhausts (next n timeout pop) p =
        (n ≡ name)
        × (p.prefill_done name ≡ false)
        × Exhausted codec kv js c clock name timeout pop p
    Exhausts (elsewhere change) p = ⊥

    abbrev pub ExhaustedIn : List (Happening S) → Process S → Type 0
    ExhaustedIn [] p = ⊥
    ExhaustedIn (h ∷ hs) p = Exhausts h p ⊎ ExhaustedIn hs (happen h p)

    abbrev flag : Process S → Bool
    flag p = p.prefill_done name

    called_keeps :
        (timeout : ℕ) (pop : Bool) (p : Process S) (n : String)
        → n ≡ name
        → flag p ≡ true
        → flag (happen (next n timeout pop) p) ≡ true
    called_keeps timeout pop p n e i = rw e (
        ap (λ r. flag r.1) (get_next_message-prefill_done codec kv js c clock name timeout pop p i)
        ∙ i)

    happen_keeps : (h : Happening S) (p : Process S) → flag p ≡ true → flag (happen h p) ≡ true
    happen_keeps (elsewhere change) p i = i
    happen_keeps (next n timeout pop) p i = elim (Bool-cases (n == name)) [
      | inl same ↦ called_keeps timeout pop p n ((eq_iff n name).0 same) i
      | inr other ↦ other_flags codec kv js c clock n timeout pop p name other ∙ i
    ]

    happen_sets : (h : Happening S) (p : Process S) → Exhausts h p → flag (happen h p) ≡ true
    happen_sets (elsewhere change) p never = absurd never
    happen_sets (next n timeout pop) p (e, unset, found) =
        rw e (exhausted_sets_flag codec kv js c clock name timeout pop p unset found)

    called_needs :
        (timeout : ℕ) (pop : Bool) (p : Process S) (n : String)
        → (e : n ≡ name) → flag p ≡ false
        → flag (happen (next n timeout pop) p) ≡ true
        → Exhausts (next n timeout pop) p
    called_needs timeout pop p n e i j = (
      e,
      i,
      flag_needs_exhausted codec kv js c clock name timeout pop p i
          (subst (λ m. flag (happen (next m timeout pop) p) ≡ true) e j),
    )

    happen_needs :
        (h : Happening S) (p : Process S) → flag p ≡ false → flag (happen h p) ≡ true → Exhausts h p
    happen_needs (elsewhere change) p i j = absurd cc
    happen_needs (next n timeout pop) p i j = elim (Bool-cases (n == name)) [
      | inl same ↦ called_needs timeout pop p n ((eq_iff n name).0 same) i j
      | inr other ↦
          let k = sym (other_flags codec kv js c clock n timeout pop p name other) ∙ j in absurd cc
    ]

    history_keeps :
        (hs : List (Happening S)) (p : Process S) → flag p ≡ true → flag (history hs p) ≡ true
    history_keeps [] p i = i
    history_keeps (h ∷ hs) p i = history_keeps hs (happen h p) (happen_keeps h p i)

    history_sets :
        (hs : List (Happening S)) (p : Process S) → ExhaustedIn hs p → flag (history hs p) ≡ true
    history_sets [] p never = absurd never
    history_sets (h ∷ hs) p (inl now) = history_keeps hs (happen h p) (happen_sets h p now)
    history_sets (h ∷ hs) p (inr later) = history_sets hs (happen h p) later

    history_needs :
        (hs : List (Happening S)) (p : Process S)
        → flag p ≡ false
        → flag (history hs p) ≡ true
        → ExhaustedIn hs p
    history_needs [] p i j = absurd cc
    history_needs (h ∷ hs) p i j = elim (Bool-cases (flag (happen h p))) [
      | inl set ↦ inl (happen_needs h p i set)
      | inr unset ↦ inr (history_needs hs (happen h p) unset j)
    ]

    -- From a process that has not set the flag of the name on, however calls for all names and changes
    -- of the world outside interleave: the flag is set in the end exactly where some call for the name
    -- found the status `done` and fetched no message from the prefill queue.
    pub prefill_done-history :
        (hs : List (Happening S)) (p : Process S)
        → p.prefill_done name ≡ false
        → ((history hs p).prefill_done name ≡ true) ↔ ExhaustedIn hs p
    prefill_done-history hs p i = (history_needs hs p i, history_sets hs p)

    -- Once some call for the name has found the status `done` and fetched no message from the prefill
    -- queue, every call for the name only reads the main queue, whatever calls and changes of the
    -- world outside come in between: also where the subscription was deleted and registered anew with
    -- a prefill since.
    pub get_next_message-history :
        (hs : List (Happening S)) (p : Process S) (timeout : ℕ) (pop : Bool)
        → ExhaustedIn hs p
        → get_next_message codec kv js c clock name timeout pop (history hs p)
          ≡ outside
              (get_messages_from_main_queue codec kv js c clock name (max timeout 100) pop)
              (history hs p)
    get_next_message-history hs p timeout pop e =
        get_next_message-prefill_done codec kv js c clock name timeout pop (history hs p)
          (history_sets hs p e)
