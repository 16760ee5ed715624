-- ===== src/Adapter/Mq/Reply.antt =====
-- `msg.reply.split(".")[-4]`, the stream sequence number in the reply subject of a message.
use mathlib.Core.List.{reverse}
use Prim.Native.Char.{Char, code}
use provisioning_api.Base.{String, num_eq, List, [], ◌∷◌, ◌≡◌, refl, if◌then◌else◌}
use provisioning_api.Base.Exec.{Result, ok, raised, index_error}

-- A character in front of the first part.
abbrev extend : Char → List String → List String
extend ch [] = (String.◌∷◌ ch String.[]) ∷ []
extend ch (part ∷ parts) = (String.◌∷◌ ch part) ∷ parts

-- `reply.split(".")`
unfoldable pub split_dots : String → List String
split_dots String.[] = String.[] ∷ []
split_dots (String.◌∷◌ ch rest) =
    let parts = split_dots rest in
    if num_eq (code ch) b'.' then String.[] ∷ parts else extend ch parts

-- `parts[-4]`, of the parts in reverse order
fourth : List String → Result String
fourth (a ∷ b ∷ c ∷ d ∷ parts) = ok d
fourth _ = raised index_error

unfoldable pub sequence_text : String → Result String
unfolding split_dots fourth
sequence_text reply = fourth (reverse (split_dots reply))

sequence_text-reply :
    sequence_text "$JS.ACK.stream:app.durable_name:app.1.17.18.1700000000.0" ≡ ok "17"
unfolding sequence_text
sequence_text-reply = refl
