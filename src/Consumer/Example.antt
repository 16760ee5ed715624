-- ===== src/Consumer/Example.antt =====
-- The example client, `src/univention/provisioning/consumer/example_client/main.py`: how a message is
-- shown, and how the arguments make a subscription. A shown message is the list of its lines in the
-- log. The texts of `json.dumps(…, indent=2)` and of `difflib` are parameters.
pub mod Topics
pub mod Shown
use provisioning_api.Base.{
  ℕ, suc, ◌+◌, String, ◌<>◌, Bool, true, false, not, ◌&&◌, Option, none, some, List, [], ◌∷◌, ◌++◌,
  map, ◌==◌, if◌then◌else◌,
}
use provisioning_api.Base.Exec.{
  Exec, Exn, Result, ok, raised, and_then, pure, raise, lift, try, for_each, ◌>>=◌, ◌>>◌,
  value_error,
}
use provisioning_api.Models.Json.{Json, Fields, null, no_fields, field, get_field, fields_truthy}
use provisioning_api.Models.Queue.{
  Message, PublisherName, udm_listener, ldif_producer, udm_pre_fill, consumer_registration,
  consumer_client_test,
}

abbrev pub colors : List String
colors = "k" ∷ "r" ∷ "g" ∷ "y" ∷ "b" ∷ "v" ∷ "c" ∷ "w" ∷ []

-- `xs.index(x)`
unfoldable pub index_of : String → List String → Result ℕ
index_of x [] = raised value_error
index_of x (y ∷ ys) =
    let rest = index_of x ys in
    if y == x then ok 0 else elim rest [ ok n ↦ ok (suc n) | raised e ↦ raised e ]

-- `{key: obj.get(key) for key in keys} if obj else {}`
abbrev or_null : Option Json → Json
or_null none = null
or_null (some j) = j

abbrev picked : List String → Fields → Fields
picked [] obj = no_fields
picked (key ∷ keys) obj = field key (or_null (get_field key obj)) (picked keys obj)

unfoldable pub shrink : List String → Fields → Fields
shrink keys obj = if fields_truthy obj then picked keys obj else no_fields

abbrev pub keep_keys : List String
keep_keys = "dn" ∷ "properties" ∷ "options" ∷ "policies" ∷ []

-- What the client takes from Python: the text of a number, the lines of a value with and without
-- its keys in order, the lines of a difference, the start of a text, and `str` of a datetime, by its
-- ISO text.
pub record Printing : Type 0 where
  pub number : ℕ → String
  pub dumps_lines : Fields → List String
  pub sorted_lines : Fields → List String
  pub unified_diff : List String → List String → List String
  pub starts_with : String → String → Bool
  pub datetime_text : String → String

-- The text of a member of `class PublisherName(str, Enum)` in an f-string, since Python 3.11: its
-- name behind that of the class.
unfoldable pub publisher_text : PublisherName → String
publisher_text udm_listener = "PublisherName.udm_listener"
publisher_text ldif_producer = "PublisherName.ldif_producer"
publisher_text udm_pre_fill = "PublisherName.udm_pre_fill"
publisher_text consumer_registration = "PublisherName.consumer_registration"
publisher_text consumer_client_test = "PublisherName.consumer_client_test"

abbrev header_text : Message → Option String → String
header_text msg none = "Realm: " <> msg.realm <> "  "
header_text msg (some action) = "Action: " <> action <> "  "

-- The first three lines are skipped.
abbrev pub behind_head : List String → List String
behind_head (a ∷ b ∷ c ∷ lines) = lines
behind_head _ = []

-- One after the other, up to the first exception.
abbrev both : Result (List String) → Result (List String) → Result (List String)
both first second = and_then first λ a. and_then second λ b. ok (a ++ b)

module _ (py : Printing) where
  -- `fg_color` and `bg_color`: the base is 30 or 40.
  unfoldable pub color_code : ℕ → String → Result String
  color_code base color = and_then (index_of color colors) λ n. ok (py.number (base + n))

  -- `_cprint`, the line of the log; no text is no colour.
  unfoldable pub cprint : String → Option String → Option String → Result String
  cprint text none bg = ok text
  cprint text (some fg) none =
      and_then (color_code 30 fg) λ f. ok ("\u{1b}[6" <> "0;" <> f <> "m" <> text <> "\u{1b}[0m")
  cprint text (some fg) (some bg) = and_then (color_code 30 fg) λ f.
      and_then (color_code 40 bg)
        λ b. ok ("\u{1b}[6" <> "0;" <> f <> ";" <> b <> "m" <> text <> "\u{1b}[0m")

  -- An empty line, and the line of the header.
  unfoldable pub print_header : Message → Option String → Result (List String)
  print_header msg action =
      and_then
        (cprint
          (header_text msg action
            <> "##  Topic: "
            <> msg.topic
            <> "  ##  From: "
            <> publisher_text msg.publisher_name
            <> "  ##  Time: "
            <> py.datetime_text msg.ts)
          (some "k") (some "w"))
        λ header. ok ("" ∷ header ∷ [])

  -- `for line in lines: _cprint(f"{prefix}{line}", fg=fg)`
  unfoldable pub print_lines : String → String → List String → Result (List String)
  print_lines prefix fg [] = ok []
  print_lines prefix fg (line ∷ lines) =
      and_then (cprint (prefix <> line) (some fg) none)
        λ shown. and_then (print_lines prefix fg lines) λ rest. ok (shown ∷ rest)

  unfoldable pub print_object : Fields → String → String → Result (List String)
  print_object obj prefix fg = print_lines prefix fg (py.dumps_lines obj)

  abbrev diff_line : String → Result String
  diff_line line =
      if py.starts_with line "+"
      then cprint line (some "g") none
      else if py.starts_with line "-"
      then cprint line (some "r") none
      else cprint line none none

  abbrev diff_lines : List String → Result (List String)
  diff_lines [] = ok []
  diff_lines (line ∷ lines) =
      and_then (diff_line line) λ shown. and_then (diff_lines lines) λ rest. ok (shown ∷ rest)

  unfoldable pub print_udm_diff : Fields → Fields → Result (List String)
  print_udm_diff old new =
      diff_lines (behind_head (py.unified_diff (py.sorted_lines old) (py.sorted_lines new)))

  unfoldable pub show_change : Message → Fields → Fields → Result (List String)
  show_change msg old new =
      if fields_truthy old && fields_truthy new
      then both (print_header msg (some "Object changed")) (print_udm_diff old new)
      else if not (fields_truthy old)
      then both (print_header msg (some "Object created")) (print_object new "+ " "g")
      else if not (fields_truthy new)
      then both (print_header msg (some "Object deleted")) (print_object old "- " "r")
      else both (print_header msg none)
          (and_then (cprint "No object data received!" (some "r") none) λ line. ok (line ∷ []))

  unfoldable pub handle_udm_message : Message → Result (List String)
  handle_udm_message msg =
      show_change msg (shrink keep_keys msg.body.old) (shrink keep_keys msg.body.new)

  -- Without the line for debugging.
  unfoldable pub handle_any_message : Message → Result (List String)
  handle_any_message msg = print_header msg none

  unfoldable pub handle_message : Message → Result (List String)
  handle_message message =
      if message.realm == "udm" then handle_udm_message message else handle_any_message message
