-- ===== src/Consumer/Example/Shown.antt =====
-- How the example client shows a change.
use provisioning_api.Base.{
  String, ◌<>◌, not, some, List, [], ◌∷◌, ◌++◌, map, ◌≡◌, refl, ◌∙◌, Bool-cases, inl, inr,
  if◌then◌else◌,
}
use provisioning_api.Base.Exec.{ok}
use provisioning_api.Models.Json.{Fields, no_fields, field, fields_truthy}
use provisioning_api.Models.Queue.{Message}
use provisioning_api.Consumer.Example.{
  Printing, index_of, color_code, cprint, shrink, keep_keys, print_header, print_lines,
  print_object, publisher_text, behind_head, diff_line, diff_lines, both, print_udm_diff,
  show_change, handle_udm_message,
}

-- The kind of a change, by the whole objects.
abbrev pub action_of : Fields → Fields → String
action_of old new =
    if not (fields_truthy old)
    then "Object created"
    else if not (fields_truthy new)
    then "Object deleted"
    else "Object changed"

shrink_truthy : (obj : Fields) → fields_truthy (shrink keep_keys obj) ≡ fields_truthy obj
unfolding shrink
shrink_truthy no_fields = refl
shrink_truthy (field k v rest) = refl

module _ (py : Printing) where
  -- The codes of black on white, and of green and red on the background that is there.
  abbrev pub inverse : String → String
  inverse text =
      "\u{1b}[6" <> "0;" <> py.number 30 <> ";" <> py.number 47 <> "m" <> text <> "\u{1b}[0m"

  abbrev pub green : String → String
  green text = "\u{1b}[6" <> "0;" <> py.number 32 <> "m" <> text <> "\u{1b}[0m"

  abbrev pub red : String → String
  red text = "\u{1b}[6" <> "0;" <> py.number 31 <> "m" <> text <> "\u{1b}[0m"

  -- An empty line, and the kind of the change with the topic, the publisher and the time.
  abbrev pub header_lines : Message → List String
  header_lines msg =
      ""
      ∷ inverse (
          ("Action: " <> action_of msg.body.old msg.body.new <> "  ")
          <> "##  Topic: "
          <> msg.topic
          <> "  ##  From: "
          <> publisher_text msg.publisher_name
          <> "  ##  Time: "
          <> py.datetime_text msg.ts)
      ∷ []

  abbrev pub diff_text : String → String
  diff_text line =
      if py.starts_with line "+"
      then green line
      else if py.starts_with line "-"
      then red line
      else line

  -- The lines of the new object, of the old one, or of what differs between them.
  abbrev pub body_lines : Fields → Fields → List String
  body_lines no_fields new = map (λ l. green ("+ " <> l)) (py.dumps_lines new)
  body_lines old no_fields = map (λ l. red ("- " <> l)) (py.dumps_lines old)
  body_lines old new =
      map diff_text (behind_head (py.unified_diff (py.sorted_lines old) (py.sorted_lines new)))

  print_header_lem :
      (msg : Message)
      → print_header py msg (some (action_of msg.body.old msg.body.new)) ≡ ok (header_lines msg)
  unfolding print_header cprint color_code index_of
  print_header_lem msg = refl

  print_lines-green :
      (lines : List String)
      → print_lines py "+ " "g" lines ≡ ok (map (λ l. green ("+ " <> l)) lines)
  unfolding print_lines cprint color_code index_of
  print_lines-green [] = refl
  print_lines-green (line ∷ lines) = rw (print_lines-green lines) refl

  print_lines-red :
      (lines : List String) → print_lines py "- " "r" lines ≡ ok (map (λ l. red ("- " <> l)) lines)
  unfolding print_lines cprint color_code index_of
  print_lines-red [] = refl
  print_lines-red (line ∷ lines) = rw (print_lines-red lines) refl

  diff_line_lem : (line : String) → diff_line py line ≡ ok (diff_text line)
  unfolding cprint color_code index_of
  diff_line_lem line = elim (Bool-cases (py.starts_with line "+")) [
    | inl added ↦ rw added refl
    | inr old ↦ elim (Bool-cases (py.starts_with line "-")) [
      | inl removed ↦ rw (old, removed) refl
      | inr kept ↦ rw (old, kept) refl
    ]
  ]

  diff_lines_lem : (lines : List String) → diff_lines py lines ≡ ok (map diff_text lines)
  diff_lines_lem [] = refl
  diff_lines_lem (line ∷ lines) = rw (diff_line_lem line, diff_lines_lem lines) refl

  show_change_lem :
      (msg : Message) (old new : Fields)
      → show_change py msg old new
        ≡ both (print_header py msg (some (action_of old new))) (ok (body_lines old new))
  unfolding show_change print_object print_udm_diff
  show_change_lem msg no_fields new = rw (print_lines-green (py.dumps_lines new)) refl
  show_change_lem msg (field k v old) no_fields =
      rw (print_lines-red (py.dumps_lines (field k v old))) refl
  show_change_lem msg (field k v old) (field l w new) = rw (diff_lines_lem _) refl

  -- Showing a change of a UDM object never raises. Black on white it says whether the object was
  -- created, where there is no old one, else deleted, where there is no new one, else changed, with
  -- the topic, the publisher and the time. Below stand, of the keys that are kept, the lines of the
  -- new object in green, of the old one in red, or of the difference in the colours of its signs. It
  -- is never shown as a message without objects.
  pub handle_udm_message_lem :
      (msg : Message)
      → handle_udm_message py msg
        ≡ ok (
            header_lines msg
            ++ body_lines (shrink keep_keys msg.body.old) (shrink keep_keys msg.body.new))
  unfolding handle_udm_message
  handle_udm_message_lem msg =
      show_change_lem msg (shrink keep_keys msg.body.old) (shrink keep_keys msg.body.new)
      ∙ rw (shrink_truthy msg.body.old, shrink_truthy msg.body.new, print_header_lem msg) refl
