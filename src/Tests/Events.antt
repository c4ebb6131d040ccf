-- ===== src/Tests/Events.antt =====
-- A chat event.
use zomboid_goblin.Protocol.{Message}
use zomboid_goblin.Base.{ap, ◌==◌, false≢true, ◌≢◌, ℕ, some, arith}
use zomboid_goblin.Exec.{ok}
use zomboid_goblin.Json.{Fields, int_value, pos}
use zomboid_goblin.Text.Location.{match_literal}
use zomboid_goblin.Text.Ids.{id_match, all_id_chars}
use zomboid_goblin.Events.Duplicates.{note}
use zomboid_goblin.Protocol.{
  from_mapping, sized, from_fields, missing, is_version, checked_id, checked_time, all_type_chars,
  as_dict, body_fields, checked_age, checked_type, make_message, set_field, type_match, update,
  without,
}
use zomboid_goblin.Events.Making.{
  to_fields, sort_items, EventCall, make, make_all, prepared, fingerprint,
}
use zomboid_goblin.Events.Window.{make-duplicate}
use zomboid_goblin.Tests.Protocol.{plain_codec}
use zomboid_goblin.Json.{Value, str_value, bool_value}
use zomboid_goblin.Events.Duplicates.{new_gate, EventGate}
use zomboid_goblin.Events.{
  fields_fault, first_fault, field_fault, plain_fault, text_fault, flag_fault,
}
use zomboid_goblin.Events.Clean.{fields_fault-IsClean, IsClean}
use zomboid_goblin.Entities.Squads.{sort_texts}
use zomboid_goblin.Text.Location.{has_location, search_from, location_here}
use zomboid_goblin.Text.Trim.{strip, lstrip, rstrip, casefold}
use zomboid_goblin.Text.Tables.{ascii}
use zomboid_goblin.Base.{
  String, refl, true, List, [], ◌∷◌, ℕ_eq, String_eq, Pair_eq, All, ◌≡◌, ◌↔◌, ◌≤◌, ℕ, some,
}

abbrev said : List (String × Value)
said =
    ("speaker", str_value "ann")
    ∷ ("text", str_value "come here")
    ∷ ("authorized", bool_value true)
    ∷ []

fields_fault-IsClean_example : All (IsClean ascii) said
unfolding fields_fault first_fault field_fault plain_fault text_fault flag_fault has_location
    search_from location_here strip lstrip rstrip casefold sort_texts
fields_fault-IsClean_example = fields_fault-IsClean ascii "chat" said refl

abbrev gate : EventGate
gate = new_gate 10

-- The size of a message is not counted here, and an event is told apart by its kind.
abbrev kinds : String → List (String × Value) → String
kinds kind items = kind

abbrev no_text : Fields → String
no_text fs = ""

abbrev call : String → ℕ → List (String × Value) → EventCall
call kind now fields = record {
  kind = kind;
  fields = fields;
  now = some now;
  clock = 0;
  clock_ms = 0;
  request_id = some "e1";
  drawn_id = "";
}

abbrev chatted : ℕ → EventCall
chatted now = call "chat" now said

abbrev died : ℕ → EventCall
died now = call "death" now (("cause", str_value "a bite") ∷ [])

chat_taken : (make plain_codec ascii no_text kinds (chatted 7) gate).0.accepted ≡ true
unfolding make prepared sort_texts first_fault field_fault casefold plain_fault text_fault strip
    has_location flag_fault from_mapping sized from_fields missing is_version checked_id id_match
    checked_time note fingerprint sort_items fields_fault all_type_chars as_dict body_fields
    checked_age checked_type make_message set_field type_match update without all_id_chars
    location_here match_literal search_from lstrip rstrip
chat_taken = refl

abbrev chat_message : ℕ → Message
chat_message sent = record {
  protocol = int_value (pos 2);
  request_id = "e1";
  timestamp_ms = sent;
  type_name = "event.chat";
  fields = to_fields said;
}

chat_again : prepared plain_codec ascii no_text kinds (chatted 15) ≡ ok (chat_message 15000)
unfolding prepared sort_texts first_fault field_fault casefold plain_fault text_fault strip
    has_location flag_fault from_mapping sized from_fields missing is_version checked_id id_match
    checked_time fields_fault all_type_chars as_dict body_fields checked_age checked_type
    make_message set_field type_match update without all_id_chars location_here match_literal
    search_from lstrip rstrip
chat_again = refl

death_differs :
    fingerprint plain_codec ascii no_text kinds (died 9)
    ≢ fingerprint plain_codec ascii no_text kinds (chatted 7)
unfolding fingerprint
death_differs e = false≢true (ap (λ s. s == "chat") e)

same_chat :
    fingerprint plain_codec ascii no_text kinds (chatted 15)
    ≡ fingerprint plain_codec ascii no_text kinds (chatted 7)
unfolding fingerprint
same_chat = refl

make-duplicate_example :
    ((make plain_codec ascii no_text kinds (chatted 15) (
        make_all plain_codec ascii no_text kinds
          (died 9 ∷ [])
          (make plain_codec ascii no_text kinds (chatted 7) gate).1)).0.accepted
      ≡ true)
    ↔ (17 ≤ 15)
make-duplicate_example =
    make-duplicate plain_codec ascii no_text kinds (chatted 7) (chatted 15) (died 9 ∷ []) gate
      (chat_message 15000) tt chat_taken ((death_differs, omega arith), tt) same_chat chat_again
