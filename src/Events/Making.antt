-- ===== src/Events/Making.antt =====
-- `EventGate.make` of events.py: the checks, the message and its size, and the window of duplicates.
use Prim.Native.String.{◌++◌ as str_append, len}
use zomboid_goblin.Text.Tables.{CharTables}
use zomboid_goblin.Ipc.{before}
use zomboid_goblin.Json.{Value, Fields, end, field}
use zomboid_goblin.Protocol.{Codec, Message, make_message, as_dict}
use zomboid_goblin.Events.{fields_fault}
use zomboid_goblin.Ipc.Consumers.{error_text}
use zomboid_goblin.Events.Duplicates.{EventGate, EventDecision, note}
use zomboid_goblin.Base.{
  ℕ, ◌*◌, String, false, Option, none, some, List, [], ◌∷◌, ltb, if◌then◌else◌, some_or, ℕ_eq,
  String_eq, Pair_eq,
}
use zomboid_goblin.Exec.{value_error, Result, ok, err}

abbrev pub max_event_bytes : ℕ
max_event_bytes = 8192

-- A call of `make`, with the clock's readings and the request id that would be drawn
pub record EventCall : Type 0 where
  pub kind : String
  pub fields : List (String × Value)
  pub now : Option ℕ
  pub clock : ℕ
  pub clock_ms : ℕ
  pub request_id : Option String
  pub drawn_id : String

-- `current`
abbrev pub current_of : EventCall → ℕ
current_of c = some_or c.now c.clock

abbrev pub to_fields : List (String × Value) → Fields
to_fields [] = end
to_fields ((key, value) ∷ fs) = field key value (to_fields fs)

abbrev put_item : String × Value → List (String × Value) → List (String × Value)
put_item p [] = p ∷ []
put_item p (q ∷ qs) = let rest = put_item p qs in if before p.0 q.0 then p ∷ q ∷ qs else q ∷ rest

-- `sorted(clean.items())`: no two have the same key
unfoldable pub sort_items : List (String × Value) → List (String × Value)
unfolding before
sort_items [] = []
sort_items (p ∷ ps) = put_item p (sort_items ps)

-- `text_of` is `str` of a dictionary and `repr` that of the pair of a kind and its items.
module _ {B : Type 0} (codec : Codec B) (tables : CharTables) (text_of : Fields → String)
    (repr : String → List (String × Value) → String) where
  -- The size of the message
  abbrev sized_message : Result Message → Result Message
  sized_message (err x) = err x
  sized_message (ok m) =
      if ltb max_event_bytes (len (text_of (as_dict m)))
      then err (value_error "event is too large")
      else ok m

  abbrev checked_message : EventCall → Option String → Result Message
  checked_message c (some reason) = err (value_error reason)
  checked_message c none = sized_message (
      make_message codec (str_append "event." c.kind) c.request_id c.drawn_id
        (some (current_of c * 1000)) c.clock_ms (to_fields c.fields))

  -- What is tried in front of the window
  unfoldable pub prepared : EventCall → Result Message
  unfolding fields_fault make_message as_dict
  prepared c = checked_message c (fields_fault tables c.kind c.fields)

  unfoldable pub fingerprint : EventCall → String
  unfolding sort_items
  fingerprint c = repr c.kind (sort_items c.fields)

  abbrev pub decided : EventCall → Result Message → EventGate → EventDecision Message × EventGate
  decided c (err x) g = (record { accepted = false; reason = error_text "" x; message = none }, g)
  decided c (ok m) g = note (fingerprint c) (current_of c) m g

  -- `make`
  unfoldable pub make : EventCall → EventGate → EventDecision Message × EventGate
  make c g = decided c (prepared c) g

  unfoldable pub make_all : List EventCall → EventGate → EventGate
  make_all [] g = g
  make_all (c ∷ cs) g = make_all cs (make c g).1
