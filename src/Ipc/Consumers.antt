-- ===== src/Ipc/Consumers.antt =====
-- The consumers of goblin_zomboid/ipc.py, which take ready messages off a channel.
use zomboid_goblin.Exec.{overflow_error}
use zomboid_goblin.Json.{Value, str_value, list_value, dict_value, Fields, get}
use zomboid_goblin.Protocol.{Codec, Message}
use zomboid_goblin.Events.{event_fields}
use zomboid_goblin.Ipc.{
  Texts, ReadyItem, BridgeStore, ready_stems, read_ready, archive, deadletter, acknowledge,
  write_response,
}
use zomboid_goblin.Ipc.Ledger.{RequestLedger, seen, remember}
use text.Mathlib.Text.{starts_with}
use Prim.Native.String.{◌++◌ as str_append}
use zomboid_goblin.Base.{
  ℕ, zero, suc, String, count, Bool, true, false, not, Option, none, some, List, [], ◌∷◌, map, leb,
  if◌then◌else◌, ◌==◌, ℕ_eq, String_eq, Pair_eq, elem,
}
use zomboid_goblin.Exec.{
  Error, value_error, protocol_error, intent_error, file_exists, file_not_found, os_error, Result,
  ok, err, Exec, ◌>>=◌, ◌>>◌, modify, raise_if, and_then, type_error,
}

-- `ConsumedCommand`, `ConsumedEvent`, `ConsumedResponse`
pub record Consumed : Type 0 where
  pub item : ReadyItem
  pub message : Message

-- A consumer: its channel, its limit on the age, its test of a message, and the reason for a duplicate.
pub record Consumer : Type 0 where
  pub channel : String
  pub max_age : ℕ
  pub check : Message → Result (Unit {0})
  pub duplicate : String

-- `CommandConsumer`, for the types that it expects
abbrev pub expected_types : List String → List String
expected_types [] = "command.intent" ∷ "command.npc_action" ∷ []
expected_types (t ∷ ts) = t ∷ ts

abbrev pub command_consumer : ℕ → List String → Consumer
command_consumer max_age expected = record {
  channel = "commands";
  max_age = max_age;
  check = λ m.
      if elem m.type_name (expected_types expected)
      then ok tt
      else err (protocol_error "unexpected command type");
  duplicate = "duplicate request id";
}

-- `EventConsumer`
abbrev pub known_events : List String → List String
known_events [] = map (λ e. str_append "event." e.0) event_fields
known_events (t ∷ ts) = t ∷ ts

abbrev pub event_consumer : ℕ → List String → Consumer
event_consumer max_age accepted = record {
  channel = "events";
  max_age = max_age;
  check = λ m.
      if not (starts_with m.type_name "event.")
      then err (protocol_error "unexpected event type")
      else if elem m.type_name (known_events accepted)
      then ok tt
      else err (protocol_error "unsupported event type");
  duplicate = "duplicate event request id";
}

-- `status not in {...}`: a list or an object cannot be looked up in a set
unfoldable pub check_status : Option Value → Result (Unit {0})
check_status (some (str_value s)) =
    if elem s ("accepted" ∷ "rejected" ∷ "busy" ∷ "failed" ∷ [])
    then ok tt
    else err (protocol_error "invalid response status")
check_status (some (list_value vs)) = err (type_error "unhashable type")
check_status (some (dict_value fs)) = err (type_error "unhashable type")
check_status _ = err (protocol_error "invalid response status")

-- `message.fields.get("detail", "")`
unfoldable pub short_detail : Option Value → Bool
short_detail none = true
short_detail (some (str_value s)) = leb (count s) 512
short_detail (some _) = false

unfoldable pub check_response : Message → Result (Unit {0})
unfolding check_status short_detail
check_response m =
    if not (m.type_name == "response.command")
    then err (protocol_error "unexpected response type")
    else and_then (check_status (get "status" m.fields)) (λ _.
      if not (short_detail (get "detail" m.fields))
      then err (protocol_error "invalid response detail")
      else ok tt)

abbrev pub response_consumer : ℕ → Consumer
response_consumer max_age = record {
  channel = "responses";
  max_age = max_age;
  check = check_response;
  duplicate = "duplicate response request id";
}

-- `except (OSError, ProtocolError, ValueError)`
unfoldable pub is_caught : Error → Bool
is_caught (type_error s) = false
is_caught (overflow_error s) = false
is_caught _ = true

-- `str(exc)`
unfoldable pub error_text : String → Error → String
error_text stem (value_error s) = s
error_text stem (protocol_error s) = s
error_text stem (intent_error s) = s
error_text stem (type_error s) = s
error_text stem (overflow_error s) = s
error_text stem file_exists = stem
error_text stem file_not_found = stem
error_text stem os_error = stem

-- A consumer's bridge and its ledger.
pub record Inbox (B : Type 0) : Type 0 where
  pub store : BridgeStore B
  pub ledger : RequestLedger

module _ {B : Type 0} (codec : Codec B) (texts : Texts B) (uuid : ℕ → String) (most : ℕ) where
  -- The except branch
  unfoldable pub bury : ReadyItem → Error → ℕ → Exec (Inbox B) (Option Consumed)
  unfolding error_text is_caught
  bury item x clock i =
      if is_caught x
      then (
        ok none,
        record i {
          store = deadletter codec texts uuid most item (error_text item.stem x) clock i.store;
        },
      )
      else (err x, i)

  unfoldable pub record_taken :
      ReadyItem → Message → Result RequestLedger → ℕ → Exec (Inbox B) (Option Consumed)
  unfolding bury
  record_taken item m (err x) clock i = bury item x clock i
  record_taken item m (ok l) clock i =
      (ok (some (record { item = item; message = m })), record i { ledger = l })

  unfoldable pub take_message :
      Consumer → ReadyItem → Result Message → ℕ → Exec (Inbox B) (Option Consumed)
  unfolding bury record_taken remember
  take_message c item (err x) clock i = bury item x clock i
  take_message c item (ok m) clock i =
      if seen m.request_id i.ledger
      then (
        ok none,
        record i { store = archive codec texts uuid most item c.duplicate clock i.store },
      )
      else record_taken item m (remember m.request_id (some m.timestamp_ms) clock i.ledger) clock i

  -- One round of the loop of `poll`
  unfoldable pub consume : Consumer → ℕ → ReadyItem → Exec (Inbox B) (Option Consumed)
  unfolding take_message read_ready
  consume c now item i =
      take_message c item
        (and_then (read_ready codec texts uuid most item (some c.max_age) now i.store)
          λ m. and_then (c.check m) λ _. ok m)
        now i

  abbrev pub Loop : Type 0
  Loop = Exec (Inbox B) (List Consumed)

  -- The rest of the loop, where the message is left out and where it is appended
  unfoldable pub taking : Result (Option Consumed) → Loop → Loop → Loop
  taking (err x) without_it with_it i = (err x, i)
  taking (ok none) without_it with_it i = without_it i
  taking (ok (some taken)) without_it with_it i =
      let (more, i') = with_it i in (and_then more λ rest. ok (taken ∷ rest), i')

  -- The loop, with room for so many messages more
  unfoldable pub consume_all : Consumer → ℕ → List String → ℕ → Loop
  unfolding consume taking
  consume_all c now [] room i = (ok [], i)
  consume_all c now (stem ∷ stems) zero i = (ok [], i)
  consume_all c now (stem ∷ stems) (suc room) i =
      let (o, i') = consume c now (record { channel = c.channel; stem = stem }) i in
      taking o (consume_all c now stems (suc room)) (consume_all c now stems room) i'

  -- `poll`
  unfoldable pub poll : Consumer → ℕ → ℕ → Loop
  unfolding consume_all ready_stems
  poll c limit now i = consume_all c now (ready_stems c.channel i.store.files) limit i

  -- `CommandConsumer.finalize`
  unfoldable pub finalize :
      Consumed → String → String → Fields → ℕ → Exec (BridgeStore B) (Unit {0})
  unfolding acknowledge write_response
  finalize taken status detail fields clock =
      raise_if (not (elem status ("accepted" ∷ "rejected" ∷ "failed" ∷ [])))
        (value_error "invalid command response status")
      >> (write_response codec texts uuid most taken.message.request_id status detail fields clock
          >>= λ _. acknowledge codec texts uuid most taken.message.request_id status clock)
      >> modify (archive codec texts uuid most taken.item (str_append "finalized: " status) clock)
