-- ===== src/Events.antt =====
-- goblin_zomboid/events.py: the fields that `EventGate` lets through. A field's name is a string here,
-- and its value one of JSON.
pub mod Clean
pub mod Duplicates
pub mod Making
pub mod Window
use zomboid_goblin.Json.{Value, str_value, bool_value, int_value, list_value, dict_value, pos}
use zomboid_goblin.Text.Tables.{CharTables}
use zomboid_goblin.Text.Trim.{strip, casefold}
use zomboid_goblin.Text.Location.{has_location}
use zomboid_goblin.Entities.Squads.{sort_texts}
use Prim.Native.String.{◌++◌ as str_append}
use zomboid_goblin.Base.{
  ℕ, zero, suc, ◌+◌, ◌-◌, ◌*◌, ◌/◌, ◌%◌, ◌≤◌, ◌<◌, min, String, count, ◌≡◌, refl, sym, ap, ◌∙◌, ◌≢◌,
  ◌↔◌, ◌⊎◌, inl, inr, Bool, true, false, not, ◌&&◌, ◌||◌, false≢true, Option, none, some, List, [],
  ◌∷◌, ◌++◌, map, arith, ltb, leb, eqb, if◌then◌else◌, ltb→lt, lt→ltb, leb→le, le→leb, eqb_iff,
  Bool-cases, Option-cases, is_some, some_or, Eq, ◌==◌, ℕ_eq, String_eq, Pair_eq, ==_refl, elem,
  length, take, keep_if, length-append, length-take-le, length-keep_if-le, All, Distinct,
}
use zomboid_goblin.Exec.{
  Error, value_error, protocol_error, intent_error, file_exists, file_not_found, os_error, Result,
  ok, err, Exec, pure, raise, lift, gets, ◌>>=◌, ◌>>◌, modify, raise_if, and_then,
}
use zomboid_goblin.Dict.{
  Dict, lookup, contains, insert, remove, lookup-insert, lookup-remove, lookup-insert_self,
  lookup-insert_absent, length-insert, length-remove-le,
}

-- `EVENT_FIELDS`
abbrev pub event_fields : Dict String (List String)
event_fields =
    ("player_joined", "player" ∷ "party" ∷ [])
    ∷ ("player_left", "player" ∷ "party" ∷ [])
    ∷ ("goblin_spotted", "player" ∷ "mood" ∷ [])
    ∷ ("threat_changed", "threat_level" ∷ "count_bucket" ∷ [])
    ∷ ("injury", "severity" ∷ "body_part" ∷ [])
    ∷ ("loot_found", "category" ∷ "rarity" ∷ [])
    ∷ ("hunt_started", "prize_tier" ∷ [])
    ∷ ("hunt_clue", "temperature" ∷ "clue_number" ∷ [])
    ∷ ("death", "cause" ∷ [])
    ∷ ("respawn", "cooldown_seconds" ∷ [])
    ∷ (
      "chat",
      "speaker" ∷ "text" ∷ "authorized" ∷ "authority_token" ∷ "direct_action" ∷ "direct_applied"
          ∷ "direct_detail" ∷ "direct_reported" ∷ "addressed" ∷ [],
    )
    ∷ ("base_changed", "base_id" ∷ "name" ∷ "changed_by" ∷ [])
    ∷ ("npc_ready", "npc_id" ∷ "active" ∷ [])
    ∷ ("npc_spawned", "npc_id" ∷ "role" ∷ [])
    ∷ ("npc_recovered", "npc_id" ∷ "reason" ∷ [])
    ∷ ("squad_changed", "squad_id" ∷ "leader" ∷ "member_count" ∷ [])
    ∷ ("base_job_changed", "npc_id" ∷ "job" ∷ [])
    ∷ ("tracker_update", "entity_kind" ∷ "entity_id" ∷ [])
    ∷ []

-- `ALLOWED_VALUES`
abbrev pub allowed_values : Dict String (List String)
allowed_values =
    ("threat_level", "none" ∷ "near" ∷ "overwhelming" ∷ [])
    ∷ ("severity", "minor" ∷ "moderate" ∷ "critical" ∷ [])
    ∷ ("rarity", "common" ∷ "uncommon" ∷ "rare" ∷ "legendary" ∷ [])
    ∷ ("temperature", "cold" ∷ "warm" ∷ "hot" ∷ [])
    ∷ ("entity_kind", "goblin" ∷ "player" ∷ "npc" ∷ "squad" ∷ "base" ∷ [])
    ∷ []

-- `FORBIDDEN_FIELDS`
abbrev pub forbidden_fields : List String
forbidden_fields =
    "x" ∷ "y" ∷ "z" ∷ "coordinates" ∷ "route" ∷ "waypoint" ∷ "cell" ∷ "chunk" ∷ "building_id"
    ∷ "raw_packet" ∷ "packet" ∷ "script" ∷ "lua" ∷ "shell" ∷ []

abbrev pub text_fields : List String
text_fields =
    "player" ∷ "party" ∷ "speaker" ∷ "body_part" ∷ "cause" ∷ "text" ∷ "npc_id" ∷ "role" ∷ "reason"
    ∷ "squad_id" ∷ "leader" ∷ "job" ∷ "entity_id" ∷ "base_id" ∷ "name" ∷ "changed_by"
    ∷ "authority_token" ∷ "direct_detail" ∷ []

abbrev pub direct_actions : List String
direct_actions =
    "FOLLOW" ∷ "WAIT" ∷ "SET_BASE" ∷ "RETURN_TO_BASE" ∷ "LOOT" ∷ "ATTACK" ∷ "BUILD" ∷ "FORTIFY"
    ∷ "OPEN_DOOR" ∷ "OPEN_WINDOW" ∷ "GAIN_ACCESS" ∷ "CLOSE_CURTAINS" ∷ "FARM" ∷ "CRAFT"
    ∷ "REPAIR_VEHICLE" ∷ "ENTER_VEHICLE" ∷ "EXIT_VEHICLE" ∷ []

-- The reason of the test that fails first.
abbrev pub else_fault : Option String → Option String → Option String
else_fault (some x) rest = some x
else_fault none rest = rest

-- `if value not in {...}: raise ValueError(reason)`; a value without a hash is a TypeError.
unfoldable pub member_fault : List String → String → Value → Option String
member_fault names reason (str_value x) = if elem x names then none else some reason
member_fault names reason (list_value vs) = some "unhashable type: 'list'"
member_fault names reason (dict_value fs) = some "unhashable type: 'dict'"
member_fault names reason _ = some reason

unfoldable pub flag_fault : String → Value → Option String
flag_fault reason (bool_value b) = none
flag_fault reason _ = some reason

-- `isinstance(value, bool) or not isinstance(value, int) or not low <= value <= high`
unfoldable pub range_fault : ℕ → ℕ → String → Value → Option String
range_fault low high reason (int_value (pos n)) =
    if leb low n && leb n high then none else some reason
range_fault low high reason _ = some reason

abbrev pub unknown_fields : List String → List (String × Value) → List String
unknown_fields known fields = keep_if (λ key. not (elem key known)) (map (λ p. p.0) fields)

abbrev pub unknown_reason : List String → Option String
unknown_reason [] = none
unknown_reason (x ∷ _) = some (str_append "unknown event field: " x)

module _ (tables : CharTables) where
  unfoldable pub text_fault : String → Value → Option String
  text_fault key (str_value x) =
      if strip tables x == "" || ltb (if key == "authority_token" then 128 else 240) (count x)
      then some (str_append "invalid event text: " key)
      else if elem key ("text" ∷ "direct_detail" ∷ []) && has_location tables x
      then some "event text contains location coordinates"
      else none
  text_fault key _ = some (str_append "invalid event text: " key)

  -- The chain of tests for a field that `ALLOWED_VALUES` does not name.
  unfoldable pub plain_fault : String → Value → Option String
  plain_fault key value =
      if elem key text_fields
      then text_fault key value
      else if key == "direct_action"
      then member_fault direct_actions "invalid direct action" value
      else if elem key ("authorized" ∷ "direct_applied" ∷ "direct_reported" ∷ "addressed" ∷ [])
      then flag_fault "invalid authorization flag" value
      else if key == "count_bucket"
      then member_fault ("none" ∷ "few" ∷ "many" ∷ []) "invalid count bucket" value
      else if key == "clue_number"
      then range_fault 0 32 "invalid clue number" value
      else if key == "cooldown_seconds"
      then range_fault 0 3600 "invalid cooldown" value
      else if key == "active"
      then flag_fault "invalid active flag" value
      else if key == "member_count"
      then range_fault 1 16 "invalid member count" value
      else none

  -- One turn of the loop over the fields.
  unfoldable pub field_fault : String → Value → Option String
  field_fault key value =
      if elem (casefold tables key) forbidden_fields
      then some "event contains a forbidden field"
      else elim (lookup key allowed_values) [
        | some names ↦ member_fault names (str_append "invalid event value: " key) value
        | none ↦ plain_fault key value
      ]

  unfoldable pub first_fault : List (String × Value) → Option String
  first_fault [] = none
  first_fault ((key, value) ∷ fields) = else_fault (field_fault key value) (first_fault fields)

  -- `_validate_fields`, for the fields that the kind of event has
  abbrev pub kind_fault : Option (List String) → List (String × Value) → Option String
  kind_fault none fields = some "unsupported event"
  kind_fault (some known) fields =
      else_fault (unknown_reason (sort_texts (unknown_fields known fields))) (first_fault fields)

  -- `_validate_fields`: the reason of its exception, or none; it returns the fields that it is given.
  unfoldable pub fields_fault : String → List (String × Value) → Option String
  fields_fault kind fields = kind_fault (lookup kind event_fields) fields
