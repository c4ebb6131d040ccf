-- ===== src/Validator.antt =====
-- goblin_zomboid/validator.py: the intents that each mode allows, and the checks of a text and of an
-- identity.
pub mod Allowed
pub mod Scan
pub mod Targets
pub mod Intents
pub mod Clean
pub mod Safe
use zomboid_goblin.Social.Speech.{control}
use zomboid_goblin.Text.Location.{has_location}
use zomboid_goblin.Text.Tables.{CharTables}
use zomboid_goblin.Text.Ids.{entity_id_match}
use zomboid_goblin.Text.Trim.{strip}
use Prim.Native.Char.{code}
use Prim.Native.String.{◌++◌ as str_append}
use zomboid_goblin.Modes.{Mode, safe, roam, party, hunt}
use zomboid_goblin.Base.{
  ℕ, zero, suc, ◌+◌, ◌-◌, ◌*◌, ◌/◌, ◌%◌, ◌≤◌, ◌<◌, min, String, count, ◌≡◌, refl, sym, ap, ◌∙◌, ◌≢◌,
  ◌↔◌, ◌⊎◌, inl, inr, Bool, true, false, not, ◌&&◌, ◌||◌, false≢true, Option, none, some, List, [],
  ◌∷◌, ◌++◌, map, arith, ltb, leb, eqb, if◌then◌else◌, ltb→lt, lt→ltb, leb→le, le→leb, eqb_iff,
  Bool-cases, Option-cases, is_some, some_or, Eq, ◌==◌, ℕ_eq, String_eq, Pair_eq, ==_refl, elem,
  length, take, keep_if, length-append, length-take-le, length-keep_if-le, All, Distinct,
}
use zomboid_goblin.Exec.{
  Error, value_error, protocol_error, intent_error, file_exists, file_not_found, os_error, Result,
  ok, err, Exec, pure, raise, lift, gets, ◌>>=◌, ◌>>◌, modify, raise_if, and_then,
}
use zomboid_goblin.Dict.{
  Dict, lookup, contains, insert, remove, lookup-insert, lookup-remove, lookup-insert_self,
  lookup-insert_absent, length-insert, length-remove-le,
}

-- `INTENTS`, as first defined
abbrev pub plain_intents : List String
plain_intents =
    "FARM" ∷ "CRAFT" ∷ "REPAIR_VEHICLE" ∷ "OPEN_DOOR" ∷ "OPEN_WINDOW" ∷ "GAIN_ACCESS"
    ∷ "CLOSE_CURTAINS" ∷ "WAIT" ∷ "SAY" ∷ "EQUIP" ∷ "MOVE_TO" ∷ "FOLLOW" ∷ "FOLLOW_GOBLIN"
    ∷ "HOLD_POSITION" ∷ "REGROUP" ∷ "SEARCH" ∷ "SCAVENGE" ∷ "LOOT_AREA" ∷ "RETREAT" ∷ "REST"
    ∷ "GO_HOME" ∷ "SET_BASE" ∷ "JOIN_PARTY" ∷ "LEAVE_PARTY" ∷ "FORM_SQUAD" ∷ "DISMISS_SQUAD"
    ∷ "ASSIGN_JOB" ∷ "SECURE_BASE" ∷ "BUILD" ∷ "RETURN_TO_BASE" ∷ "CLEAR_BUILDING" ∷ "ATTACK"
    ∷ "DEFEND_PLAYER" ∷ "DEFEND_AREA" ∷ "GUARD" ∷ "PATROL" ∷ "FLEE" ∷ "ENTER_VEHICLE"
    ∷ "EXIT_VEHICLE" ∷ "HUNT_START" ∷ "HUNT_HINT" ∷ "HUNT_RELOCATE" ∷ "HUNT_REWARD" ∷ "TRADE"
    ∷ "HELP" ∷ []

-- `JOB_INTENTS`
abbrev pub job_intents : List String
job_intents =
    "INSPECT_BASE" ∷ "MAINTAIN_BASE" ∷ "REPAIR_STRUCTURE" ∷ "DISMANTLE" ∷ "STOCKPILE"
    ∷ "SORT_STORAGE" ∷ "FETCH_ITEM" ∷ "DELIVER" ∷ "MOVE_CORPSE" ∷ "VEHICLE_INSPECT"
    ∷ "REFUEL_VEHICLE" ∷ "VEHICLE_SERVICE" ∷ "INSTALL_PART" ∷ "REMOVE_PART" ∷ "REPLACE_PART"
    ∷ "CHANGE_TIRE" ∷ "CHOP_WOOD" ∷ "TREAT_PLAYER" ∷ "FORAGE" ∷ "CHECK_TRAPS" ∷ "COOK"
    ∷ "RESTORE_POWER" ∷ []

-- `INTENTS | JOB_INTENTS`
abbrev pub intents : List String
intents = plain_intents ++ job_intents

-- `MODE_ALLOWED`: what each mode takes away from the intents
abbrev pub barred : Mode → List String
barred safe =
    "MOVE_TO" ∷ "FOLLOW" ∷ "FOLLOW_GOBLIN" ∷ "SEARCH" ∷ "SCAVENGE" ∷ "LOOT_AREA" ∷ "ATTACK"
    ∷ "DEFEND_PLAYER" ∷ "DEFEND_AREA" ∷ "GUARD" ∷ "PATROL" ∷ "FORM_SQUAD" ∷ "ENTER_VEHICLE"
    ∷ "CLEAR_BUILDING" ∷ []
barred roam =
    "JOIN_PARTY" ∷ "LEAVE_PARTY" ∷ "FORM_SQUAD" ∷ "DISMISS_SQUAD" ∷ "ASSIGN_JOB" ∷ "DEFEND_PLAYER"
    ∷ "DEFEND_AREA" ∷ "GUARD" ∷ "PATROL" ∷ []
barred party = "ASSIGN_JOB" ∷ "PATROL" ∷ "GUARD" ∷ []
barred hunt =
    "JOIN_PARTY" ∷ "LEAVE_PARTY" ∷ "FORM_SQUAD" ∷ "DISMISS_SQUAD" ∷ "ASSIGN_JOB" ∷ "SECURE_BASE"
    ∷ "GUARD" ∷ "PATROL" ∷ []

-- `intent in MODE_ALLOWED[mode]`
unfoldable pub mode_allows : Mode → String → Bool
mode_allows mode intent = elem intent intents && not (elem intent (barred mode))

module _ (tables : CharTables) where
  -- `CONTROL_RE.search(value)`
  unfoldable pub has_control : String → Bool
  has_control String.[] = false
  has_control (String.◌∷◌ c s) = control tables (code c) || has_control s

  -- `_text`, behind the removal of the spaces around it
  unfoldable pub checked_text : String → ℕ → String → Result String
  unfolding has_control
  checked_text field maximum value =
      if value == "" || ltb maximum (count value) || has_control value
      then err (intent_error (str_append "invalid " field))
      else if has_location tables value
      then err (intent_error (str_append field " contains location coordinates"))
      else ok value

  -- `_text`, for a value that is a text
  unfoldable pub text : String → ℕ → String → Result String
  text field maximum value = checked_text field maximum (strip tables value)

  -- `_id`, for a value that is a text
  unfoldable pub id : String → String → Result String
  id field value =
      and_then (text field 96 value)
        λ v. if entity_id_match v then ok v else err (intent_error (str_append "invalid " field))
