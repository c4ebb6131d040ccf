-- ===== src/Driver/Gate.antt =====
-- `DeterministicActionGate` and `SensorOnlyBodyDriver` of body.py. An action is typed here, so the
-- tests for its class and for a member of the enumeration always pass.
pub mod Admitted
use zomboid_goblin.Controllers.Actions.{is_equip}
use zomboid_goblin.Text.Location.{has_location}
use zomboid_goblin.Controllers.Intent.{SafeAction}
use zomboid_goblin.Text.Tables.{CharTables}
use zomboid_goblin.Base.{
  ℕ, zero, suc, ◌+◌, ◌-◌, ◌*◌, ◌/◌, ◌%◌, ◌≤◌, ◌<◌, min, String, count, ◌≡◌, refl, sym, ap, ◌∙◌, ◌≢◌,
  ◌↔◌, ◌⊎◌, inl, inr, Bool, true, false, not, ◌&&◌, ◌||◌, false≢true, Option, none, some, List, [],
  ◌∷◌, ◌++◌, map, arith, ltb, leb, eqb, if◌then◌else◌, ltb→lt, lt→ltb, leb→le, le→leb, eqb_iff,
  Bool-cases, Option-cases, is_some, some_or, Eq, ◌==◌, ℕ_eq, String_eq, Pair_eq, ==_refl, elem,
  length, take, keep_if, length-append, length-take-le, length-keep_if-le, All, Distinct,
}
use zomboid_goblin.Exec.{
  Error, value_error, protocol_error, intent_error, file_exists, file_not_found, os_error, Result,
  ok, err, Exec, pure, raise, lift, gets, ◌>>=◌, ◌>>◌, modify, raise_if, and_then,
}
use zomboid_goblin.Dict.{
  Dict, lookup, contains, insert, remove, lookup-insert, lookup-remove, lookup-insert_self,
  lookup-insert_absent, length-insert, length-remove-le,
}

pub record DriverResult : Type 0 where
  pub accepted : Bool
  pub status : String
  pub detail : String

abbrev pub refused : String → DriverResult
refused detail = record { accepted = false; status = "rejected"; detail = detail }

abbrev pub admitted : DriverResult
admitted = record { accepted = true; status = "admitted"; detail = "typed action passed the gate" }

-- `_TARGET_KINDS`
abbrev pub target_kinds : List String
target_kinds =
    "nearby_threat" ∷ "escape_route" ∷ "nearby_building" ∷ "named_location" ∷ "area" ∷ "player"
    ∷ "home_base" ∷ "candidate" ∷ "current_position" ∷ "goblin" ∷ "squad" ∷ "base" ∷ "vehicle"
    ∷ "job" ∷ "building" ∷ "room" ∷ "yard" ∷ "container" ∷ []

unfoldable pub known_target : String → Bool
known_target kind = elem kind target_kinds

module _ (tables : CharTables) where
  -- `label = action.target_label or ""` and the test on it
  unfoldable pub safe_target_label : Option String → Bool
  safe_target_label none = false
  safe_target_label (some label) =
      not (label == "") && leb (count label) 96 && not (has_location tables label)

  -- The checks of the target.
  unfoldable pub target_fault : Option String → Option String → Option String
  target_fault none label = none
  target_fault (some kind) label =
      if not (known_target kind)
      then some "unknown target kind"
      else if not (safe_target_label label)
      then some "unsafe target label"
      else none

-- `action.item_count is not None and not 1 <= action.item_count <= 20`
unfoldable pub unsafe_count : Option ℕ → Bool
unsafe_count none = false
unsafe_count (some n) = not (leb 1 n && leb n 20)

unfoldable pub known_focus : String → Bool
known_focus f = elem f ("food" ∷ "medical" ∷ "tools" ∷ "ammo" ∷ "surprise" ∷ [])

unfoldable pub unsafe_focus : Option String → Bool
unsafe_focus none = false
unsafe_focus (some f) = not (known_focus f)

-- `not action.item_name or action.item_name != "Base.DoubleBarrelShotgun"`
unfoldable pub other_weapon : Option String → Bool
other_weapon none = true
other_weapon (some name) = not (name == "Base.DoubleBarrelShotgun")

-- The checks behind that of the target.
unfoldable pub detail_fault : SafeAction → Option String
detail_fault a =
    if unsafe_count a.item_count
    then some "unsafe item count"
    else if unsafe_focus a.loot_focus
    then some "unsafe loot focus"
    else if is_equip a.action && other_weapon a.item_name
    then some "EQUIP requires the configured preferred weapon"
    else if ltb 240 (count a.reason)
    then some "action reason is too long"
    else none

module _ (tables : CharTables) where
  unfoldable pub fault : SafeAction → Option String
  fault a =
      if ltb 3 a.priority
      then some "invalid action priority"
      else elim (target_fault tables a.target_kind a.target_label) [
        | some x ↦ some x
        | none ↦ detail_fault a
      ]

  -- `DeterministicActionGate.admit`
  unfoldable pub admit : SafeAction → DriverResult
  admit a = elim (fault a) [ none ↦ admitted | some x ↦ refused x ]

  -- `SensorOnlyBodyDriver.execute`
  unfoldable pub sensor_only_execute : SafeAction → DriverResult
  sensor_only_execute a = if not (admit a).accepted then admit a else record {
    accepted = false;
    status = "sensor_only";
    detail = "body feasibility gate is incomplete";
  }
