-- ===== src/Tests/Validator.antt =====
-- An intent and a label that pass the validator.
use zomboid_goblin.Base.{
  ◌≡◌, refl, true, false, none, some, [], ◌∷◌, arith, ℕ_eq, String_eq, Pair_eq,
}
use zomboid_goblin.Exec.{ok}
use zomboid_goblin.Dict.{contains}
use zomboid_goblin.PublicState.{normal_key}
use zomboid_goblin.Text.Trim.{casefold}
use zomboid_goblin.Json.{Value, dict_value, str_value, int_value, pos, field, end, at_key, find}
use zomboid_goblin.Validator.Scan.{is_forbidden}
use zomboid_goblin.Validator.Intents.{IntentData, validate}
use zomboid_goblin.Validator.Clean.{validate_clean}
use zomboid_goblin.Validator.Safe.{IsSafeIntent, validate-IsSafeIntent}
use zomboid_goblin.Text.Tables.{ascii}
use zomboid_goblin.Validator.{mode_allows, text, checked_text, has_control}
use zomboid_goblin.Validator.Allowed.{mode_allows-mapping, text-safe_target_label}
use zomboid_goblin.Controllers.Actions.{mapping}
use zomboid_goblin.Driver.Gate.{safe_target_label}
use zomboid_goblin.Modes.{roam}
use zomboid_goblin.Text.Location.{has_location, search_from, location_here}
use zomboid_goblin.Text.Trim.{strip, lstrip, rstrip}

mode_allows-mapping_example : contains "SEARCH" mapping ≡ true
unfolding mode_allows
mode_allows-mapping_example = mode_allows-mapping roam "SEARCH" refl

text-safe_target_label_example : safe_target_label ascii (some "old mill") ≡ true
unfolding text checked_text has_control has_location strip lstrip rstrip search_from location_here
text-safe_target_label_example =
    text-safe_target_label ascii "target.name" 96 " old mill " "old mill" (omega arith) refl

abbrev crafting : Value
crafting = dict_value (
    field "intent" (str_value "CRAFT") (
      field "mode" (str_value "ROAM") (
        field "item"
          (dict_value (field "name" (str_value "Spear") (field "count" (int_value (pos 2)) end)))
          end)))

abbrev crafted : IntentData
crafted = record {
  intent = "CRAFT";
  mode = roam;
  text = none;
  priority = 1;
  abort_if = none;
  target = none;
  item = some (record { item_name = some "Spear"; category = none; item_count = some 2 });
  candidate = none;
  loot_focus = none;
  npc_id = none;
  leader = none;
  squad_id = none;
  requested_members = none;
  members = none;
  job = none;
  formation = none;
  zone = none;
  mission = none;
}

crafting_passes : validate ascii (λ s. s) crafting ≡ ok crafted
unfolding validate is_forbidden normal_key casefold checked_text strip has_location mode_allows
crafting_passes = refl

validate-IsSafeIntent_example : IsSafeIntent ascii (λ s. s) crafted
validate-IsSafeIntent_example =
    validate-IsSafeIntent ascii (λ s. s) crafting crafted crafting_passes

validate_clean_example : is_forbidden ascii "count" ≡ false
unfolding find
validate_clean_example =
    validate_clean ascii (λ s. s) crafting (int_value (pos 2)) crafted (at_key "item" ∷ []) "count"
      crafting_passes refl
