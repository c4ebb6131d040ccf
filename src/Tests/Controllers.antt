-- ===== src/Tests/Controllers.antt =====
-- Decisions for a ready body, and reservations of its stock.
use zomboid_goblin.Text.Trim.{casefold}
use zomboid_goblin.Controllers.Inventory.Reserved.{reserve_effect}
use zomboid_goblin.Text.Tables.{ascii}
use zomboid_goblin.Controllers.Inventory.{
  Reservations, reserve, reserved_count, same_item, release, commit,
}
use zomboid_goblin.Controllers.Precedence.{Survives, safety_decide-overwhelmed, safety_decide-safe}
use zomboid_goblin.Controllers.Actions.{mapping, is_bodiless}
use zomboid_goblin.Controllers.{
  safety_decide, tactical_decide, intent_decide, first_decision, reflex_decide, combat_decide,
  entry_decide, make_action, target_missing, own_action,
}
use zomboid_goblin.Controllers.Levels.{BodyState, no_threat, overwhelming, body_ready}
use zomboid_goblin.Controllers.Intent.{ValidatedIntent, SafeAction}
use zomboid_goblin.Base.{
  ℕ, ◌+◌, ◌≤◌, String, ◌≡◌, refl, true, false, none, some, [], ◌∷◌, if◌then◌else◌, ℕ_eq, String_eq,
  Pair_eq,
}
use zomboid_goblin.Controllers.Intent.{targeted}
use zomboid_goblin.Controllers.Levels.{hundredths}
use zomboid_goblin.Controllers.Actions.{search}

abbrev calm : BodyState ℕ
calm = record {
  alive = true;
  body_present = true;
  hunger = 10;
  thirst = 10;
  fatigue = 10;
  panic = 0;
  injury = 0;
  threat_level = no_threat;
  weapon_ready = true;
  has_food = true;
  has_water = true;
  has_medical = true;
  mode = "ROAM";
  control_ready = true;
  npc_engine_ready = true;
  npc_id = "goblin.primary";
  body_mode = "npc";
}

abbrev search_yard : ValidatedIntent
search_yard = record {
  intent = "SEARCH";
  mode = "ROAM";
  text = none;
  priority = 1;
  target = some (record { kind = "yard"; name = some "back yard"; label = none; player = none });
  candidate = none;
  item = none;
  npc_id = none;
  leader = none;
  squad_id = none;
  members = none;
  requested_members = none;
  job = none;
  formation = none;
  loot_focus = none;
}

abbrev searching : SafeAction
searching = targeted search 1 "validated intent SEARCH" "yard" "back yard" "goblin.primary"

decision : (safety_decide (some search_yard) calm).action ≡ some searching
unfolding safety_decide tactical_decide intent_decide first_decision reflex_decide combat_decide
    entry_decide mapping make_action target_missing own_action
decision = refl

safety_decide-safe_example :
    (calm.alive ≡ true)
    × (searching.npc_id ≡ calm.npc_id)
    × ((safety_decide (some search_yard) calm).accepted ≡ true)
    × (body_ready calm ≡ false → is_bodiless searching.action ≡ true)
safety_decide-safe_example = safety_decide-safe (some search_yard) calm searching decision

abbrev chased : BodyState ℕ
chased = record calm { threat_level = overwhelming; thirst = 90 }

safety_decide-overwhelmed_example :
    (safety_decide (some search_yard) chased ≡ safety_decide none chased)
    × Survives (safety_decide (some search_yard) chased).action
safety_decide-overwhelmed_example =
    safety_decide-overwhelmed (some search_yard) chased refl refl refl

abbrev two_planks : Reservations
two_planks = ("t1", record { item_name = "Plank"; count = 2; token = "t1" }) ∷ []

reserve_effect_example :
    let d' = (reserve ascii "Plank" 3 5 "t2" two_planks).1 in
    ((other : String)
      → reserved_count ascii other d'
        ≡ reserved_count ascii other two_planks + (if same_item ascii "Plank" other then 3 else 0))
    × (reserved_count ascii "Plank" d' ≤ 5)
    × (release "t2" d' ≡ two_planks)
    × (commit "t2" d'
        ≡ (some (record { item_name = "Plank"; count = 3; token = "t2" }), two_planks))
unfolding reserve casefold
reserve_effect_example = reserve_effect ascii "Plank" 3 5 "t2" two_planks refl
