-- ===== src/Controllers.antt =====
-- goblin_zomboid/controllers.py: the decisions for one Goblin's body.
pub mod Actions
pub mod Levels
pub mod Intent
pub mod Precedence
pub mod Inventory
pub mod Fields
pub use Actions.*
pub use Levels.*
pub use Intent.*
use Prim.Native.String.{◌++◌ as str_append}
use zomboid_goblin.Base.{
  ℕ, zero, suc, ◌+◌, ◌-◌, ◌*◌, ◌/◌, ◌%◌, ◌≤◌, ◌<◌, min, String, count, ◌≡◌, refl, sym, ap, ◌∙◌, ◌≢◌,
  ◌↔◌, ◌⊎◌, inl, inr, Bool, true, false, not, ◌&&◌, ◌||◌, false≢true, Option, none, some, List, [],
  ◌∷◌, ◌++◌, map, arith, ltb, leb, eqb, if◌then◌else◌, ltb→lt, lt→ltb, leb→le, le→leb, eqb_iff,
  Bool-cases, Option-cases, is_some, some_or, Eq, ◌==◌, ℕ_eq, String_eq, Pair_eq, ==_refl, elem,
  length, take, keep_if, length-append, length-take-le, length-keep_if-le, All, Distinct,
}
use zomboid_goblin.Exec.{
  Error, value_error, protocol_error, intent_error, file_exists, file_not_found, os_error, Result,
  ok, err, Exec, pure, raise, lift, gets, ◌>>=◌, ◌>>◌, modify, raise_if, and_then,
}
use zomboid_goblin.Dict.{
  Dict, lookup, contains, insert, remove, lookup-insert, lookup-remove, lookup-insert_self,
  lookup-insert_absent, length-insert, length-remove-le,
}

abbrev pub escape_action : ℕ → String → String → SafeAction
escape_action priority reason npc_id =
    targeted flee priority reason "escape_route" "nearest safe route" npc_id

module _ {A : Type 0} ⦃o : Scale A⦄ where
  -- `ReflexController.decide`
  unfoldable pub reflex_decide : BodyState A → Option SafeAction
  reflex_decide s =
      if not s.alive
      then none
      else if o.at_least s.thirst 85 && s.has_water
      then some (plain drink 3 "critical thirst" s.npc_id)
      else if o.at_least s.hunger 90 && s.has_food
      then some (plain eat 3 "critical hunger" s.npc_id)
      else if o.at_least s.injury 80 && s.has_medical
      then some (plain bandage 3 "critical injury" s.npc_id)
      else if is_overwhelming s.threat_level || o.at_least s.panic 90
      then some (escape_action 3 "unsafe threat" s.npc_id)
      else none

module _ {A : Type 0} where
  abbrev pub fight : BodyState A → SafeAction
  fight s =
      if s.weapon_ready
      then targeted attack 2 "nearby hostile" "nearby_threat" "nearest visible threat" s.npc_id
      else escape_action 2 "no ready weapon" s.npc_id

  abbrev pub answer_threat : Threat → BodyState A → Option SafeAction
  answer_threat no_threat s = none
  answer_threat overwhelming s =
      some (escape_action 3 "combat threat exceeds safe threshold" s.npc_id)
  answer_threat near s = some (fight s)

  -- `CombatController.decide`
  unfoldable pub combat_decide : BodyState A → Option SafeAction
  combat_decide s = if not s.alive then none else answer_threat s.threat_level s

-- The set `target_required` of `TacticalController.decide`.
abbrev pub target_required : List String
target_required =
    "MOVE_TO" ∷ "FOLLOW" ∷ "SEARCH" ∷ "SCAVENGE" ∷ "JOIN_PARTY" ∷ "TRADE" ∷ "HELP" ∷ "FOLLOW_GOBLIN"
    ∷ "LOOT_AREA" ∷ "DEFEND_PLAYER" ∷ "DEFEND_AREA" ∷ "GUARD" ∷ "PATROL" ∷ "CLEAR_BUILDING" ∷ "FLEE"
    ∷ "RETREAT" ∷ "REGROUP" ∷ "GO_HOME" ∷ "RETURN_TO_BASE" ∷ []

-- `a or b`, for texts that may be absent or empty
abbrev pub or_text : Option String → Option String → Option String
or_text none b = b
or_text (some a) b = if a == "" then b else some a

abbrev member_ids : Option Members → List String
member_ids none = []
member_ids (some (number_of _)) = []
member_ids (some (ids xs)) = xs

-- `data.get("members", data.get("requested_members", []))`
abbrev pub requested_ids : ValidatedIntent → List String
requested_ids i = elim i.members [
  | some m ↦ member_ids (some m)
  | none ↦ member_ids i.requested_members
]

abbrev pub effective_target : ValidatedIntent → Option Target
effective_target i = if i.intent == "HUNT_RELOCATE" then i.candidate else i.target

abbrev pub kind_of : Option Target → Option String
kind_of none = none
kind_of (some t) = some t.kind

abbrev pub label_of : Option Target → Option String
label_of none = none
label_of (some t) = or_text t.name (or_text t.label t.player)

abbrev pub untargeted : ValidatedIntent → Bool
untargeted i = elem i.intent ("SAY" ∷ "SET_BASE" ∷ [])

abbrev pub name_of : Option Item → Option String
name_of none = none
name_of (some x) = x.item_name

abbrev pub count_of : Option Item → Option ℕ
count_of none = none
count_of (some x) = x.item_count

-- `intent in target_required and not isinstance(target, dict)`
unfoldable pub target_missing : ValidatedIntent → Bool
target_missing i = elem i.intent target_required && not (is_some (effective_target i))

unfoldable pub make_action : Action → ValidatedIntent → String → SafeAction
make_action action i own_id = record {
  action = action;
  priority = i.priority;
  reason = str_append "validated intent " i.intent;
  target_kind = if untargeted i then none else kind_of (effective_target i);
  target_label = if untargeted i then none else label_of (effective_target i);
  item_name = name_of i.item;
  item_count = count_of i.item;
  npc_id = some_or i.npc_id own_id;
  leader = i.leader;
  members = requested_ids i;
  job = i.job;
  formation = i.formation;
  text = i.text;
  squad_id = i.squad_id;
  loot_focus = i.loot_focus;
}

unfoldable pub own_action : String → SafeAction → ControllerResult
own_action own_id a =
    if not (a.npc_id == own_id)
    then rejected "intent attempted to control a different Goblin"
    else accepted_with (some a) "accepted by tactical controller"

-- `TacticalController.decide` behind the look into its table
unfoldable pub entry_decide : Option Action → ValidatedIntent → String → ControllerResult
entry_decide none i own_id = rejected "intent has no implemented controller action"
entry_decide (some action) i own_id =
    if target_missing i
    then rejected "intent target is missing"
    else own_action own_id (make_action action i own_id)

module _ {A : Type 0} where
  -- `TacticalController.decide`
  unfoldable pub tactical_decide : ValidatedIntent → BodyState A → ControllerResult
  tactical_decide i s =
      if not s.alive
      then rejected "body is not alive"
      else entry_decide (lookup i.intent mapping) i s.npc_id

  unfoldable pub bodiless_entry : Option Action → ValidatedIntent → BodyState A → ControllerResult
  bodiless_entry none i s = rejected "NPC body driver is unavailable"
  bodiless_entry (some action) i s =
      if not (is_bodiless action)
      then rejected "NPC body driver is unavailable"
      else tactical_decide i s

  -- The branch of `SafetyController.decide` without a ready body
  unfoldable pub bodiless_decide : Option ValidatedIntent → BodyState A → ControllerResult
  bodiless_decide none s = accepted_with none "NPC body driver is unavailable"
  bodiless_decide (some i) s = bodiless_entry (lookup i.intent mapping) i s

  unfoldable pub intent_decide : Option ValidatedIntent → BodyState A → ControllerResult
  intent_decide none s = accepted_with none "no social or tactical intent"
  intent_decide (some i) s = tactical_decide i s

-- The reflex controller goes before the combat controller, and both before any intent.
unfoldable pub first_decision :
    Option SafeAction → Option SafeAction → ControllerResult → ControllerResult
first_decision (some a) combat after = accepted_with (some a) "reflex controller precedence"
first_decision none (some a) after = accepted_with (some a) "combat controller precedence"
first_decision none none after = after

module _ {A : Type 0} ⦃o : Scale A⦄ where
  -- `SafetyController.decide`
  unfoldable pub safety_decide : Option ValidatedIntent → BodyState A → ControllerResult
  safety_decide intent s =
      if not (body_ready s)
      then bodiless_decide intent s
      else first_decision (reflex_decide s) (combat_decide s) (intent_decide intent s)
