-- ===== src/Controllers/Intent.antt =====
-- `ValidatedIntent` of validator.py with the fields that a validated intent can have, and the
-- `SafeAction` that a controller makes of it.
use zomboid_goblin.Controllers.Actions.{Action}
use zomboid_goblin.Base.{
  ℕ, String, Bool, true, false, Option, none, some, List, [], ℕ_eq, String_eq, Pair_eq,
}

pub record Target : Type 0 where
  pub kind : String
  pub name : Option String
  pub label : Option String
  pub player : Option String

pub record Item : Type 0 where
  pub item_name : Option String
  pub item_count : Option ℕ

pub data Members : Type 0 where
  number_of : ℕ → Members
  ids : List String → Members

pub record ValidatedIntent : Type 0 where
  pub intent : String
  pub mode : String
  pub text : Option String
  pub priority : ℕ
  pub target : Option Target
  pub candidate : Option Target
  pub item : Option Item
  pub npc_id : Option String
  pub leader : Option String
  pub squad_id : Option String
  pub members : Option Members
  pub requested_members : Option Members
  pub job : Option String
  pub formation : Option String
  pub loot_focus : Option String

pub record SafeAction : Type 0 where
  pub action : Action
  pub priority : ℕ
  pub reason : String
  pub target_kind : Option String
  pub target_label : Option String
  pub item_name : Option String
  pub item_count : Option ℕ
  pub npc_id : String
  pub leader : Option String
  pub members : List String
  pub job : Option String
  pub formation : Option String
  pub text : Option String
  pub squad_id : Option String
  pub loot_focus : Option String

-- `SafeAction(action, priority, reason, npc_id=npc_id)`
abbrev pub plain : Action → ℕ → String → String → SafeAction
plain action priority reason npc_id = record {
  action = action;
  priority = priority;
  reason = reason;
  target_kind = none;
  target_label = none;
  item_name = none;
  item_count = none;
  npc_id = npc_id;
  leader = none;
  members = [];
  job = none;
  formation = none;
  text = none;
  squad_id = none;
  loot_focus = none;
}

-- `SafeAction(action, priority, reason, target_kind=kind, target_label=label, npc_id=npc_id)`
abbrev pub targeted : Action → ℕ → String → String → String → String → SafeAction
targeted action priority reason kind label npc_id = record (plain action priority reason npc_id) {
  target_kind = some kind;
  target_label = some label;
}

pub record ControllerResult : Type 0 where
  pub accepted : Bool
  pub action : Option SafeAction
  pub reason : String

abbrev pub rejected : String → ControllerResult
rejected reason = record { accepted = false; action = none; reason = reason }

abbrev pub accepted_with : Option SafeAction → String → ControllerResult
accepted_with action reason = record { accepted = true; action = action; reason = reason }
