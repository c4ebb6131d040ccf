-- ===== src/Controllers/Fields.antt =====
-- `SafeAction.as_dict`: the fields of an action as the bridge gets them. A key that the dictionary
-- lacks is `none`, or no members.
use zomboid_goblin.Controllers.Intent.{SafeAction}
use zomboid_goblin.Controllers.Levels.{BodyState}
use zomboid_goblin.Controllers.Actions.{action_value}
use zomboid_goblin.Base.{
  ℕ, String, Bool, Option, none, some, List, if◌then◌else◌, some_or, ◌==◌, ℕ_eq, String_eq, Pair_eq,
}

pub record ActionFields : Type 0 where
  pub action : String
  pub priority : ℕ
  pub reason : String
  pub npc_id : String
  pub target : Option (String × String)
  pub item : Option (String × ℕ)
  pub leader : Option String
  pub members : List String
  pub job : Option String
  pub formation : Option String
  pub text : Option String
  pub squad_id : Option String
  pub loot_focus : Option String

abbrev target_entry : Option String → Option String → Option (String × String)
target_entry none label = none
target_entry (some kind) label = some (kind, some_or label "")

-- `self.item_count or 1`
abbrev pub or_one : Option ℕ → ℕ
or_one none = 1
or_one (some n) = if n == 0 then 1 else n

abbrev item_entry : Option String → Option ℕ → Option (String × ℕ)
item_entry none n = none
item_entry (some name) n = some (name, or_one n)

-- `as_dict`
unfoldable pub as_dict : SafeAction → ActionFields
as_dict a = record {
  action = action_value a.action;
  priority = a.priority;
  reason = a.reason;
  npc_id = a.npc_id;
  target = target_entry a.target_kind a.target_label;
  item = item_entry a.item_name a.item_count;
  leader = a.leader;
  members = a.members;
  job = a.job;
  formation = a.formation;
  text = a.text;
  squad_id = a.squad_id;
  loot_focus = a.loot_focus;
}

-- `creation_ready`
abbrev pub creation_ready : {A : Type 0} → BodyState A → Bool
creation_ready s = s.control_ready
