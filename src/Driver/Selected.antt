-- ===== src/Driver/Selected.antt =====
-- `NpcState` of npc.py: what is known of the selected Goblin.
use zomboid_goblin.Base.{String, Bool, true, false, ◌&&◌, ℕ_eq, String_eq, Pair_eq}

pub record NpcState : Type 0 where
  pub npc_id : String
  pub name : String
  pub alive : Bool
  pub active : Bool
  pub control_ready : Bool
  pub npc_engine_ready : Bool
  pub role : String
  pub base_job : String
  pub threat_level : String

-- `NpcState()`
abbrev pub new_state : NpcState
new_state = record {
  npc_id = "goblin.primary";
  name = "Goblin";
  alive = true;
  active = true;
  control_ready = false;
  npc_engine_ready = false;
  role = "companion";
  base_job = "wander";
  threat_level = "none";
}

-- `NpcState.body_ready`
abbrev pub state_ready : NpcState → Bool
state_ready s = s.alive && s.active && s.control_ready && s.npc_engine_ready
