-- ===== src/Hunt/State.antt =====
-- The state of a hunt, and the part of it that players may see.
use zomboid_goblin.Memory.{MemoryStore}
use zomboid_goblin.Base.{ℕ, String, Bool, true, false, Option, none, some, ℕ_eq, String_eq, Pair_eq}

pub data Phase : Type 0 where
  active dead completed : Phase

pub record HuntState : Type 0 where
  pub run_id : String
  pub prize_tier : String
  pub phase : Phase
  pub clues_issued : ℕ
  pub relocations : ℕ
  pub second_wind_used : Bool
  pub winner_id : Option String
  pub death_count : ℕ

-- `HuntState(run_id, prize_tier, "ACTIVE")`
abbrev pub fresh_state : String → String → HuntState
fresh_state run_id prize_tier = record {
  run_id = run_id;
  prize_tier = prize_tier;
  phase = active;
  clues_issued = 0;
  relocations = 0;
  second_wind_used = false;
  winner_id = none;
  death_count = 0;
}

pub record HuntManager : Type 0 where
  pub memory : MemoryStore
  pub respawn_cooldown_seconds : ℕ
  pub max_relocations : ℕ
  pub state : Option HuntState
  pub target_digest : Option String
  pub private_target : Option (String × String)
  pub dead_until : Option ℕ
  pub alive : Bool

-- `HuntManager.__init__`
abbrev pub new_manager : MemoryStore → ℕ → ℕ → HuntManager
new_manager memory cooldown max_relocations = record {
  memory = memory;
  respawn_cooldown_seconds = cooldown;
  max_relocations = max_relocations;
  state = none;
  target_digest = none;
  private_target = none;
  dead_until = none;
  alive = true;
}

abbrev pub is_active : Phase → Bool
is_active active = true
is_active _ = false

abbrev pub is_dead : Phase → Bool
is_dead dead = true
is_dead _ = false

-- `phase in {"ACTIVE", "DEAD"}`
abbrev pub open_phase : Phase → Bool
open_phase completed = false
open_phase _ = true

abbrev pub is_open : Option HuntState → Bool
is_open none = false
is_open (some s) = open_phase s.phase

pub record PublicStatus : Type 0 where
  pub alive : Bool
  pub hunt_active : Bool
  pub prize_tier : String

abbrev prize_tier_of : Option HuntState → String
prize_tier_of none = "none"
prize_tier_of (some s) = s.prize_tier

-- `public_status`
abbrev pub public_status : HuntManager → PublicStatus
public_status m = record {
  alive = m.alive;
  hunt_active = is_open m.state;
  prize_tier = prize_tier_of m.state;
}

-- `HuntResult`; `clue` holds the two keys that `hint` adds to the public dictionary.
pub record HuntResult : Type 0 where
  pub accepted : Bool
  pub status : String
  pub reason : String
  pub public : PublicStatus
  pub clue : Option (String × ℕ)

abbrev pub result : Bool → String → String → HuntManager → HuntResult
result accepted status reason m = record {
  accepted = accepted;
  status = status;
  reason = reason;
  public = public_status m;
  clue = none;
}

-- `admin_status`, for administrators alone
pub record AdminStatus : Type 0 where
  pub public : PublicStatus
  pub target_digest : Option String
  pub private_target : Option (String × String)
  pub dead_until : Option ℕ
  pub state : Option HuntState

abbrev pub admin_status : HuntManager → AdminStatus
admin_status m = record {
  public = public_status m;
  target_digest = m.target_digest;
  private_target = m.private_target;
  dead_until = m.dead_until;
  state = m.state;
}
