-- ===== src/Entities.antt =====
-- goblin_zomboid/entities.py: the registry of identities, bases and jobs.
pub mod Jobs
pub mod Squads
pub mod Formations
use zomboid_goblin.Text.Trim.{casefold}
use zomboid_goblin.Text.Tables.{CharTables}
use zomboid_goblin.Text.Ids.{entity_id_match}
use zomboid_goblin.Base.{
  ℕ, zero, suc, ◌+◌, ◌-◌, ◌*◌, ◌/◌, ◌%◌, ◌≤◌, ◌<◌, min, String, count, ◌≡◌, refl, sym, ap, ◌∙◌, ◌≢◌,
  ◌↔◌, ◌⊎◌, inl, inr, Bool, true, false, not, ◌&&◌, ◌||◌, false≢true, Option, none, some, List, [],
  ◌∷◌, ◌++◌, map, arith, ltb, leb, eqb, if◌then◌else◌, ltb→lt, lt→ltb, leb→le, le→leb, eqb_iff,
  Bool-cases, Option-cases, is_some, some_or, Eq, ◌==◌, ℕ_eq, String_eq, Pair_eq, ==_refl, elem,
  length, take, keep_if, length-append, length-take-le, length-keep_if-le, All, Distinct,
}
use zomboid_goblin.Exec.{
  Error, value_error, protocol_error, intent_error, file_exists, file_not_found, os_error, Result,
  ok, err, Exec, pure, raise, lift, gets, ◌>>=◌, ◌>>◌, modify, raise_if, and_then,
}
use zomboid_goblin.Dict.{
  Dict, lookup, contains, insert, remove, lookup-insert, lookup-remove, lookup-insert_self,
  lookup-insert_absent, length-insert, length-remove-le,
}

pub record ManagedEntity : Type 0 where
  pub entity_id : String
  pub name : String
  pub role : String
  pub alive : Bool
  pub active : Bool
  pub incapacitated : Bool
  pub critical_worker : Bool
  pub tags : List String

pub record EntityRegistry : Type 0 where
  pub npcs : Dict String ManagedEntity
  pub players : List String

-- `register_npc`, for an entity with all its attributes
pub register_npc : ManagedEntity → Exec EntityRegistry ManagedEntity
register_npc entity = do
  raise_if (not (entity_id_match entity.entity_id)) (value_error "invalid NPC id")
  modify λ r. record r { npcs = insert entity.entity_id entity r.npcs }
  pure entity

-- `register_player`
pub register_player : String → Exec EntityRegistry (Unit {0})
register_player player_id = do
  raise_if (not (entity_id_match player_id)) (value_error "invalid player id")
  modify λ r. record r {
    players = if elem player_id r.players then r.players else player_id ∷ r.players;
  }

-- `known_npc` and `known_player`
abbrev pub known_npc : String → EntityRegistry → Bool
known_npc entity_id r = contains entity_id r.npcs

abbrev pub known_player : String → EntityRegistry → Bool
known_player player_id r = elem player_id r.players

pub record Base : Type 0 where
  pub base_id : String
  pub name : String
  pub minimum_guards : ℕ

pub record BaseManager : Type 0 where
  pub minimum_guards : ℕ
  pub base : Base

-- `BaseManager.__init__`
pub new_base_manager : ℕ → BaseManager
new_base_manager minimum = record {
  minimum_guards = minimum;
  base = record { base_id = "base.primary"; name = "home base"; minimum_guards = minimum };
}

-- `guard_capacity_allows_departure`: `assigned_guards - leaving >= minimum_guards`
pub guard_capacity_allows_departure : ℕ → ℕ → BaseManager → Bool
guard_capacity_allows_departure assigned_guards leaving b =
    leb (b.minimum_guards + leaving) assigned_guards

-- `ALLOWED_JOBS`
abbrev pub allowed_jobs : List String
allowed_jobs =
    "wander" ∷ "guard" ∷ "patrol" ∷ "scout" ∷ "haul" ∷ "build" ∷ "farm" ∷ "loot" ∷ "medic"
    ∷ "quartermaster" ∷ []

unfoldable pub allowed_job : String → Bool
allowed_job job = elem job allowed_jobs

pub record JobManager : Type 0 where
  pub registry : EntityRegistry
  pub assignments : Dict String String

-- The end of `assign`, with the entity of the registry; its role changes in place.
unfoldable pub set_job : String → String → ManagedEntity → Exec JobManager String
set_job npc_id job entity = do
  raise_if (not (allowed_job job)) (value_error "unsupported job")
  raise_if (not entity.alive || not entity.active) (value_error "NPC is unavailable")
  modify λ m. record m {
    registry = record m.registry {
      npcs = insert npc_id (record entity { role = job }) m.registry.npcs;
    };
    assignments = insert npc_id job m.assignments;
  }
  pure job

-- `assign`
unfoldable pub assign : CharTables → String → String → Exec JobManager String
assign tables npc_id job m = elim (lookup npc_id m.registry.npcs) [
  | none ↦ (err (value_error "unknown NPC id"), m)
  | some entity ↦ set_job npc_id (casefold tables job) entity m
]
