-- ===== src/Tests/Entities.antt =====
-- A squad of the home base.
use zomboid_goblin.Dict.{lookup}
use zomboid_goblin.Base.{ℕ, some}
use zomboid_goblin.Entities.Squads.{leaving_guards, available_guards}
use zomboid_goblin.Entities.Squads.Chosen.{
  choose_members-IsSquad, choose_members-overfills, IsSquad,
}
use zomboid_goblin.Entities.Squads.{
  choose_members, choose_from, first_candidate, SquadManager, ids, gather, joins, reached,
  guard_can_leave,
}
use zomboid_goblin.Entities.Jobs.{assign_effect}
use zomboid_goblin.Text.Tables.{ascii}
use zomboid_goblin.Text.Trim.{casefold}
use zomboid_goblin.Entities.Formations.{offset_injective}
use zomboid_goblin.Entities.{
  ManagedEntity, EntityRegistry, JobManager, assign, allowed_job, set_job,
}
use zomboid_goblin.Text.Ids.{id_match, all_id_chars}
use zomboid_goblin.Base.{
  ℕ, String, ◌≡◌, refl, true, false, List, [], ◌∷◌, arith, ℕ_eq, String_eq, Pair_eq,
}
use zomboid_goblin.Exec.{ok}

abbrev entity : String → String → ManagedEntity
entity entity_id role = record {
  entity_id = entity_id;
  name = "";
  role = role;
  alive = true;
  active = true;
  incapacitated = false;
  critical_worker = false;
  tags = [];
}

abbrev registry : EntityRegistry
registry = record {
  npcs =
      ("goblin.primary", entity "goblin.primary" "companion")
      ∷ ("n1", entity "n1" "guard")
      ∷ ("n2", entity "n2" "scout")
      ∷ [];
  players = "ann" ∷ [];
}

abbrev squads : SquadManager
squads = record { registry = registry; minimum_base_guards = 1; squads = [] }

abbrev both : List String
both = "n1" ∷ "n2" ∷ []

chosen : choose_members (ids both) "ann" 4 squads ≡ ok ("goblin.primary" ∷ "n2" ∷ [])
unfolding choose_members choose_from first_candidate gather joins reached guard_can_leave id_match
    all_id_chars leaving_guards available_guards
chosen = refl

choose_members-IsSquad_example :
    (first : String) × (first_candidate "ann" squads.registry ≡ ok first)
    × IsSquad squads.registry 1 4 first ("goblin.primary" ∷ "n2" ∷ [])
choose_members-IsSquad_example =
    choose_members-IsSquad squads (ids both) "ann" 4 ("goblin.primary" ∷ "n2" ∷ []) (omega arith)
      chosen

choose_members-overfills_example :
    choose_members (ids ("n2" ∷ "n1" ∷ [])) "ann" 1 squads ≡ ok ("goblin.primary" ∷ "n2" ∷ [])
unfolding first_candidate joins guard_can_leave id_match all_id_chars leaving_guards
    available_guards
choose_members-overfills_example =
    choose_members-overfills squads "ann" "goblin.primary" "n2" ("n1" ∷ []) refl refl refl

offset_injective_example : ◌≡◌ {A = ℕ} 3 3
offset_injective_example = offset_injective "wedge" 5 3 3 refl

abbrev jobs : JobManager
jobs = record { registry = registry; assignments = ("n1", "guard") ∷ [] }

farming : (assign ascii "n2" "farm" jobs).0 ≡ ok "farm"
unfolding assign set_job allowed_job casefold
farming = refl

assign_effect_example :
    ("farm" ≡ casefold ascii "farm")
    × (allowed_job "farm" ≡ true)
    × ((true ≡ true) × (true ≡ true))
    × (lookup "n1" (assign ascii "n2" "farm" jobs).1.assignments ≡ some "guard")
    × (lookup "n1" (assign ascii "n2" "farm" jobs).1.registry.npcs ≡ some (entity "n1" "guard"))
assign_effect_example =
    assign_effect ascii "n2" "farm" "farm" "n1" (entity "n2" "scout") jobs refl farming
