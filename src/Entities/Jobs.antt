-- ===== src/Entities/Jobs.antt =====
-- What `JobManager.assign` does to the registry that it shares.
use zomboid_goblin.Exec.{value_error}
use zomboid_goblin.Text.Tables.{CharTables}
use zomboid_goblin.Entities.{allowed_job, JobManager, assign, set_job, ManagedEntity}
use zomboid_goblin.Text.Trim.{casefold}
use zomboid_goblin.Base.{
  String, ◌≡◌, refl, ap, true, Option, none, some, arith, ℕ_eq, String_eq, Pair_eq, if◌then◌else◌,
  ◌==◌,
}
use zomboid_goblin.Exec.{value_error, ok, err}
use zomboid_goblin.Dict.{lookup, insert, lookup-insert}

set_job_effect :
    (npc_id job j : String) (entity : ManagedEntity) (m : JobManager)
    → (set_job npc_id job entity m).0 ≡ ok j
    → (j ≡ job)
      × (allowed_job job ≡ true)
      × (entity.alive ≡ true)
      × (entity.active ≡ true)
      × ((set_job npc_id job entity m).1 ≡ record m {
        registry = record m.registry {
          npcs = insert npc_id (record entity { role = job }) m.registry.npcs;
        };
        assignments = insert npc_id job m.assignments;
      })
unfolding set_job
set_job_effect npc_id job j entity m h =
    (ground arith, ground arith, ground arith, ground arith, ground arith)

assign_known :
    (tables : CharTables) (npc_id job : String) (entity : ManagedEntity) (m : JobManager)
    → lookup npc_id m.registry.npcs ≡ some entity
    → assign tables npc_id job m ≡ set_job npc_id (casefold tables job) entity m
unfolding assign
assign_known tables npc_id job entity m known =
    ap
      (λ (q : Option ManagedEntity). elim q [
        | none ↦ (err (value_error "unknown NPC id"), m)
        | some e ↦ set_job npc_id (casefold tables job) e m
      ])
      known

-- A job that JobManager.assign returns is the folded one and an allowed one, and the character is
-- alive and active. The job is the character's only one and its role in the registry; the jobs and
-- the entries of all others are what they were.
pub assign_effect :
    (tables : CharTables) (npc_id job j other : String) (entity : ManagedEntity) (m : JobManager)
    → lookup npc_id m.registry.npcs ≡ some entity
    → (assign tables npc_id job m).0 ≡ ok j
    → let after = (assign tables npc_id job m).1 in
      (j ≡ casefold tables job)
      × (allowed_job j ≡ true)
      × ((entity.alive ≡ true) × (entity.active ≡ true))
      × (lookup other after.assignments
          ≡ (if other == npc_id then some j else lookup other m.assignments))
      × (lookup other after.registry.npcs ≡ (
          if other == npc_id
          then some (record entity { role = j })
          else lookup other m.registry.npcs))
assign_effect tables npc_id job j other entity m known h =
    let h' : (set_job npc_id (casefold tables job) entity m).0 ≡ ok j =
      rw (assign_known tables npc_id job entity m known) at h in
    let (same, allowed, living, active, after) =
      set_job_effect npc_id (casefold tables job) j entity m h' in
    rw (assign_known tables npc_id job entity m known, after, same)
      (
        refl,
        allowed,
        (living, active),
        lookup-insert other npc_id (casefold tables job) m.assignments,
        lookup-insert other npc_id (record entity { role = casefold tables job }) m.registry.npcs,
      )
