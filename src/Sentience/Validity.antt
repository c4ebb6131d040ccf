-- ===== src/Sentience/Validity.antt =====
-- When goal, plan and step of a self fit together.
pub mod Plain
pub mod Reading
pub mod Stored
pub mod Results
pub mod Reflections
pub mod Calls
pub mod Chats
use zomboid_goblin.Sentience.{is_plan_intent, PlanStep, Goal, Suspended, SelfState}
use zomboid_goblin.Base.{
  ℕ, zero, suc, ◌+◌, ◌-◌, ◌*◌, ◌/◌, ◌%◌, ◌≤◌, ◌<◌, min, String, count, ◌≡◌, refl, sym, ap, ◌∙◌, ◌≢◌,
  ◌↔◌, ◌⊎◌, inl, inr, Bool, true, false, not, ◌&&◌, ◌||◌, false≢true, Option, none, some, List, [],
  ◌∷◌, ◌++◌, map, arith, ltb, leb, eqb, if◌then◌else◌, ltb→lt, lt→ltb, leb→le, le→leb, eqb_iff,
  Bool-cases, Option-cases, is_some, some_or, Eq, ◌==◌, ℕ_eq, String_eq, Pair_eq, ==_refl, elem,
  length, take, keep_if, length-append, length-take-le, length-keep_if-le, All, Distinct,
}
use zomboid_goblin.Exec.{
  Error, value_error, protocol_error, intent_error, file_exists, file_not_found, os_error, Result,
  ok, err, Exec, pure, raise, lift, gets, ◌>>=◌, ◌>>◌, modify, raise_if, and_then,
}
use zomboid_goblin.Dict.{
  Dict, lookup, contains, insert, remove, lookup-insert, lookup-remove, lookup-insert_self,
  lookup-insert_absent, length-insert, length-remove-le,
}

-- A goal with a plan of one to six known steps, at one of them.
abbrev pub IsRunning : Option Goal → List PlanStep → ℕ → Type 0
IsRunning goal plan step =
    (is_some goal ≡ true)
    × (step < length plan)
    × (length plan ≤ 6)
    × All (λ s. is_plan_intent s.intent ≡ true) plan

abbrev pub IsIdle : Option Goal → List PlanStep → ℕ → Type 0
IsIdle goal plan step = (goal ≡ none) × (plan ≡ []) × (step ≡ 0)

abbrev pub IsHeld : Option Suspended → Type 0
IsHeld none = Unit
IsHeld (some was) = IsRunning (some was.goal) was.plan was.current_step

pub record IsValid (s : SelfState) : Type 0 where
  pub state :
      IsIdle s.current_goal s.plan s.current_step ⊎ IsRunning s.current_goal s.plan s.current_step
  pub held : IsHeld s.suspended_goal
