-- ===== src/Sentience/Plans.antt =====
-- Plans in goblin_zomboid/sentience.py: how they are read, begun, suspended and finished.
use zomboid_goblin.Json.{Value, str_value, list_value, dict_value, Items, nil, cons, get, Fields}
use zomboid_goblin.Text.Tables.{CharTables}
use zomboid_goblin.Text.Trim.{take_chars}
use zomboid_goblin.Sentience.{
  is_plan_intent, PlanStep, Goal, SelfState, Decision, continue_plan, new_plan, interrupt, abandon,
}
use zomboid_goblin.Sentience.Squash.{clean_text}
use zomboid_goblin.Base.{
  ℕ, zero, suc, ◌+◌, String, true, not, Option, none, some, List, [], ◌∷◌, leb, if◌then◌else◌,
  is_some, some_or, ℕ_eq, String_eq, Pair_eq, elem, length, keep_if,
}

-- `plan[n]` inside of the plan
abbrev pub get_elem? {ℓ} : {A : Type ℓ} → List A → ℕ → Option A
get_elem? [] n = none
get_elem? (x ∷ xs) zero = some x
get_elem? (x ∷ xs) (suc n) = get_elem? xs n

-- `plan[n:]`
abbrev pub drop {ℓ} : {A : Type ℓ} → ℕ → List A → List A
drop zero xs = xs
drop (suc n) [] = []
drop (suc n) (x ∷ xs) = drop n xs

module _ (tables : CharTables) where
  unfoldable pub step_job : Option Value → Option String
  step_job (some (str_value job)) = some (take_chars 24 job)
  step_job _ = none

  unfoldable pub named_step : Fields → Option Value → Option PlanStep
  unfolding step_job clean_text
  named_step step (some (str_value intent)) =
      if is_plan_intent intent
      then some (record {
        intent = intent;
        note = some_or (clean_text tables 80 (get "note" step)) "";
        job = step_job (get "job" step);
        failures = 0;
      })
      else none
  named_step step _ = none

  -- One step of the loop of `_clean_plan`
  unfoldable pub clean_step : Value → Option PlanStep
  unfolding named_step
  clean_step (dict_value step) = named_step step (get "intent" step)
  clean_step _ = none

  -- The loop, with room for so many steps more
  unfoldable pub clean_steps : ℕ → Items → List PlanStep
  clean_steps zero steps = []
  clean_steps (suc room) nil = []
  clean_steps (suc room) (cons v vs) = elim (clean_step v) [
    | none ↦ clean_steps (suc room) vs
    | some step ↦ step ∷ clean_steps room vs
  ]

  -- `_clean_plan`
  unfoldable pub clean_plan : Option Value → List PlanStep
  unfolding clean_steps
  clean_plan (some (list_value steps)) = clean_steps 6 steps
  clean_plan _ = []

-- The plan without the intents of `cooling`
abbrev pub rested : List String → List PlanStep → List PlanStep
rested cooling plan = keep_if (λ s. not (elem s.intent cooling)) plan

-- `_finish_goal`, on the self
unfoldable pub finish_goal : SelfState → SelfState
finish_goal s = elim s.suspended_goal [
  | some was ↦ record s {
    current_goal = some was.goal;
    plan = was.plan;
    current_step = was.current_step;
    suspended_goal = none;
  }
  | none ↦ record s { current_goal = none; plan = []; current_step = 0 }
]

abbrev pub marked : Goal → Goal
marked g = record g { unverified_steps = true }

-- `state["current_goal"]["unverified_steps"] = True`, where there is a goal
unfoldable pub mark_goal : SelfState → SelfState
mark_goal s = elim s.current_goal [
  | none ↦ s
  | some g ↦ record s { current_goal = some (marked g) }
]

-- The end of a plan that is through
unfoldable pub settled : SelfState → SelfState
unfolding finish_goal
settled s = if leb (length s.plan) s.current_step then finish_goal s else s

-- How many steps are cooling down
unfoldable pub cooling_steps : List String → List PlanStep → ℕ
cooling_steps cooling [] = 0
cooling_steps cooling (s ∷ plan) =
    let more = cooling_steps cooling plan in if elem s.intent cooling then suc more else 0

-- `skip_cooling_steps`, behind its loop, on the self: the steps that are left out
unfoldable pub skipped : ℕ → SelfState → SelfState
unfolding mark_goal
skipped n s = mark_goal (record s { current_step = s.current_step + n })

unfoldable pub begin : Goal → List PlanStep → SelfState → SelfState
begin g plan s = record s { current_goal = some g; plan = plan; current_step = 0 }

-- The goal set aside by an interruption, unless there is one already
unfoldable pub set_aside : SelfState → SelfState
set_aside s = elim s.current_goal [
  | none ↦ s
  | some g ↦ elim s.suspended_goal [
    | some _ ↦ s
    | none ↦ record s {
      suspended_goal = some (record { goal = g; plan = s.plan; current_step = s.current_step });
    }
  ]
]

-- The branches on the decision in `apply_reflection`: a goal, with the steps of its plan
unfoldable pub decide : Decision → Option Goal → List PlanStep → SelfState → SelfState
unfolding finish_goal begin set_aside
decide abandon goal plan s = finish_goal s
decide new_plan (some g) (step ∷ plan) s = begin g (step ∷ plan) s
decide interrupt (some g) (step ∷ plan) s = begin g (step ∷ plan) (set_aside s)
decide continue_plan (some g) (step ∷ plan) s =
    if is_some s.current_goal then s else begin g (step ∷ plan) s
decide _ goal plan s = s
