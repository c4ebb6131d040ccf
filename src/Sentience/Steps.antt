-- ===== src/Sentience/Steps.antt =====
-- The results of jobs: `step_result` and `skip_cooling_steps`.
use zomboid_goblin.Json.{pos, negsuc}
use Prim.Native.String.{◌++◌ as str_append}
use zomboid_goblin.Sentience.{
  own_name, weight_of, Event, PlanStep, SelfState, Mind, Sentience, get_self, saved, remember,
  day_of, inbox_of, cooling,
}
use zomboid_goblin.Sentience.Plans.{get_elem?, drop, mark_goal, settled, cooling_steps, skipped}
use zomboid_goblin.Base.{
  ℕ, zero, suc, ◌+◌, String, Bool, true, false, not, ◌&&◌, ◌||◌, Option, none, some, List, [], ◌∷◌,
  ◌++◌, ltb, leb, if◌then◌else◌, ◌==◌, ℕ_eq, String_eq, Pair_eq, length,
}
use zomboid_goblin.Dict.{insert}

-- `plan[n]` replaced
unfoldable pub set_step : ℕ → PlanStep → List PlanStep → List PlanStep
set_step n step [] = []
set_step zero step (s ∷ plan) = step ∷ plan
set_step (suc n) step (s ∷ plan) = s ∷ set_step n step plan

-- `current_step`
abbrev pub current_step : SelfState → Option PlanStep
current_step s = get_elem? s.plan s.current_step

-- The step behind a result of its job
unfoldable pub tried : Bool → PlanStep → PlanStep
tried success step = if success then step else record step { failures = step.failures + 1 }

-- A step is left behind a success or the second failure
unfoldable pub is_left : Bool → PlanStep → Bool
unfolding tried
is_left success step = success || leb 2 (tried success step).failures

-- `step["failures"]` counted
unfoldable pub noted : Bool → PlanStep → SelfState → SelfState
unfolding set_step
noted success step s = record s { plan = set_step s.current_step (tried success step) s.plan }

-- The goal marked, if the step is given up
unfoldable pub judged : Bool → PlanStep → SelfState → SelfState
unfolding noted
judged success step s =
    if not success && is_left success step
    then mark_goal (noted success step s)
    else noted success step s

unfoldable pub next_step : SelfState → SelfState
next_step s = record s { current_step = s.current_step + 1 }

-- The step counted, where it is left
unfoldable pub step_on : Bool → SelfState → SelfState
unfolding next_step
step_on true s = next_step s
step_on false s = s

-- ... and the goal finished behind the last one
unfoldable pub leave : Bool → SelfState → SelfState
unfolding next_step settled
leave true s = settled (next_step s)
leave false s = s

unfoldable pub counted : Bool → PlanStep → SelfState → SelfState
unfolding step_on judged
counted success step s = step_on (is_left success step) (judged success step s)

-- The self behind a result of the current step
unfoldable pub after_result : Bool → PlanStep → SelfState → SelfState
unfolding leave judged
after_result success step s = leave (is_left success step) (judged success step s)

abbrev pub has_ended : SelfState → Bool
has_ended s = leb (length s.plan) s.current_step

module _ {M : Type 0} (mind : Mind M) where
  -- `_finish_goal`, on the memory
  unfoldable pub record_goal : String → Bool → SelfState → Sentience M → Sentience M
  record_goal npc_id completed s st = elim s.current_goal [
    | none ↦ st
    | some g ↦
        let verified = completed && not g.unverified_steps in
        remember mind npc_id
          (record {
            kind = "goal";
            text = str_append (if verified then "finished: " else "gave up on: ") g.goal;
            day = day_of mind npc_id st;
            importance = 450;
            valence = if verified then pos 400 else negsuc 199;
            place = none;
          })
          st
  ]

  abbrev pub give_up : String → String → Sentience M → Sentience M
  give_up npc_id intent st =
      remember mind npc_id
        (record {
          kind = "gave_up";
          text = str_append "gave up on " (str_append intent " for now");
          day = day_of mind npc_id st;
          importance = 350;
          valence = negsuc 299;
          place = none;
        })
        st

  abbrev pub add_event : String → Event → Sentience M → Sentience M
  add_event npc_id e st = record st {
    inbox = insert npc_id (inbox_of mind npc_id st ++ (e ∷ [])) st.inbox;
  }

  abbrev pub job_failure : String → Event
  job_failure intent = record {
    kind = "job_failed";
    text = str_append intent " did not work out";
    importance = (weight_of "job_failed").0;
    valence = (weight_of "job_failed").1;
  }

  -- The memory of a step that is given up
  unfoldable pub tell : String → Bool → PlanStep → Sentience M → Sentience M
  tell npc_id success step st =
      if not success && is_left success step then give_up npc_id step.intent st else st

  -- `_finish_goal`, on the memory, behind the last step
  unfoldable pub end_goal : String → Bool → PlanStep → SelfState → Sentience M → Sentience M
  end_goal npc_id success step next st =
      if is_left success step && has_ended next then record_goal npc_id true next st else st

  -- The event of a step that failed now or before
  unfoldable pub report : String → Bool → PlanStep → Sentience M → Sentience M
  report npc_id success step st =
      if not (is_left success step) || ltb 0 (tried success step).failures
      then add_event npc_id (job_failure step.intent) st
      else st

  -- `step_result`, for the job of the current step
  unfoldable pub judge_step : String → Bool → PlanStep → SelfState → Sentience M → Sentience M
  unfolding tell end_goal report saved
  judge_step npc_id success step s st = saved mind npc_id (after_result success step s) (
      report npc_id success step
        (end_goal npc_id success step (counted success step s) (tell npc_id success step st)))

  unfoldable pub judge_current :
      String → String → Bool → SelfState → Option PlanStep → Sentience M → Sentience M
  judge_current npc_id intent success s none st = st
  judge_current npc_id intent success s (some step) st =
      if step.intent == own_name intent then judge_step npc_id success step s st else st

  -- `step_result`
  unfoldable pub step_result : String → String → Bool → Sentience M → Sentience M
  unfolding judge_current get_self
  step_result npc_id intent success st =
      let (s, st') = get_self mind npc_id none none st in
      judge_current npc_id intent success s (current_step s) st'

  -- `skip_cooling_steps`, behind its loop
  unfoldable pub skip_steps : String → ℕ → SelfState → Sentience M → Sentience M
  unfolding skipped settled saved record_goal
  skip_steps npc_id n s st =
      if n == 0
      then st
      else saved mind npc_id (settled (skipped n s))
          (if has_ended (skipped n s) then record_goal npc_id false (skipped n s) st else st)

  -- `skip_cooling_steps`
  unfoldable pub skip_cooling_steps : String → ℕ → Sentience M → Sentience M
  unfolding skip_steps cooling_steps get_self cooling
  skip_cooling_steps npc_id now st =
      let (s, st') = get_self mind npc_id none none st in
      skip_steps npc_id (cooling_steps (cooling mind npc_id now st') (drop s.current_step s.plan)) s
        st'
