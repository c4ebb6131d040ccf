-- ===== src/Sentience/Validity/Results.antt =====
-- The results of jobs keep every self valid.
use zomboid_goblin.Sentience.Validity.Stored.{
  IsSound, IsSound-saved, IsSound-remember, self_of-IsValid, get_self-IsSound, IsSound-if,
  record_goal-IsSound,
}
use zomboid_goblin.Sentience.{
  PlanStep, SelfState, Mind, Sentience, get_self, self_of, cooling, own_name,
}
use zomboid_goblin.Sentience.Plans.{settled, skipped, cooling_steps, drop}
use zomboid_goblin.Sentience.Steps.{
  current_step, counted, after_result, record_goal, judge_step, judge_current, skip_steps, tell,
  end_goal, report, has_ended, give_up, add_event, job_failure, step_result, skip_cooling_steps,
  is_left, tried,
}
use zomboid_goblin.Sentience.Validity.{IsValid}
use zomboid_goblin.Sentience.Validity.Plain.{after_result-IsValid, skipped-IsValid}
use zomboid_goblin.Base.{
  ℕ, zero, suc, String, ◌≡◌, refl, ◌≢◌, inl, inr, Bool, true, false, not, ◌&&◌, ◌||◌, Option, none,
  some, List, [], ◌∷◌, arith, ltb, Bool-cases, ◌==◌, ℕ_eq, String_eq, Pair_eq,
}

module _ {M : Type 0} (mind : Mind M) where
  tell-IsSound :
      (npc_id : String) (success : Bool) (step : PlanStep) (st : Sentience M)
      → IsSound mind st
      → IsSound mind (tell mind npc_id success step st)
  unfolding tell
  tell-IsSound npc_id success step st sound =
      IsSound-if mind (not success && is_left success step) (give_up mind npc_id step.intent st) st
        (IsSound-remember mind npc_id _ st sound) sound

  end_goal-IsSound :
      (npc_id : String) (success : Bool) (step : PlanStep) (next : SelfState) (st : Sentience M)
      → IsSound mind st
      → IsSound mind (end_goal mind npc_id success step next st)
  unfolding end_goal
  end_goal-IsSound npc_id success step next st sound =
      IsSound-if mind (is_left success step && has_ended next)
        (record_goal mind npc_id true next st) st
        (record_goal-IsSound mind npc_id true next st sound) sound

  report-IsSound :
      (npc_id : String) (success : Bool) (step : PlanStep) (st : Sentience M)
      → IsSound mind st
      → IsSound mind (report mind npc_id success step st)
  unfolding report
  report-IsSound npc_id success step st sound =
      IsSound-if mind (not (is_left success step) || ltb 0 (tried success step).failures)
        (add_event mind npc_id (job_failure mind step.intent) st) st
        (record { used = sound.used; stored = sound.stored }) sound

  judge_step-IsSound :
      (npc_id : String) (success : Bool) (step : PlanStep) (s : SelfState) (st : Sentience M)
      → IsValid s
      → current_step s ≡ some step
      → IsSound mind st
      → IsSound mind (judge_step mind npc_id success step s st)
  unfolding judge_step
  judge_step-IsSound npc_id success step s st v e sound =
      IsSound-saved mind npc_id (after_result success step s) _
        (after_result-IsValid success step s v e)
        (report-IsSound npc_id success step _ (
          end_goal-IsSound npc_id success step (counted success step s) _
            (tell-IsSound npc_id success step st sound)))

  judge_current-IsSound :
      (npc_id intent : String) (success : Bool) (s : SelfState) (o : Option PlanStep)
      (st : Sentience M)
      → IsValid s
      → current_step s ≡ o
      → IsSound mind st
      → IsSound mind (judge_current mind npc_id intent success s o st)
  unfolding judge_current
  judge_current-IsSound npc_id intent success s none st v e sound = sound
  judge_current-IsSound npc_id intent success s (some step) st v e sound =
      IsSound-if mind (step.intent == own_name intent) (judge_step mind npc_id success step s st) st
        (judge_step-IsSound npc_id success step s st v e sound) sound

  pub step_result-IsSound :
      (npc_id intent : String) (success : Bool) (st : Sentience M)
      → IsSound mind st
      → IsSound mind (step_result mind npc_id intent success st)
  unfolding step_result get_self
  step_result-IsSound npc_id intent success st sound =
      let s = self_of mind npc_id none none st in
      judge_current-IsSound npc_id intent success s (current_step s)
        (get_self mind npc_id none none st).1 (self_of-IsValid mind npc_id none none st sound) refl
        (get_self-IsSound mind npc_id none none st sound)

  skip_steps-IsSound :
      (npc_id : String) (n : ℕ) (s : SelfState) (st : Sentience M)
      → IsValid s
      → (n ≢ 0 → s.plan ≢ [])
      → IsSound mind st
      → IsSound mind (skip_steps mind npc_id n s st)
  unfolding skip_steps
  skip_steps-IsSound npc_id n s st v h sound = elim (Bool-cases (n == 0)) [
    | inl stays ↦ rw (skip_steps, stays) sound
    | inr moves ↦
        rw (skip_steps, moves)
          (IsSound-saved mind npc_id (settled (skipped n s)) _
            (skipped-IsValid n s v (h (ground (arith, moves))))
            (IsSound-if mind (has_ended (skipped n s))
              (record_goal mind npc_id false (skipped n s) st) st
              (record_goal-IsSound mind npc_id false (skipped n s) st sound) sound))
  ]

  cooling_steps_plan :
      (cool : List String) (n : ℕ) (plan : List PlanStep)
      → cooling_steps cool (drop n plan) ≢ 0
      → plan ≢ []
  unfolding cooling_steps
  cooling_steps_plan cool n [] h e = h (none_cooling n)
    where
      none_cooling : (k : ℕ) → cooling_steps cool (drop k []) ≡ 0
      none_cooling zero = refl
      none_cooling (suc k) = refl
  cooling_steps_plan cool n (s ∷ plan) h e = cc

  pub skip_cooling_steps-IsSound :
      (npc_id : String) (now : ℕ) (st : Sentience M)
      → IsSound mind st
      → IsSound mind (skip_cooling_steps mind npc_id now st)
  unfolding skip_cooling_steps get_self
  skip_cooling_steps-IsSound npc_id now st sound =
      let s = self_of mind npc_id none none st in
      let st' = (get_self mind npc_id none none st).1 in
      skip_steps-IsSound npc_id
        (cooling_steps (cooling mind npc_id now st') (drop s.current_step s.plan)) s st'
        (self_of-IsValid mind npc_id none none st sound)
        (cooling_steps_plan (cooling mind npc_id now st') s.current_step s.plan)
        (get_self-IsSound mind npc_id none none st sound)
