-- ===== src/Sentience/Validity/Plain.antt =====
-- The changes of a self keep it valid.
use zomboid_goblin.Sentience.{
  is_plan_intent, PlanStep, Goal, SelfState, Decision, continue_plan, new_plan, interrupt, complete,
  abandon,
}
use zomboid_goblin.Sentience.Plans.{
  get_elem?, finish_goal, mark_goal, settled, skipped, begin, set_aside, decide,
}
use zomboid_goblin.Sentience.Steps.{
  noted, judged, next_step, leave, set_step, tried, is_left, after_result, current_step,
}
use zomboid_goblin.Sentience.Validity.{IsHeld, IsValid}
use mathlib.Core.Option.{some-injective}
use mathlib.Core.Path.{subst}
use zomboid_goblin.Base.{
  ℕ, zero, suc, ◌+◌, ◌≤◌, ◌≡◌, refl, ap, ◌∙◌, ◌≢◌, inl, inr, Bool, true, false, not, ◌&&◌, Option,
  none, some, List, [], ◌∷◌, arith, leb, Bool-cases, Option-cases, is_some, ℕ_eq, String_eq,
  Pair_eq, length, All,
}

abbrev pub IsKnown : List PlanStep → Type 0
IsKnown plan = All (λ s. is_plan_intent s.intent ≡ true) plan

pub finish_goal-IsValid : (s : SelfState) → IsHeld s.suspended_goal → IsValid (finish_goal s)
unfolding finish_goal
finish_goal-IsValid s h = elim (Option-cases s.suspended_goal) [
  | inl e ↦ rw e (record { state = inl (refl, refl, refl); held = tt })
  | inr (was, e) ↦ rw e (record { state = inr (rw e at h); held = tt })
]

-- A goal whose plan may be through.
settled-IsValid :
    (s : SelfState)
    → is_some s.current_goal ≡ true
    → length s.plan ≤ 6
    → IsKnown s.plan
    → IsHeld s.suspended_goal
    → IsValid (settled s)
unfolding settled
settled-IsValid s g n k h = elim (Bool-cases (leb (length s.plan) s.current_step)) [
  | inl through ↦ rw through (finish_goal-IsValid s h)
  | inr going ↦ rw going (record { state = inr (g, ground (arith, going), n, k); held = h })
]

pub length-set_step :
    (n : ℕ) (step : PlanStep) (plan : List PlanStep) → length (set_step n step plan) ≡ length plan
unfolding set_step
length-set_step n step [] = refl
length-set_step zero step (s ∷ plan) = refl
length-set_step (suc n) step (s ∷ plan) = ap suc (length-set_step n step plan)

IsKnown-set_step :
    (n : ℕ) (step : PlanStep) (plan : List PlanStep)
    → is_plan_intent step.intent ≡ true
    → IsKnown plan
    → IsKnown (set_step n step plan)
unfolding set_step
IsKnown-set_step n step [] h k = tt
IsKnown-set_step zero step (s ∷ plan) h k = (h, k.1)
IsKnown-set_step (suc n) step (s ∷ plan) h k = (k.0, IsKnown-set_step n step plan h k.1)

known_elem :
    (plan : List PlanStep) (n : ℕ) (step : PlanStep)
    → get_elem? plan n ≡ some step
    → IsKnown plan
    → is_plan_intent step.intent ≡ true
known_elem [] n step e k = cc
known_elem (s ∷ plan) zero step e k =
    subst (λ x. is_plan_intent x.intent ≡ true) (some-injective s step e) k.0
known_elem (s ∷ plan) (suc n) step e k = known_elem plan n step e k.1

-- What a mark on the goal leaves alone.
pub mark_goal_kept :
    (s : SelfState)
    → (is_some (mark_goal s).current_goal ≡ is_some s.current_goal)
      × ((mark_goal s).plan ≡ s.plan)
      × ((mark_goal s).current_step ≡ s.current_step)
      × ((mark_goal s).suspended_goal ≡ s.suspended_goal)
unfolding mark_goal
mark_goal_kept s = elim (Option-cases s.current_goal) [
  | inl e ↦ rw e (refl, refl, refl, refl)
  | inr (g, e) ↦ rw e (refl, refl, refl, refl)
]

-- A goal, with a plan that is short enough and of known steps, wherever it stands.
record IsReady (s : SelfState) : Type 0 where
  goal : is_some s.current_goal ≡ true
  short : length s.plan ≤ 6
  known : IsKnown s.plan
  held : IsHeld s.suspended_goal

IsReady-settled : (s : SelfState) → IsReady s → IsValid (settled s)
IsReady-settled s r = settled-IsValid s r.goal r.short r.known r.held

mark_goal-IsReady : (s : SelfState) → IsReady s → IsReady (mark_goal s)
mark_goal-IsReady s r =
    let (g, p, _, h) = mark_goal_kept s in
    record { goal = g ∙ r.goal; short = rw p r.short; known = rw p r.known; held = rw h r.held }

-- A self at a step has a goal.
current-IsReady :
    (s : SelfState) (step : PlanStep) → IsValid s → current_step s ≡ some step → IsReady s
current-IsReady s step v e = elim v.state [
  | inl idle ↦ cc (rw idle.1 at e)
  | inr r ↦ record { goal = r.0; short = r.2; known = r.3; held = v.held }
]

tried_intent : (success : Bool) (step : PlanStep) → (tried success step).intent ≡ step.intent
unfolding tried
tried_intent true step = refl
tried_intent false step = refl

noted-IsReady :
    (success : Bool) (step : PlanStep) (s : SelfState)
    → IsReady s
    → current_step s ≡ some step
    → IsReady (noted success step s)
unfolding noted tried
noted-IsReady success step s r e = record {
  goal = r.goal;
  short = rw (length-set_step s.current_step (tried success step) s.plan) r.short;
  known =
      IsKnown-set_step s.current_step (tried success step) s.plan
        (rw (tried_intent success step) (known_elem s.plan s.current_step step e r.known)) r.known;
  held = r.held;
}

judged-IsReady :
    (success : Bool) (step : PlanStep) (s : SelfState)
    → IsReady s
    → current_step s ≡ some step
    → IsReady (judged success step s)
unfolding judged
judged-IsReady success step s r e = elim (Bool-cases (not success && is_left success step)) [
  | inl up ↦ rw up (mark_goal-IsReady (noted success step s) (noted-IsReady success step s r e))
  | inr going ↦ rw going (noted-IsReady success step s r e)
]

noted-IsValid :
    (success : Bool) (step : PlanStep) (s : SelfState)
    → IsValid s
    → current_step s ≡ some step
    → IsValid (noted success step s)
unfolding noted
noted-IsValid success step s v e = elim v.state [
  | inl idle ↦ cc (rw idle.1 at e)
  | inr r ↦
      let q = noted-IsReady success step s (current-IsReady s step v e) e in
      record {
        state = inr (
          q.goal,
          rw (length-set_step s.current_step (tried success step) s.plan) r.1,
          q.short,
          q.known,
        );
        held = q.held;
      }
]

pub judged_stays :
    (success : Bool) (step : PlanStep) (s : SelfState)
    → is_left success step ≡ false
    → judged success step s ≡ noted success step s
unfolding judged
judged_stays success step s h = elim (Bool-cases (not success && is_left success step)) [
  | inl up ↦ ground (arith, h, up)
  | inr going ↦ rw going refl
]

leave-IsValid :
    (b : Bool) (s : SelfState) → IsReady s → (b ≡ false → IsValid s) → IsValid (leave b s)
unfolding leave next_step
leave-IsValid true s r h =
    IsReady-settled (next_step s)
      (record { goal = r.goal; short = r.short; known = r.known; held = r.held })
leave-IsValid false s r h = h refl

-- The step after a result is again inside of the plan, or the goal is finished.
pub after_result-IsValid :
    (success : Bool) (step : PlanStep) (s : SelfState)
    → IsValid s
    → current_step s ≡ some step
    → IsValid (after_result success step s)
unfolding after_result
after_result-IsValid success step s v e =
    leave-IsValid (is_left success step) (judged success step s)
      (judged-IsReady success step s (current-IsReady s step v e) e)
      (λ stays. rw (judged_stays success step s stays) (noted-IsValid success step s v e))

-- Steps that are skipped, of a plan.
pub skipped-IsValid :
    (n : ℕ) (s : SelfState) → IsValid s → s.plan ≢ [] → IsValid (settled (skipped n s))
unfolding skipped
skipped-IsValid n s v h = elim v.state [
  | inl idle ↦ absurd (h idle.1)
  | inr r ↦ IsReady-settled (mark_goal (record s { current_step = s.current_step + n })) (
      mark_goal-IsReady (record s { current_step = s.current_step + n })
        (record { goal = r.0; short = r.2; known = r.3; held = v.held }))
]

begin-IsValid :
    (g : Goal) (step : PlanStep) (plan : List PlanStep) (s : SelfState)
    → length (step ∷ plan) ≤ 6
    → IsKnown (step ∷ plan)
    → IsHeld s.suspended_goal
    → IsValid (begin g (step ∷ plan) s)
unfolding begin
begin-IsValid g step plan s n k h = record { state = inr (refl, omega arith, n, k); held = h }

set_aside-IsHeld : (s : SelfState) → IsValid s → IsHeld (set_aside s).suspended_goal
unfolding set_aside
set_aside-IsHeld s v = elim (Option-cases s.current_goal) [
  | inl e ↦ rw e (v.held)
  | inr (g, e) ↦ elim (Option-cases s.suspended_goal) [
    | inl none_held ↦ elim v.state [
      | inl idle ↦ cc (rw idle.0 at e)
      | inr r ↦ rw (e, none_held) (refl, r.1, r.2, r.3)
    ]
    | inr (was, held) ↦ rw (e, held) (rw held at v.held)
  ]
]

pub decide-IsValid :
    (d : Decision) (goal : Option Goal) (plan : List PlanStep) (s : SelfState)
    → IsValid s
    → length plan ≤ 6
    → IsKnown plan
    → IsValid (decide d goal plan s)
unfolding decide
decide-IsValid abandon goal plan s v n k = finish_goal-IsValid s v.held
decide-IsValid new_plan (some g) (step ∷ plan) s v n k = begin-IsValid g step plan s n k v.held
decide-IsValid interrupt (some g) (step ∷ plan) s v n k =
    begin-IsValid g step plan (set_aside s) n k (set_aside-IsHeld s v)
decide-IsValid continue_plan (some g) (step ∷ plan) s v n k =
    elim (Bool-cases (is_some s.current_goal)) [
      | inl has ↦ rw has v
      | inr bare ↦ rw bare (begin-IsValid g step plan s n k v.held)
    ]
decide-IsValid complete goal plan s v n k = v
decide-IsValid new_plan none plan s v n k = v
decide-IsValid new_plan (some g) [] s v n k = v
decide-IsValid interrupt none plan s v n k = v
decide-IsValid interrupt (some g) [] s v n k = v
decide-IsValid continue_plan none plan s v n k = v
decide-IsValid continue_plan (some g) [] s v n k = v
