-- ===== src/Sentience/Progress.antt =====
-- Plans do not hang: results of the current step's job lead to the end of the goal.
use zomboid_goblin.Sentience.{PlanStep, SelfState}
use zomboid_goblin.Sentience.Plans.{get_elem?, finish_goal, settled}
use zomboid_goblin.Sentience.Steps.{
  set_step, tried, is_left, noted, judged, next_step, step_on, leave, counted, after_result,
  current_step, has_ended,
}
use zomboid_goblin.Sentience.Validity.Plain.{judged_stays, mark_goal_kept, length-set_step}
use zomboid_goblin.Base.{
  ℕ, zero, suc, ◌+◌, ◌-◌, ◌*◌, ◌≤◌, ◌<◌, ◌≡◌, refl, sym, ap, ◌∙◌, ◌⊎◌, inl, inr, Bool, true, false,
  not, ◌&&◌, some, List, [], ◌∷◌, arith, ltb, if◌then◌else◌, Bool-cases, ℕ_eq, String_eq, Pair_eq,
  length,
}

get_elem?-lt :
    (plan : List PlanStep) (n : ℕ) (step : PlanStep)
    → get_elem? plan n ≡ some step
    → n < length plan
get_elem?-lt [] n step e = cc
get_elem?-lt (s ∷ plan) zero step e = omega arith
get_elem?-lt (s ∷ plan) (suc n) step e = omega (arith, get_elem?-lt plan n step e)

get_elem?_inside :
    (plan : List PlanStep) (n : ℕ)
    → n < length plan
    → (step : PlanStep) × (get_elem? plan n ≡ some step)
get_elem?_inside [] n h = absurd (omega arith)
get_elem?_inside (s ∷ plan) zero h = (s, refl)
get_elem?_inside (s ∷ plan) (suc n) h = get_elem?_inside plan n (omega arith)

get_elem?-set_step :
    (n : ℕ) (t step : PlanStep) (plan : List PlanStep)
    → get_elem? plan n ≡ some step
    → get_elem? (set_step n t plan) n ≡ some t
unfolding set_step
get_elem?-set_step n t step [] e = cc
get_elem?-set_step zero t step (s ∷ plan) e = refl
get_elem?-set_step (suc n) t step (s ∷ plan) e = get_elem?-set_step n t step plan e

-- A result leaves the length of the plan and, but for the step onwards, the place in it.
judged_place :
    (success : Bool) (step : PlanStep) (s : SelfState)
    → (length (judged success step s).plan ≡ length s.plan)
      × ((judged success step s).current_step ≡ s.current_step)
unfolding judged noted
judged_place success step s =
    let n = length-set_step s.current_step (tried success step) s.plan in
    elim (Bool-cases (not success && is_left success step)) [
      | inl up ↦
          let (_, p, c, _) = mark_goal_kept (noted success step s) in
          rw (judged, up) (ap length p ∙ n, c)
      | inr going ↦ rw (judged, going) (n, refl)
    ]

-- Results of the current step's job, one after the other, until one of them finishes the goal.
abbrev pub Finishes : List Bool → SelfState → Type 0
Finishes [] s = ⊥
Finishes (b ∷ bs) s =
    (step : PlanStep) × (current_step s ≡ some step)
    × ((after_result b step s ≡ finish_goal (counted b step s))
        ⊎ Finishes bs (after_result b step s))

abbrev allowance : PlanStep → ℕ
allowance step = if ltb 0 step.failures then 1 else 0

left_lem :
    (b : Bool) (step : PlanStep) (s : SelfState)
    → is_left b step ≡ true
    → (counted b step s ≡ next_step (judged b step s))
      × (after_result b step s ≡ settled (next_step (judged b step s)))
unfolding counted after_result step_on leave
left_lem b step s h =
    (ap (λ x. step_on x (judged b step s)) h, ap (λ x. leave x (judged b step s)) h)

stays_lem :
    (b : Bool) (step : PlanStep) (s : SelfState)
    → is_left b step ≡ false
    → after_result b step s ≡ noted b step s
unfolding after_result leave
stays_lem b step s h = ap (λ x. leave x (judged b step s)) h ∙ judged_stays b step s h

tried_fresh :
    (b : Bool) (step : PlanStep)
    → is_left b step ≡ false
    → (allowance step ≡ 0) × (allowance (tried b step) ≡ 1)
unfolding is_left tried
tried_fresh true step h = cc
tried_fresh false step h = (ground (arith, h), ground (arith, h))

-- A step on, at the last step or not.
on_lem :
    (b : Bool) (step : PlanStep) (s : SelfState)
    → (length (next_step (judged b step s)).plan ≡ length s.plan)
      × ((next_step (judged b step s)).current_step ≡ s.current_step + 1)
unfolding next_step
on_lem b step s = let (n, c) = judged_place b step s in (n, ap (λ k. k + 1) c)

settled_on : (s : SelfState) → has_ended s ≡ false → settled s ≡ s
unfolding settled
settled_on s h = rw h refl

settled_end : (s : SelfState) → has_ended s ≡ true → settled s ≡ finish_goal s
unfolding settled
settled_end s h = rw h refl

allowance-le : (step : PlanStep) → allowance step ≤ 1
allowance-le step = ground arith

less_left :
    (l l' k k' m f f' : ℕ)
    → l' ≡ l
    → k' ≡ k + 1
    → k < l
    → f ≤ 1
    → 2 * (l - k) ≤ suc m + f
    → 2 * (l' - k') ≤ m + f'
less_left l l' k k' m f f' n e h b p = omega arith

noted_step :
    (b : Bool) (step : PlanStep) (s : SelfState)
    → current_step s ≡ some step
    → (current_step (noted b step s) ≡ some (tried b step))
      × (length (noted b step s).plan ≡ length s.plan)
      × ((noted b step s).current_step ≡ s.current_step)
unfolding noted
noted_step b step s e = (
  get_elem?-set_step s.current_step (tried b step) step s.plan e,
  length-set_step s.current_step (tried b step) s.plan,
  refl,
)

will_finish :
    (bs : List Bool) (s : SelfState) (step : PlanStep)
    → current_step s ≡ some step
    → 2 * (length s.plan - s.current_step) ≤ length bs + allowance step
    → Finishes bs s
will_finish [] s step e h = ground (arith, get_elem?-lt s.plan s.current_step step e, h)
will_finish (b ∷ bs) s step e h = (
  step,
  e,
  elim (Bool-cases (is_left b step)) [
    | inl left ↦
        let next = next_step (judged b step s) in
        let (c, a) = left_lem b step s left in
        let (n, k) = on_lem b step s in
        elim (Bool-cases (has_ended next)) [
          | inl through ↦ inl (a ∙ settled_end next through ∙ ap finish_goal (sym c))
          | inr going ↦
              let (step', e') =
                get_elem?_inside next.plan next.current_step (ground (arith, going)) in
              inr (
                rw (a, settled_on next going)
                  (will_finish bs next step' e' (
                    less_left (length s.plan) (length next.plan) s.current_step next.current_step
                      (length bs) (allowance step) (allowance step') n k
                      (get_elem?-lt s.plan s.current_step step e) (allowance-le step) h)))
        ]
    | inr stays ↦
        let a = stays_lem b step s stays in
        let (fresh, more) = tried_fresh b step stays in
        let (found, n, k) = noted_step b step s e in
        inr (
          rw a (
            will_finish bs (noted b step s) (tried b step) found
              (rw (n, k) (omega (arith, h, fresh, more)))))
  ],
)

-- Whatever the results of a goal's own steps are, success or failure, at most two for each step that is
-- left bring the goal to its end.
pub plan-Finishes :
    (bs : List Bool) (s : SelfState)
    → s.current_step < length s.plan
    → 2 * (length s.plan - s.current_step) ≤ length bs
    → Finishes bs s
plan-Finishes bs s inside h =
    let (step, e) = get_elem?_inside s.plan s.current_step inside in
    will_finish bs s step e (ground (arith, h))
