-- ===== src/Sentience/Validity/Reading.antt =====
-- The plans that are read have at most six steps, with known intents.
use zomboid_goblin.Json.{
  Value, null, bool_value, int_value, float_value, str_value, list_value, dict_value, Items, nil,
  cons, Fields, get,
}
use zomboid_goblin.Text.Tables.{CharTables}
use zomboid_goblin.Sentience.{is_plan_intent, PlanStep}
use zomboid_goblin.Sentience.Plans.{named_step, clean_step, clean_steps, clean_plan, rested}
use zomboid_goblin.Sentience.Validity.Plain.{IsKnown}
use mathlib.Core.Option.{some-injective, none-ne-some}
use mathlib.Core.Path.{subst}
use zomboid_goblin.Base.{
  ℕ, zero, suc, ◌≤◌, String, ◌≡◌, inl, inr, Bool, true, not, Option, none, some, List, [], ◌∷◌,
  arith, Bool-cases, Option-cases, ℕ_eq, String_eq, Pair_eq, elem, length, keep_if,
  length-keep_if-le,
}

module _ (tables : CharTables) where
  named_step_known :
      (fs : Fields) (o : Option Value) (s : PlanStep)
      → named_step tables fs o ≡ some s
      → is_plan_intent s.intent ≡ true
  unfolding named_step
  named_step_known fs (some (str_value intent)) s e = elim (Bool-cases (is_plan_intent intent)) [
    | inl known ↦
        subst (λ x. is_plan_intent x.intent ≡ true) (some-injective _ s (rw known at e)) known
    | inr other ↦ absurd (none-ne-some s (rw other at e))
  ]
  named_step_known fs none s e = cc
  named_step_known fs (some null) s e = cc
  named_step_known fs (some (bool_value b)) s e = cc
  named_step_known fs (some (int_value n)) s e = cc
  named_step_known fs (some (float_value x)) s e = cc
  named_step_known fs (some (list_value vs)) s e = cc
  named_step_known fs (some (dict_value gs)) s e = cc

  clean_step_known :
      (v : Value) (s : PlanStep) → clean_step tables v ≡ some s → is_plan_intent s.intent ≡ true
  unfolding clean_step
  clean_step_known (dict_value fs) s e = named_step_known fs (get "intent" fs) s e
  clean_step_known null s e = cc
  clean_step_known (bool_value b) s e = cc
  clean_step_known (int_value n) s e = cc
  clean_step_known (float_value x) s e = cc
  clean_step_known (str_value x) s e = cc
  clean_step_known (list_value vs) s e = cc

  clean_steps_bound :
      (room : ℕ) (vs : Items)
      → (length (clean_steps tables room vs) ≤ room) × IsKnown (clean_steps tables room vs)
  unfolding clean_steps
  clean_steps_bound zero vs = (omega arith, tt)
  clean_steps_bound (suc room) nil = (omega arith, tt)
  clean_steps_bound (suc room) (cons v vs) = elim (Option-cases (clean_step tables v)) [
    | inl e ↦ rw (clean_steps, e) (clean_steps_bound (suc room) vs)
    | inr (s, e) ↦
        rw (clean_steps, e)
          (
            omega (arith, (clean_steps_bound room vs).0),
            (clean_step_known v s e, (clean_steps_bound room vs).1),
          )
  ]

  clean_plan_bound :
      (o : Option Value) → (length (clean_plan tables o) ≤ 6) × IsKnown (clean_plan tables o)
  unfolding clean_plan
  clean_plan_bound (some (list_value vs)) = clean_steps_bound 6 vs
  clean_plan_bound none = (omega arith, tt)
  clean_plan_bound (some null) = (omega arith, tt)
  clean_plan_bound (some (bool_value b)) = (omega arith, tt)
  clean_plan_bound (some (int_value n)) = (omega arith, tt)
  clean_plan_bound (some (float_value x)) = (omega arith, tt)
  clean_plan_bound (some (str_value x)) = (omega arith, tt)
  clean_plan_bound (some (dict_value fs)) = (omega arith, tt)

  IsKnown-keep_if :
      (test : PlanStep → Bool) (plan : List PlanStep) → IsKnown plan → IsKnown (keep_if test plan)
  IsKnown-keep_if test [] k = tt
  IsKnown-keep_if test (s ∷ plan) k = elim (Bool-cases (test s)) [
    | inl stays ↦ rw stays (k.0, IsKnown-keep_if test plan k.1)
    | inr goes ↦ rw goes (IsKnown-keep_if test plan k.1)
  ]

  pub rested_bound :
      (cooling : List String) (o : Option Value)
      → (length (rested cooling (clean_plan tables o)) ≤ 6)
        × IsKnown (rested cooling (clean_plan tables o))
  rested_bound cooling o = (
    omega (
      arith,
      (clean_plan_bound o).0,
      length-keep_if-le (λ s. not (elem s.intent cooling)) (clean_plan tables o),
    ),
    IsKnown-keep_if (λ s. not (elem s.intent cooling)) (clean_plan tables o) (clean_plan_bound o).1,
  )
