-- ===== src/Sentience/Waking.antt =====
-- `wants_reflection` of goblin_zomboid/sentience.py: when a Goblin thinks.
use zomboid_goblin.Sentience.Reflection.{opined, form_opinions}
use mathlib.Core.Path.{subst}
use zomboid_goblin.Base.{le→leb, Bool-cases, ◌≤◌, some_or}
use zomboid_goblin.Sentience.{Event}
use zomboid_goblin.Dict.{Dict}
use zomboid_goblin.Sentience.Squash.{clean_text}
use zomboid_goblin.Json.{
  Value, null, bool_value, int_value, float_value, str_value, list_value, dict_value, Items, Fields,
  get,
}
use zomboid_goblin.Text.Tables.{CharTables}
use zomboid_goblin.Base.{
  ℕ, ◌+◌, ◌-◌, String, ◌≡◌, refl, ◌∙◌, inl, inr, Bool, true, false, not, ◌&&◌, Option, none, some,
  List, [], ◌∷◌, arith, ltb, leb, if◌then◌else◌, Option-cases, is_some, ℕ_eq, String_eq, Pair_eq,
}
use zomboid_goblin.Exec.{Result, ok, err}
use zomboid_goblin.Dict.{lookup, lookup-insert_self}
use zomboid_goblin.Sentience.{
  Decision, continue_plan, new_plan, interrupt, complete, abandon, PlanStep, Goal, SelfState, Mind,
  Sentience, get_self, inbox_of, wake_importance, background_reflect, min_reflect_gap, self_of,
  saved,
}
use zomboid_goblin.Sentience.Plans.{finish_goal, begin, set_aside, decide}
use zomboid_goblin.Sentience.Reflection.{
  expected, most_important, add_thought, absorbed, set_mood, set_expectation, apply_reflection,
  opine, opinion_items, resolve, decision_of, goal_of,
}

-- The choice, by the time since the last reflection
unfoldable pub wake_choice : ℕ → ℕ → Bool → Bool × ℕ
wake_choice since top has_goal =
    if ltb since min_reflect_gap
    then (false, 0)
    else if leb wake_importance top
    then (true, top)
    else if not has_goal && leb 60000 since
    then (true, wake_importance)
    else if leb background_reflect since
    then (true, 200)
    else (false, 0)

module _ {M : Type 0} (mind : Mind M) where
  -- `wants_reflection`; the clock does not go back behind the last reflection
  unfoldable pub wants_reflection : String → ℕ → Sentience M → (Bool × ℕ) × Sentience M
  unfolding get_self wake_choice
  wants_reflection npc_id now st =
      let (s, st') = get_self mind npc_id none none st in
      (
        wake_choice (now - s.last_reflect_at) (most_important (inbox_of mind npc_id st'))
            (is_some s.current_goal),
        st',
      )

finish_goal_time : (s : SelfState) → (finish_goal s).last_reflect_at ≡ s.last_reflect_at
unfolding finish_goal
finish_goal_time s = elim (Option-cases s.suspended_goal) [
  | inl e ↦ rw e refl
  | inr (was, e) ↦ rw e refl
]

set_aside_time : (s : SelfState) → (set_aside s).last_reflect_at ≡ s.last_reflect_at
unfolding set_aside
set_aside_time s = elim (Option-cases s.current_goal) [
  | inl e ↦ rw e refl
  | inr (g, e) ↦ elim (Option-cases s.suspended_goal) [
    | inl bare ↦ rw (e, bare) refl
    | inr (was, held) ↦ rw (e, held) refl
  ]
]

decide_time :
    (d : Decision) (goal : Option Goal) (plan : List PlanStep) (s : SelfState)
    → (decide d goal plan s).last_reflect_at ≡ s.last_reflect_at
unfolding decide begin
decide_time abandon goal plan s = finish_goal_time s
decide_time new_plan (some g) (step ∷ plan) s = refl
decide_time interrupt (some g) (step ∷ plan) s = set_aside_time s
decide_time continue_plan (some g) (step ∷ plan) s = ground arith
decide_time complete goal plan s = refl
decide_time new_plan none plan s = refl
decide_time new_plan (some g) [] s = refl
decide_time interrupt none plan s = refl
decide_time interrupt (some g) [] s = refl
decide_time continue_plan none plan s = refl
decide_time continue_plan (some g) [] s = refl

expected_time :
    (tables : CharTables) (a b : Option String) (s : SelfState)
    → (expected tables a b s).last_reflect_at ≡ s.last_reflect_at
unfolding expected
expected_time tables (some a) (some b) s = refl
expected_time tables (some a) none s = refl
expected_time tables none b s = refl

set_expectation_time :
    (tables : CharTables) (o : Option Value) (s : SelfState)
    → (set_expectation tables o s).last_reflect_at ≡ s.last_reflect_at
unfolding set_expectation
set_expectation_time tables (some (dict_value fs)) s = expected_time tables _ _ s
set_expectation_time tables none s = refl
set_expectation_time tables (some null) s = refl
set_expectation_time tables (some (bool_value b)) s = refl
set_expectation_time tables (some (int_value n)) s = refl
set_expectation_time tables (some (float_value x)) s = refl
set_expectation_time tables (some (str_value x)) s = refl
set_expectation_time tables (some (list_value vs)) s = refl

set_mood_time :
    (tables : CharTables) (o : Option String) (s : SelfState)
    → (set_mood tables o s).last_reflect_at ≡ s.last_reflect_at
unfolding set_mood
set_mood_time tables none s = refl
set_mood_time tables (some m) s = refl

add_thought_time :
    (tables : CharTables) (o : Option String) (s : SelfState)
    → (add_thought tables o s).last_reflect_at ≡ s.last_reflect_at
unfolding add_thought
add_thought_time tables none s = refl
add_thought_time tables (some m) s = refl

absorbed_time :
    (tables : CharTables) (now : ℕ) (output : Fields) (s : SelfState)
    → (absorbed tables now output s).last_reflect_at ≡ now
unfolding absorbed
absorbed_time tables now output s =
    let begun = record s { last_reflect_at = now; reflections = s.reflections + 1 } in
    let moody = set_mood tables (clean_text tables 60 (get "mood" output)) begun in
    let thought = add_thought tables (clean_text tables 200 (get "thought" output)) moody in
    set_expectation_time tables (get "expectation" output) thought
    ∙ add_thought_time tables (clean_text tables 200 (get "thought" output)) moody
    ∙ set_mood_time tables (clean_text tables 60 (get "mood" output)) begun

module _ {M : Type 0} (tables : CharTables) (mind : Mind M) where
  -- The self that a reflection leaves behind
  abbrev Keeps : String → ℕ → Sentience M → Type 0
  Keeps npc_id time st =
      (t : SelfState) × (lookup npc_id st.selves ≡ some t) × (t.last_reflect_at ≡ time)

  opined_self :
      (npc_id : String) (now top : ℕ) (output : Fields) (s : SelfState) (r : Result (Unit {0}))
      (st : Sentience M)
      → lookup npc_id st.selves ≡ some s
      → Keeps npc_id s.last_reflect_at (opined tables mind npc_id now top output s r st).1
  unfolding resolve saved
  opined_self npc_id now top output s (err x) st e = (s, e, refl)
  opined_self npc_id now top output s (ok u) st e = (
    decide (decision_of (get "decision" output)) (goal_of tables now output) _ s,
    lookup-insert_self npc_id _ _,
    decide_time (decision_of (get "decision" output)) (goal_of tables now output) _ s,
  )

  opine_self :
      (npc_id : String) (now top : ℕ) (output : Fields) (s : SelfState) (r : Result Items)
      (st : Sentience M)
      → lookup npc_id st.selves ≡ some s
      → Keeps npc_id s.last_reflect_at (opine tables mind npc_id now top output s r st).1
  unfolding opine
  opine_self npc_id now top output s (err x) st e = (s, e, refl)
  opine_self npc_id now top output s (ok vs) st e =
      opined_self npc_id now top output s (form_opinions tables mind npc_id vs st.mind).0
        (record st { mind = (form_opinions tables mind npc_id vs st.mind).1 }) e

  wants_reflection_self :
      (npc_id : String) (now top : ℕ) (s : SelfState) (st : Sentience M)
      → lookup npc_id st.selves ≡ some s
      → most_important (inbox_of mind npc_id st) ≡ top
      → wake_importance ≤ top
      → (wants_reflection mind npc_id now st).0
        ≡ (if ltb now (s.last_reflect_at + min_reflect_gap) then (false, 0) else (true, top))
  unfolding wants_reflection get_self self_of wake_choice
  wants_reflection_self npc_id now top s st e news h =
      let wakes = le→leb wake_importance top h in
      elim (Bool-cases (ltb now (s.last_reflect_at + min_reflect_gap))) [
        | inl early ↦
            let soon : ltb (now - s.last_reflect_at) min_reflect_gap ≡ true =
              ground (arith, early) in
            rw (wants_reflection, e, early) (rw soon refl)
        | inr late ↦
            let rested : ltb (now - s.last_reflect_at) min_reflect_gap ≡ false =
              ground (arith, late) in
            rw (wants_reflection, e, late) (rw (rested, news, wakes) refl)
      ]

  woken :
      (npc_id : String) (now top time : ℕ) (s : SelfState) (st : Sentience M)
      → lookup npc_id st.selves ≡ some s
      → s.last_reflect_at ≡ time
      → most_important (inbox_of mind npc_id st) ≡ top
      → wake_importance ≤ top
      → (wants_reflection mind npc_id now st).0
        ≡ (if ltb now (time + min_reflect_gap) then (false, 0) else (true, top))
  woken npc_id now top time s st e last news h =
      subst
        (λ last.
          (wants_reflection mind npc_id now st).0
          ≡ (if ltb now (last + min_reflect_gap) then (false, 0) else (true, top)))
        last (wants_reflection_self npc_id now top s st e news h)

  -- Behind a reflection, whatever it said and whether or not it raised, let news of the importance
  -- that wakes a Goblin come in, beside any other. In the first twenty seconds it wants no other
  -- reflection all the same; from then on it wants one, with the priority of that news.
  pub wants_reflection-apply_reflection :
      (npc_id : String) (now later top : ℕ) (output : Fields) (news : Dict String (List Event))
      (st : Sentience M)
      → most_important (some_or (lookup npc_id news) []) ≡ top
      → wake_importance ≤ top
      → let after = record (apply_reflection tables mind npc_id now output st).1 { inbox = news } in
        (wants_reflection mind npc_id later after).0
        ≡ (if ltb later (now + min_reflect_gap) then (false, 0) else (true, top))
  unfolding apply_reflection get_self
  wants_reflection-apply_reflection npc_id now later top output news st i h =
      let s = absorbed tables now output (self_of mind npc_id none none st) in
      let (t, e, same) =
        opine_self npc_id now _ output s (opinion_items (get "opinions" output)) _
          (lookup-insert_self npc_id s _) in
      woken npc_id later top now t
        (record (apply_reflection tables mind npc_id now output st).1 { inbox = news }) e
        (same ∙ absorbed_time tables now output (self_of mind npc_id none none st)) i h
