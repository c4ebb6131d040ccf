-- ===== src/Sentience/Validity/Reflections.antt =====
-- Reflections keep every self valid.
use zomboid_goblin.Sentience.Reflection.{overflows, opined}
use zomboid_goblin.Sentience.Squash.{clean_text}
use zomboid_goblin.Base.{is_some, some_or, ◌&&◌}
use zomboid_goblin.Sentience.Validity.Stored.{
  IsSound, AllValid-insert, IsSound-saved, IsSound-remember, self_of-IsValid, get_self-IsSound,
  record_goal-IsSound,
}
use zomboid_goblin.Json.{
  Value, Items, nil, cons, Fields, get, dict_value, null, bool_value, int_value, float_value,
  str_value, list_value,
}
use zomboid_goblin.Text.Tables.{CharTables}
use zomboid_goblin.Sentience.{SelfState, Mind, Sentience, get_self, self_of, cooling}
use zomboid_goblin.Sentience.Reflection.{
  absorbed, set_mood, add_thought, set_expectation, expected, apply_reflection, resolve, regret,
  keep_memory, form_opinions, drift, opinion_items, goal_of, decision_of, memory_of, opine,
  is_numeric,
}
use zomboid_goblin.Sentience.Validity.{IsValid}
use zomboid_goblin.Sentience.Validity.Plain.{decide-IsValid}
use zomboid_goblin.Sentience.Validity.Reading.{rested_bound}
use zomboid_goblin.Sentience.Squash.{clean_text}
use zomboid_goblin.Sentience.{Decision, continue_plan, new_plan, interrupt, complete, abandon}
use zomboid_goblin.Base.{
  ℕ, String, ◌≡◌, refl, ◌∙◌, inl, inr, false, Option, none, some, Bool-cases, ℕ_eq, String_eq,
  Pair_eq,
}
use zomboid_goblin.Exec.{Result, ok, err}

expected-IsValid :
    (tables : CharTables) (about expect : Option String) (s : SelfState)
    → IsValid s
    → IsValid (expected tables about expect s)
unfolding expected
expected-IsValid tables (some about) (some expect) s v = record { state = v.state; held = v.held }
expected-IsValid tables (some about) none s v = v
expected-IsValid tables none expect s v = v

set_expectation-IsValid :
    (tables : CharTables) (o : Option Value) (s : SelfState)
    → IsValid s
    → IsValid (set_expectation tables o s)
unfolding set_expectation
set_expectation-IsValid tables (some (dict_value fs)) s v =
    expected-IsValid tables (clean_text tables 40 (get "about" fs))
      (clean_text tables 120 (get "expect" fs)) s v
set_expectation-IsValid tables none s v = v
set_expectation-IsValid tables (some null) s v = v
set_expectation-IsValid tables (some (bool_value b)) s v = v
set_expectation-IsValid tables (some (int_value n)) s v = v
set_expectation-IsValid tables (some (float_value x)) s v = v
set_expectation-IsValid tables (some (str_value x)) s v = v
set_expectation-IsValid tables (some (list_value vs)) s v = v

set_mood-IsValid :
    (tables : CharTables) (o : Option String) (s : SelfState)
    → IsValid s
    → IsValid (set_mood tables o s)
unfolding set_mood
set_mood-IsValid tables none s v = v
set_mood-IsValid tables (some mood) s v = record { state = v.state; held = v.held }

add_thought-IsValid :
    (tables : CharTables) (o : Option String) (s : SelfState)
    → IsValid s
    → IsValid (add_thought tables o s)
unfolding add_thought
add_thought-IsValid tables none s v = v
add_thought-IsValid tables (some thought) s v = record { state = v.state; held = v.held }

absorbed-IsValid :
    (tables : CharTables) (now : ℕ) (output : Fields) (s : SelfState)
    → IsValid s
    → IsValid (absorbed tables now output s)
unfolding absorbed
absorbed-IsValid tables now output s v =
    set_expectation-IsValid tables (get "expectation" output) _ (
      add_thought-IsValid tables (clean_text tables 200 (get "thought" output)) _ (
        set_mood-IsValid tables (clean_text tables 60 (get "mood" output)) _
          (record { state = v.state; held = v.held })))

module _ {M : Type 0} (tables : CharTables) (mind : Mind M) where
  load_self-drift :
      (j npc_id : String) (a b : Option String) (v : Option Value) (remark : Option String) (m : M)
      → mind.load_self j (drift tables mind npc_id a b v remark m) ≡ mind.load_self j m
  load_self-drift j npc_id (some a) (some b) (some v) remark m = elim (Bool-cases (is_numeric v)) [
    | inl number ↦ rw number (mind.load_self-drift_opinion j npc_id a b v remark m)
    | inr other ↦ rw other refl
  ]
  load_self-drift j npc_id (some a) (some b) none remark m = refl
  load_self-drift j npc_id (some a) none v remark m = refl
  load_self-drift j npc_id none b v remark m = refl

  load_self-form_opinions :
      (j npc_id : String) (vs : Items) (m : M)
      → mind.load_self j (form_opinions tables mind npc_id vs m).1 ≡ mind.load_self j m
  unfolding form_opinions
  load_self-form_opinions j npc_id nil m = refl
  load_self-form_opinions j npc_id (cons (dict_value fs) vs) m =
      elim (Bool-cases (
        is_some (clean_text tables 40 (get "subject" fs))
        && is_some (clean_text tables 24 (get "trait" fs))
        && overflows (some_or (get "value" fs) null))) [
          | inl huge ↦ rw huge refl
          | inr fits ↦
              rw fits (load_self-form_opinions j npc_id vs _ ∙ load_self-drift j npc_id _ _ _ _ m)
        ]
  load_self-form_opinions j npc_id (cons null vs) m = load_self-form_opinions j npc_id vs m
  load_self-form_opinions j npc_id (cons (bool_value b) vs) m =
      load_self-form_opinions j npc_id vs m
  load_self-form_opinions j npc_id (cons (int_value n) vs) m = load_self-form_opinions j npc_id vs m
  load_self-form_opinions j npc_id (cons (float_value x) vs) m =
      load_self-form_opinions j npc_id vs m
  load_self-form_opinions j npc_id (cons (str_value x) vs) m = load_self-form_opinions j npc_id vs m
  load_self-form_opinions j npc_id (cons (list_value ws) vs) m =
      load_self-form_opinions j npc_id vs m

  keep_memory-IsSound :
      (npc_id : String) (top : ℕ) (o : Option String) (st : Sentience M)
      → IsSound mind st
      → IsSound mind (keep_memory tables mind npc_id top o st)
  unfolding keep_memory
  keep_memory-IsSound npc_id top none st h = h
  keep_memory-IsSound npc_id top (some text) st h = IsSound-remember mind npc_id _ st h

  regret-IsSound :
      (d : Decision) (npc_id : String) (s : SelfState) (st : Sentience M)
      → IsSound mind st
      → IsSound mind (regret tables mind d npc_id s st)
  unfolding regret
  regret-IsSound abandon npc_id s st h = record_goal-IsSound mind npc_id false s st h
  regret-IsSound continue_plan npc_id s st h = h
  regret-IsSound new_plan npc_id s st h = h
  regret-IsSound interrupt npc_id s st h = h
  regret-IsSound complete npc_id s st h = h

  resolve-IsSound :
      (npc_id : String) (now top : ℕ) (output : Fields) (s : SelfState) (st : Sentience M)
      → IsValid s
      → IsSound mind st
      → IsSound mind (resolve tables mind npc_id now top output s st).1
  unfolding resolve
  resolve-IsSound npc_id now top output s st v h =
      let (short, known) = rested_bound tables (cooling mind npc_id now st) (get "plan" output) in
      IsSound-saved mind npc_id _ _
        (decide-IsValid (decision_of (get "decision" output)) (goal_of tables now output) _ s v
          short known)
        (keep_memory-IsSound npc_id top (memory_of tables output) _
          (regret-IsSound (decision_of (get "decision" output)) npc_id s st h))

  opined-IsSound :
      (npc_id : String) (now top : ℕ) (output : Fields) (s : SelfState) (r : Result (Unit {0}))
      (st : Sentience M)
      → IsValid s
      → IsSound mind st
      → IsSound mind (opined tables mind npc_id now top output s r st).1
  opined-IsSound npc_id now top output s (err x) st v h = h
  opined-IsSound npc_id now top output s (ok u) st v h =
      resolve-IsSound npc_id now top output s st v h

  opine-IsSound :
      (npc_id : String) (now top : ℕ) (output : Fields) (s : SelfState) (r : Result Items)
      (st : Sentience M)
      → IsValid s
      → IsSound mind st
      → IsSound mind (opine tables mind npc_id now top output s r st).1
  unfolding opine
  opine-IsSound npc_id now top output s (err x) st v h = h
  opine-IsSound npc_id now top output s (ok vs) st v h =
      opined-IsSound npc_id now top output s (form_opinions tables mind npc_id vs st.mind).0
        (record st { mind = (form_opinions tables mind npc_id vs st.mind).1 }) v
        (record {
          used = h.used;
          stored = λ j t e. h.stored j t (rw (load_self-form_opinions j npc_id vs st.mind) at e);
        })

  pub apply_reflection-IsSound :
      (npc_id : String) (now : ℕ) (output : Fields) (st : Sentience M)
      → IsSound mind st
      → IsSound mind (apply_reflection tables mind npc_id now output st).1
  unfolding apply_reflection get_self
  apply_reflection-IsSound npc_id now output st h =
      let s = self_of mind npc_id none none st in
      let v = absorbed-IsValid tables now output s (self_of-IsValid mind npc_id none none st h) in
      let h' = get_self-IsSound mind npc_id none none st h in
      opine-IsSound npc_id now _ output (absorbed tables now output s)
        (opinion_items (get "opinions" output)) _ v
        (record {
          used = AllValid-insert npc_id (absorbed tables now output s) _ v h'.used;
          stored = h'.stored;
        })
