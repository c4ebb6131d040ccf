-- ===== src/Sentience/Reflection.antt =====
-- `apply_reflection` of goblin_zomboid/sentience.py.
use Prim.Native.Nat.{◌^◌}
use zomboid_goblin.Exec.{overflow_error}
use zomboid_goblin.Base.{is_some, some_or, ◌&&◌, leb}
use zomboid_goblin.Json.{
  pos, negsuc, Value, null, bool_value, int_value, float_value, str_value, list_value, dict_value,
  Items, nil, cons, Fields, end, field, get,
}
use Prim.Native.String.{◌++◌ as str_append}
use Prim.Native.Nat.{max}
use zomboid_goblin.Text.Tables.{CharTables}
use zomboid_goblin.Sentience.{
  Decision, continue_plan, new_plan, interrupt, complete, abandon, Event, Goal, SelfState, Mind,
  Sentience, get_self, saved, remember, day_of, room_of, inbox_of, cooling, max_thoughts,
}
use zomboid_goblin.Sentience.Squash.{clean_text}
use zomboid_goblin.Sentience.Steps.{record_goal}
use zomboid_goblin.Sentience.Plans.{drop, clean_plan, rested, decide}
use zomboid_goblin.Base.{
  ℕ, zero, suc, ◌+◌, ◌-◌, ◌*◌, ◌/◌, min, String, Bool, true, false, not, ◌||◌, Option, none, some,
  List, [], ◌∷◌, ◌++◌, ltb, if◌then◌else◌, ◌==◌, ℕ_eq, String_eq, Pair_eq, length,
}
use zomboid_goblin.Exec.{Result, ok, err, Exec, type_error}
use zomboid_goblin.Dict.{insert}

-- `xs[-n:]`
abbrev pub last_of {ℓ} : {A : Type ℓ} → ℕ → List A → List A
last_of n xs = drop (length xs - n) xs

-- `bool(value)`
unfoldable pub truthy : Value → Bool
truthy null = false
truthy (bool_value b) = b
truthy (int_value (pos n)) = ltb 0 n
truthy (int_value (negsuc n)) = true
truthy (float_value x) = not (x == "0.0" || x == "-0.0")
truthy (str_value s) = not (s == "")
truthy (list_value nil) = false
truthy (list_value (cons v vs)) = true
truthy (dict_value end) = false
truthy (dict_value (field k v fs)) = true

abbrev pub first_items : ℕ → Items → Items
first_items zero vs = nil
first_items (suc n) nil = nil
first_items (suc n) (cons v vs) = cons v (first_items n vs)

-- `(output.get("opinions") or [])[:3]`: of a text only characters, which are no mappings
unfoldable pub opinion_items : Option Value → Result Items
unfolding truthy
opinion_items none = ok nil
opinion_items (some (list_value vs)) = ok (first_items 3 vs)
opinion_items (some (str_value s)) = ok nil
opinion_items (some v) = if truthy v then err (type_error "object is not subscriptable") else ok nil

-- `isinstance(value, (int, float))`: a bool is an int
unfoldable pub is_numeric : Value → Bool
is_numeric (bool_value b) = true
is_numeric (int_value n) = true
is_numeric (float_value x) = true
is_numeric _ = false

-- `float(value)` raises for an int that rounds to 2 ** 1024 or more.
unfoldable pub overflows : Value → Bool
overflows (int_value (pos n)) = leb (2 ^ 1024 - 2 ^ 970) n
overflows (int_value (negsuc n)) = leb (2 ^ 1024 - 2 ^ 970) (n + 1)
overflows _ = false

-- `output.get("decision")` if it is among `DECISIONS`
unfoldable pub decision_of : Option Value → Decision
decision_of (some (str_value s)) =
    if s == "new"
    then new_plan
    else if s == "interrupt"
    then interrupt
    else if s == "complete"
    then complete
    else if s == "abandon"
    then abandon
    else continue_plan
decision_of _ = continue_plan

abbrev pub most_important : List Event → ℕ
most_important [] = 0
most_important (e ∷ es) = max e.importance (most_important es)

pub record Answer : Type 0 where
  pub decision : Decision
  pub importance : ℕ
  pub say : Option String

module _ (tables : CharTables) where
  unfoldable pub set_mood : Option String → SelfState → SelfState
  set_mood none s = s
  set_mood (some mood) s = record s { mood = mood }

  unfoldable pub add_thought : Option String → SelfState → SelfState
  add_thought none s = s
  add_thought (some thought) s = record s {
    thoughts = last_of max_thoughts (s.thoughts ++ (thought ∷ []));
  }

  unfoldable pub expected : Option String → Option String → SelfState → SelfState
  expected (some about) (some expect) s = record s {
    expectations = last_of 6 (insert about expect s.expectations);
  }
  expected _ _ s = s

  unfoldable pub set_expectation : Option Value → SelfState → SelfState
  unfolding expected clean_text
  set_expectation (some (dict_value fs)) s =
      expected (clean_text tables 40 (get "about" fs)) (clean_text tables 120 (get "expect" fs)) s
  set_expectation _ s = s

  -- The self up to the opinions
  unfoldable pub absorbed : ℕ → Fields → SelfState → SelfState
  unfolding set_mood add_thought set_expectation clean_text
  absorbed now output s = set_expectation (get "expectation" output) (
      add_thought (clean_text tables 200 (get "thought" output)) (
        set_mood (clean_text tables 60 (get "mood" output))
          (record s { last_reflect_at = now; reflections = s.reflections + 1 })))

  -- `goal` with its reason
  unfoldable pub goal_of : ℕ → Fields → Option Goal
  unfolding clean_text
  goal_of now output = elim (clean_text tables 100 (get "goal" output)) [
    | none ↦ none
    | some goal ↦ some (record {
      goal = goal;
      reason = clean_text tables 160 (get "reason" output);
      started = now;
      unverified_steps = false;
    })
  ]

  -- `memory`
  unfoldable pub memory_of : Fields → Option String
  unfolding clean_text
  memory_of output = elim (clean_text tables 200 (get "thought" output)) [
    | some thought ↦ some thought
    | none ↦ elim (clean_text tables 100 (get "goal" output)) [
      | none ↦ none
      | some goal ↦ some (str_append "I decided: " goal)
    ]
  ]

  module _ {M : Type 0} (mind : Mind M) where
    abbrev pub drift : String → Option String → Option String → Option Value → Option String → M → M
    drift npc_id (some subject) (some trait) (some value) remark m =
        if is_numeric value then mind.drift_opinion npc_id subject trait value remark m else m
    drift npc_id _ _ _ remark m = m

    -- The loop on the opinions
    unfoldable pub form_opinions : String → Items → Exec M (Unit {0})
    unfolding clean_text is_numeric overflows
    form_opinions npc_id nil m = (ok tt, m)
    form_opinions npc_id (cons (dict_value fs) vs) m =
        let subject = clean_text tables 40 (get "subject" fs) in
        let trait = clean_text tables 24 (get "trait" fs) in
        let rest =
          form_opinions npc_id vs (
            drift npc_id subject trait (get "value" fs) (clean_text tables 120 (get "note" fs))
              m) in
        if is_some subject && is_some trait && overflows (some_or (get "value" fs) null)
        then (err (overflow_error "int too large to convert to float"), m)
        else rest
    form_opinions npc_id (cons _ vs) m = form_opinions npc_id vs m

    unfoldable pub keep_memory : String → ℕ → Option String → Sentience M → Sentience M
    keep_memory npc_id top none st = st
    keep_memory npc_id top (some text) st =
        remember mind npc_id
          (record {
            kind = "thought";
            text = text;
            day = day_of mind npc_id st;
            importance = max 250 (min 800 (top * 4 / 5));
            valence = pos 0;
            place = room_of mind npc_id st;
          })
          st

    -- `_finish_goal` on the memory, when the goal is abandoned
    unfoldable pub regret : Decision → String → SelfState → Sentience M → Sentience M
    unfolding record_goal
    regret abandon npc_id s st = record_goal mind npc_id false s st
    regret _ npc_id s st = st

    -- `apply_reflection`, behind the opinions
    unfoldable pub resolve :
        String → ℕ → ℕ → Fields → SelfState → Sentience M → Answer × Sentience M
    unfolding regret keep_memory saved decide clean_plan cooling goal_of memory_of decision_of
    resolve npc_id now top output s st =
        let decision = decision_of (get "decision" output) in
        let plan = rested (cooling mind npc_id now st) (clean_plan tables (get "plan" output)) in
        let decided = decide decision (goal_of now output) plan s in
        (
          record {
            decision = decision;
            importance = top;
            say = clean_text tables 200 (get "say" output);
          },
          saved mind npc_id decided
              (keep_memory npc_id top (memory_of output) (regret decision npc_id s st)),
        )

    abbrev pub opined :
        String → ℕ → ℕ → Fields → SelfState → Result (Unit {0}) → Exec (Sentience M) Answer
    opined npc_id now top output s (err x) st = (err x, st)
    opined npc_id now top output s (ok u) st =
        let (answer, st') = resolve npc_id now top output s st in (ok answer, st')

    -- `apply_reflection`, from the opinions on
    unfoldable pub opine :
        String → ℕ → ℕ → Fields → SelfState → Result Items → Exec (Sentience M) Answer
    unfolding form_opinions resolve
    opine npc_id now top output s (err x) st = (err x, st)
    opine npc_id now top output s (ok vs) st =
        let (r, m) = form_opinions npc_id vs st.mind in
        opined npc_id now top output s r (record st { mind = m })

    -- `apply_reflection`
    unfoldable pub apply_reflection : String → ℕ → Fields → Exec (Sentience M) Answer
    unfolding get_self absorbed opinion_items opine
    apply_reflection npc_id now output st =
        let (s, st') = get_self mind npc_id none none st in
        let s' = absorbed now output s in
        opine npc_id now (most_important (inbox_of mind npc_id st')) output s'
          (opinion_items (get "opinions" output))
          (record st' { inbox = insert npc_id [] st'.inbox; selves = insert npc_id s' st'.selves })
