-- ===== src/Tests/Sentience.antt =====
-- A Goblin with a goal of two steps, and the tables of its memory.
use zomboid_goblin.Mind.{Opinion, SelfCodec, GoblinMind, new_mind, goblin_mind, load_row}
use zomboid_goblin.Sentience.{Event}
use zomboid_goblin.Json.{negsuc}
use zomboid_goblin.Base.{ℕ, Option, le→leb, ltb, leb, ◌+◌, ◌-◌, ◌*◌, ◌/◌, ◌≤◌, ◌<◌, if◌then◌else◌}
use zomboid_goblin.Json.{Value, str_value, list_value, dict_value, cons, nil, Fields, end, field}
use zomboid_goblin.Text.Tables.{ascii}
use zomboid_goblin.Sentience.{PlanStep, SelfState, Mind, new_self, self_of}
use zomboid_goblin.Sentience.Validity.{IsValid}
use zomboid_goblin.Sentience.Validity.Stored.{AllValid}
use zomboid_goblin.Sentience.Validity.Calls.{
  Call, look, job_noted, job_done, skip_call, chat_heard, reflect, run, new_sentience, run_self,
}
use zomboid_goblin.Sentience.Progress.{Finishes, plan-Finishes}
use zomboid_goblin.Sentience.Reflection.{apply_reflection}
use zomboid_goblin.Sentience.Waking.{wants_reflection, wants_reflection-apply_reflection}
use mathlib.Core.Option.{none-ne-some}
use zomboid_goblin.Base.{
  String, ◌≡◌, refl, true, false, none, some, List, [], ◌∷◌, arith, ℕ_eq, String_eq, Pair_eq,
}

-- Thousandths above -1
abbrev shifted : Opinion ℕ
shifted = record {
  nothing = 1000;
  highest = 2000;
  lowest = 0;
  third = 350;
  plus = λ a b. a + b - 1000;
  minus = λ a b. a + 1000 - b;
  times = λ a b. a * b / 1000;
  less = ltb;
  of_thousandths = λ n. 1000;
  of_value = λ v. 1000;
}

abbrev size_of : Option SelfState → ℕ
size_of none = 0
size_of (some s) = 200

abbrev cut_off : ℕ → Option SelfState → Option SelfState
cut_off n t = if leb (size_of t) n then t else none

whole_text : (s : SelfState) (n : ℕ) → 200 ≤ n → cut_off n (some s) ≡ some s
whole_text s n h = rw (le→leb 200 n h) refl

cut_text : (s : SelfState) (n : ℕ) → n < 200 → cut_off n (some s) ≡ none
cut_text s n h = ground (arith, h)

-- A text is the self that it is of, unless it was cut.
abbrev plain_text : SelfCodec (Option SelfState)
plain_text = record {
  dumps = λ s. some s;
  loads = λ t. t;
  size = size_of;
  cut = cut_off;
  loads_whole = whole_text;
  loads_part = cut_text;
}

abbrev Tables : Type 0
Tables = GoblinMind ℕ (Option SelfState)

abbrev small_mind : Mind Tables
small_mind = goblin_mind ascii (λ s. s) shifted plain_text (λ n. n)

abbrev step_of : String → Value
step_of intent = dict_value (field "intent" (str_value intent) end)

abbrev idea : Fields
idea = field "decision" (str_value "new") (
    field "goal" (str_value "a warm meal")
      (field "plan" (list_value (cons (step_of "FORAGE") (cons (step_of "COOK") nil))) end))

abbrev day : List Call
day =
    look "g1" (some "Grub") (some "tom")
    ∷ reflect "g1" 30000 idea
    ∷ job_done "g1" "FORAGE" true
    ∷ job_noted "g1" "COOK" false "no pot" 31000
    ∷ job_done "g1" "COOK" false
    ∷ skip_call "g1" 32000
    ∷ chat_heard "g1" (some "Tom") (some "praise") "well done"
    ∷ []

none_saved : AllValid (λ j. small_mind.load_self j new_mind)
unfolding goblin_mind load_row
none_saved j s e = absurd (none-ne-some s e)

run_self_example : IsValid (
    self_of small_mind "g1" none none
      (run ascii (λ s. s) small_mind day (new_sentience ascii (λ s. s) small_mind new_mind)))
run_self_example = run_self ascii (λ s. s) small_mind day new_mind "g1" none none none_saved

abbrev plan_step : String → PlanStep
plan_step intent = record { intent = intent; note = ""; job = none; failures = 0 }

abbrev hungry : SelfState
hungry = record (new_self "g1" none none) {
  current_goal =
      some (record { goal = "a warm meal"; reason = none; started = 1; unverified_steps = false });
  plan = plan_step "FORAGE" ∷ plan_step "COOK" ∷ [];
}

plan-Finishes_example : Finishes (false ∷ true ∷ false ∷ false ∷ []) hungry
unfolding new_self
plan-Finishes_example =
    plan-Finishes (false ∷ true ∷ false ∷ false ∷ []) hungry (omega arith) (omega arith)

abbrev bitten : Event
bitten = record { kind = "owner_bitten"; text = ""; importance = 1000; valence = negsuc 999 }

wants_reflection-apply_reflection_example :
    (wants_reflection small_mind "g1" 50000
      (record (apply_reflection ascii small_mind "g1" 30000 idea
        (new_sentience ascii (λ s. s) small_mind new_mind)).1 {
          inbox = ("g1", bitten ∷ []) ∷ [];
        })).0
    ≡ (true, 1000)
wants_reflection-apply_reflection_example =
    wants_reflection-apply_reflection ascii small_mind "g1" 30000 50000 1000 idea
      (("g1", bitten ∷ []) ∷ []) (new_sentience ascii (λ s. s) small_mind new_mind) refl
      (omega arith)
