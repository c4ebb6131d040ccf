-- ===== src/Sentience.antt =====
-- goblin_zomboid/sentience.py: the self of each Goblin, with its goal and its plan. Times are in
-- milliseconds, importance and valence in thousandths; floats are taken as exact. `Mind` is what the
-- code calls on mind.py.
pub mod Squash
pub mod Plans
pub mod Steps
pub mod Social
pub mod Reflection
pub mod Validity
pub mod Progress
pub mod Waking
use zomboid_goblin.Text.Trim.{take_chars}
use zomboid_goblin.Json.{ℤ, pos, negsuc, Value}
use zomboid_goblin.Base.{
  ℕ, zero, suc, ◌+◌, ◌-◌, ◌*◌, ◌/◌, ◌%◌, ◌≤◌, ◌<◌, min, String, count, ◌≡◌, refl, sym, ap, ◌∙◌, ◌≢◌,
  ◌↔◌, ◌⊎◌, inl, inr, Bool, true, false, not, ◌&&◌, ◌||◌, false≢true, Option, none, some, List, [],
  ◌∷◌, ◌++◌, map, arith, ltb, leb, eqb, if◌then◌else◌, ltb→lt, lt→ltb, leb→le, le→leb, eqb_iff,
  Bool-cases, Option-cases, is_some, some_or, Eq, ◌==◌, ℕ_eq, String_eq, Pair_eq, ==_refl, elem,
  length, take, keep_if, length-append, length-take-le, length-keep_if-le, All, Distinct,
}
use zomboid_goblin.Exec.{
  Error, value_error, protocol_error, intent_error, file_exists, file_not_found, os_error, Result,
  ok, err, Exec, pure, raise, lift, gets, ◌>>=◌, ◌>>◌, modify, raise_if, and_then,
}
use zomboid_goblin.Dict.{
  Dict, lookup, contains, insert, remove, lookup-insert, lookup-remove, lookup-insert_self,
  lookup-insert_absent, length-insert, length-remove-le,
}

-- `PLAN_INTENTS`
abbrev pub plan_intents : List String
plan_intents =
    "SECURE_BASE" ∷ "INSPECT_BASE" ∷ "MAINTAIN_BASE" ∷ "REPAIR_STRUCTURE" ∷ "CLOSE_CURTAINS"
    ∷ "SORT_STORAGE" ∷ "STOCKPILE" ∷ "FETCH_ITEM" ∷ "DELIVER" ∷ "DISMANTLE" ∷ "LOOT_AREA"
    ∷ "RETURN_TO_BASE" ∷ "TREAT_PLAYER" ∷ "CHOP_WOOD" ∷ "FORAGE" ∷ "CHECK_TRAPS" ∷ "COOK"
    ∷ "RESTORE_POWER" ∷ "FARM" ∷ "CRAFT" ∷ "VEHICLE_INSPECT" ∷ "VEHICLE_SERVICE" ∷ "REFUEL_VEHICLE"
    ∷ "REPAIR_VEHICLE" ∷ "CHANGE_TIRE" ∷ "FOLLOW" ∷ "SAY" ∷ []

-- `intent in PLAN_INTENTS`
unfoldable pub is_plan_intent : String → Bool
is_plan_intent intent = elem intent plan_intents

-- `JOB_ALIASES.get(intent, intent)`
abbrev pub job_aliases : Dict String String
job_aliases =
    ("FORTIFY", "SECURE_BASE") ∷ ("FORTIFY_BASE", "SECURE_BASE") ∷ ("LOOT", "LOOT_AREA") ∷ []

abbrev pub own_name : String → String
own_name intent = some_or (lookup intent job_aliases) intent

-- `ONE_SHOT_CHORES`
abbrev pub one_shot_chores : List String
one_shot_chores =
    "SECURE_BASE" ∷ "CLOSE_CURTAINS" ∷ "RESTORE_POWER" ∷ "INSPECT_BASE" ∷ "MAINTAIN_BASE"
    ∷ "SORT_STORAGE" ∷ "VEHICLE_SERVICE" ∷ "VEHICLE_INSPECT" ∷ "REFUEL_VEHICLE" ∷ "REPAIR_STRUCTURE"
    ∷ "STOCKPILE" ∷ "DELIVER" ∷ "CHECK_TRAPS" ∷ []

abbrev pub failed_cooldown : ℕ
failed_cooldown = 600000

abbrev pub done_cooldown : ℕ
done_cooldown = 900000

-- `DECISIONS`
pub data Decision : Type 0 where
  continue_plan new_plan interrupt complete abandon : Decision

-- `EVENT_WEIGHTS`
abbrev pub event_weights : Dict String (ℕ × ℤ)
event_weights =
    ("owner_bitten", (1000, negsuc 999))
    ∷ ("owner_hurt", (850, negsuc 699))
    ∷ ("horde", (850, negsuc 599))
    ∷ ("base_attacked", (800, negsuc 599))
    ∷ ("threat_rising", (600, negsuc 299))
    ∷ ("job_failed", (550, negsuc 299))
    ∷ ("owner_insulted", (550, negsuc 499))
    ∷ ("owner_praised", (500, pos 600))
    ∷ ("goblin_met", (500, pos 200))
    ∷ ("night_approaching", (550, negsuc 99))
    ∷ ("owner_left_base", (500, pos 0))
    ∷ ("food_low", (550, negsuc 299))
    ∷ ("survival", (600, pos 0))
    ∷ ("vehicle_low", (400, negsuc 99))
    ∷ ("power_down", (600, negsuc 399))
    ∷ ("power_restored", (400, pos 500))
    ∷ ("crops_thirsty", (450, negsuc 199))
    ∷ ("crops_ready", (450, pos 400))
    ∷ ("new_place", (350, pos 100))
    ∷ ("job", (300, pos 200))
    ∷ ("job_complete", (300, pos 300))
    ∷ ("kills", (350, pos 300))
    ∷ ("chat", (300, pos 0))
    ∷ ("thought", (250, pos 0))
    ∷ ("choice", (200, pos 0))
    ∷ ("met", (500, pos 200))
    ∷ []

-- `EVENT_WEIGHTS.get(kind, (0.3, 0.0))`
abbrev pub weight_of : String → ℕ × ℤ
weight_of kind = some_or (lookup kind event_weights) (300, pos 0)

abbrev pub wake_importance : ℕ
wake_importance = 500

abbrev pub background_reflect : ℕ
background_reflect = 240000

abbrev pub min_reflect_gap : ℕ
min_reflect_gap = 20000

abbrev pub max_thoughts : ℕ
max_thoughts = 8

-- An entry of the inbox.
pub record Event : Type 0 where
  pub kind : String
  pub text : String
  pub importance : ℕ
  pub valence : ℤ

-- A step of a plan, with its failures.
pub record PlanStep : Type 0 where
  pub intent : String
  pub note : String
  pub job : Option String
  pub failures : ℕ

pub record Goal : Type 0 where
  pub goal : String
  pub reason : Option String
  pub started : ℕ
  pub unverified_steps : Bool

-- `suspended_goal`
pub record Suspended : Type 0 where
  pub goal : Goal
  pub plan : List PlanStep
  pub current_step : ℕ

-- A self; the desires are always `DEFAULT_DESIRES`.
pub record SelfState : Type 0 where
  pub identity : String
  pub name : Option String
  pub owner : Option String
  pub mood : String
  pub current_goal : Option Goal
  pub suspended_goal : Option Suspended
  pub plan : List PlanStep
  pub current_step : ℕ
  pub thoughts : List String
  pub expectations : Dict String String
  pub last_reflect_at : ℕ
  pub reflections : ℕ

-- `new_self`
unfoldable pub new_self : String → Option String → Option String → SelfState
new_self npc_id name owner = record {
  identity = npc_id;
  name = name;
  owner = owner;
  mood = "restless";
  current_goal = none;
  suspended_goal = none;
  plan = [];
  current_step = 0;
  thoughts = [];
  expectations = [];
  last_reflect_at = 0;
  reflections = 0;
}

-- What `GoblinMind.record` is given.
pub record Episode : Type 0 where
  pub kind : String
  pub text : String
  pub day : Option ℤ
  pub importance : ℕ
  pub valence : ℤ
  pub place : Option String

-- `last_seen`: the entries that are read here.
pub record Seen : Type 0 where
  pub day : Option ℤ
  pub room : Option String

pub record JobNote : Type 0 where
  pub at : ℕ
  pub success : Bool
  pub detail : String

-- The calls on `GoblinMind`. A self that is saved is loaded again, if its text is short enough.
-- `drift_opinion` is `set_opinion` of the old opinion and 0.35 of the way to a new one.
pub record Mind (M : Type 0) : Type 0 where
  pub record_episode : String → Episode → M → M
  pub nudge_opinion : String → String → String → ℤ → M → M
  pub drift_opinion : String → String → String → Value → Option String → M → M
  pub load_self : String → M → Option SelfState
  pub save_self : String → SelfState → M → M
  pub fits : SelfState → Bool
  pub load_self-record_episode :
      (j k : String) (e : Episode) (m : M) → load_self j (record_episode k e m) ≡ load_self j m
  pub load_self-nudge_opinion :
      (j k a b : String) (n : ℤ) (m : M) → load_self j (nudge_opinion k a b n m) ≡ load_self j m
  pub load_self-drift_opinion :
      (j k a b : String) (v : Value) (note : Option String) (m : M)
      → load_self j (drift_opinion k a b v note m) ≡ load_self j m
  pub load_self-save_self :
      (j k : String) (s : SelfState) (m : M)
      → load_self j (save_self k s m)
        ≡ (if j == k then (if fits s then some s else none) else load_self j m)

pub record Sentience (M : Type 0) : Type 0 where
  pub mind : M
  pub selves : Dict String SelfState
  pub inbox : Dict String (List Event)
  pub last_seen : Dict String Seen
  pub recent_jobs : Dict String (Dict String JobNote)

-- `x or None`
abbrev pub given : Option String → Option String
given none = none
given (some s) = if s == "" then none else some s

abbrev pub renamed : Option String → Option String → Option String
renamed new old = elim (given new) [ none ↦ old | some n ↦ some n ]

module _ {M : Type 0} (mind : Mind M) where
  abbrev pub found_self : String → Option String → Option String → Sentience M → SelfState
  found_self npc_id name owner st =
      some_or (lookup npc_id st.selves)
        (some_or (mind.load_self npc_id st.mind) (new_self npc_id name owner))

  -- What `get` returns
  unfoldable pub self_of : String → Option String → Option String → Sentience M → SelfState
  self_of npc_id name owner st =
      let found = found_self npc_id name owner st in
      record found { name = renamed name found.name; owner = renamed owner found.owner }

  -- `get`
  unfoldable pub get_self :
      String → Option String → Option String → Sentience M → SelfState × Sentience M
  unfolding self_of
  get_self npc_id name owner st =
      let s = self_of npc_id name owner st in (s, record st { selves = insert npc_id s st.selves })

  -- A state written and saved: `save`
  unfoldable pub saved : String → SelfState → Sentience M → Sentience M
  saved npc_id s st = record st {
    selves = insert npc_id s st.selves;
    mind = mind.save_self npc_id s st.mind;
  }

  abbrev pub remember : String → Episode → Sentience M → Sentience M
  remember npc_id e st = record st { mind = mind.record_episode npc_id e st.mind }

  -- `_day`
  abbrev pub day_of : String → Sentience M → Option ℤ
  day_of npc_id st = elim (lookup npc_id st.last_seen) [ none ↦ none | some seen ↦ seen.day ]

  abbrev pub room_of : String → Sentience M → Option String
  room_of npc_id st = elim (lookup npc_id st.last_seen) [ none ↦ none | some seen ↦ seen.room ]

  abbrev pub inbox_of : String → Sentience M → List Event
  inbox_of npc_id st = some_or (lookup npc_id st.inbox) []

  -- `note_job`
  unfoldable pub note_job : String → String → Bool → String → ℕ → Sentience M → Sentience M
  note_job npc_id intent success detail now st = record st {
    recent_jobs =
        insert npc_id
          (insert (own_name intent)
            (record { at = now; success = success; detail = take_chars 120 detail })
            (some_or (lookup npc_id st.recent_jobs) []))
          st.recent_jobs;
  }

  -- Whether `cooling` lists a job.
  unfoldable pub is_cooling : ℕ → String → JobNote → Bool
  is_cooling now intent entry =
      let age = now - entry.at in
      if entry.success
      then elem intent one_shot_chores && ltb age done_cooldown
      else ltb age failed_cooldown

  -- The keys of `cooling`
  unfoldable pub cooling : String → ℕ → Sentience M → List String
  unfolding is_cooling
  cooling npc_id now st =
      map (λ e. e.0)
        (keep_if (λ e. is_cooling now e.0 e.1) (some_or (lookup npc_id st.recent_jobs) []))
