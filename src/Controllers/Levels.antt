-- ===== src/Controllers/Levels.antt =====
-- The levels of a body (hunger, thirst, ...): floats in the program, which compares them with
-- constants. They are a type with these comparisons; an instance over hundredths serves tests.
use zomboid_goblin.Base.{
  ℕ, String, count, Bool, true, false, not, ◌&&◌, ◌||◌, [], ◌∷◌, ltb, leb, if◌then◌else◌, ◌==◌,
  ℕ_eq, String_eq, Pair_eq, elem,
}
use zomboid_goblin.Exec.{value_error, Result, ok, err}

pub record Scale (A : Type 0) : Type 0 where
  -- `x >= n / 100` and `x <= n / 100`
  pub at_least : A → ℕ → Bool
  pub at_most : A → ℕ → Bool

instance abbrev pub hundredths : Scale ℕ
hundredths = record { at_least = λ x n. leb n x; at_most = λ x n. leb x n }

pub data Threat : Type 0 where
  no_threat near overwhelming : Threat

abbrev pub is_overwhelming : Threat → Bool
is_overwhelming overwhelming = true
is_overwhelming _ = false

-- `BodyState`. The strings that `__post_init__` limits to three threats are a data type.
pub record BodyState (A : Type 0) : Type 0 where
  pub alive : Bool
  pub body_present : Bool
  pub hunger : A
  pub thirst : A
  pub fatigue : A
  pub panic : A
  pub injury : A
  pub threat_level : Threat
  pub weapon_ready : Bool
  pub has_food : Bool
  pub has_water : Bool
  pub has_medical : Bool
  pub mode : String
  pub control_ready : Bool
  pub npc_engine_ready : Bool
  pub npc_id : String
  pub body_mode : String

module _ {A : Type 0} ⦃o : Scale A⦄ where
  -- `0.0 <= value <= 1.0`
  abbrev in_unit : A → Bool
  in_unit x = o.at_least x 0 && o.at_most x 100

  -- `BodyState.__post_init__`
  unfoldable pub checked : BodyState A → Result (BodyState A)
  checked s =
      if not (in_unit s.hunger)
      then err (value_error "hunger must be between 0 and 1")
      else if not (in_unit s.thirst)
      then err (value_error "thirst must be between 0 and 1")
      else if not (in_unit s.fatigue)
      then err (value_error "fatigue must be between 0 and 1")
      else if not (in_unit s.panic)
      then err (value_error "panic must be between 0 and 1")
      else if not (in_unit s.injury)
      then err (value_error "injury must be between 0 and 1")
      else if not (elem s.mode ("SAFE" ∷ "ROAM" ∷ "PARTY" ∷ "HUNT" ∷ []))
      then err (value_error "unknown body mode")
      else if not (elem s.body_mode ("disabled" ∷ "sensor_only" ∷ "npc" ∷ []))
      then err (value_error "unknown execution body mode")
      else if s.npc_id == "" || ltb 96 (count s.npc_id)
      then err (value_error "invalid npc id")
      else ok s

-- `body_ready`
abbrev pub body_ready : {A : Type 0} → BodyState A → Bool
body_ready s = s.body_present && s.control_ready && s.npc_engine_ready
