-- ===== src/Validator/Allowed.antt =====
-- What the allowed intents have in common with the controllers, and what is left of a checked text.
use zomboid_goblin.Text.Tables.{CharTables}
use zomboid_goblin.Text.Trim.{strip}
use zomboid_goblin.Text.Location.{has_location}
use zomboid_goblin.Driver.Gate.{safe_target_label}
use zomboid_goblin.Base.{count, ◌≤◌, ℕ, some, false}
use zomboid_goblin.Exec.{ok}
use mathlib.Core.Path.{subst}
use zomboid_goblin.Validator.{intents, mode_allows, checked_text, text}
use zomboid_goblin.Controllers.Actions.{mapping}
use zomboid_goblin.Modes.{Mode}
use zomboid_goblin.Base.{
  String, ◌≡◌, refl, sym, inl, inr, Bool, true, ◌&&◌, List, [], ◌∷◌, arith, Bool-cases, ◌==◌, ℕ_eq,
  String_eq, Pair_eq, elem,
}
use zomboid_goblin.Dict.{contains}

abbrev all_in : (String → Bool) → List String → Bool
all_in test [] = true
all_in test (x ∷ xs) = test x && all_in test xs

all_in-elem :
    (test : String → Bool) (x : String) (xs : List String)
    → all_in test xs ≡ true
    → elem x xs ≡ true
    → test x ≡ true
all_in-elem test x [] h e = cc
all_in-elem test x (y ∷ ys) h e = elim (Bool-cases (x == y)) [
  | inl same ↦ subst (λ z. test z ≡ true) (sym ((String_eq.beq_iff x y).0 same)) (ground arith)
  | inr other ↦ all_in-elem test x ys (ground arith) (ground arith)
]

abbrev implemented : String → Bool
implemented x = contains x mapping

intents-implemented : all_in implemented intents ≡ true
unfolding mapping
intents-implemented = refl

mode_allows-elem :
    (mode : Mode) (intent : String) → mode_allows mode intent ≡ true → elem intent intents ≡ true
unfolding mode_allows
mode_allows-elem mode intent h = ground (arith, Bool-cases (elem intent intents))

-- Each intent that the validator allows in some mode has an action in the table of the tactical
-- controller.
pub mode_allows-mapping :
    (mode : Mode) (intent : String)
    → mode_allows mode intent ≡ true
    → contains intent mapping ≡ true
mode_allows-mapping mode intent h =
    all_in-elem implemented intent intents intents-implemented (mode_allows-elem mode intent h)

module _ (tables : CharTables) where
  checked_text_parts :
      (field : String) (maximum : ℕ) (value v : String)
      → checked_text tables field maximum value ≡ ok v
      → (value ≡ v)
        × ((value == "") ≡ false)
        × (count value ≤ maximum)
        × (has_location tables value ≡ false)
  unfolding checked_text
  checked_text_parts field maximum value v h =
      (ground arith, ground arith, ground arith, ground arith)

  -- A text that `_text` returns, for a limit of at most 96, passes the test that the gate of the body
  -- makes of a target's label.
  pub text-safe_target_label :
      (field : String) (maximum : ℕ) (value v : String)
      → maximum ≤ 96
      → text tables field maximum value ≡ ok v
      → safe_target_label tables (some v) ≡ true
  unfolding text safe_target_label
  text-safe_target_label field maximum value v short h =
      let (same, full, bounded, clear) =
        checked_text_parts field maximum (strip tables value) v h in
      let (full', bounded', clear') =
        subst (λ z. ((z == "") ≡ false) × (count z ≤ maximum) × (has_location tables z ≡ false))
          same (full, bounded, clear) in
      ground (arith, full', bounded', clear', short)
