-- ===== src/Sentience/Squash.antt =====
-- `_text` of goblin_zomboid/sentience.py.
use zomboid_goblin.Json.{Value, str_value}
use zomboid_goblin.Text.Tables.{CharTables}
use zomboid_goblin.Text.Trim.{take_chars}
use zomboid_goblin.Base.{
  ℕ, String, Bool, false, not, ◌&&◌, ◌||◌, Option, none, some, if◌then◌else◌, ◌==◌, ℕ_eq, String_eq,
  Pair_eq,
}

module _ (tables : CharTables) where
  -- The words of a text: whether one has begun, and whether a space is behind it.
  unfoldable pub words_from : Bool → Bool → String → String
  words_from begun gap String.[] = String.[]
  words_from begun gap (String.◌∷◌ c s) =
      let space = tables.is_space c in
      let rest = words_from (begun || not space) space s in
      if space
      then rest
      else if begun && gap
      then String.◌∷◌ " " (String.◌∷◌ c rest)
      else String.◌∷◌ c rest

  -- `" ".join(value.split())`
  unfoldable pub squash : String → String
  unfolding words_from
  squash s = words_from false false s

  -- `_text`
  unfoldable pub clean_text : ℕ → Option Value → Option String
  unfolding squash
  clean_text limit (some (str_value s)) =
      let words = squash s in if words == "" then none else some (take_chars limit words)
  clean_text limit _ = none
