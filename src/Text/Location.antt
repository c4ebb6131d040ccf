-- ===== src/Text/Location.antt =====
-- The location pattern that hunt.py, body.py, events.py and validator.py search for, ignoring case:
-- `\bcoordinates?\b`, `\b[xyz]\s*[:=]`, `\bcell\s*[:=]` and `\bchunk\s*[:=]`.
use Prim.Native.Char.{Char, code}
use zomboid_goblin.Base.{
  ℕ_eq, String, Bool, true, false, not, ◌&&◌, ◌||◌, ◌==◌, Option, none, some, if◌then◌else◌,
}
use mathlib.Core.Bool.{beq}
use zomboid_goblin.Text.Tables.{CharTables}

module _ (tables : CharTables) where
  open tables use {is_word, re_space, same_letter}

  abbrev word_before : Option Char → Bool
  word_before none = false
  word_before (some c) = is_word c

  abbrev word_after : String → Bool
  word_after String.[] = false
  word_after (String.◌∷◌ c s) = is_word c

  -- `\b` between the character before and the text after
  abbrev boundary : Option Char → String → Bool
  boundary before after = not (beq (word_before before) (word_after after))

  -- A literal from the front: the last character that it matched, and the text behind it.
  unfoldable pub match_literal : String → Option Char → String → Option (Option Char × String)
  match_literal String.[] last text = some (last, text)
  match_literal (String.◌∷◌ p ps) last String.[] = none
  match_literal (String.◌∷◌ p ps) last (String.◌∷◌ c cs) =
      let rest = match_literal ps (some c) cs in if same_letter p c then rest else none

  -- `\s*[:=]`
  unfoldable pub spaces_then_sign : String → Bool
  spaces_then_sign String.[] = false
  spaces_then_sign (String.◌∷◌ c s) =
      let rest = spaces_then_sign s in
      if code c == b':' || code c == b'=' then true else if re_space c then rest else false

  -- `word\s*[:=]`
  unfoldable pub word_then_sign : String → String → Bool
  unfolding match_literal spaces_then_sign
  word_then_sign word text = elim (match_literal word none text) [
    | none ↦ false
    | some (_, rest) ↦ spaces_then_sign rest
  ]

  -- `s?\b`: the longer match first, then without the letter
  abbrev optional_s : Option Char × String → Bool
  optional_s (last, text) =
      elim (match_literal "s" last text) [ none ↦ false | some (last', rest) ↦ boundary last' rest ]
      || boundary last text

  unfoldable pub location_here : String → Bool
  unfolding word_then_sign
  location_here text =
      elim (match_literal "coordinate" none text) [ none ↦ false | some found ↦ optional_s found ]
      || word_then_sign "x" text
      || word_then_sign "y" text
      || word_then_sign "z" text
      || word_then_sign "cell" text
      || word_then_sign "chunk" text

  -- `search`: every alternative begins at a word boundary.
  unfoldable pub search_from : Option Char → String → Bool
  unfolding location_here
  search_from before String.[] = false
  search_from before (String.◌∷◌ c s) =
      boundary before (String.◌∷◌ c s) && location_here (String.◌∷◌ c s) || search_from (some c) s

  unfoldable pub has_location : String → Bool
  unfolding search_from
  has_location text = search_from none text
