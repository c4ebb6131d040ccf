-- ===== src/Social/Speech.antt =====
-- `compact_speech` and `sanitize_speech`: one short, harmless line of speech.
use zomboid_goblin.Text.Location.{match_literal}
use zomboid_goblin.Text.Trim.{strip, take_chars}
use zomboid_goblin.Text.Tables.{CharTables}
use Prim.Native.String.{◌++◌ as str_append, len}
use Prim.Native.Char.{Char, code}
use text.Mathlib.Text.{starts_with}
use zomboid_goblin.Base.{
  ℕ, ◌+◌, ◌-◌, String, count, Bool, true, false, not, ◌&&◌, ◌||◌, Option, none, some, List, [], ◌∷◌,
  ltb, leb, if◌then◌else◌, ◌==◌, ℕ_eq, String_eq, Pair_eq, elem,
}
use zomboid_goblin.Exec.{value_error, Result, ok, err}

abbrev pub speech_limit : ℕ
speech_limit = 140

-- `text.encode("utf-8")[:n].decode("utf-8", errors="ignore")`: whole characters while they fit.
unfoldable pub utf8_prefix : ℕ → String → String
utf8_prefix n String.[] = String.[]
utf8_prefix n (String.◌∷◌ c s) =
    let width = len (String.◌∷◌ c String.[]) in
    let rest = utf8_prefix (n - width) s in if leb width n then String.◌∷◌ c rest else String.[]

-- `[\"\u201d\u2019\']`
abbrev closing_quote : Char → Bool
closing_quote c = elem (code c) (34 ∷ 8221 ∷ 8217 ∷ 39 ∷ [])

-- `[.!?]`
abbrev sentence_mark : Char → Bool
sentence_mark c = elem (code c) (b'.' ∷ b'!' ∷ b'?' ∷ [])

module _ (tables : CharTables) where
  open tables use {is_space, re_space, same_letter}

  -- `(?=\s|$)`
  abbrev at_gap : String → Bool
  at_gap String.[] = true
  at_gap (String.◌∷◌ c s) = re_space c

  -- The characters that `[.!?]["”’']?(?=\s|$)` takes here, if it matches: with the quote first.
  unfoldable pub sentence_end : String → Option ℕ
  sentence_end String.[] = none
  sentence_end (String.◌∷◌ c String.[]) = if sentence_mark c then some 1 else none
  sentence_end (String.◌∷◌ c (String.◌∷◌ d s)) =
      if not (sentence_mark c)
      then none
      else if closing_quote d && at_gap s
      then some 2
      else if re_space d
      then some 1
      else none

  -- `ends[-1].end()`, from the character number `at` on
  unfoldable pub last_end : ℕ → String → Option ℕ
  unfolding sentence_end
  last_end at String.[] = none
  last_end at (String.◌∷◌ c s) = elim (last_end (at + 1) s) [
    | some e ↦ some e
    | none ↦ elim (sentence_end (String.◌∷◌ c s)) [ none ↦ none | some n ↦ some (at + n) ]
  ]

  abbrev begins_word : String → Bool
  begins_word String.[] = false
  begins_word (String.◌∷◌ c s) = not (is_space c)

  abbrev push_char : Char → Bool → List String → List String
  push_char c true (w ∷ ws) = String.◌∷◌ c w ∷ ws
  push_char c _ ws = String.◌∷◌ c String.[] ∷ ws

  -- `text.split()`
  unfoldable pub words : String → List String
  words String.[] = []
  words (String.◌∷◌ c s) =
      let rest = words s in if is_space c then rest else push_char c (begins_word s) rest

  -- `" ".join(...)`
  unfoldable pub join_words : List String → String
  join_words [] = ""
  join_words (w ∷ []) = w
  join_words (w ∷ v ∷ ws) = str_append w (str_append " " (join_words (v ∷ ws)))

  -- `prefix.rsplit(" ", 1)[0] if " " in prefix`
  unfoldable pub before_last_space : String → Option String
  before_last_space String.[] = none
  before_last_space (String.◌∷◌ c s) = elim (before_last_space s) [
    | some p ↦ some (String.◌∷◌ c p)
    | none ↦ if code c == 32 then some String.[] else none
  ]

  -- `.rstrip(",;:-")`
  unfoldable pub rstrip_marks : String → String
  rstrip_marks String.[] = String.[]
  rstrip_marks (String.◌∷◌ c s) =
      let rest = rstrip_marks s in
      if elem (code c) (b',' ∷ b';' ∷ b':' ∷ b'-' ∷ []) && rest == ""
      then String.[]
      else String.◌∷◌ c rest

  -- The last complete sentence that fits, or else whole words and an ellipsis.
  unfoldable pub shorten : String → String
  unfolding utf8_prefix last_end before_last_space rstrip_marks
  shorten text = elim (last_end 0 (utf8_prefix speech_limit text)) [
    | some e ↦ take_chars e text
    | none ↦ elim (before_last_space (utf8_prefix (speech_limit - 3) text)) [
      | none ↦ "..."
      | some p ↦ str_append (rstrip_marks p) "..."
    ]
  ]

  unfoldable pub fit : String → String
  fit text = if leb (len text) speech_limit then text else shorten text

  -- `compact_speech`
  unfoldable pub compact_speech : String → String
  unfolding words join_words fit
  compact_speech text = fit (join_words (words text))

  -- `_CONTROL_RE.sub("", text)`
  abbrev pub control : ℕ → Bool
  control n = leb n 8 || n == 11 || n == 12 || leb 14 n && leb n 31 || n == 127

  unfoldable pub drop_control : String → String
  drop_control String.[] = String.[]
  drop_control (String.◌∷◌ c s) =
      let rest = drop_control s in if control (code c) then rest else String.◌∷◌ c rest

  -- `"```" in text`
  unfoldable pub has_fence : String → Bool
  has_fence String.[] = false
  has_fence (String.◌∷◌ c s) = starts_with (String.◌∷◌ c s) "```" || has_fence s

  -- `\s*:`
  unfoldable pub spaces_then_colon : String → Bool
  spaces_then_colon String.[] = false
  spaces_then_colon (String.◌∷◌ c s) =
      let rest = spaces_then_colon s in
      if code c == b':' then true else if re_space c then rest else false

  abbrev keyword_then_colon : String → String → Bool
  keyword_then_colon word text = elim (match_literal tables word none text) [
    | none ↦ false
    | some (_, rest) ↦ spaces_then_colon rest
  ]

  abbrev payload_here : String → Bool
  payload_here text =
      keyword_then_colon "lua" text
      || keyword_then_colon "shell" text
      || keyword_then_colon "exec" text
      || keyword_then_colon "eval" text

  -- `(?:^|\s)(?:lua|shell|exec|eval)\s*:`: `fresh` at the beginning and behind a space
  unfoldable pub has_payload : Bool → String → Bool
  unfolding spaces_then_colon
  has_payload fresh String.[] = fresh && payload_here String.[]
  has_payload fresh (String.◌∷◌ c s) =
      fresh && payload_here (String.◌∷◌ c s) || has_payload (re_space c) s

  -- `sanitize_speech`
  unfoldable pub sanitize_speech : String → Result String
  unfolding drop_control has_fence has_payload compact_speech
  sanitize_speech text =
      let clean = strip tables (drop_control text) in
      if clean == "" || ltb 240 (count clean)
      then err (value_error "speech length is unsafe")
      else if has_fence clean || has_payload true clean
      then err (value_error "speech looks like an executable payload")
      else ok (compact_speech clean)
