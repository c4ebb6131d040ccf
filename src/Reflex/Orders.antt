-- ===== src/Reflex/Orders.antt =====
-- `normalize` and `_action_match` of goblin_zomboid/reflex.py: which chat asks for something to be done.
use Prim.Native.String.{◌++◌ as str_append}
use zomboid_goblin.Text.Trim.{casefold}
use Prim.Native.Char.{Char, code}
use zomboid_goblin.Text.Tables.{CharTables, is_lower}
use zomboid_goblin.Reflex.Bank.{action_words, action_stems, endings}
use zomboid_goblin.Social.Speech.{words, join_words}
use zomboid_goblin.Base.{
  ℕ, ◌-◌, String, count, Bool, true, false, not, ◌&&◌, ◌||◌, Option, none, some, List, [], ◌∷◌, map,
  leb, if◌then◌else◌, ◌==◌, ℕ_eq, String_eq, Pair_eq, elem,
}

-- `any(...)`
unfoldable pub any {ℓ} : {A : Type ℓ} → (A → Bool) → List A → Bool
any p [] = false
any p (x ∷ xs) = p x || any p xs

abbrev differ : Bool → Bool → Bool
differ a b = if a then not b else b

-- `[a-z']`
abbrev plain_letter : Char → Bool
plain_letter c = is_lower c || code c == 39

-- The words with one letter taken out, for `_ACTION_TYPOS`
unfoldable pub deletions : String → List String
deletions String.[] = []
deletions (String.◌∷◌ c s) = s ∷ map (λ t. String.◌∷◌ c t) (deletions s)

-- `token in _ACTION_TYPOS`
unfoldable pub is_typo : String → Bool
unfolding any deletions
is_typo token = any (λ word. leb 4 (count word) && elem token (deletions word)) action_words

module _ (tables : CharTables) where
  open tables use {is_word, is_space}

  -- Whether a character of `\w` comes next
  abbrev word_next : String → Bool
  word_next String.[] = false
  word_next (String.◌∷◌ c s) = is_word c

  -- A literal at the beginning of the text, and `\b` behind it if `whole`
  unfoldable pub literal_here : Bool → Bool → String → String → Bool
  literal_here whole last String.[] text = not whole || differ last (word_next text)
  literal_here whole last (String.◌∷◌ p ps) String.[] = false
  literal_here whole last (String.◌∷◌ p ps) (String.◌∷◌ c s) =
      let rest = literal_here whole (is_word c) ps s in code p == code c && rest

  -- `_ACTION_RE` at one place; `last` tells whether a character of `\w` stands before it.
  unfoldable pub action_here : Bool → String → Bool
  unfolding any literal_here
  action_here last text =
      differ last (word_next text)
      && (any (λ word. any (λ ending. literal_here true last (str_append word ending) text) endings)
            action_words
          || any (λ stem. literal_here false last stem text) action_stems)

  -- `_ACTION_RE.search(...)`
  unfoldable pub has_action : Bool → String → Bool
  unfolding action_here
  has_action last String.[] = false
  has_action last (String.◌∷◌ c s) = action_here last (String.◌∷◌ c s) || has_action (is_word c) s

  -- `re.sub(r"\b...\b", " ", text)` for one word; `skip` characters of a match are still to go.
  unfoldable pub drop_word : String → ℕ → Bool → String → String
  unfolding literal_here
  drop_word word skip last String.[] = String.[]
  drop_word word skip last (String.◌∷◌ c s) =
      let here =
        skip == 0 && differ last (is_word c) && literal_here true last word (String.◌∷◌ c s) in
      let rest = drop_word word (if here then count word - 1 else skip - 1) (is_word c) s in
      if here then str_append " " rest else if skip == 0 then String.◌∷◌ c rest else rest

  -- `_WORD_RE.findall(...)`: the runs between all other characters
  unfoldable pub found_words : String → List String
  unfolding words
  found_words text = words (record tables { is_space = λ c. not (plain_letter c) }) text

  abbrev first_word : List String → String
  first_word [] = ""
  first_word (w ∷ ws) = w

  abbrev without : String → String → String
  without word text = if word == "" then text else drop_word word 0 false text

  -- `normalize`
  unfoldable pub normalize : String → Option String → String
  unfolding casefold words drop_word found_words join_words
  normalize text name =
      let lower = drop_word "goblin" 0 false (casefold tables text) in
      join_words tables (
        found_words (elim name [
          | none ↦ lower
          | some n ↦ without (first_word (words tables (casefold tables n))) lower
        ]))

  -- `_action_match`
  unfoldable pub action_match : String → Bool
  unfolding has_action words is_typo any
  action_match text =
      has_action false text || any (λ t. leb 3 (count t) && is_typo t) (words tables text)

  -- `looks_like_action`
  unfoldable pub looks_like_action : String → Bool
  unfolding normalize action_match
  looks_like_action text = action_match (normalize text none)
