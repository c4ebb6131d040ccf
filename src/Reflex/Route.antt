-- ===== src/Reflex/Route.antt =====
-- `ReflexRouter` of goblin_zomboid/reflex.py. The latency of a decision is left out, and
-- `random.choice` is a parameter.
use Prim.Native.String.{◌++◌ as str_append}
use zomboid_goblin.Text.Trim.{strip}
use zomboid_goblin.Sentience.{given}
use text.Mathlib.Text.{starts_with}
use zomboid_goblin.Text.Tables.{CharTables}
use zomboid_goblin.Reflex.Bank.{social_categories, reply_bank}
use zomboid_goblin.Reflex.Orders.{normalize, action_match}
use zomboid_goblin.Reflex.Bayes.{Floats, NaiveBayes, probabilities}
use zomboid_goblin.Social.Speech.{sanitize_speech, words}
use zomboid_goblin.Base.{
  ℕ, ◌-◌, String, count, Bool, true, not, ◌&&◌, ◌||◌, Option, none, some, List, [], ◌∷◌, ltb,
  if◌then◌else◌, is_some, some_or, ◌==◌, ℕ_eq, String_eq, Pair_eq, elem, length, keep_if,
}
use zomboid_goblin.Exec.{Result, ok, err}
use zomboid_goblin.Dict.{Dict, lookup, insert}

pub data Route : Type 0 where
  social action fallback : Route

-- `ReflexDecision`
pub record ReflexDecision (P : Type 0) : Type 0 where
  pub route : Route
  pub category : String
  pub confidence : P
  pub reply : Option String
  pub reason : String

-- `ReflexRouter`, with the state `R` of its random numbers
pub record Router (P R : Type 0) : Type 0 where
  pub model : Option (NaiveBayes P)
  pub error : Option String
  pub threshold : P
  pub max_words : ℕ
  pub random : R
  pub last_reply : Dict String String

-- A call of `route`; a text that is no `str` is `none`.
pub record Chat : Type 0 where
  pub text : Option String
  pub owner : String
  pub companion_name : Option String
  pub direct_action : Option String

-- `line.replace(...)`; `skip` characters of a match are still to go.
unfoldable pub replace_from : ℕ → String → String → String → String
replace_from skip old new String.[] = String.[]
replace_from skip old new (String.◌∷◌ c s) =
    let here = skip == 0 && starts_with (String.◌∷◌ c s) old in
    let rest = replace_from (if here then count old - 1 else skip - 1) old new s in
    if here then str_append new rest else if skip == 0 then String.◌∷◌ c rest else rest

-- `template.replace("{owner}", owner or "comrade")`
unfoldable pub addressed : String → String → String
unfolding replace_from
addressed owner template =
    replace_from 0 "{owner}" (if owner == "" then "comrade" else owner) template

abbrev differs : Option String → String → Bool
differs none line = true
differs (some last) line = not (line == last)

-- `[line for line in bank if line != last] or list(bank)`
unfoldable pub choices : Option String → List String → List String
choices last bank = elim (keep_if (differs last) bank) [ [] ↦ bank | l ∷ ls ↦ l ∷ ls ]

module _ {P R : Type 0} (floats : Floats P) (tables : CharTables)
    (choice : List String → R → String × R) where
  open floats use {zero_float, one_float, less}

  abbrev Decided : Type 0
  Decided = ReflexDecision P × Router P R

  -- A decision without a reply
  abbrev pub silent : Route → String → P → String → Router P R → Decided
  silent route category confidence reason r = (
    record {
      route = route;
      category = category;
      confidence = confidence;
      reply = none;
      reason = reason;
    },
    r,
  )

  -- `_reply`, behind `sanitize_speech`
  abbrev pub drawn_reply : String → String → Result String → Router P R → Option String × Router P R
  drawn_reply owner template (err x) r = (none, r)
  drawn_reply owner template (ok clean) r =
      (some clean, record r { last_reply = insert owner template r.last_reply })

  abbrev pub from_bank : String → Option (List String) → Router P R → Option String × Router P R
  from_bank owner none r = (none, r)
  from_bank owner (some bank) r =
      let (template, after) = choice (choices (lookup owner r.last_reply) bank) r.random in
      drawn_reply owner template (sanitize_speech tables (addressed owner template))
        (record r { random = after })

  -- `_reply`
  unfoldable pub pick_reply : String → String → Router P R → Option String × Router P R
  unfolding choices
  pick_reply category owner r = from_bank owner (lookup category reply_bank) r

  abbrev pub answered : String → P → Option String × Router P R → Decided
  answered category confidence (none, r) =
      silent fallback category confidence "reply failed sanitization" r
  answered category confidence (some line, r) = (
    record {
      route = social;
      category = category;
      confidence = confidence;
      reply = some line;
      reason = "reflex social reply";
    },
    r,
  )

  -- `max(probabilities.items(), ...)`
  unfoldable pub most_likely : String × P → Dict String P → String × P
  most_likely best [] = best
  most_likely best (p ∷ ps) = most_likely (if less best.1 p.1 then p else best) ps

  -- From the category on
  unfoldable pub answer : String → String × P → Router P R → Decided
  answer owner (category, confidence) r =
      if category == "ACTION"
      then silent action "ACTION" confidence "model flagged an action request" r
      else if not (elem category social_categories) || less confidence r.threshold
      then silent fallback category confidence "not confidently social" r
      else answered category confidence (pick_reply category owner r)

  abbrev pub weighed : String → Option (Dict String P) → Router P R → Decided
  weighed owner none r = silent fallback "OTHER" zero_float "reflex error: KeyError" r
  weighed owner (some []) r = silent fallback "OTHER" zero_float "no known features" r
  weighed owner (some (p ∷ ps)) r = answer owner (most_likely p ps) r

  abbrev pub modelled : String → String → Option (NaiveBayes P) → Router P R → Decided
  modelled owner normalized none r =
      silent fallback "OTHER" zero_float (some_or (given r.error) "reflex model unavailable") r
  modelled owner normalized (some model) r =
      if ltb r.max_words (length (words tables normalized))
      then silent fallback "OTHER" zero_float "long chat goes to Qwen" r
      else weighed owner (probabilities floats tables model normalized) r

  -- From `if not self.available` on
  unfoldable pub classify : String → String → Router P R → Decided
  unfolding words most_likely
  classify owner normalized r = modelled owner normalized r.model r

  abbrev pub read_chat : Chat → String → Router P R → Decided
  read_chat c text r =
      let normalized = normalize tables text c.companion_name in
      if strip tables text == ""
      then silent fallback "OTHER" zero_float "empty chat" r
      else if action_match tables normalized
      then silent action "ACTION" one_float "action words bypass reflex" r
      else classify c.owner normalized r

  abbrev pub read_text : Chat → Option String → Router P R → Decided
  read_text c none r = silent fallback "OTHER" zero_float "empty chat" r
  read_text c (some text) r = read_chat c text r

  -- `route`
  unfoldable pub route_chat : Chat → Router P R → Decided
  route_chat c r =
      if is_some (given c.direct_action)
      then silent action "ACTION" one_float "server already dispatched a direct order" r
      else read_text c c.text r
