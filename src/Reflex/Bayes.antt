-- ===== src/Reflex/Bayes.antt =====
-- `features` and `NaiveBayes.probabilities` of goblin_zomboid/reflex.py. Training, and the reading
-- and writing of the model's file, are left out.
use Prim.Native.String.{◌++◌ as str_append}
use zomboid_goblin.Text.Trim.{take_chars}
use zomboid_goblin.Text.Tables.{CharTables}
use zomboid_goblin.Reflex.Orders.{any}
use zomboid_goblin.Social.Speech.{words}
use zomboid_goblin.Base.{
  ◌-◌, String, count, Bool, Option, none, some, List, [], ◌∷◌, ◌++◌, map, leb, if◌then◌else◌,
  some_or, ℕ_eq, String_eq, Pair_eq, elem, take, keep_if,
}
use zomboid_goblin.Dict.{Dict, lookup, contains, insert}

-- What the code uses of floats
pub record Floats (P : Type 0) : Type 0 where
  pub zero_float : P
  pub one_float : P
  pub plus : P → P → P
  -- `sum(...)`
  pub sum : List P → P
  pub minus : P → P → P
  pub divided : P → P → P
  pub exp : P → P
  pub less : P → P → Bool

pub record NaiveBayes (P : Type 0) : Type 0 where
  pub classes : List String
  pub log_prior : Dict String P
  pub log_likelihood : Dict String (Dict String P)
  pub log_unknown : Dict String P

-- `b:{a}_{b}` for neighbours
unfoldable pub neighbours : List String → List String
neighbours [] = []
neighbours (a ∷ []) = []
neighbours (a ∷ b ∷ ws) = str_append "b:" (str_append a (str_append "_" b)) ∷ neighbours (b ∷ ws)

-- `padded[i:i + 3]` for every place
unfoldable pub windows : String → List String
unfolding take_chars
windows String.[] = []
windows (String.◌∷◌ c s) = take_chars 3 (String.◌∷◌ c s) ∷ windows s

unfoldable pub trigrams : String → List String
unfolding windows
trigrams padded =
    map (str_append "c:")
      (take (if leb (count padded) 3 then 1 else count padded - 2) (windows padded))

unfoldable pub all_trigrams : List String → List String
unfolding trigrams
all_trigrams [] = []
all_trigrams (w ∷ ws) = trigrams (str_append "<" (str_append w ">")) ++ all_trigrams ws

-- `features`
unfoldable pub features : CharTables → String → List String
unfolding words neighbours all_trigrams
features tables text =
    let ws = words tables text in
    map (str_append "w:") ws
    ++ neighbours ws
    ++ all_trigrams ws
    ++ (elim ws [ [] ↦ "empty" ∷ [] | w ∷ vs ↦ [] ])

module _ {P : Type 0} (floats : Floats P) where
  open floats use {zero_float, one_float, plus, sum, minus, divided, exp, less}

  -- The likelihoods of each class; a class without any is a `KeyError`.
  unfoldable pub class_tables :
      Dict String (Dict String P) → List String → Option (List (String × Dict String P))
  class_tables table [] = some []
  class_tables table (c ∷ cs) = elim (lookup c table) [
    | none ↦ none
    | some t ↦ elim (class_tables table cs) [ none ↦ none | some ts ↦ some ((c, t) ∷ ts) ]
  ]

  -- `any(f in self.log_likelihood[c] ...)`
  unfoldable pub is_known : List (String × Dict String P) → String → Bool
  unfolding any
  is_known ts f = any (λ (c, table). contains f table) ts

  abbrev score : P → P → Dict String P → List String → P
  score prior unknown table known =
      plus prior (sum (map (λ f. some_or (lookup f table) unknown) known))

  -- `scores`, into which a class is put behind those before it
  unfoldable pub score_all :
      NaiveBayes P
      → List String
      → List (String × Dict String P)
      → Dict String P
      → Option (Dict String P)
  score_all model known [] scores = some scores
  score_all model known ((c, table) ∷ ts) scores = elim (lookup c model.log_unknown) [
    | none ↦ none
    | some unknown ↦ elim (lookup c model.log_prior) [
      | none ↦ none
      | some prior ↦ score_all model known ts (insert c (score prior unknown table known) scores)
    ]
  ]

  abbrev later_max : P → P → P
  later_max best p = if less best p then p else best

  unfoldable pub largest_from : P → List P → P
  largest_from best [] = best
  largest_from best (p ∷ ps) = largest_from (later_max best p) ps

  -- `max(scores.values())`; there are scores, since a known feature has a class.
  abbrev largest : List P → P
  largest [] = zero_float
  largest (p ∷ ps) = largest_from p ps

  abbrev powers_of : Dict String P → Dict String P
  powers_of scores =
      let top = largest (map (λ (c, v). v) scores) in map (λ (c, s). (c, exp (minus s top))) scores

  abbrev shares : Dict String P → Dict String P
  shares powers =
      let whole = sum (map (λ (c, v). v) powers) in map (λ (c, v). (c, divided v whole)) powers

  abbrev chances :
      NaiveBayes P → List (String × Dict String P) → List String → Option (Dict String P)
  chances model ts [] = some (if elem "OTHER" model.classes then ("OTHER", one_float) ∷ [] else [])
  chances model ts (f ∷ fs) = elim (score_all model (f ∷ fs) ts []) [
    | none ↦ none
    | some scores ↦ some (shares (powers_of scores))
  ]

  -- `NaiveBayes.probabilities`; `none` is a `KeyError`.
  unfoldable pub probabilities : CharTables → NaiveBayes P → String → Option (Dict String P)
  unfolding features class_tables is_known score_all largest_from
  probabilities tables model normalized = elim (class_tables model.log_likelihood model.classes) [
    | none ↦ none
    | some ts ↦ chances model ts (keep_if (is_known ts) (features tables normalized))
  ]
