-- ===== src/Sentience/Social.antt =====
-- `social` and `_opinion_from_event` of goblin_zomboid/sentience.py. `lower` is `str.lower`.
use zomboid_goblin.Text.Trim.{take_chars}
use Prim.Native.Char.{code}
use Prim.Native.String.{◌++◌ as str_append}
use zomboid_goblin.Json.{pos, ℤ, negsuc}
use zomboid_goblin.Sentience.{Event, Mind, Sentience, weight_of, inbox_of, given}
use zomboid_goblin.Base.{
  String, Option, none, some, [], ◌∷◌, ◌++◌, if◌then◌else◌, some_or, ◌==◌, ℕ_eq, String_eq, Pair_eq,
  elem,
}
use zomboid_goblin.Dict.{Dict, lookup, insert}

-- The kind of event that a category of chat is
abbrev pub kind_of_chat : Dict String String
kind_of_chat =
    ("praise", "owner_praised") ∷ ("thanks", "owner_praised") ∷ ("insult", "owner_insulted") ∷ []

-- `text.split(" ")[0]`
unfoldable pub first_part : String → String
first_part String.[] = String.[]
first_part (String.◌∷◌ c s) =
    let rest = first_part s in if code c == 32 then String.[] else String.◌∷◌ c rest

module _ {M : Type 0} (lower : String → String) (mind : Mind M) where
  abbrev pub like_activity : String → String → ℤ → M → M
  like_activity npc_id activity delta m =
      if activity == ""
      then m
      else mind.nudge_opinion npc_id (str_append "activity:" activity) "preference" delta m

  -- `_opinion_from_event`, of an owner who has a name
  abbrev pub nudged : String → String → Event → M → M
  nudged npc_id owner e m =
      if elem e.kind ("owner_hurt" ∷ "owner_bitten" ∷ "horde" ∷ [])
      then mind.nudge_opinion npc_id (lower owner) "reckless" (pos 40) m
      else if e.kind == "owner_praised"
      then mind.nudge_opinion npc_id (lower owner) "generous" (pos 50) m
      else if e.kind == "owner_insulted"
      then mind.nudge_opinion npc_id (lower owner) "respect" (negsuc 49) m
      else if e.kind == "job_complete"
      then like_activity npc_id (lower (first_part e.text)) (pos 20) m
      else if e.kind == "job_failed"
      then like_activity npc_id (lower (first_part e.text)) (negsuc 29) m
      else m

  unfoldable pub opinion_from_event : String → Option String → Event → M → M
  unfolding first_part
  opinion_from_event npc_id none e m = m
  opinion_from_event npc_id (some owner) e m = nudged npc_id owner e m

  abbrev pub chat_event : Option String → String → String → Event
  chat_event owner text kind =
      let (importance, valence) = weight_of kind in
      record {
        kind = kind;
        text =
            str_append (some_or (given owner) "my comrade")
              (str_append " said: " (take_chars 80 text));
        importance = importance;
        valence = valence;
      }

  abbrev pub heard : String → Option String → Event → Sentience M → Sentience M
  heard npc_id owner e st = record st {
    inbox = insert npc_id (inbox_of mind npc_id st ++ (e ∷ [])) st.inbox;
    mind = opinion_from_event npc_id owner e st.mind;
  }

  -- `social`
  unfoldable pub social :
      String → Option String → Option String → String → Sentience M → Sentience M
  unfolding opinion_from_event
  social npc_id owner category text st = elim (lookup (lower (some_or category "")) kind_of_chat) [
    | none ↦ st
    | some kind ↦ heard npc_id owner (chat_event owner text kind) st
  ]
