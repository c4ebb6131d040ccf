-- ===== src/Sentience/Validity/Chats.antt =====
-- What is said to a Goblin leaves every self as it is.
use zomboid_goblin.Json.{ℤ}
use zomboid_goblin.Sentience.{Event, Mind, Sentience}
use zomboid_goblin.Sentience.Social.{
  social, heard, chat_event, opinion_from_event, nudged, like_activity, kind_of_chat,
}
use zomboid_goblin.Sentience.Validity.Stored.{IsSound}
use zomboid_goblin.Base.{
  String, ◌≡◌, refl, sym, ◌∙◌, inl, inr, Bool, true, false, Option, none, some, [], ◌∷◌,
  if◌then◌else◌, Option-cases, some_or, ◌==◌, ℕ_eq, String_eq, Pair_eq, elem,
}
use zomboid_goblin.Dict.{lookup}

module _ {M : Type 0} (lower : String → String) (mind : Mind M) where
  -- A change of the memory that no saved self is changed by
  Keeps : (M → M) → Type 0
  Keeps f = (j : String) (m : M) → mind.load_self j (f m) ≡ mind.load_self j m

  Keeps-if : (b : Bool) (f g : M → M) → Keeps f → Keeps g → Keeps (λ m. if b then f m else g m)
  unfolding Keeps
  Keeps-if true f g h k = h
  Keeps-if false f g h k = k

  like_activity-Keeps :
      (npc_id activity : String) (delta : ℤ)
      → Keeps (like_activity lower mind npc_id activity delta)
  unfolding Keeps
  like_activity-Keeps npc_id activity delta =
      Keeps-if (activity == "") (λ m. m) _ (λ j m. refl)
        (λ j m. mind.load_self-nudge_opinion j npc_id _ _ _ m)

  nudged-Keeps : (npc_id owner : String) (e : Event) → Keeps (nudged lower mind npc_id owner e)
  unfolding Keeps
  nudged-Keeps npc_id owner e =
      let nudge = λ (a b : String) (n : ℤ) (j : String) (m : M).
        mind.load_self-nudge_opinion j npc_id a b n m in
      Keeps-if (elem e.kind ("owner_hurt" ∷ "owner_bitten" ∷ "horde" ∷ [])) _ _ (nudge _ _ _) (
        Keeps-if (e.kind == "owner_praised") _ _ (nudge _ _ _) (
          Keeps-if (e.kind == "owner_insulted") _ _ (nudge _ _ _) (
            Keeps-if (e.kind == "job_complete") _ _ (like_activity-Keeps npc_id _ _) (
              Keeps-if (e.kind == "job_failed") _ (λ m. m) (like_activity-Keeps npc_id _ _)
                λ j m. refl))))

  opinion_from_event-Keeps :
      (npc_id : String) (owner : Option String) (e : Event)
      → Keeps (opinion_from_event lower mind npc_id owner e)
  unfolding Keeps opinion_from_event
  opinion_from_event-Keeps npc_id none e = λ j m. refl
  opinion_from_event-Keeps npc_id (some owner) e = nudged-Keeps npc_id owner e

  heard-IsSound :
      (npc_id : String) (owner : Option String) (e : Event) (st : Sentience M)
      → IsSound mind st
      → IsSound mind (heard lower mind npc_id owner e st)
  unfolding Keeps
  heard-IsSound npc_id owner e st h = record {
    used = h.used;
    stored = λ j s l. h.stored j s (sym (opinion_from_event-Keeps npc_id owner e j st.mind) ∙ l);
  }

  pub social-IsSound :
      (npc_id : String) (owner category : Option String) (text : String) (st : Sentience M)
      → IsSound mind st
      → IsSound mind (social lower mind npc_id owner category text st)
  unfolding social
  social-IsSound npc_id owner category text st h =
      elim (Option-cases (lookup (lower (some_or category "")) kind_of_chat)) [
        | inl other ↦ rw (social, other) h
        | inr (kind, e) ↦
            rw (social, e) (heard-IsSound npc_id owner (chat_event lower mind owner text kind) st h)
      ]
