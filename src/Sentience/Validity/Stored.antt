-- ===== src/Sentience/Validity/Stored.antt =====
-- Selves in use and selves that are saved: reading and writing them.
use zomboid_goblin.Sentience.{
  SelfState, new_self, Episode, Mind, Sentience, get_self, self_of, found_self, saved, remember,
}
use zomboid_goblin.Sentience.Steps.{record_goal}
use zomboid_goblin.Sentience.Validity.{IsValid}
use mathlib.Core.Option.{some-injective, none-ne-some}
use mathlib.Core.Path.{subst}
use zomboid_goblin.Base.{
  String, ◌≡◌, refl, inl, inr, Bool, true, false, Option, some, if◌then◌else◌, Bool-cases,
  Option-cases, ◌==◌, ℕ_eq, String_eq, Pair_eq,
}
use zomboid_goblin.Dict.{Dict, lookup, insert, lookup-insert}

abbrev pub AllValid : (String → Option SelfState) → Type 0
AllValid found = (npc_id : String) (s : SelfState) → found npc_id ≡ some s → IsValid s

new_self-IsValid :
    (npc_id : String) (name owner : Option String) → IsValid (new_self npc_id name owner)
unfolding new_self
new_self-IsValid npc_id name owner = record { state = inl (refl, refl, refl); held = tt }

pub AllValid-insert :
    (k : String) (s : SelfState) (d : Dict String SelfState)
    → IsValid s
    → AllValid (λ j. lookup j d)
    → AllValid (λ j. lookup j (insert k s d))
AllValid-insert k s d v all j t e = elim (Bool-cases (j == k)) [
  | inl same ↦ subst IsValid (some-injective s t (rw same at (rw (lookup-insert j k s d) at e))) v
  | inr other ↦ all j t (rw other at (rw (lookup-insert j k s d) at e))
]

module _ {M : Type 0} (mind : Mind M) where
  -- Each self is valid, the ones in use and the ones that are saved.
  pub record IsSound (st : Sentience M) : Type 0 where
    pub used : AllValid (λ j. lookup j st.selves)
    pub stored : AllValid (λ j. mind.load_self j st.mind)

  pub AllValid-save_self :
      (k : String) (s : SelfState) (m : M)
      → IsValid s
      → AllValid (λ j. mind.load_self j m)
      → AllValid (λ j. mind.load_self j (mind.save_self k s m))
  AllValid-save_self k s m v all j t e =
      let e' = rw (mind.load_self-save_self j k s m) at e in
      elim (Bool-cases (j == k)) [
        | inr other ↦ all j t (rw other at e')
        | inl same ↦ elim (Bool-cases (mind.fits s)) [
          | inl fit ↦ subst IsValid (some-injective s t (rw (same, fit) at e')) v
          | inr cut ↦ absurd (none-ne-some t (rw (same, cut) at e'))
        ]
      ]

  found-IsValid :
      (npc_id : String) (name owner : Option String) (st : Sentience M)
      → IsSound st
      → IsValid (found_self mind npc_id name owner st)
  found-IsValid npc_id name owner st sound = elim (Option-cases (lookup npc_id st.selves)) [
    | inr (s, e) ↦ rw e (sound.used npc_id s e)
    | inl e ↦ elim (Option-cases (mind.load_self npc_id st.mind)) [
      | inr (s, l) ↦ rw (e, l) (sound.stored npc_id s l)
      | inl l ↦ rw (e, l) (new_self-IsValid npc_id name owner)
    ]
  ]

  pub self_of-IsValid :
      (npc_id : String) (name owner : Option String) (st : Sentience M)
      → IsSound st
      → IsValid (self_of mind npc_id name owner st)
  unfolding self_of
  self_of-IsValid npc_id name owner st sound =
      let v = found-IsValid npc_id name owner st sound in record { state = v.state; held = v.held }

  pub IsSound-saved :
      (npc_id : String) (s : SelfState) (st : Sentience M)
      → IsValid s
      → IsSound st
      → IsSound (saved mind npc_id s st)
  unfolding saved
  IsSound-saved npc_id s st v sound = record {
    used = AllValid-insert npc_id s st.selves v sound.used;
    stored = AllValid-save_self npc_id s st.mind v sound.stored;
  }

  pub IsSound-remember :
      (npc_id : String) (e : Episode) (st : Sentience M)
      → IsSound st
      → IsSound (remember mind npc_id e st)
  IsSound-remember npc_id e st sound = record {
    used = sound.used;
    stored = λ j t h. sound.stored j t (rw (mind.load_self-record_episode j npc_id e st.mind) at h);
  }

  pub get_self-IsSound :
      (npc_id : String) (name owner : Option String) (st : Sentience M)
      → IsSound st
      → IsSound (get_self mind npc_id name owner st).1
  unfolding get_self
  get_self-IsSound npc_id name owner st sound = record {
    used =
        AllValid-insert npc_id (self_of mind npc_id name owner st) st.selves
          (self_of-IsValid npc_id name owner st sound) sound.used;
    stored = sound.stored;
  }

  pub IsSound-if :
      (b : Bool) (x y : Sentience M) → IsSound x → IsSound y → IsSound (if b then x else y)
  IsSound-if true x y hx hy = hx
  IsSound-if false x y hx hy = hy

  pub record_goal-IsSound :
      (npc_id : String) (completed : Bool) (s : SelfState) (st : Sentience M)
      → IsSound st
      → IsSound (record_goal mind npc_id completed s st)
  unfolding record_goal
  record_goal-IsSound npc_id completed s st sound = elim (Option-cases s.current_goal) [
    | inl e ↦ rw e sound
    | inr (g, e) ↦ rw e (IsSound-remember npc_id _ st sound)
  ]
