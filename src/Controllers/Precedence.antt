-- ===== src/Controllers/Precedence.antt =====
-- Which controller decides, and for whom.
use mathlib.Core.Option.{none-ne-some, some-injective}
use zomboid_goblin.Controllers.Levels.{BodyState, Scale, overwhelming, body_ready}
use zomboid_goblin.Controllers.{
  tactical_decide, bodiless_decide, make_action, own_action, bodiless_entry, entry_decide,
  reflex_decide, target_missing, intent_decide, combat_decide, safety_decide, first_decision,
}
use zomboid_goblin.Controllers.Actions.{Action, drink, eat, bandage, mapping, flee, is_bodiless}
use zomboid_goblin.Controllers.Intent.{ValidatedIntent, SafeAction, ControllerResult}
use zomboid_goblin.Base.{
  String, ◌≡◌, refl, sym, ap, ◌∙◌, ◌≢◌, inl, inr, Bool, true, false, Option, none, some, arith,
  Bool-cases, ◌==◌, ℕ_eq, String_eq, Pair_eq,
}
use zomboid_goblin.Dict.{lookup}

-- The answers of the reflex controller to a danger for life.
abbrev pub is_survival : Action → Bool
is_survival drink = true
is_survival eat = true
is_survival bandage = true
is_survival flee = true
is_survival _ = false

own_action_lem :
    (own_id : String) (x a : SafeAction)
    → (own_action own_id x).action ≡ some a
    → (x.action ≡ a.action) × (a.npc_id ≡ own_id) × ((own_action own_id x).accepted ≡ true)
unfolding own_action
own_action_lem own_id x a h = elim (Bool-cases (x.npc_id == own_id)) [
  | inl own ↦
      let same : x ≡ a = some-injective x a (rw own at h) in
      (
        ap (λ y. y.action) same,
        ap (λ y. y.npc_id) (sym same) ∙ (String_eq.beq_iff x.npc_id own_id).0 own,
        rw own,
      )
  | inr other ↦ absurd (none-ne-some a (rw other at h))
]

action-make_action :
    (act : Action) (i : ValidatedIntent) (id : String) → (make_action act i id).action ≡ act
unfolding make_action
action-make_action act i id = refl

-- What an accepted action says: it is for Goblin `id`, and of the kind that the table gives.
abbrev Owns : String → Option Action → ControllerResult → SafeAction → Type 0
Owns id entry r a = (a.npc_id ≡ id) × (r.accepted ≡ true) × (entry ≡ some a.action)

entry_decide-Owns :
    (entry : Option Action) (i : ValidatedIntent) (id : String) (a : SafeAction)
    → (entry_decide entry i id).action ≡ some a
    → Owns id entry (entry_decide entry i id) a
unfolding entry_decide
entry_decide-Owns none i id a h = absurd (none-ne-some a h)
entry_decide-Owns (some act) i id a h = elim (Bool-cases (target_missing i)) [
  | inl missing ↦ absurd (none-ne-some a (rw missing at h))
  | inr found ↦
      let (same, own, went) = own_action_lem id (make_action act i id) a (rw found at h) in
      (own, rw found went, ap some (sym (action-make_action act i id) ∙ same))
]

module _ {A : Type 0} where
  tactical_decide-Owns :
      (i : ValidatedIntent) (s : BodyState A) (a : SafeAction)
      → (tactical_decide i s).action ≡ some a
      → (s.alive ≡ true) × Owns s.npc_id (lookup i.intent mapping) (tactical_decide i s) a
  unfolding tactical_decide
  tactical_decide-Owns i s a h = elim (Bool-cases s.alive) [
    | inl living ↦ (
      living,
      rw living (entry_decide-Owns (lookup i.intent mapping) i s.npc_id a (rw living at h)),
    )
    | inr down ↦ absurd (none-ne-some a (rw down at h))
  ]

  bodiless_entry_lem :
      (entry : Option Action) (i : ValidatedIntent) (s : BodyState A) (a : SafeAction)
      → entry ≡ lookup i.intent mapping
      → (bodiless_entry entry i s).action ≡ some a
      → (is_bodiless a.action ≡ true)
        × (s.alive ≡ true)
        × (a.npc_id ≡ s.npc_id)
        × ((bodiless_entry entry i s).accepted ≡ true)
  unfolding bodiless_entry
  bodiless_entry_lem none i s a e h = absurd (none-ne-some a h)
  bodiless_entry_lem (some act) i s a e h = elim (Bool-cases (is_bodiless act)) [
    | inl fits ↦
        let (living, (own, went, entry)) = tactical_decide-Owns i s a (rw fits at h) in
        let same : act ≡ a.action = some-injective act a.action (e ∙ entry) in
        (rw same at fits, living, own, rw fits went)
    | inr unfit ↦ absurd (none-ne-some a (rw unfit at h))
  ]

  -- Without a ready body only speech and waiting come through, for a living Goblin, under its own
  -- identity, and marked as accepted.
  pub bodiless_decide-safe :
      (i : Option ValidatedIntent) (s : BodyState A) (a : SafeAction)
      → (bodiless_decide i s).action ≡ some a
      → (is_bodiless a.action ≡ true)
        × (s.alive ≡ true)
        × (a.npc_id ≡ s.npc_id)
        × ((bodiless_decide i s).accepted ≡ true)
  unfolding bodiless_decide
  bodiless_decide-safe none s a h = absurd (none-ne-some a h)
  bodiless_decide-safe (some i) s a h = bodiless_entry_lem (lookup i.intent mapping) i s a refl h

-- The answer to a danger, if there is one.
abbrev pub Survives : Option SafeAction → Type 0
Survives none = ⊥
Survives (some a) = (is_survival a.action ≡ true) × (a.priority ≡ 3)

-- Each controller acts for a living Goblin under its own identity, so the first that acts does.
first_decision_lem :
    {A : Type 0} (s : BodyState A) (reflex combat : Option SafeAction) (after : ControllerResult)
    (a : SafeAction)
    → ((x : SafeAction) → reflex ≡ some x → (s.alive ≡ true) × (x.npc_id ≡ s.npc_id))
    → ((x : SafeAction) → combat ≡ some x → (s.alive ≡ true) × (x.npc_id ≡ s.npc_id))
    → ((x : SafeAction)
        → after.action ≡ some x
        → (s.alive ≡ true) × (x.npc_id ≡ s.npc_id) × (after.accepted ≡ true))
    → (first_decision reflex combat after).action ≡ some a
    → (s.alive ≡ true)
      × (a.npc_id ≡ s.npc_id)
      × ((first_decision reflex combat after).accepted ≡ true)
unfolding first_decision
first_decision_lem s (some x) combat after a own_reflex own_combat own_rest h =
    let (living, own) = own_reflex a h in (living, own, refl)
first_decision_lem s none (some x) after a own_reflex own_combat own_rest h =
    let (living, own) = own_combat a h in (living, own, refl)
first_decision_lem s none none after a own_reflex own_combat own_rest h = own_rest a h

module _ {A : Type 0} ⦃o : Scale A⦄ where
  reflex_own :
      (s : BodyState A) (a : SafeAction)
      → reflex_decide s ≡ some a
      → (s.alive ≡ true) × (a.npc_id ≡ s.npc_id)
  unfolding reflex_decide
  reflex_own s a h = (ground arith, ground arith)

  reflex_survival :
      (s : BodyState A) (a : SafeAction)
      → reflex_decide s ≡ some a
      → (is_survival a.action ≡ true) × (a.priority ≡ 3)
  unfolding reflex_decide
  reflex_survival s a h = (ground arith, ground arith)

  reflex_overwhelmed :
      (s : BodyState A) → s.alive ≡ true → s.threat_level ≡ overwhelming → reflex_decide s ≢ none
  unfolding reflex_decide
  reflex_overwhelmed s living danger = ground arith

  combat_own :
      (s : BodyState A) (a : SafeAction)
      → combat_decide s ≡ some a
      → (s.alive ≡ true) × (a.npc_id ≡ s.npc_id)
  unfolding combat_decide
  combat_own s a h = (ground arith, ground arith)

  intent_own :
      (i : Option ValidatedIntent) (s : BodyState A) (a : SafeAction)
      → (intent_decide i s).action ≡ some a
      → (s.alive ≡ true) × (a.npc_id ≡ s.npc_id) × ((intent_decide i s).accepted ≡ true)
  unfolding intent_decide
  intent_own none s a h = absurd (none-ne-some a h)
  intent_own (some i) s a h =
      let (living, (own, went, _)) = tactical_decide-Owns i s a h in (living, own, went)

  -- Whatever the intent, an action comes out only for a living Goblin, under its own identity, and
  -- in an accepted answer; and without a ready body it is speech or waiting.
  pub safety_decide-safe :
      (i : Option ValidatedIntent) (s : BodyState A) (a : SafeAction)
      → (safety_decide i s).action ≡ some a
      → (s.alive ≡ true)
        × (a.npc_id ≡ s.npc_id)
        × ((safety_decide i s).accepted ≡ true)
        × (body_ready s ≡ false → is_bodiless a.action ≡ true)
  unfolding safety_decide
  safety_decide-safe i s a h = elim (Bool-cases (body_ready s)) [
    | inl ready ↦
        let (living, own, went) =
          first_decision_lem s (reflex_decide s) (combat_decide s) (intent_decide i s) a
            (reflex_own s) (combat_own s) (intent_own i s) (rw ready at h) in
        (living, own, rw ready went, λ e. cc (ready, e))
    | inr unready ↦
        let (fits, living, own, went) = bodiless_decide-safe i s a (rw unready at h) in
        (living, own, rw unready went, λ _. fits)
  ]

  Survives-some :
      (s : BodyState A) (r : Option SafeAction) (combat : Option SafeAction)
      (after others : ControllerResult)
      → reflex_decide s ≡ r
      → r ≢ none
      → (first_decision r combat after ≡ first_decision r combat others)
        × Survives (first_decision r combat after).action
  unfolding first_decision
  Survives-some s none combat after others e h = absurd (h refl)
  Survives-some s (some a) combat after others e h = (refl, reflex_survival s a e)

  -- In front of an overwhelming threat no intent counts: a living Goblin with a ready body drinks,
  -- eats, bandages itself or flees, with the highest priority.
  pub safety_decide-overwhelmed :
      (i : Option ValidatedIntent) (s : BodyState A)
      → s.alive ≡ true
      → body_ready s ≡ true
      → s.threat_level ≡ overwhelming
      → (safety_decide i s ≡ safety_decide none s) × Survives (safety_decide i s).action
  unfolding safety_decide
  safety_decide-overwhelmed i s living ready danger = rw ready (
      Survives-some s (reflex_decide s) (combat_decide s) (intent_decide i s) (intent_decide none s)
        refl (reflex_overwhelmed s living danger))
