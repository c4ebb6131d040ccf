-- ===== src/Tests/Modes.antt =====
-- Requests for a mode.
use zomboid_goblin.Modes.{
  ModeState, transition, Request, hunt, initial, Entitled, transition-Entitled,
}
use zomboid_goblin.Base.{◌≡◌, refl, ◌↔◌, true, false, none, ℕ_eq, String_eq, Pair_eq}

abbrev to_hunt : Request
to_hunt = record {
  requested = hunt;
  emergency = false;
  party_member = false;
  hunt_active = true;
  now = none;
}

abbrev started : ModeState
started = initial none 3

hunt_granted : (transition to_hunt 7 started).reason ≡ "deterministic transition to HUNT"
unfolding transition
hunt_granted = refl

transition-Entitled_example :
    (((transition to_hunt 7 started).mode ≡ hunt) ↔ Entitled to_hunt hunt)
    × ((transition to_hunt 7 started).changed_at ≡ 7)
transition-Entitled_example = transition-Entitled to_hunt 7 started hunt (λ e. cc)
