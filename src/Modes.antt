-- ===== src/Modes.antt =====
-- goblin_zomboid/modes.py: the operating modes and `ModeController`.
-- The clock's reading is an argument, in seconds.
use Prim.Native.String.{◌++◌ as str_append}
use zomboid_goblin.Base.{
  ℕ, String, ◌≡◌, refl, ◌≢◌, ◌↔◌, Bool, true, false, not, ◌&&◌, Option, arith, if◌then◌else◌,
  some_or, ℕ_eq, String_eq, Pair_eq,
}

pub data Mode : Type 0 where
  safe roam party hunt : Mode

-- `Mode.value`
unfoldable pub mode_value : Mode → String
mode_value safe = "SAFE"
mode_value roam = "ROAM"
mode_value party = "PARTY"
mode_value hunt = "HUNT"

-- `requested == Mode.PARTY` and `requested == Mode.HUNT`
abbrev is_party : Mode → Bool
is_party party = true
is_party _ = false

abbrev is_hunt : Mode → Bool
is_hunt hunt = true
is_hunt _ = false

pub record ModeState : Type 0 where
  pub mode : Mode
  pub reason : String
  pub changed_at : ℕ

-- `ModeController.__init__`
pub initial : Option ℕ → ℕ → ModeState
initial now clock = record { mode = safe; reason = "safe default"; changed_at = some_or now clock }

pub record Request : Type 0 where
  pub requested : Mode
  pub emergency : Bool
  pub party_member : Bool
  pub hunt_active : Bool
  pub now : Option ℕ

-- `ModeController.transition`: the old state plays no part.
unfoldable pub transition : Request → ℕ → ModeState → ModeState
unfolding mode_value
transition r clock s =
    let current = some_or r.now clock in
    if r.emergency
    then record { mode = safe; reason = "emergency override"; changed_at = current }
    else if is_party r.requested && not r.party_member
    then record {
      mode = safe;
      reason = "party membership is not established";
      changed_at = current;
    }
    else if is_hunt r.requested && not r.hunt_active
    then record { mode = safe; reason = "hunt is not active"; changed_at = current }
    else record {
      mode = r.requested;
      reason = str_append "deterministic transition to " (mode_value r.requested);
      changed_at = current;
    }

-- What entitles a request to its mode.
abbrev pub Entitled : Request → Mode → Type 0
Entitled r safe = Unit
Entitled r roam = (r.emergency ≡ false) × (r.requested ≡ roam)
Entitled r party = (r.emergency ≡ false) × (r.requested ≡ party) × (r.party_member ≡ true)
Entitled r hunt = (r.emergency ≡ false) × (r.requested ≡ hunt) × (r.hunt_active ≡ true)

-- A controller leaves SAFE exactly for a mode that was asked for, without an emergency, with the
-- party membership that PARTY needs and the active hunt that HUNT needs; each request restarts the
-- time of the change.
pub transition-Entitled :
    (r : Request) (clock : ℕ) (s : ModeState) (m : Mode)
    → m ≢ safe
    → (((transition r clock s).mode ≡ m) ↔ Entitled r m)
      × ((transition r clock s).changed_at ≡ some_or r.now clock)
unfolding transition
transition-Entitled r clock s safe h = absurd (h refl)
transition-Entitled r clock s roam h = ground arith
transition-Entitled r clock s party h = ground arith
transition-Entitled r clock s hunt h = ground arith
