-- ===== src/Tests/Hunt.antt =====
-- A hunt from its start to the claim of the prize.
use zomboid_goblin.Text.Location.{has_location, search_from, location_here}
use zomboid_goblin.Text.Trim.{strip, lstrip, rstrip}
use zomboid_goblin.Hunt.Respawn.{damage-respawn}
use zomboid_goblin.Memory.{empty, claim_loot}
use zomboid_goblin.Text.Tables.{ascii}
use Prim.Native.String.{◌++◌ as str_append}
use zomboid_goblin.Hunt.{damage, respawn, start, relocate, hint, claim, safe_label}
use zomboid_goblin.Hunt.Invariant.{IsValid}
use zomboid_goblin.Hunt.Runs.{
  perform, run, Call, start_call, respawn_call, accepts, claim_call, hint_call, damage_call,
  perform-refused, run-IsValid, run-completed,
}
use zomboid_goblin.Hunt.State.{HuntState, HuntManager, fresh_state, completed, dead, new_manager}
use zomboid_goblin.Hunt.Redaction.{answers, mask, answers-mask}
use zomboid_goblin.Base.{
  ◌≤◌, String, ◌≡◌, refl, ◌↔◌, true, false, none, some, List, [], ◌∷◌, map, ℕ_eq, String_eq,
  Pair_eq,
}

-- a digest for tests
abbrev digest : String → String
digest s = str_append "digest of " s

abbrev calls : List Call
calls =
    start_call "area" "the old mill" "rare" "0001"
    ∷ hint_call "warm"
    ∷ damage_call (some 10) 0
    ∷ damage_call (some 20) 0
    ∷ respawn_call (some 80) 0
    ∷ claim_call "ann" true (some 90) 0
    ∷ []

abbrev new : HuntManager
new = new_manager empty 60 3

abbrev running : HuntState
running = record (fresh_state "hunt-0001" "rare") { second_wind_used = true }

abbrev hurt : HuntManager
hurt = record new {
  state = some running;
  target_digest = some "x";
  private_target = some ("area", "the old mill");
}

abbrev over : HuntState
over = record running { phase = completed; winner_id = some "ann" }

abbrev ended : HuntManager
ended = record hurt { state = some over }

all_accepted :
    map (λ a. accepts a.0) (answers ascii digest calls new)
    ≡ true ∷ true ∷ true ∷ true ∷ true ∷ true ∷ []
unfolding answers perform start relocate hint damage respawn claim claim_loot empty safe_label strip
    lstrip rstrip has_location search_from location_here
all_accepted = refl

run-IsValid_example : IsValid (run ascii digest calls (new_manager empty 60 3))
run-IsValid_example = run-IsValid ascii digest calls empty 60 3

answers-mask_example : answers ascii digest calls hurt ≡ answers ascii digest calls (mask hurt)
answers-mask_example = answers-mask ascii digest calls hurt

perform-refused_example : (perform ascii digest (respawn_call (some 5) 0) hurt).1 ≡ hurt
unfolding perform respawn
perform-refused_example = perform-refused ascii digest (respawn_call (some 5) 0) hurt refl

run-completed_example :
    run ascii digest (claim_call "bob" true none 99 ∷ damage_call none 99 ∷ []) ended ≡ ended
run-completed_example =
    run-completed ascii digest (claim_call "bob" true none 99 ∷ damage_call none 99 ∷ []) ended over
      refl refl (refl, (refl, tt))

damage-respawn_example :
    let m' = (damage (some 20) 0 hurt).1 in
    (m'.alive ≡ false)
    × (m'.state ≡ some (record running { phase = dead; death_count = 1 }))
    × ((accepts (respawn (some 80) 0 m').0 ≡ true) ↔ (80 ≤ 80))
    × (80 ≤ 80
        → ((respawn (some 80) 0 m').1.alive ≡ true)
          × ((respawn (some 80) 0 m').1.state ≡ some (record running { death_count = 1 })))
damage-respawn_example = damage-respawn hurt running 20 0 80 refl refl refl refl
