-- ===== src/Hunt/Respawn.antt =====
-- Death and return: the second wind, the cooldown, and what players learn.
use zomboid_goblin.Hunt.State.{HuntManager, HuntState, active, dead}
use zomboid_goblin.Hunt.Runs.{accepts}
use zomboid_goblin.Hunt.{damage, respawn}
use zomboid_goblin.Base.{ℕ, ◌+◌, ◌≤◌, ◌≡◌, ◌↔◌, true, false, some, arith, ℕ_eq, String_eq, Pair_eq}

-- The second of two hits on a living Goblin kills, and from then on a respawn goes through exactly
-- when the cooldown has passed since that hit; it brings Goblin back to the same, active hunt.
pub damage-respawn :
    (m : HuntManager) (s : HuntState) (hit_at clock again : ℕ)
    → m.state ≡ some s
    → s.phase ≡ active
    → m.alive ≡ true
    → s.second_wind_used ≡ true
    → let m' = (damage (some hit_at) clock m).1 in
      (m'.alive ≡ false)
      × (m'.state ≡ some (record s { phase = dead; death_count = s.death_count + 1 }))
      × ((accepts (respawn (some again) clock m').0 ≡ true)
          ↔ (hit_at + m.respawn_cooldown_seconds ≤ again))
      × (hit_at + m.respawn_cooldown_seconds ≤ again
          → ((respawn (some again) clock m').1.alive ≡ true)
            × ((respawn (some again) clock m').1.state
                ≡ some (record s { phase = active; death_count = s.death_count + 1 })))
unfolding damage respawn
damage-respawn m s hit_at clock again e p a w = ground arith
