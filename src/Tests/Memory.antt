-- ===== src/Tests/Memory.antt =====
-- Loot claims of one run.
use zomboid_goblin.Memory.Claims.{claim_loot-once}
use zomboid_goblin.Memory.{MemoryStore, claim_loot, empty}
use zomboid_goblin.Base.{
  ℕ, String, ◌≡◌, refl, ◌≢◌, true, false, none, some, [], ◌∷◌, ℕ_eq, String_eq, Pair_eq,
}
use zomboid_goblin.Exec.{ok}
use zomboid_goblin.Dict.{lookup}

abbrev claimed : MemoryStore
claimed = record empty { loot_claims = (("hunt-1", "ann"), 40) ∷ [] }

claim_loot-once_example :
    let (r, s') = claim_loot "hunt-1" "bob" none 50 claimed in
    (r ≡ ok true
      → (lookup ("hunt-1", "bob") claimed.loot_claims ≡ none)
        × (lookup ("hunt-1", "bob") s'.loot_claims ≡ some 50))
    × (r ≢ ok true → s' ≡ claimed)
    × ((k : String × String) (t : ℕ)
        → lookup k claimed.loot_claims ≡ some t
        → lookup k s'.loot_claims ≡ some t)
claim_loot-once_example = claim_loot-once "hunt-1" "bob" none 50 claimed

second_claim : (claim_loot "hunt-1" "ann" none 50 claimed).0 ≡ ok false
unfolding claim_loot
second_claim = refl
