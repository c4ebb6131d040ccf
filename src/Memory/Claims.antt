-- ===== src/Memory/Claims.antt =====
-- Loot claims: at most one for a run and a player, and never taken back.
use zomboid_goblin.Memory.{claim_loot, MemoryStore, or_clock}
use zomboid_goblin.Base.{
  ℕ, String, ◌≡◌, ◌≢◌, inl, inr, true, Option, none, some, arith, Bool-cases, ℕ_eq, String_eq,
  Pair_eq,
}
use zomboid_goblin.Exec.{ok}
use zomboid_goblin.Dict.{lookup, contains, lookup-insert_self, lookup-insert_absent}

-- A claim that goes through was not there before, and is there afterwards with its time; any other
-- call of valid ids says no and changes nothing. No claim is ever changed or lost.
pub claim_loot-once :
    (run player : String) (at : Option ℕ) (clock : ℕ) (s : MemoryStore)
    → let (r, s') = claim_loot run player at clock s in
      (r ≡ ok true
        → (lookup (run, player) s.loot_claims ≡ none)
          × (lookup (run, player) s'.loot_claims ≡ some (or_clock at clock)))
      × (r ≢ ok true → s' ≡ s)
      × ((k : String × String) (t : ℕ)
          → lookup k s.loot_claims ≡ some t
          → lookup k s'.loot_claims ≡ some t)
unfolding claim_loot
claim_loot-once run player at clock s = (
  λ h. (
    ground arith,
    ground (arith, lookup-insert_self (run, player) (or_clock at clock) s.loot_claims),
  ),
  λ h. ground arith,
  λ k t h. elim (Bool-cases (contains (run, player) s.loot_claims)) [
    | inl taken ↦ ground arith
    | inr free ↦
        ground
          (arith, lookup-insert_absent k (run, player) (or_clock at clock) t s.loot_claims free h)
  ],
)
