-- ===== src/Hunt/Runs.antt =====
-- Sequences of calls on a hunt manager, in any order and with any arguments.
use zomboid_goblin.Hunt.Invariant.{
  IsValid, start-IsValid, relocate-IsValid, new_manager-IsValid, hint-IsValid, claim-IsValid,
  damage-IsValid, respawn-IsValid,
}
use zomboid_goblin.Memory.{MemoryStore, claim_loot}
use zomboid_goblin.Hunt.{start, relocate, hint, claim, damage, respawn}
use zomboid_goblin.Hunt.State.{HuntManager, HuntState, HuntResult, completed, new_manager}
use zomboid_goblin.Text.Tables.{CharTables}
use zomboid_goblin.Base.{
  ℕ, String, ◌≡◌, refl, ap, ◌∙◌, Bool, true, false, Option, some, List, [], ◌∷◌, arith, ℕ_eq,
  String_eq, Pair_eq, All,
}
use zomboid_goblin.Exec.{Result, ok, err, Exec}

-- A call of a public method, with the token, the caller's time and the clock's reading.
pub data Call : Type 0 where
  start_call : String → String → String → String → Call
  relocate_call : String → String → Call
  hint_call : String → Call
  claim_call : String → Bool → Option ℕ → ℕ → Call
  damage_call respawn_call : Option ℕ → ℕ → Call

abbrev pub is_start : Call → Bool
is_start (start_call _ _ _ _) = true
is_start _ = false

-- An answer that lets the call through; a raise does not.
abbrev pub accepts : Result HuntResult → Bool
accepts (ok r) = r.accepted
accepts (err _) = false

module _ (tables : CharTables) (sha256 : String → String) where
  unfoldable pub perform : Call → Exec HuntManager HuntResult
  perform (start_call kind label tier token) = start tables sha256 kind label tier token
  perform (relocate_call kind label) = relocate tables sha256 kind label
  perform (hint_call temperature) = hint temperature
  perform (claim_call player near now clock) = claim player near now clock
  perform (damage_call now clock) = damage now clock
  perform (respawn_call now clock) = respawn now clock

  unfoldable pub run : List Call → HuntManager → HuntManager
  unfolding perform
  run [] m = m
  run (call ∷ calls) m = run calls (perform call m).1

  perform-IsValid : (call : Call) (m : HuntManager) → IsValid m → IsValid (perform call m).1
  unfolding perform
  perform-IsValid (start_call kind label tier token) m v =
      start-IsValid tables sha256 kind label tier token m v
  perform-IsValid (relocate_call kind label) m v = relocate-IsValid tables sha256 kind label m v
  perform-IsValid (hint_call temperature) m v = hint-IsValid temperature m v
  perform-IsValid (claim_call player near now clock) m v = claim-IsValid player near now clock m v
  perform-IsValid (damage_call now clock) m v = damage-IsValid now clock m v
  perform-IsValid (respawn_call now clock) m v = respawn-IsValid now clock m v

  IsValid-run : (calls : List Call) (m : HuntManager) → IsValid m → IsValid (run calls m)
  unfolding run
  IsValid-run [] m v = v
  IsValid-run (call ∷ calls) m v = IsValid-run calls (perform call m).1 (perform-IsValid call m v)

  -- After any calls on a new manager: the relocations stay within their limit, Goblin is down
  -- exactly in the DEAD phase and then has a time to wait for, a hunt has a winner exactly when it is
  -- completed, a death needs a spent second wind, and a hunt has a target and its digest.
  pub run-IsValid :
      (calls : List Call) (memory : MemoryStore) (cooldown most : ℕ)
      → IsValid (run calls (new_manager memory cooldown most))
  run-IsValid calls memory cooldown most =
      IsValid-run calls (new_manager memory cooldown most)
        (new_manager-IsValid memory cooldown most)

  completed_perform :
      (call : Call) (m : HuntManager) (s : HuntState)
      → m.state ≡ some s
      → s.phase ≡ completed
      → is_start call ≡ false
      → (perform call m).1 ≡ m
  unfolding perform start relocate hint claim damage respawn
  completed_perform (start_call kind label tier token) m s e over other = cc
  completed_perform (relocate_call kind label) m s e over other = ground arith
  completed_perform (hint_call temperature) m s e over other = ground arith
  completed_perform (claim_call player near now clock) m s e over other = ground arith
  completed_perform (damage_call now clock) m s e over other = ground arith
  completed_perform (respawn_call now clock) m s e over other = ground arith

  -- A completed hunt keeps its winner: no calls but `start` change anything at all.
  pub run-completed :
      (calls : List Call) (m : HuntManager) (s : HuntState)
      → m.state ≡ some s
      → s.phase ≡ completed
      → All (λ call. is_start call ≡ false) calls
      → run calls m ≡ m
  unfolding run
  run-completed [] m s e over others = refl
  run-completed (call ∷ calls) m s e over others =
      ap (run calls) (completed_perform call m s e over others.0)
      ∙ run-completed calls m s e over others.1

  -- A call that answers "not accepted" has changed nothing, and one that raises neither.
  pub perform-refused :
      (call : Call) (m : HuntManager) → accepts (perform call m).0 ≡ false → (perform call m).1 ≡ m
  unfolding perform start relocate hint claim damage respawn claim_loot
  perform-refused (start_call kind label tier token) m refused = ground arith
  perform-refused (relocate_call kind label) m refused = ground arith
  perform-refused (hint_call temperature) m refused = ground arith
  perform-refused (claim_call player near now clock) m refused = ground arith
  perform-refused (damage_call now clock) m refused = ground arith
  perform-refused (respawn_call now clock) m refused = ground arith
