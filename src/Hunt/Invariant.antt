-- ===== src/Hunt/Invariant.antt =====
-- What holds of a hunt between two calls, and that every call keeps it.
use mathlib.Core.Path.{subst}
use mathlib.Core.Option.{some-injective}
use Prim.Native.String.{◌++◌ as str_append}
use zomboid_goblin.Hunt.{begin}
use zomboid_goblin.Hunt.State.{fresh_state}
use zomboid_goblin.Base.{sym, ◌∙◌, refl, ◌⊎◌}
use zomboid_goblin.Text.Tables.{CharTables}
use zomboid_goblin.Hunt.State.{HuntManager, Phase, completed, new_manager, HuntState, is_dead}
use zomboid_goblin.Hunt.{hint, claim, damage, respawn, start, relocate}
use zomboid_goblin.Memory.{MemoryStore}
use zomboid_goblin.Base.{
  ℕ, ◌≤◌, ◌<◌, String, ◌≡◌, inl, inr, Bool, true, false, not, Option, some, arith, Option-cases,
  is_some, ℕ_eq, String_eq, Pair_eq,
}

abbrev is_completed : Phase → Bool
is_completed completed = true
is_completed _ = false

pub record IsSound (m : HuntManager) (s : HuntState) : Type 0 where
  pub relocations_bounded : s.relocations ≤ m.max_relocations
  -- down exactly while the phase is DEAD, and only then with a time to wait for
  pub down : m.alive ≡ not (is_dead s.phase)
  pub waiting : is_some m.dead_until ≡ is_dead s.phase
  -- a winner exactly when the hunt is over
  pub won : is_some s.winner_id ≡ is_completed s.phase
  pub second_wind : 0 < s.death_count → s.second_wind_used ≡ true
  pub targeted : is_some m.private_target ≡ true
  pub digested : is_some m.target_digest ≡ true

abbrev pub IsValid : HuntManager → Type 0
IsValid m = (s : HuntState) → m.state ≡ some s → IsSound m s

pub new_manager-IsValid :
    (memory : MemoryStore) (cooldown most : ℕ) → IsValid (new_manager memory cooldown most)
new_manager-IsValid memory cooldown most s h = cc

-- A state that is sound makes its manager valid.
IsValid-some : (m : HuntManager) (s : HuntState) → m.state ≡ some s → IsSound m s → IsValid m
IsValid-some m s e v t h = subst (IsSound m) (some-injective s t (sym e ∙ h)) v

-- The manager keeps its validity when a call leaves it alone or makes a valid one of it.
either-IsValid : (m n m' : HuntManager) → IsValid m → IsValid n → (m' ≡ m) ⊎ (m' ≡ n) → IsValid m'
either-IsValid m n m' v w (inl e) = subst IsValid (sym e) v
either-IsValid m n m' v w (inr e) = subst IsValid (sym e) w

module _ (tables : CharTables) (sha256 : String → String) where
  begin-IsValid :
      (kind label tier token : String) (m : HuntManager)
      → IsValid (begin tables sha256 kind label tier token m)
  unfolding begin
  begin-IsValid kind label tier token m =
      IsValid-some (begin tables sha256 kind label tier token m)
        (fresh_state (str_append "hunt-" token) tier) refl
        (record {
          relocations_bounded = omega arith;
          down = refl;
          waiting = refl;
          won = refl;
          second_wind = λ h. ground arith;
          targeted = refl;
          digested = refl;
        })

  start_effect :
      (kind label tier token : String) (m : HuntManager)
      → ((start tables sha256 kind label tier token m).1 ≡ m)
        ⊎ ((start tables sha256 kind label tier token m).1
            ≡ begin tables sha256 kind label tier token m)
  unfolding start
  start_effect kind label tier token m = ground arith

  pub start-IsValid :
      (kind label tier token : String) (m : HuntManager)
      → IsValid m
      → IsValid (start tables sha256 kind label tier token m).1
  start-IsValid kind label tier token m v =
      either-IsValid m (begin tables sha256 kind label tier token m)
        (start tables sha256 kind label tier token m).1 v (begin-IsValid kind label tier token m)
        (start_effect kind label tier token m)

  pub relocate-IsValid :
      (kind label : String) (m : HuntManager)
      → IsValid m
      → IsValid (relocate tables sha256 kind label m).1
  unfolding relocate
  relocate-IsValid kind label m v s h = elim (Option-cases m.state) [
    | inl e ↦ ground (arith, v s)
    | inr (s₀, e) ↦ ground (arith, v s₀ e)
  ]

pub hint-IsValid :
    (temperature : String) (m : HuntManager) → IsValid m → IsValid (hint temperature m).1
unfolding hint
hint-IsValid temperature m v s h = elim (Option-cases m.state) [
  | inl e ↦ ground (arith, v s)
  | inr (s₀, e) ↦ ground (arith, v s₀ e)
]

pub claim-IsValid :
    (player : String) (near : Bool) (now : Option ℕ) (clock : ℕ) (m : HuntManager)
    → IsValid m
    → IsValid (claim player near now clock m).1
unfolding claim
claim-IsValid player near now clock m v s h = elim (Option-cases m.state) [
  | inl e ↦ ground (arith, v s)
  | inr (s₀, e) ↦ ground (arith, v s₀ e)
]

pub damage-IsValid :
    (now : Option ℕ) (clock : ℕ) (m : HuntManager) → IsValid m → IsValid (damage now clock m).1
unfolding damage
damage-IsValid now clock m v s h = elim (Option-cases m.state) [
  | inl e ↦ ground (arith, v s)
  | inr (s₀, e) ↦ ground (arith, v s₀ e)
]

pub respawn-IsValid :
    (now : Option ℕ) (clock : ℕ) (m : HuntManager) → IsValid m → IsValid (respawn now clock m).1
unfolding respawn
respawn-IsValid now clock m v s h = elim (Option-cases m.state) [
  | inl e ↦ ground (arith, v s)
  | inr (s₀, e) ↦ ground (arith, v s₀ e)
]
