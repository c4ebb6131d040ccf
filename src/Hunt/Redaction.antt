-- ===== src/Hunt/Redaction.antt =====
-- What players are told does not depend on where the hidden target is.
use zomboid_goblin.Hunt.{start, relocate, hint, claim, damage, respawn}
use mathlib.Core.Path.{ap₂}
use zomboid_goblin.Hunt.Runs.{
  perform, Call, start_call, relocate_call, hint_call, claim_call, damage_call, respawn_call,
}
use zomboid_goblin.Hunt.State.{HuntManager, HuntResult, PublicStatus, public_status}
use zomboid_goblin.Text.Tables.{CharTables}
use zomboid_goblin.Base.{
  ℕ, String, ◌≡◌, refl, sym, ap, ◌∙◌, Bool, Option, none, List, [], ◌∷◌, arith, ℕ_eq, String_eq,
  Pair_eq,
}
use zomboid_goblin.Exec.{Result, Exec}

-- The manager with its hidden target and the digest of it blanked out.
abbrev pub mask : HuntManager → HuntManager
mask m = record m { target_digest = none; private_target = none }

-- A call answers alike with and without the target, and then the targets are all that differs.
abbrev Blind : Exec HuntManager HuntResult → HuntManager → Type 0
Blind call m = ((call (mask m)).0 ≡ (call m).0) × (mask (call (mask m)).1 ≡ mask (call m).1)

hint-Blind : (temperature : String) (m : HuntManager) → Blind (hint temperature) m
unfolding hint
hint-Blind temperature m = (ground arith, ground arith)

claim-Blind :
    (player : String) (near : Bool) (now : Option ℕ) (clock : ℕ) (m : HuntManager)
    → Blind (claim player near now clock) m
unfolding claim
claim-Blind player near now clock m = (ground arith, ground arith)

damage-Blind : (now : Option ℕ) (clock : ℕ) (m : HuntManager) → Blind (damage now clock) m
unfolding damage
damage-Blind now clock m = (ground arith, ground arith)

respawn-Blind : (now : Option ℕ) (clock : ℕ) (m : HuntManager) → Blind (respawn now clock) m
unfolding respawn
respawn-Blind now clock m = (ground arith, ground arith)

module _ (tables : CharTables) (sha256 : String → String) where
  start-Blind :
      (kind label tier token : String) (m : HuntManager)
      → Blind (start tables sha256 kind label tier token) m
  unfolding start
  start-Blind kind label tier token m = (ground arith, ground arith)

  relocate-Blind :
      (kind label : String) (m : HuntManager) → Blind (relocate tables sha256 kind label) m
  unfolding relocate
  relocate-Blind kind label m = (ground arith, ground arith)

  perform-Blind : (call : Call) (m : HuntManager) → Blind (perform tables sha256 call) m
  unfolding perform
  perform-Blind (start_call kind label tier token) m = start-Blind kind label tier token m
  perform-Blind (relocate_call kind label) m = relocate-Blind kind label m
  perform-Blind (hint_call temperature) m = hint-Blind temperature m
  perform-Blind (claim_call player near now clock) m = claim-Blind player near now clock m
  perform-Blind (damage_call now clock) m = damage-Blind now clock m
  perform-Blind (respawn_call now clock) m = respawn-Blind now clock m

  -- What a sequence of calls gives its callers: each result or exception, and the public status behind it.
  unfoldable pub answers : List Call → HuntManager → List (Result HuntResult × PublicStatus)
  answers [] m = []
  answers (call ∷ calls) m =
      let (r, m') = perform tables sha256 call m in (r, public_status m') ∷ answers calls m'

  -- Whatever of start, relocate, hint, claim, damage and respawn is called, in whatever order, the
  -- answers and the public status behind each call are the same as if the hidden target and its digest
  -- had been blanked out beforehand. The administrator's view, admin_status, is not among the calls.
  pub answers-mask :
      (calls : List Call) (m : HuntManager) → answers calls m ≡ answers calls (mask m)
  unfolding answers
  answers-mask [] m = refl
  answers-mask (call ∷ calls) m =
      let (same, masked) = perform-Blind call m in
      ap₂ ◌∷◌ (ap₂ (λ r n. (r, public_status n)) (sym same) (sym masked)) (
        answers-mask calls (perform tables sha256 call m).1
        ∙ ap (answers calls) (sym masked)
        ∙ sym (answers-mask calls (perform tables sha256 call (mask m)).1))
