-- ===== src/Hunt.antt =====
-- goblin_zomboid/hunt.py: `HuntManager`. The run's token, the digest and the clock's reading are
-- arguments: `secrets`, `hashlib` and `time` are not in the repository. Times are natural numbers of
-- seconds.
pub mod State
pub mod Invariant
pub mod Runs
pub mod Respawn
pub mod Redaction
pub use State.*
use zomboid_goblin.Text.Location.{has_location}
use zomboid_goblin.Text.Tables.{CharTables}
use zomboid_goblin.Memory.{claim_loot}
use Prim.Native.String.{◌++◌ as str_append}
use zomboid_goblin.Text.Trim.{strip, casefold}
use zomboid_goblin.Base.{
  ℕ, zero, suc, ◌+◌, ◌-◌, ◌*◌, ◌/◌, ◌%◌, ◌≤◌, ◌<◌, min, String, count, ◌≡◌, refl, sym, ap, ◌∙◌, ◌≢◌,
  ◌↔◌, ◌⊎◌, inl, inr, Bool, true, false, not, ◌&&◌, ◌||◌, false≢true, Option, none, some, List, [],
  ◌∷◌, ◌++◌, map, arith, ltb, leb, eqb, if◌then◌else◌, ltb→lt, lt→ltb, leb→le, le→leb, eqb_iff,
  Bool-cases, Option-cases, is_some, some_or, Eq, ◌==◌, ℕ_eq, String_eq, Pair_eq, ==_refl, elem,
  length, take, keep_if, length-append, length-take-le, length-keep_if-le, All, Distinct,
}
use zomboid_goblin.Exec.{
  Error, value_error, protocol_error, intent_error, file_exists, file_not_found, os_error, Result,
  ok, err, Exec, pure, raise, lift, gets, ◌>>=◌, ◌>>◌, modify, raise_if, and_then,
}
use zomboid_goblin.Dict.{
  Dict, lookup, contains, insert, remove, lookup-insert, lookup-remove, lookup-insert_self,
  lookup-insert_absent, length-insert, length-remove-le,
}

refuse : String → String → Exec HuntManager HuntResult
refuse status reason m = (ok (result false status reason m), m)

-- `_safe_label`
unfoldable pub safe_label : CharTables → String → Bool
safe_label tables label =
    not (strip tables label == "") && leb (count label) 96 && not (has_location tables label)

-- The checks that `start` and `relocate` make of a target.
target_fault : CharTables → String → String → Option String
target_fault tables target_kind target_label =
    if not (elem target_kind ("nearby_building" ∷ "area" ∷ "named_location" ∷ []))
    then some "target must be coarse"
    else if not (safe_label tables target_label)
    then some "target label is invalid"
    else none

abbrev pub prize_tiers : List String
prize_tiers = "common" ∷ "uncommon" ∷ "rare" ∷ "legendary" ∷ []

module _ (tables : CharTables) (sha256 : String → String) where
  -- `f"{target_kind}:{target_label.strip().casefold()}"`
  normalized : String → String → String
  normalized target_kind target_label =
      str_append target_kind (str_append ":" (casefold tables (strip tables target_label)))

  set_target : String → String → HuntManager → HuntManager
  unfolding normalized
  set_target target_kind target_label m = record m {
    target_digest = some (sha256 (normalized target_kind target_label));
    private_target = some (target_kind, strip tables target_label);
  }

  begin : String → String → String → String → HuntManager → HuntManager
  unfolding set_target
  begin target_kind target_label prize_tier token m =
      record (set_target target_kind target_label m) {
        state = some (fresh_state (str_append "hunt-" token) prize_tier);
        dead_until = none;
        alive = true;
      }

  -- `start`
  unfoldable pub start : String → String → String → String → Exec HuntManager HuntResult
  unfolding refuse target_fault begin
  start target_kind target_label prize_tier token m =
      if is_open m.state
      then refuse "already_active" "hunt is already active" m
      else elim (target_fault tables target_kind target_label) [
        | some fault ↦ refuse "invalid_target" fault m
        | none ↦
            if not (elem prize_tier prize_tiers)
            then refuse "invalid_prize" "unknown prize tier" m
            else (let m' = begin target_kind target_label prize_tier token m in
                (ok (result true "started" "hunt started" m'), m'))
      ]

  move_target : String → String → HuntState → HuntManager → HuntManager
  unfolding set_target
  move_target target_kind target_label s m = record (set_target target_kind target_label m) {
    state = some (record s { relocations = s.relocations + 1; clues_issued = 0 });
  }

  relocate_open : String → String → HuntState → Exec HuntManager HuntResult
  unfolding refuse target_fault move_target
  relocate_open target_kind target_label s m =
      if leb m.max_relocations s.relocations
      then refuse "relocation_limit" "relocation limit reached" m
      else elim (target_fault tables target_kind target_label) [
        | some fault ↦ refuse "invalid_target" fault m
        | none ↦
            (let m' = move_target target_kind target_label s m in
              (ok (result true "relocated" "hunt target changed" m'), m'))
      ]

  -- `relocate`
  unfoldable pub relocate : String → String → Exec HuntManager HuntResult
  unfolding relocate_open
  relocate target_kind target_label m = elim m.state [
    | none ↦ refuse "inactive" "no active hunt" m
    | some s ↦
        if open_phase s.phase
        then relocate_open target_kind target_label s m
        else refuse "inactive" "no active hunt" m
  ]

pub clue_text : String → String
clue_text temperature =
    if temperature == "cold"
    then "The trail is old. Search the edges, not the obvious center."
    else if temperature == "warm"
    then "Something useful passed through nearby. Look for a place people once relied on."
    else "The goblin is close enough to hear you making poor decisions."

give_hint : String → HuntState → Exec HuntManager HuntResult
unfolding clue_text refuse
give_hint temperature s m =
    if not (elem temperature ("cold" ∷ "warm" ∷ "hot" ∷ []))
    then refuse "invalid_temperature" "temperature is invalid" m
    else (let m' = record m { state = some (record s { clues_issued = s.clues_issued + 1 }) } in
        (
          ok (record (result true "hint" (clue_text temperature) m') {
            clue = some (temperature, s.clues_issued + 1);
          }),
          m',
        ))

-- `hint`
unfoldable pub hint : String → Exec HuntManager HuntResult
unfolding give_hint
hint temperature m = elim m.state [
  | none ↦ refuse "inactive" "no active hunt" m
  | some s ↦
      if open_phase s.phase then give_hint temperature s m else refuse "inactive" "no active hunt" m
]

-- The manager calls `claim_loot` on the store that it was given.
claim_in_store : String → String → Option ℕ → ℕ → Exec HuntManager Bool
claim_in_store run_id player_id now clock m =
    let (r, store) = claim_loot run_id player_id now clock m.memory in
    (r, record m { memory = store })

award : String → HuntState → Bool → Exec HuntManager HuntResult
unfolding refuse
award player_id s false m = refuse "already_claimed" "loot was already claimed" m
award player_id s true m =
    let m' = record m {
      state = some (record s { winner_id = some player_id; phase = completed });
    } in
    (ok (result true "claimed" "prize cache claimed" m'), m')

claim_active : String → Bool → Option ℕ → ℕ → HuntState → Exec HuntManager HuntResult
unfolding award claim_in_store
claim_active player_id near_target now clock s =
    if player_id == "" || ltb 128 (count player_id)
    then refuse "invalid_player" "player identity is invalid"
    else if not near_target
    then refuse "not_ready" "deterministic proximity gate has not passed"
    else claim_in_store s.run_id player_id now clock >>= award player_id s

-- `claim`
unfoldable pub claim : String → Bool → Option ℕ → ℕ → Exec HuntManager HuntResult
unfolding claim_active
claim player_id near_target now clock m = elim m.state [
  | none ↦ refuse "inactive" "no claimable hunt" m
  | some s ↦
      if is_active s.phase
      then claim_active player_id near_target now clock s m
      else refuse "inactive" "no claimable hunt" m
]

hit : ℕ → HuntState → Exec HuntManager HuntResult
unfolding refuse
hit current s m =
    if not m.alive
    then refuse "dead" "Goblin is already down" m
    else if s.second_wind_used
    then (let m' = record m {
      alive = false;
      state = some (record s { phase = dead; death_count = s.death_count + 1 });
      dead_until = some (current + m.respawn_cooldown_seconds);
    } in
        (ok (result true "dead" "second wind was already spent" m'), m'))
    else (let m' = record m { state = some (record s { second_wind_used = true }) } in
        (ok (result true "second_wind" "Goblin survives one decisive hit" m'), m'))

-- `damage`
unfoldable pub damage : Option ℕ → ℕ → Exec HuntManager HuntResult
unfolding hit
damage now clock m = elim m.state [
  | none ↦ refuse "inactive" "hunt is not active" m
  | some s ↦
      if open_phase s.phase
      then hit (some_or now clock) s m
      else refuse "inactive" "hunt is not active" m
]

revive : HuntState → Exec HuntManager HuntResult
revive s m =
    let m' = record m {
      alive = true;
      dead_until = none;
      state = some (record s { phase = active });
    } in
    (ok (result true "respawned" "Goblin returned after cooldown" m'), m')

-- `respawn`
unfoldable pub respawn : Option ℕ → ℕ → Exec HuntManager HuntResult
unfolding revive refuse
respawn now clock m = elim m.state [
  | none ↦ refuse "not_dead" "Goblin is not waiting to respawn" m
  | some s ↦
      if not (is_dead s.phase)
      then refuse "not_dead" "Goblin is not waiting to respawn" m
      else elim m.dead_until [
        | none ↦ refuse "cooldown" "respawn cooldown is active" m
        | some until ↦
            if ltb (some_or now clock) until
            then refuse "cooldown" "respawn cooldown is active" m
            else revive s m
      ]
]
