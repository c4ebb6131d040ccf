-- ===== src/Party.antt =====
-- goblin_zomboid/party.py: `PartyManager`. `members` is a set, kept as a list without duplicates.
pub mod Membership
pub mod Capacity
use zomboid_goblin.Text.Trim.{take_chars}
use zomboid_goblin.Dict.{Dict, lookup, contains, insert, remove}
use zomboid_goblin.Exec.{ok, Error, value_error, Exec, pure, raise_if, gets, modify, ◌>>=◌, ◌>>◌}
use zomboid_goblin.Base.{
  ℕ, zero, suc, ◌+◌, ◌-◌, ◌*◌, ◌/◌, ◌%◌, ◌≤◌, ◌<◌, min, String, count, ◌≡◌, refl, sym, ap, ◌∙◌, ◌≢◌,
  ◌↔◌, ◌⊎◌, inl, inr, Bool, true, false, not, ◌&&◌, ◌||◌, false≢true, Option, none, some, List, [],
  ◌∷◌, ◌++◌, map, arith, ltb, leb, eqb, if◌then◌else◌, ltb→lt, lt→ltb, leb→le, le→leb, eqb_iff,
  Bool-cases, Option-cases, is_some, some_or, Eq, ◌==◌, ℕ_eq, String_eq, Pair_eq, ==_refl, elem,
  length, take, keep_if, length-append, length-take-le, length-keep_if-le, All,
}

pub record TravelPlan : Type 0 where
  pub player_id : String
  pub status : String
  pub target_kind : String
  pub target_label : String
  pub created_at : ℕ

pub data JoinStatus : Type 0 where
  member traveling full not_pending : JoinStatus

pub record JoinResult : Type 0 where
  pub status : JoinStatus
  pub reason : String
  pub travel : Option TravelPlan

pub record PartyManager : Type 0 where
  pub max_members : ℕ
  pub members : List String
  pub pending : Dict String TravelPlan

-- `PartyManager.__init__`
pub init : ℕ → PartyManager
init max_members = record { max_members = max_members; members = []; pending = [] }

-- `_validate_player`
abbrev pub valid_player : String → Bool
valid_player player_id = not (player_id == "" || ltb 128 (count player_id))

pub validate_player : String → Exec PartyManager (Unit {0})
validate_player player_id =
    raise_if (not (valid_player player_id)) (value_error "invalid player id")

-- `set.add` and `set.discard`
pub add : String → List String → List String
add x xs = if elem x xs then xs else x ∷ xs

pub discard : String → List String → List String
discard x = keep_if (λ y. not (x == y))

pub travel_plan : String → String → ℕ → TravelPlan
travel_plan player_id target_label current = record {
  player_id = player_id;
  status = "travel_required";
  target_kind = "current_position";
  target_label = take_chars 96 target_label;
  created_at = current;
}

abbrev joined : TravelPlan → JoinResult
joined travel = record {
  status = traveling;
  reason = "physical travel is required before joining";
  travel = some travel;
}

join_new : String → TravelPlan → Exec PartyManager JoinResult
join_new player_id travel p =
    if leb p.max_members (length p.members)
    then (ok (record { status = full; reason = "party is full"; travel = none }), p)
    else (ok (joined travel), record p { pending = insert player_id travel p.pending })

-- `request_join`
unfoldable pub request_join : String → Option ℕ → ℕ → String → Exec PartyManager JoinResult
unfolding validate_player join_new
request_join player_id now clock target_label = do
  validate_player player_id
  p ← gets (λ p. p)
  if elem player_id p.members
      then pure
          (record { status = member; reason = "player is already in the party"; travel = none })
      else elim (lookup player_id p.pending) [
        | some plan ↦ pure (record {
          status = traveling;
          reason = "player already has a travel plan";
          travel = some plan;
        })
        | none ↦ join_new player_id (travel_plan player_id target_label (some_or now clock))
      ]

arrive : String → Bool → Option TravelPlan → Exec PartyManager JoinResult
unfolding add
arrive player_id proximity_confirmed none =
    pure (record { status = not_pending; reason = "no pending travel plan"; travel = none })
arrive player_id false (some travel) = pure (record {
  status = traveling;
  reason = "deterministic proximity gate has not passed";
  travel = some travel;
})
arrive player_id true (some travel) = do
  modify λ p. record p { members = add player_id p.members; pending = remove player_id p.pending }
  pure (record {
    status = member;
    reason = "party membership accepted after physical arrival";
    travel = none;
  })

-- `confirm_arrival`
unfoldable pub confirm_arrival : String → Bool → Exec PartyManager JoinResult
unfolding validate_player arrive
confirm_arrival player_id proximity_confirmed = do
  validate_player player_id
  travel ← gets (λ p. lookup player_id p.pending)
  arrive player_id proximity_confirmed travel

-- `leave`
unfoldable pub leave : String → Exec PartyManager Bool
unfolding validate_player discard
leave player_id = do
  validate_player player_id
  existed ← gets (λ p. elem player_id p.members)
  modify
      λ p. record p { members = discard player_id p.members; pending = remove player_id p.pending }
  pure existed

-- `is_member`
pub is_member : String → PartyManager → Bool
is_member player_id p = elem player_id p.members
