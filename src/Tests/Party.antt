-- ===== src/Tests/Party.antt =====
-- A party with a member and a traveller.
use mathlib.Core.Path.{subst}
use zomboid_goblin.Base.{sym, some}
use zomboid_goblin.Party.Membership.{request_join-IsValid, leave_effect, confirm_arrival-IsValid}
use zomboid_goblin.Party.Membership.{IsValid}
use zomboid_goblin.Party.Capacity.{after_both, confirm_arrival-overfills, IsNew}
use zomboid_goblin.Party.{
  TravelPlan, valid_player, PartyManager, request_join, leave, confirm_arrival,
}
use zomboid_goblin.Base.{
  String, ◌≡◌, refl, sym, ap, true, false, false≢true, none, [], ◌∷◌, arith, ◌==◌, ℕ_eq, String_eq,
  Pair_eq, elem, length,
}
use zomboid_goblin.Dict.{lookup}
use zomboid_goblin.Exec.{ok}

abbrev bob : TravelPlan
bob = record {
  player_id = "bob";
  status = "travel_required";
  target_kind = "current_position";
  target_label = "camp";
  created_at = 5;
}

abbrev busy : PartyManager
busy = record { max_members = 2; members = "ann" ∷ []; pending = ("bob", bob) ∷ [] }

member_of_busy : (x : String) → elem x busy.members ≡ true → x ≡ "ann"
member_of_busy x m = (String_eq.beq_iff x "ann").0 (ground arith)

busy-IsValid : IsValid busy
busy-IsValid = record {
  distinct = (refl, tt);
  apart = λ x m. subst (λ y. lookup y busy.pending ≡ none) (sym (member_of_busy x m)) refl;
}

request_join-IsValid_example : IsValid (request_join "cho" none 9 "camp" busy).1
request_join-IsValid_example = request_join-IsValid "cho" none 9 "camp" busy busy-IsValid

confirm_arrival-IsValid_example : IsValid (confirm_arrival "bob" true busy).1
confirm_arrival-IsValid_example = confirm_arrival-IsValid "bob" true busy busy-IsValid

leave_effect_example :
    ((leave "ann" busy).0 ≡ ok true)
    × (elem "bob" (leave "ann" busy).1.members ≡ false)
    × (lookup "bob" (leave "ann" busy).1.pending ≡ some bob)
    × ((leave "ann" (leave "ann" busy).1).0 ≡ ok false)
leave_effect_example = leave_effect "ann" "bob" busy refl

abbrev roomy : PartyManager
roomy = record { max_members = 2; members = "ann" ∷ []; pending = [] }

IsNew-roomy : (x : String) → valid_player x ≡ true → (x == "ann") ≡ false → IsNew x roomy
IsNew-roomy x v e = record { valid = v; outside = ground (arith, e); idle = refl }

confirm_arrival-overfills_example : length (after_both "bob" "cho" 9 "camp" roomy).members ≡ 3
confirm_arrival-overfills_example =
    confirm_arrival-overfills "bob" "cho" 9 "camp" roomy (λ e. false≢true (ap (λ s. s == "cho") e))
      (IsNew-roomy "bob" refl refl) (IsNew-roomy "cho" refl refl) refl
