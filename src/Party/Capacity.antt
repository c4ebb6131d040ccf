-- ===== src/Party/Capacity.antt =====
-- What `max_members` bounds, and what it does not: requests count the members, not the travellers,
-- and an arrival is not counted at all.
use zomboid_goblin.Dict.{insert, lookup, lookup-insert, remove, lookup-remove}
use zomboid_goblin.Base.{
  String, ℕ, none, length, true, ◌≢◌, ◌<◌, ◌≡◌, ◌+◌, elem, false, arith, some, String_eq, ◌∷◌,
  ==_refl, ap, ◌∙◌,
}
use zomboid_goblin.Party.{
  request_join, confirm_arrival, add, PartyManager, valid_player, TravelPlan, travel_plan,
}

-- A player whom a valid request finds neither in the party nor on the way, below the limit.
pub record IsNew (x : String) (p : PartyManager) : Type 0 where
  pub valid : valid_player x ≡ true
  pub outside : elem x p.members ≡ false
  pub idle : lookup x p.pending ≡ none

-- The party after two requests to join and both arrivals.
abbrev pub after_both : String → String → ℕ → String → PartyManager → PartyManager
after_both x y clock label p =
    let p₁ = (request_join x none clock label p).1 in
    let p₂ = (request_join y none clock label p₁).1 in
    let p₃ = (confirm_arrival x true p₂).1 in (confirm_arrival y true p₃).1

request_join_new :
    (x : String) (clock : ℕ) (label : String) (p : PartyManager)
    → IsNew x p
    → length p.members < p.max_members
    → (request_join x none clock label p).1
      ≡ record p { pending = insert x (travel_plan x label clock) p.pending }
unfolding request_join
request_join_new x clock label p h room = ground arith

confirm_arrival_pending :
    (x : String) (plan : TravelPlan) (p : PartyManager)
    → valid_player x ≡ true
    → elem x p.members ≡ false
    → lookup x p.pending ≡ some plan
    → (confirm_arrival x true p).1
      ≡ record p { members = x ∷ p.members; pending = remove x p.pending }
unfolding confirm_arrival add
confirm_arrival_pending x plan p v out found = ground arith

-- Two new players who ask while one place is free are both let in, so the party has one member more
-- than its limit.
pub confirm_arrival-overfills :
    (x y : String) (clock : ℕ) (label : String) (p : PartyManager)
    → x ≢ y
    → IsNew x p
    → IsNew y p
    → length p.members + 1 ≡ p.max_members
    → length (after_both x y clock label p).members ≡ p.max_members + 1
confirm_arrival-overfills x y clock label p ne hx hy room =
    ap length (ap (λ q. q.members) steps) ∙ omega (arith, room)
  where
    plan : String → TravelPlan
    plan z = travel_plan z label clock

    p₁ : PartyManager
    p₁ = record p { pending = insert x (plan x) p.pending }

    p₂ : PartyManager
    p₂ = record p { pending = insert y (plan y) p₁.pending }

    p₃ : PartyManager
    p₃ = record p { members = x ∷ p.members; pending = remove x p₂.pending }

    p₄ : PartyManager
    p₄ = record p { members = y ∷ x ∷ p.members; pending = remove y p₃.pending }

    new_y : IsNew y p₁
    new_y = record {
      valid = hy.valid;
      outside = hy.outside;
      idle = ground (arith, lookup-insert y x (plan x) p.pending, String_eq.beq_iff y x, hy.idle);
    }

    found_x : lookup x p₂.pending ≡ some (plan x)
    found_x = ground (
      arith,
      lookup-insert x y (plan y) p₁.pending,
      lookup-insert x x (plan x) p.pending,
      String_eq.beq_iff x y,
      ==_refl x,
    )

    found_y : lookup y p₃.pending ≡ some (plan y)
    found_y = ground (
      arith,
      lookup-remove y x p₂.pending,
      lookup-insert y y (plan y) p₁.pending,
      String_eq.beq_iff y x,
      ==_refl y,
    )

    out_y : elem y p₃.members ≡ false
    out_y = ground (arith, String_eq.beq_iff y x, hy.outside)

    steps : after_both x y clock label p ≡ p₄
    steps =
        ap
          (λ q.
            (confirm_arrival y true
              (confirm_arrival x true (request_join y none clock label q).1).1).1)
          (request_join_new x clock label p hx (omega (arith, room)))
        ∙ ap (λ q. (confirm_arrival y true (confirm_arrival x true q).1).1)
            (request_join_new y clock label p₁ new_y (omega (arith, room)))
        ∙ ap (λ q. (confirm_arrival y true q).1)
            (confirm_arrival_pending x (plan x) p₂ hx.valid hx.outside found_x)
        ∙ confirm_arrival_pending y (plan y) p₃ hy.valid out_y found_y
