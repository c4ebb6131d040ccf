-- ===== src/Party/Membership.antt =====
-- Who is in the party: members and travellers stay apart, and what `max_members` does not bound.
use zomboid_goblin.Dict.{lookup, lookup-insert, lookup-remove}
use zomboid_goblin.Party.{
  travel_plan, valid_player, PartyManager, request_join, add, discard, leave, confirm_arrival,
}
use zomboid_goblin.Exec.{ok}
use zomboid_goblin.Base.{
  ==_refl, ℕ, String, ◌≡◌, true, false, ◌||◌, Option, none, List, [], ◌∷◌, arith, if◌then◌else◌,
  ◌==◌, ℕ_eq, String_eq, Pair_eq, elem, Distinct, some_or, Bool,
}

-- Every member once, and no member with a travel plan.
pub record IsValid (p : PartyManager) : Type 0 where
  pub distinct : Distinct p.members
  pub apart : (x : String) → elem x p.members ≡ true → lookup x p.pending ≡ none

elem-discard :
    (x y : String) (xs : List String)
    → elem x (discard y xs) ≡ (if x == y then false else elem x xs)
unfolding discard
elem-discard x y [] = ground arith
elem-discard x y (z ∷ xs) = ground (
  arith,
  elem-discard x y xs,
  String_eq.beq_iff x y,
  String_eq.beq_iff y z,
  String_eq.beq_iff x z,
)

elem-add : (x y : String) (xs : List String) → elem x (add y xs) ≡ (x == y || elem x xs)
unfolding add
elem-add x y xs = ground (arith, String_eq.beq_iff x y)

add-Distinct : (y : String) (xs : List String) → Distinct xs → Distinct (add y xs)
unfolding add
add-Distinct y xs h = ground arith

-- Members stay listed once and apart from the travellers, whatever a request to join does.
pub request_join-IsValid :
    (x : String) (now : Option ℕ) (clock : ℕ) (label : String) (p : PartyManager)
    → IsValid p
    → IsValid (request_join x now clock label p).1
unfolding request_join
request_join-IsValid x now clock label p h = record {
  distinct = ground (arith, h.distinct);
  apart = λ y m. ground (
    arith,
    h.apart y,
    lookup-insert y x (travel_plan x label (some_or now clock)) p.pending,
    String_eq.beq_iff y x,
  );
}

-- The same for an arrival, confirmed or not.
pub confirm_arrival-IsValid :
    (x : String) (near : Bool) (p : PartyManager) → IsValid p → IsValid (confirm_arrival x near p).1
unfolding confirm_arrival
confirm_arrival-IsValid x false p h = record {
  distinct = ground (arith, h.distinct);
  apart = λ y m. ground (arith, h.apart y);
}
confirm_arrival-IsValid x true p h = record {
  distinct = ground (arith, h.distinct, add-Distinct x p.members);
  apart = λ y m. ground (
    arith,
    h.apart y,
    elem-add y x p.members,
    lookup-remove y x p.pending,
    String_eq.beq_iff y x,
  );
}

-- A player with a valid name who leaves is told whether it was a member, and is then neither a
-- member nor traveling; every other player is a member, and has a travel plan, exactly as before.
-- Leaving again finds no member.
pub leave_effect :
    (x other : String) (p : PartyManager)
    → valid_player x ≡ true
    → let after = (leave x p).1 in
      ((leave x p).0 ≡ ok (elem x p.members))
      × (elem other after.members ≡ (if other == x then false else elem other p.members))
      × (lookup other after.pending ≡ (if other == x then none else lookup other p.pending))
      × ((leave x after).0 ≡ ok false)
unfolding leave
leave_effect x other p v =
    let gone = elem-discard x x p.members in
    (
      ground (arith, v),
      ground (arith, v, elem-discard other x p.members),
      ground (arith, v, lookup-remove other x p.pending),
      ground (arith, v, gone, ==_refl x),
    )
