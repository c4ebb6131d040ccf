-- ===== src/Entities/Squads/Chosen.antt =====
-- Who is chosen for a squad, and how many guards stay.
use zomboid_goblin.Text.Ids.{entity_id_match}
use zomboid_goblin.Base.{◌<◌, ap, none}
use zomboid_goblin.Exec.{Result, ok, err, and_then}
use zomboid_goblin.Entities.Squads.{
  choose_members, choose_from, first_candidate, Requested, SquadManager,
}
use mathlib.Core.Path.{subst}
use zomboid_goblin.Entities.{EntityRegistry}
use zomboid_goblin.Entities.Squads.{
  number_of, ids, something_else, sort_texts, keys_of, gather, joins, reached, guard_can_leave,
  leaving_guards, available_guards, is_free, is_guard,
}
use zomboid_goblin.Base.{
  ℕ, ◌+◌, ◌≤◌, ◌<◌, String, ◌≡◌, refl, sym, ◌⊎◌, inl, inr, true, false, ◌||◌, Option, none, some,
  List, [], ◌∷◌, ◌++◌, arith, if◌then◌else◌, Bool-cases, ◌==◌, ℕ_eq, String_eq, Pair_eq, elem,
  length, length-append, Distinct,
}
use zomboid_goblin.Dict.{lookup}

-- What the loop keeps of its candidates, for a squad that began with `first`.
pub record IsSquad (r : EntityRegistry) (minimum max_size : ℕ) (first : String) (xs : List String)
    : Type 0 where
  pub distinct : Distinct xs
  pub bounded : length xs ≤ max_size
  -- those behind the first are free, that is alive, active, fit for it and not critical
  pub free : (x : String) → elem x xs ≡ true → (x ≡ first) ⊎ (is_free (lookup x r.npcs) ≡ true)
  -- the guards that leave are none but the first, or enough stay
  pub guarded :
      (leaving_guards r xs ≡ leaving_guards r (first ∷ []))
      ⊎ (minimum + leaving_guards r xs ≤ available_guards r.npcs)

elem-snoc : (x y : String) (xs : List String) → elem x (xs ++ y ∷ []) ≡ (elem x xs || x == y)
elem-snoc x y [] = ground arith
elem-snoc x y (z ∷ xs) = ground (arith, elem-snoc x y xs)

Distinct-snoc :
    (y : String) (xs : List String) → Distinct xs → elem y xs ≡ false → Distinct (xs ++ y ∷ [])
Distinct-snoc y [] h e = (refl, tt)
Distinct-snoc y (z ∷ xs) h e = (
  ground (arith, elem-snoc z y xs, String_eq.beq_iff y z, String_eq.beq_iff z y, h.0),
  Distinct-snoc y xs h.1 (ground arith),
)

module _ (r : EntityRegistry) where
  leaving_guards-snoc :
      (y : String) (xs : List String)
      → leaving_guards r (xs ++ y ∷ [])
        ≡ leaving_guards r xs + (if is_guard (lookup y r.npcs) then 1 else 0)
  unfolding leaving_guards
  leaving_guards-snoc y [] = ground arith
  leaving_guards-snoc y (z ∷ xs) = ground (arith, leaving_guards-snoc y xs)

  module _ (minimum max_size : ℕ) (first : String) where
    joins_parts :
        (xs : List String) (y : String)
        → joins r minimum xs y ≡ true
        → (elem y xs ≡ false)
          × (is_free (lookup y r.npcs) ≡ true)
          × ((is_guard (lookup y r.npcs) ≡ false) ⊎ (guard_can_leave r minimum xs y ≡ true))
    unfolding joins
    joins_parts xs y h = (ground arith, ground arith, ground arith)

    IsSquad-snoc :
        (xs : List String) (y : String)
        → IsSquad r minimum max_size first xs
        → length xs < max_size
        → joins r minimum xs y ≡ true
        → IsSquad r minimum max_size first (xs ++ y ∷ [])
    unfolding guard_can_leave
    IsSquad-snoc xs y s room h =
        let (new, fit, guards) = joins_parts xs y h in
        record {
          distinct = Distinct-snoc y xs s.distinct new;
          bounded = omega (arith, length-append xs (y ∷ []), room);
          free = λ x m. elim (Bool-cases (elem x xs)) [
            | inl old ↦ s.free x old
            | inr other ↦
                let e : x ≡ y = (String_eq.beq_iff x y).0 (ground (arith, elem-snoc x y xs)) in
                inr (subst (λ z. is_free (lookup z r.npcs) ≡ true) (sym e) fit)
          ];
          guarded = ground (arith, leaving_guards-snoc y xs, s.guarded);
        }

    reached_room :
        (limit : Option ℕ) (extras size : ℕ)
        → reached max_size limit extras size ≡ false
        → size < max_size
    unfolding reached
    reached_room none extras size h = ground arith
    reached_room (some limit) extras size h = ground arith

    gather-IsSquad :
        (limit : Option ℕ) (extras : ℕ) (xs ys : List String)
        → IsSquad r minimum max_size first xs
        → length xs < max_size
        → IsSquad r minimum max_size first (gather r minimum max_size limit extras xs ys)
    unfolding gather
    gather-IsSquad limit extras xs [] s room = s
    gather-IsSquad limit extras xs (y ∷ ys) s room = elim (Bool-cases (joins r minimum xs y)) [
      | inr skips ↦ rw skips (gather-IsSquad limit extras xs ys s room)
      | inl fits ↦ elim (Bool-cases (reached max_size limit (extras + 1) (length xs + 1))) [
        | inl full ↦ rw (fits, full) (IsSquad-snoc xs y s room fits)
        | inr more ↦
            rw (fits, more)
              (gather-IsSquad limit (extras + 1) (xs ++ y ∷ []) ys (IsSquad-snoc xs y s room fits) (
                omega (
                  arith,
                  length-append xs (y ∷ []),
                  reached_room limit (extras + 1) (length xs + 1) more,
                )))
      ]
    ]

ok_value : {A : Type 0} (d : A) → Result A → A
ok_value d (ok a) = a
ok_value d (err x) = d

ok-injective : {A : Type 0} (a b : A) → ok a ≡ ok b → a ≡ b
unfolding ok_value
ok-injective a b e = ap (ok_value a) e

module _ (m : SquadManager) where
  abbrev members_from : ℕ → Option ℕ → String → List String → List String
  members_from max_size limit first xs =
      gather m.registry m.minimum_base_guards max_size limit 0 (first ∷ []) xs

  members_from-IsSquad :
      (max_size : ℕ) (limit : Option ℕ) (first : String) (xs : List String)
      → 1 < max_size
      → IsSquad m.registry m.minimum_base_guards max_size first
          (members_from max_size limit first xs)
  members_from-IsSquad max_size limit first xs room =
      gather-IsSquad m.registry m.minimum_base_guards max_size first limit 0 (first ∷ []) xs
        (record {
          distinct = (refl, tt);
          bounded = omega (arith, room);
          free = λ x e. inl ((String_eq.beq_iff x first).0 (ground arith));
          guarded = inl refl;
        })
        room

  choose_from-IsSquad :
      (q : Requested) (max_size : ℕ) (first : String) (xs : List String)
      → 1 < max_size
      → choose_from q max_size m first ≡ ok xs
      → IsSquad m.registry m.minimum_base_guards max_size first xs
  unfolding choose_from
  choose_from-IsSquad something_else max_size first xs room h = cc
  choose_from-IsSquad (ids ys) max_size first xs room h =
      subst (IsSquad m.registry m.minimum_base_guards max_size first)
        (ok-injective (members_from max_size none first ys) xs h)
        (members_from-IsSquad max_size none first ys room)
  choose_from-IsSquad (number_of n) max_size first xs room h =
      subst (IsSquad m.registry m.minimum_base_guards max_size first)
        (ok-injective (members_from max_size (some n) first (sort_texts (keys_of m.registry.npcs)))
          xs (ground arith))
        (members_from-IsSquad max_size (some n) first (sort_texts (keys_of m.registry.npcs)) room)

  and_then_parts :
      (r : Result String) (f : String → Result (List String)) (xs : List String)
      → and_then r f ≡ ok xs
      → (first : String) × (r ≡ ok first) × (f first ≡ ok xs)
  and_then_parts (ok first) f xs h = (first, refl, h)
  and_then_parts (err x) f xs h = cc

  choose_members_parts :
      (q : Requested) (leader : String) (max_size : ℕ) (xs : List String)
      → choose_members q leader max_size m ≡ ok xs
      → and_then (first_candidate leader m.registry) (choose_from q max_size m) ≡ ok xs
  unfolding choose_members
  choose_members_parts q leader max_size xs h = ground arith

  -- A squad with room for two lists each member once, stays within its size, takes nobody but its
  -- first member who is dead, inactive, unfit or critical, and leaves the minimum of guards behind
  -- unless the first member is the only guard that goes.
  pub choose_members-IsSquad :
      (q : Requested) (leader : String) (max_size : ℕ) (xs : List String)
      → 2 ≤ max_size
      → choose_members q leader max_size m ≡ ok xs
      → (first : String) × (first_candidate leader m.registry ≡ ok first)
        × IsSquad m.registry m.minimum_base_guards max_size first xs
  choose_members-IsSquad q leader max_size xs room h =
      let (first, found, chosen) =
        and_then_parts (first_candidate leader m.registry) (choose_from q max_size m) xs
          (choose_members_parts q leader max_size xs h) in
      (first, found, choose_from-IsSquad q max_size first xs (omega (arith, room)) chosen)

  -- With a size of one, the first of the listed identities that may join comes along all the same.
  pub choose_members-overfills :
      (leader first x : String) (ys : List String)
      → entity_id_match leader ≡ true
      → first_candidate leader m.registry ≡ ok first
      → joins m.registry m.minimum_base_guards (first ∷ []) x ≡ true
      → choose_members (ids (x ∷ ys)) leader 1 m ≡ ok (first ∷ x ∷ [])
  unfolding choose_members choose_from gather reached
  choose_members-overfills leader first x ys valid found fits = rw (valid, found, fits) refl
