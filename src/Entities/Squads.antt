-- ===== src/Entities/Squads.antt =====
-- `SquadManager` of entities.py: who goes on an expedition, and who stays on guard.
pub mod Chosen
use Prim.Native.String.{compare}
use Prim.Native.Nat.{Ordering}
use zomboid_goblin.Text.Tables.{CharTables}
use zomboid_goblin.Text.Ids.{entity_id_match}
use zomboid_goblin.Text.Trim.{take_chars, casefold}
use zomboid_goblin.Entities.{ManagedEntity, EntityRegistry, known_npc, known_player}
use zomboid_goblin.Base.{
  ℕ, zero, suc, ◌+◌, ◌-◌, ◌*◌, ◌/◌, ◌%◌, ◌≤◌, ◌<◌, min, String, count, ◌≡◌, refl, sym, ap, ◌∙◌, ◌≢◌,
  ◌↔◌, ◌⊎◌, inl, inr, Bool, true, false, not, ◌&&◌, ◌||◌, false≢true, Option, none, some, List, [],
  ◌∷◌, ◌++◌, map, arith, ltb, leb, eqb, if◌then◌else◌, ltb→lt, lt→ltb, leb→le, le→leb, eqb_iff,
  Bool-cases, Option-cases, is_some, some_or, Eq, ◌==◌, ℕ_eq, String_eq, Pair_eq, ==_refl, elem,
  length, take, keep_if, length-append, length-take-le, length-keep_if-le, All, Distinct,
}
use zomboid_goblin.Exec.{
  Error, value_error, protocol_error, intent_error, file_exists, file_not_found, os_error, Result,
  ok, err, Exec, pure, raise, lift, gets, ◌>>=◌, ◌>>◌, modify, raise_if, and_then,
}
use zomboid_goblin.Dict.{
  Dict, lookup, contains, insert, remove, lookup-insert, lookup-remove, lookup-insert_self,
  lookup-insert_absent, length-insert, length-remove-le,
}

pub record Squad : Type 0 where
  pub squad_id : String
  pub leader : String
  pub members : List String
  pub formation : String
  pub leader_player : Option String
  pub goblin_member : Option String
  pub npc_members : List String
  pub mission : String
  pub combat_policy : String
  pub loot_policy : String
  pub home_base : String
  pub created_at : ℕ

pub record SquadManager : Type 0 where
  pub registry : EntityRegistry
  pub minimum_base_guards : ℕ
  pub squads : Dict String Squad

-- The argument `requested`: a count, identities, or anything else.
pub data Requested : Type 0 where
  number_of : ℕ → Requested
  ids : List String → Requested
  something_else : Requested

abbrev pub usable : ManagedEntity → Bool
usable e = e.alive && e.active && not e.incapacitated

abbrev pub is_guard : Option ManagedEntity → Bool
is_guard none = false
is_guard (some e) = e.role == "guard"

abbrev pub is_usable : Option ManagedEntity → Bool
is_usable none = false
is_usable (some e) = usable e

-- An entity that can be asked to come along.
abbrev pub is_free : Option ManagedEntity → Bool
is_free none = false
is_free (some e) = usable e && not e.critical_worker

-- `available` of `_guard_can_leave`: the guards among the values of the dictionary
unfoldable pub available_guards : Dict String ManagedEntity → ℕ
available_guards [] = 0
available_guards ((_, e) ∷ d) =
    let others = available_guards d in if e.role == "guard" && usable e then 1 + others else others

-- `len(candidates) >= max_size or (... selected_extras >= requested_limit)`
unfoldable pub reached : ℕ → Option ℕ → ℕ → ℕ → Bool
reached max_size none extras size = leb max_size size
reached max_size (some limit) extras size = leb max_size size || leb limit extras

module _ (r : EntityRegistry) where
  -- `leaving` of `_guard_can_leave`: the guards among the selected
  unfoldable pub leaving_guards : List String → ℕ
  leaving_guards [] = 0
  leaving_guards (x ∷ xs) =
      let others = leaving_guards xs in if is_guard (lookup x r.npcs) then 1 + others else others

  module _ (minimum : ℕ) where
    -- `_guard_can_leave`: `available - leaving >= minimum_base_guards`
    unfoldable pub guard_can_leave : List String → String → Bool
    guard_can_leave selected candidate =
        leb
          (minimum
            + (leaving_guards selected + (if is_guard (lookup candidate r.npcs) then 1 else 0)))
          (available_guards r.npcs)

    -- The tests at the head of the loop.
    unfoldable pub joins : List String → String → Bool
    joins candidates x =
        entity_id_match x
        && not (elem x candidates)
        && is_free (lookup x r.npcs)
        && (not (is_guard (lookup x r.npcs)) || guard_can_leave candidates x)

    -- The loop over `requested_ids`.
    unfoldable pub gather : ℕ → Option ℕ → ℕ → List String → List String → List String
    gather max_size limit extras candidates [] = candidates
    gather max_size limit extras candidates (x ∷ xs) =
        let skipped = gather max_size limit extras candidates xs in
        let taken = gather max_size limit (extras + 1) (candidates ++ x ∷ []) xs in
        if not (joins candidates x)
        then skipped
        else if reached max_size limit (extras + 1) (length candidates + 1)
        then candidates ++ x ∷ []
        else taken

-- `sorted`, by code points
unfoldable pub insert_text : String → List String → List String
insert_text x [] = x ∷ []
insert_text x (y ∷ ys) =
    let rest = insert_text x ys in elim (compare x y) [ Ordering.gt ↦ y ∷ rest | _ ↦ x ∷ y ∷ ys ]

unfoldable pub sort_texts : List String → List String
unfolding insert_text
sort_texts [] = []
sort_texts (x ∷ xs) = insert_text x (sort_texts xs)

abbrev pub keys_of : Dict String ManagedEntity → List String
keys_of d = map (λ p. p.0) d

-- The first candidate: Goblin for a player, otherwise the leader.
unfoldable pub first_candidate : String → EntityRegistry → Result String
first_candidate leader r =
    if known_player leader r
    then (if is_usable (lookup "goblin.primary" r.npcs)
        then ok "goblin.primary"
        else err (value_error "Goblin is unavailable for the expedition"))
    else if known_npc leader r
    then (if is_usable (lookup leader r.npcs)
        then ok leader
        else err (value_error "squad leader is unavailable"))
    else err (value_error "unknown squad leader")

unfoldable pub choose_from : Requested → ℕ → SquadManager → String → Result (List String)
unfolding gather sort_texts
choose_from something_else max_size m first =
    err (value_error "requested members must be ids or a bounded count")
choose_from (number_of n) max_size m first =
    if not (leb 1 n && leb n (max_size - 1))
    then err (value_error "requested member count exceeds squad capacity")
    else ok (
        gather m.registry m.minimum_base_guards max_size (some n) 0 (first ∷ [])
          (sort_texts (keys_of m.registry.npcs)))
choose_from (ids xs) max_size m first =
    ok (gather m.registry m.minimum_base_guards max_size none 0 (first ∷ []) xs)

-- `choose_members`
unfoldable pub choose_members : Requested → String → ℕ → SquadManager → Result (List String)
unfolding first_candidate choose_from
choose_members requested leader max_size m =
    if not (entity_id_match leader)
    then err (value_error "invalid squad leader")
    else if not (leb 1 max_size && leb max_size 16)
    then err (value_error "invalid squad size")
    else and_then (first_candidate leader m.registry) (choose_from requested max_size m)

abbrev pub formations : List String
formations = "line" ∷ "wedge" ∷ "column" ∷ "ring" ∷ "loose" ∷ []

-- The three texts that `form` cuts, and the time.
pub record Orders : Type 0 where
  pub mission : String
  pub combat_policy : String
  pub loot_policy : String
  pub created_at : ℕ

unfoldable pub new_squad : String → String → String → Orders → EntityRegistry → List String → Squad
new_squad squad_id leader formation o r members = record {
  squad_id = squad_id;
  leader = leader;
  members = members;
  formation = formation;
  leader_player = if known_player leader r then some leader else none;
  goblin_member = if elem "goblin.primary" members then some "goblin.primary" else none;
  npc_members = keep_if (λ x. not (x == "goblin.primary")) members;
  mission = take_chars 96 o.mission;
  combat_policy = take_chars 32 o.combat_policy;
  loot_policy = take_chars 32 o.loot_policy;
  home_base = "base.primary";
  created_at = o.created_at;
}

-- `form`
unfoldable pub form :
    CharTables → String → String → Requested → String → ℕ → Orders → Exec SquadManager Squad
unfolding new_squad choose_members
form tables squad_id leader requested formation max_size o = do
  raise_if (not (entity_id_match squad_id)) (value_error "invalid squad id")
  raise_if (not (elem (casefold tables formation) formations)) (value_error "unsupported formation")
  chosen ← gets (choose_members requested leader max_size)
  members ← lift chosen
  squad ← gets (λ m. new_squad squad_id leader (casefold tables formation) o m.registry members)
  modify λ m. record m { squads = insert squad_id squad m.squads }
  pure squad

-- `dismiss`
unfoldable pub dismiss : String → SquadManager → Bool × SquadManager
dismiss squad_id m = (contains squad_id m.squads, record m { squads = remove squad_id m.squads })
