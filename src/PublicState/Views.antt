-- ===== src/PublicState/Views.antt =====
-- What the view for players shows.
use zomboid_goblin.Json.{Value, Fields, get}
use zomboid_goblin.PublicState.{redact, pick, public_view, public_keys, keep_entry}
use zomboid_goblin.Text.Tables.{CharTables}
use mathlib.Core.Option
use zomboid_goblin.Base.{
  String, ◌≡◌, refl, ap, inl, inr, ◌&&◌, Option, none, some, List, [], ◌∷◌, arith, if◌then◌else◌,
  Bool-cases, Option-cases, is_some, ◌==◌, ℕ_eq, String_eq, Pair_eq, elem,
}

module _ (tables : CharTables) where
  get-keep_entry :
      (key k : String) (o : Option Value) (fs : Fields)
      → get key (keep_entry tables k o fs)
        ≡ (if key == k && is_some o then Option.map (redact tables) o else get key fs)
  get-keep_entry key k none fs = ground arith
  get-keep_entry key k (some v) fs = ground arith

  get-pick :
      (key : String) (ks : List String) (state : Fields)
      → get key (pick tables ks state)
        ≡ (if elem key ks then Option.map (redact tables) (get key state) else none)
  unfolding pick
  get-pick key [] state = refl
  get-pick key (k ∷ ks) state = elim (Bool-cases (key == k)) [
    | inl same ↦
        let e : get key state ≡ get k state =
          ap (λ x. get x state) ((String_eq.beq_iff key k).0 same) in
        elim (Option-cases (get k state)) [
          | inl gone ↦
              rw get-keep_entry (rw (get-pick key ks state) (ground (arith, same, e, gone)))
          | inr (v, found) ↦ rw get-keep_entry (ground (arith, same, e, found))
        ]
    | inr other ↦ rw get-keep_entry (ground (arith, other, get-pick key ks state))
  ]

  -- The view for players has the redaction of the state's entry under each of its eighteen keys, and no
  -- other key.
  pub get-public_view :
      (key : String) (state : Fields)
      → get key (public_view tables state)
        ≡ (if elem key public_keys then Option.map (redact tables) (get key state) else none)
  unfolding public_view
  get-public_view key state = get-pick key public_keys state
