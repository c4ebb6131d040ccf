-- ===== src/Events/Clean.antt =====
-- What an event's fields are free of.
use zomboid_goblin.Json.{Value, str_value}
use mathlib.Core.Path.{subst}
use zomboid_goblin.Entities.Squads.{sort_texts}
use zomboid_goblin.Events.{event_fields, kind_fault, else_fault, unknown_fields, unknown_reason}
use zomboid_goblin.Base.{inl, inr, Bool-cases, refl, some, none, arith, false}
use zomboid_goblin.Dict.{lookup}
use zomboid_goblin.Events.{
  first_fault, field_fault, fields_fault, forbidden_fields, text_fault, plain_fault,
}
use zomboid_goblin.Text.Tables.{CharTables}
use zomboid_goblin.Text.Trim.{casefold}
use zomboid_goblin.Text.Location.{has_location}
use zomboid_goblin.Base.{
  String, ◌≡◌, refl, inl, inr, false, Option, none, some, List, [], ◌∷◌, arith, Bool-cases, ℕ_eq,
  String_eq, Pair_eq, elem, All,
}
use zomboid_goblin.Dict.{lookup}

module _ (tables : CharTables) where
  -- A field without a forbidden name, and without a location if it is the text of a chat.
  abbrev pub IsClean : String × Value → Type 0
  IsClean p =
      (elem (casefold tables p.0) forbidden_fields ≡ false)
      × ((x : String) → p ≡ ("text", str_value x) → has_location tables x ≡ false)

  field_fault_forbidden :
      (key : String) (value : Value)
      → field_fault tables key value ≡ none
      → elem (casefold tables key) forbidden_fields ≡ false
  unfolding field_fault
  field_fault_forbidden key value h =
      elim (Bool-cases (elem (casefold tables key) forbidden_fields)) [
        | inl bad ↦ cc (bad, h)
        | inr good ↦ good
      ]

  text_fault_clear :
      (x : String) → text_fault tables "text" (str_value x) ≡ none → has_location tables x ≡ false
  unfolding text_fault
  text_fault_clear x h = ground (arith, Bool-cases (has_location tables x))

  field_fault_text :
      (x : String)
      → field_fault tables "text" (str_value x) ≡ none
      → text_fault tables "text" (str_value x) ≡ none
  unfolding field_fault plain_fault
  field_fault_text x h = elim (Bool-cases (elem (casefold tables "text") forbidden_fields)) [
    | inl bad ↦ cc (bad, h)
    | inr good ↦ cc (good, h)
  ]

  field_fault-IsClean : (p : String × Value) → field_fault tables p.0 p.1 ≡ none → IsClean p
  field_fault-IsClean p h = (
    field_fault_forbidden p.0 p.1 h,
    λ x e.
        text_fault_clear x
          (field_fault_text x (subst (λ q. field_fault tables q.0 q.1 ≡ none) e h)),
  )

  else_fault-none : (a b : Option String) → else_fault a b ≡ none → (a ≡ none) × (b ≡ none)
  else_fault-none none b h = (refl, h)
  else_fault-none (some x) b h = cc

  first_fault-IsClean :
      (fields : List (String × Value)) → first_fault tables fields ≡ none → All IsClean fields
  unfolding first_fault
  first_fault-IsClean [] h = tt
  first_fault-IsClean ((key, value) ∷ fields) h =
      let (head, rest) =
        else_fault-none (field_fault tables key value) (first_fault tables fields) h in
      (field_fault-IsClean (key, value) head, first_fault-IsClean fields rest)

  kind_fault-IsClean :
      (known : Option (List String)) (fields : List (String × Value))
      → kind_fault tables known fields ≡ none
      → All IsClean fields
  kind_fault-IsClean none fields h = cc
  kind_fault-IsClean (some known) fields h =
      first_fault-IsClean fields
        (else_fault-none (unknown_reason (sort_texts (unknown_fields known fields)))
          (first_fault tables fields) h).1

  -- Fields that `_validate_fields` lets through have no forbidden name, and the text of a chat among
  -- them names no location.
  pub fields_fault-IsClean :
      (kind : String) (fields : List (String × Value))
      → fields_fault tables kind fields ≡ none
      → All IsClean fields
  unfolding fields_fault
  fields_fault-IsClean kind fields h = kind_fault-IsClean (lookup kind event_fields) fields h
