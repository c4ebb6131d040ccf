-- ===== src/Controllers/Inventory.antt =====
-- `InventoryController` of controllers.py. Counts are natural numbers: a negative count fails the same
-- tests as 0, and a negative stock the same as an empty one.
pub mod Reserved
use zomboid_goblin.Text.Trim.{casefold}
use zomboid_goblin.Text.Tables.{CharTables}
use zomboid_goblin.Base.{
  ℕ, zero, suc, ◌+◌, ◌-◌, ◌*◌, ◌/◌, ◌%◌, ◌≤◌, ◌<◌, min, String, count, ◌≡◌, refl, sym, ap, ◌∙◌, ◌≢◌,
  ◌↔◌, ◌⊎◌, inl, inr, Bool, true, false, not, ◌&&◌, ◌||◌, false≢true, Option, none, some, List, [],
  ◌∷◌, ◌++◌, map, arith, ltb, leb, eqb, if◌then◌else◌, ltb→lt, lt→ltb, leb→le, le→leb, eqb_iff,
  Bool-cases, Option-cases, is_some, some_or, Eq, ◌==◌, ℕ_eq, String_eq, Pair_eq, ==_refl, elem,
  length, take, keep_if, length-append, length-take-le, length-keep_if-le, All, Distinct,
}
use zomboid_goblin.Exec.{
  Error, value_error, protocol_error, intent_error, file_exists, file_not_found, os_error, Result,
  ok, err, Exec, pure, raise, lift, gets, ◌>>=◌, ◌>>◌, modify, raise_if, and_then,
}
use zomboid_goblin.Dict.{
  Dict, lookup, contains, insert, remove, lookup-insert, lookup-remove, lookup-insert_self,
  lookup-insert_absent, length-insert, length-remove-le,
}

pub record InventoryReservation : Type 0 where
  pub item_name : String
  pub count : ℕ
  pub token : String

-- `_reservations`, by token
abbrev pub Reservations : Type 0
Reservations = Dict String InventoryReservation

module _ (tables : CharTables) where
  abbrev pub same_item : String → String → Bool
  same_item a b = casefold tables a == casefold tables b

  -- `reserved_count`: the sum over the reservations of the item, upper and lower case alike
  unfoldable pub reserved_count : String → Reservations → ℕ
  reserved_count item_name [] = 0
  reserved_count item_name ((_, r) ∷ d) =
      let others = reserved_count item_name d in
      if same_item r.item_name item_name then r.count + others else others

  -- `reserve`
  unfoldable pub reserve : String → ℕ → ℕ → String → Reservations → Bool × Reservations
  unfolding reserved_count
  reserve item_name count available token d =
      if item_name == ""
        || not (leb 1 count && leb count 10)
        || ltb available count
        || contains token d
      then (false, d)
      else if ltb available (reserved_count item_name d + count)
      then (false, d)
      else (true, insert token (record { item_name = item_name; count = count; token = token }) d)

-- `release`
unfoldable pub release : String → Reservations → Reservations
release token d = remove token d

-- `commit`
unfoldable pub commit : String → Reservations → Option InventoryReservation × Reservations
commit token d = (lookup token d, remove token d)
