-- ===== src/Controllers/Inventory/Reserved.antt =====
-- What the reservations add up to.
use zomboid_goblin.Text.Trim.{casefold}
use zomboid_goblin.Text.Tables.{CharTables}
use zomboid_goblin.Controllers.Inventory.{
  Reservations, InventoryReservation, reserved_count, reserve, same_item, release, commit,
}
use zomboid_goblin.Base.{
  ℕ, ◌+◌, ◌≤◌, String, ◌≡◌, refl, true, false, some, [], ◌∷◌, arith, if◌then◌else◌, ℕ_eq, String_eq,
  Pair_eq, ==_refl,
}
use zomboid_goblin.Dict.{contains, insert, remove, lookup-insert_self}

-- Every token once.
abbrev pub TokensOnce : Reservations → Type 0
TokensOnce [] = Unit
TokensOnce ((k, r) ∷ d) = (contains k d ≡ false) × TokensOnce d

module _ (tables : CharTables) where
  -- What one reservation counts for an item.
  abbrev share : String → InventoryReservation → ℕ
  share item r = if same_item tables r.item_name item then r.count else 0

  reserved_count-insert :
      (item token : String) (r : InventoryReservation) (d : Reservations)
      → contains token d ≡ false
      → reserved_count tables item (insert token r d) ≡ reserved_count tables item d + share item r
  unfolding reserved_count
  reserved_count-insert item token r [] h = ground arith
  reserved_count-insert item token r ((k, x) ∷ d) h =
      ground (arith, reserved_count-insert item token r d)

  remove_absent :
      (token : String) (d : Reservations) → contains token d ≡ false → remove token d ≡ d
  remove_absent token [] h = refl
  remove_absent token ((k, x) ∷ d) h = ground (arith, remove_absent token d)

  remove-insert :
      (token : String) (r : InventoryReservation) (d : Reservations)
      → contains token d ≡ false
      → remove token (insert token r d) ≡ d
  remove-insert token r [] h = ground (arith, ==_refl token)
  remove-insert token r ((k, x) ∷ d) h = ground (arith, remove-insert token r d)

  abbrev reservation : String → ℕ → String → InventoryReservation
  reservation item n token = record { item_name = item; count = n; token = token }

  reserve_granted :
      (item : String) (n available : ℕ) (token : String) (d : Reservations)
      → (reserve tables item n available token d).0 ≡ true
      → ((reserve tables item n available token d).1 ≡ insert token (reservation item n token) d)
        × (contains token d ≡ false)
        × (reserved_count tables item d + n ≤ available)
  unfolding reserve
  reserve_granted item n available token d h = (ground arith, ground arith, ground arith)

  share_self : (item : String) (n : ℕ) (token : String) → share item (reservation item n token) ≡ n
  share_self item n token = rw (==_refl (casefold tables item))

  -- A reservation that goes through adds its count to its item and to no other, stays within the
  -- stock that the caller names, and is undone by `release`; `commit` hands it out once.
  pub reserve_effect :
      (item : String) (n available : ℕ) (token : String) (d : Reservations)
      → (reserve tables item n available token d).0 ≡ true
      → let d' = (reserve tables item n available token d).1 in
        ((other : String)
          → reserved_count tables other d'
            ≡ reserved_count tables other d + (if same_item tables item other then n else 0))
        × (reserved_count tables item d' ≤ available)
        × (release token d' ≡ d)
        × (commit token d' ≡ (some (record { item_name = item; count = n; token = token }), d))
  unfolding release commit
  reserve_effect item n available token d h =
      let (after, new, room) = reserve_granted item n available token d h in
      let r = reservation item n token in
      rw after (
        λ other. reserved_count-insert other token r d new,
        omega (arith, room, reserved_count-insert item token r d new, share_self item n token),
        remove-insert token r d new,
        λ i. (lookup-insert_self token r d i, remove-insert token r d new i),
      )
