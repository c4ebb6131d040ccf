-- ===== src/Memory/Chatter.antt =====
-- The rows that `chatter_since` returns: those of the window, the newest last.
use zomboid_goblin.Memory.{insert_row, sort_rows, ChatterRow, before}
use zomboid_goblin.Base.{
  ◌+◌, ◌≤◌, ◌≡◌, refl, ◌↔◌, inl, inr, List, [], ◌∷◌, arith, Bool-cases, ℕ_eq, String_eq, Pair_eq,
  length, All,
}

length-insert_row :
    (r : ChatterRow) (rows : List ChatterRow) → length (insert_row r rows) ≡ length rows + 1
unfolding insert_row
length-insert_row r [] = omega arith
length-insert_row r (s ∷ rows) = ground (arith, length-insert_row r rows)

pub length-sort_rows : (rows : List ChatterRow) → length (sort_rows rows) ≡ length rows
unfolding sort_rows
length-sort_rows [] = refl
length-sort_rows (r ∷ rows) =
    omega (arith, length-insert_row r (sort_rows rows), length-sort_rows rows)

module _ (P : ChatterRow → Type 0) where
  All-insert_row :
      (r : ChatterRow) (rows : List ChatterRow) → All P (insert_row r rows) ↔ (P r × All P rows)
  unfolding insert_row
  All-insert_row r [] = (λ h. h, λ h. h)
  All-insert_row r (s ∷ rows) = elim (Bool-cases (before s r)) [
    | inl earlier ↦ rw earlier (
      λ h. let (p, rest) = (All-insert_row r rows).0 h.1 in (p, (h.0, rest)),
      λ h. (h.1.0, (All-insert_row r rows).1 (h.0, h.1.1)),
    )
    | inr later ↦ rw later (λ h. h, λ h. h)
  ]

  pub All-sort_rows : (rows : List ChatterRow) → All P (sort_rows rows) ↔ All P rows
  unfolding sort_rows
  All-sort_rows [] = (λ h. h, λ h. h)
  All-sort_rows (r ∷ rows) = (
    λ h.
        let (p, rest) = (All-insert_row r (sort_rows rows)).0 h in (p, (All-sort_rows rows).0 rest),
    λ h. (All-insert_row r (sort_rows rows)).1 (h.0, (All-sort_rows rows).1 h.1),
  )

-- Each row at or before all that follow it.
abbrev pub Ascending : List ChatterRow → Type 0
Ascending [] = Unit
Ascending (r ∷ rows) = All (λ s. r.created_at ≤ s.created_at) rows × Ascending rows

All-later :
    (r s : ChatterRow) (rows : List ChatterRow)
    → r.created_at ≤ s.created_at
    → All (λ x. s.created_at ≤ x.created_at) rows
    → All (λ x. r.created_at ≤ x.created_at) rows
All-later r s [] h later = tt
All-later r s (x ∷ rows) h later = (omega (arith, later.0), All-later r s rows h later.1)

insert_row-Ascending :
    (r : ChatterRow) (rows : List ChatterRow) → Ascending rows → Ascending (insert_row r rows)
unfolding insert_row
insert_row-Ascending r [] h = (tt, tt)
insert_row-Ascending r (s ∷ rows) h = elim (Bool-cases (before s r)) [
  | inl earlier ↦ rw earlier (
    (All-insert_row (λ x. s.created_at ≤ x.created_at) r rows).1 (ground arith, h.0),
    insert_row-Ascending r rows h.1,
  )
  | inr later ↦
      let first : r.created_at ≤ s.created_at = ground arith in
      rw later ((first, All-later r s rows first h.0), h)
]

pub sort_rows-Ascending : (rows : List ChatterRow) → Ascending (sort_rows rows)
unfolding sort_rows
sort_rows-Ascending [] = tt
sort_rows-Ascending (r ∷ rows) = insert_row-Ascending r (sort_rows rows) (sort_rows-Ascending rows)
