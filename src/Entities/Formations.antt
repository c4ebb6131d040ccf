-- ===== src/Entities/Formations.antt =====
-- `formation_offsets` of entities.py: where the members of a squad stand, relative to each other.
use zomboid_goblin.Base.{
  ◌≡◌, arith, ℕ, zero, suc, ◌+◌, ◌-◌, ◌/◌, ◌%◌, String, count, not, ◌||◌, List, [], ◌∷◌, leb,
  if◌then◌else◌, ◌==◌, ℕ_eq, String_eq, Pair_eq, elem, Bool-cases, ap, inl, inr, ◌⊎◌,
}
use zomboid_goblin.Exec.{value_error, Result, ok, err}

-- An integer: `pos n`, or `negsuc n` for -1 - n.
pub data Offset : Type 0 where
  pos negsuc : ℕ → Offset

-- `a - b`
unfoldable pub minus : ℕ → ℕ → Offset
minus a b = if leb b a then pos (a - b) else negsuc (b - a - 1)

-- The offset for one index, by the formation.
unfoldable pub offset : String → ℕ → ℕ → Offset × Offset
unfolding minus
offset formation count index =
    if formation == "line"
    then (minus index (count / 2), pos 0)
    else if formation == "column"
    then (pos 0, pos index)
    else if formation == "wedge"
    then (
      (if index % 2 == 0 then pos ((index + 1) / 2) else minus 0 ((index + 1) / 2)),
      pos ((index + 1) / 2),
    )
    else if formation == "ring"
    then (pos index, pos 0)
    else (minus (index % 3) 1, pos (index / 3))

-- `for index in range(count)`, from `index` on
unfoldable pub offsets_from : String → ℕ → ℕ → ℕ → List (Offset × Offset)
offsets_from formation count index zero = []
offsets_from formation count index (suc left) =
    offset formation count index ∷ offsets_from formation count (index + 1) left

-- `formation_offsets`
unfoldable pub formation_offsets : String → ℕ → Result (List (Offset × Offset))
unfolding offsets_from
formation_offsets formation count =
    if not (elem formation ("line" ∷ "wedge" ∷ "column" ∷ "ring" ∷ "loose" ∷ []))
      || not (leb count 16)
    then err (value_error "invalid formation request")
    else ok (offsets_from formation count 0 count)

to_pos : Offset → ℕ
to_pos (pos n) = n
to_pos (negsuc n) = 0

to_neg : Offset → ℕ
to_neg (pos n) = 0
to_neg (negsuc n) = n + 1

-- `minus` loses nothing: `a` and the positive part go together, and so do `b` and the negative part.
minus_balance : (a b : ℕ) → a + to_neg (minus a b) ≡ b + to_pos (minus a b)
unfolding minus to_pos to_neg
minus_balance a b = ground arith

minus_injective : (a a' b : ℕ) → minus a b ≡ minus a' b → a ≡ a'
minus_injective a a' b h =
    omega (arith, minus_balance a b, minus_balance a' b, ap to_pos h, ap to_neg h)

-- The sign on one side of a wedge.
abbrev sided : ℕ → Offset
sided i = if i % 2 == 0 then pos ((i + 1) / 2) else minus 0 ((i + 1) / 2)

to_pos-sided : (i : ℕ) → i % 2 ≡ 0 → to_neg (sided i) ≡ 0
unfolding to_neg
to_pos-sided i e = ground arith

to_neg-sided : (i : ℕ) → i % 2 ≡ 1 → to_neg (sided i) ≡ (i + 1) / 2
unfolding to_neg minus
to_neg-sided i e = ground arith

parity : (i : ℕ) → (i % 2 ≡ 0) ⊎ (i % 2 ≡ 1)
parity i = omega arith

wedge_injective : (i j : ℕ) → sided i ≡ sided j → (i + 1) / 2 ≡ (j + 1) / 2 → i ≡ j
wedge_injective i j h e =
    let n = ap to_neg h in
    elim (parity i) [
      | inl p ↦ elim (parity j) [
        | inl q ↦ omega (arith, e, p, q)
        | inr q ↦ omega (arith, e, p, q, n, to_pos-sided i p, to_neg-sided j q)
      ]
      | inr p ↦ elim (parity j) [
        | inl q ↦ omega (arith, e, p, q, n, to_neg-sided i p, to_pos-sided j q)
        | inr q ↦ omega (arith, e, p, q)
      ]
    ]

to_pos-pos : (a b : ℕ) → pos a ≡ pos b → a ≡ b
unfolding to_pos
to_pos-pos a b h = ap to_pos h

loose_injective : (i j : ℕ) → minus (i % 3) 1 ≡ minus (j % 3) 1 → pos (i / 3) ≡ pos (j / 3) → i ≡ j
loose_injective i j h k =
    let rest = minus_injective (i % 3) (j % 3) 1 h in
    let row = to_pos-pos (i / 3) (j / 3) k in omega (arith, rest, row)

-- In every formation, the offsets of two different members differ.
pub offset_injective :
    (formation : String) (count i j : ℕ)
    → offset formation count i ≡ offset formation count j
    → i ≡ j
unfolding offset
offset_injective formation count i j h = elim (Bool-cases (formation == "line")) [
  | inl a ↦
      let h' : (minus i (count / 2), pos 0) ≡ (minus j (count / 2), pos 0) = rw a at h in
      minus_injective i j (count / 2) (ap (λ p. p.0) h')
  | inr a ↦ elim (Bool-cases (formation == "column")) [
    | inl b ↦
        let h' : (pos 0, pos i) ≡ (pos 0, pos j) = rw (a, b) at h in
        to_pos-pos i j (ap (λ p. p.1) h')
    | inr b ↦ elim (Bool-cases (formation == "wedge")) [
      | inl c ↦
          let h' : (sided i, pos ((i + 1) / 2)) ≡ (sided j, pos ((j + 1) / 2)) =
            rw (a, b, c) at h in
          wedge_injective i j (ap (λ p. p.0) h')
            (to_pos-pos ((i + 1) / 2) ((j + 1) / 2) (ap (λ p. p.1) h'))
      | inr c ↦ elim (Bool-cases (formation == "ring")) [
        | inl d ↦
            let h' : (pos i, pos 0) ≡ (pos j, pos 0) = rw (a, b, c, d) at h in
            to_pos-pos i j (ap (λ p. p.0) h')
        | inr d ↦
            let h' : (minus (i % 3) 1, pos (i / 3)) ≡ (minus (j % 3) 1, pos (j / 3)) =
              rw (a, b, c, d) at h in
            loose_injective i j (ap (λ p. p.0) h') (ap (λ p. p.1) h')
      ]
    ]
  ]
]
