-- ===== src/Ipc/Taken.antt =====
-- Identities that are handed out and taken up by a ledger.
use zomboid_goblin.Ipc.Ledger.{RequestLedger, seen, trim}
use zomboid_goblin.Base.{
  ℕ, suc, ◌+◌, ◌≤◌, ◌<◌, String, ◌≡◌, refl, ◌∙◌, inl, inr, true, false, ◌||◌, List, [], ◌∷◌, ◌++◌,
  arith, Bool-cases, ◌==◌, ℕ_eq, String_eq, Pair_eq, elem, length, All, Distinct,
}
use zomboid_goblin.Dict.{Dict, insert, lookup-insert, length-insert}

-- An identity more, while there is room for it.
pub trim_room :
    (most time : ℕ) (id : String) (d : Dict String ℕ)
    → length d < most
    → trim most (insert id time d) ≡ insert id time d
unfolding trim
trim_room most time id d h = ground (arith, length-insert id time d, h)

-- Identities that are handed out, each once and none that the ledger had; it takes them up, and at most
-- so many.
pub record Took (n : ℕ) (l l' : RequestLedger) (taken : List String) : Type 0 where
  pub distinct : Distinct taken
  pub fresh : All (λ id. seen id l ≡ false) taken
  pub known : (id : String) → (seen id l || elem id taken) ≡ true → seen id l' ≡ true
  pub grown : length l'.entries ≤ length l.entries + n
  pub bound : l'.max_entries ≡ l.max_entries

abbrev pub with_id : String → ℕ → RequestLedger → RequestLedger
with_id id time l = record l { entries = insert id time l.entries }

pub Took-none : (n : ℕ) (l : RequestLedger) → Took n l l []
Took-none n l = record {
  distinct = tt;
  fresh = tt;
  known = λ id h. ground (arith, h);
  grown = omega arith;
  bound = refl;
}

seen-with_id :
    (j id : String) (time : ℕ) (l : RequestLedger)
    → seen j (with_id id time l) ≡ (j == id || seen j l)
seen-with_id j id time l = ground (arith, lookup-insert j id time l.entries)

fresh_lem :
    (id : String) (time : ℕ) (l : RequestLedger) (taken : List String)
    → All (λ j. seen j (with_id id time l) ≡ false) taken
    → (elem id taken ≡ false) × All (λ j. seen j l ≡ false) taken
fresh_lem id time l [] h = (refl, tt)
fresh_lem id time l (j ∷ js) h =
    let (other, rest) = fresh_lem id time l js h.1 in
    (
      ground (
        arith,
        other,
        seen-with_id j id time l,
        h.0,
        String_eq.beq_iff id j,
        String_eq.beq_iff j id,
      ),
      (ground (arith, seen-with_id j id time l, h.0), rest),
    )

pub Took-one :
    (n : ℕ) (id : String) (time : ℕ) (l l' : RequestLedger) (taken : List String)
    → seen id l ≡ false
    → Took n (with_id id time l) l' taken
    → Took (suc n) l l' (id ∷ taken)
Took-one n id time l l' taken new t =
    let (other, rest) = fresh_lem id time l taken t.fresh in
    record {
      distinct = (other, t.distinct);
      fresh = (new, rest);
      known = λ j h. t.known j (ground (arith, h, seen-with_id j id time l));
      grown = ground (arith, length-insert id time l.entries, new, t.grown);
      bound = t.bound;
    }

-- What is taken up, but lost by a raise.
pub Took-lost :
    (n : ℕ) (l l' : RequestLedger) (taken : List String) → Took n l l' taken → Took n l l' []
Took-lost n l l' taken t = record {
  distinct = tt;
  fresh = tt;
  known = λ j h. t.known j (ground (arith, h));
  grown = t.grown;
  bound = t.bound;
}

elem-append : (x : String) (a b : List String) → elem x (a ++ b) ≡ (elem x a || elem x b)
elem-append x [] b = refl
elem-append x (y ∷ a) b = ground (arith, elem-append x a b)

apart_lem :
    (x : String) (a b : List String)
    → All (λ j. elem j (x ∷ a) ≡ false) b
    → (elem x b ≡ false) × All (λ j. elem j a ≡ false) b
apart_lem x a [] h = (refl, tt)
apart_lem x a (j ∷ b) h =
    let (other, rest) = apart_lem x a b h.1 in
    (
      ground (arith, other, h.0, String_eq.beq_iff x j, String_eq.beq_iff j x),
      (ground (arith, h.0), rest),
    )

Distinct-append :
    (a b : List String)
    → Distinct a
    → Distinct b
    → All (λ j. elem j a ≡ false) b
    → Distinct (a ++ b)
Distinct-append [] b da db h = db
Distinct-append (x ∷ a) b da db h =
    let (other, rest) = apart_lem x a b h in
    (rw elem-append (ground (arith, da.0, other)), Distinct-append a b da.1 db rest)

All-append : (P : String → Type 0) (a b : List String) → All P a → All P b → All P (a ++ b)
All-append P [] b ha hb = hb
All-append P (x ∷ a) b ha hb = (ha.0, All-append P a b ha.1 hb)

split_fresh :
    (l l' : RequestLedger) (a b : List String)
    → ((id : String) → (seen id l || elem id a) ≡ true → seen id l' ≡ true)
    → All (λ id. seen id l' ≡ false) b
    → All (λ id. seen id l ≡ false) b × All (λ id. elem id a ≡ false) b
split_fresh l l' a [] known h = (tt, tt)
split_fresh l l' a (j ∷ b) known h =
    let (x, y) = split_fresh l l' a b known h.1 in
    elim (Bool-cases (seen j l || elem j a)) [
      | inl there ↦ ground (arith, known j there, h.0)
      | inr gone ↦ ((ground (arith, gone), x), (ground (arith, gone), y))
    ]

pub Took-append :
    (n k : ℕ) (l l' l'' : RequestLedger) (a b : List String)
    → Took n l l' a
    → Took k l' l'' b
    → Took (n + k) l l'' (a ++ b)
Took-append n k l l' l'' a b s t =
    let (old, other) = split_fresh l l' a b s.known t.fresh in
    record {
      distinct = Distinct-append a b s.distinct t.distinct other;
      fresh = All-append (λ id. seen id l ≡ false) a b s.fresh old;
      known = λ id h. t.known id (either_known id (rw elem-append at h));
      grown = omega (arith, s.grown, t.grown);
      bound = t.bound ∙ s.bound;
    }
  where
    either_known :
        (id : String)
        → (seen id l || (elem id a || elem id b)) ≡ true
        → (seen id l' || elem id b) ≡ true
    either_known id h = elim (Bool-cases (seen id l || elem id a)) [
      | inl first ↦ ground (arith, s.known id first)
      | inr neither ↦ ground (arith, h, neither)
    ]
