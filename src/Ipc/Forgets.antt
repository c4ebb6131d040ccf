-- ===== src/Ipc/Forgets.antt =====
-- A ledger that is full.
use zomboid_goblin.Ipc.Ledger.{RequestLedger, seen, remember, trim, newest, put_newest}
use zomboid_goblin.Text.Ids.{request_id_match}
use zomboid_goblin.Memory.{or_clock}
use zomboid_goblin.Base.{
  ℕ, zero, suc, ◌<◌, String, ◌≡◌, refl, sym, ap, ◌∙◌, ◌≢◌, inl, inr, true, false, ◌||◌, some, [],
  ◌∷◌, ◌++◌, arith, leb, Bool-cases, ◌==◌, ℕ_eq, String_eq, Pair_eq, length, take, All,
}
use zomboid_goblin.Exec.{ok}
use zomboid_goblin.Dict.{Dict, contains, insert, length-insert}

abbrev pub IsNewer : ℕ → Dict String ℕ → Type 0
IsNewer time d = All (λ e. time < e.1) d

insert-append :
    (id : String) (time : ℕ) (d : Dict String ℕ)
    → contains id d ≡ false
    → insert id time d ≡ d ++ ((id, time) ∷ [])
insert-append id time [] h = refl
insert-append id time ((j, t) ∷ d) h = ground (arith, h, insert-append id time d)

put_newest_last :
    (e : String × ℕ) (id : String) (time : ℕ) (d : Dict String ℕ)
    → time < e.1
    → put_newest e (d ++ ((id, time) ∷ [])) ≡ put_newest e d ++ ((id, time) ∷ [])
put_newest_last e id time [] h = ground (arith, h)
put_newest_last e id time (x ∷ d) h = elim (Bool-cases (leb x.1 e.1)) [
  | inl here ↦ rw here refl
  | inr later ↦ rw later (ap (λ r. x ∷ r) (put_newest_last e id time d h))
]

newest_last :
    (id : String) (time : ℕ) (d : Dict String ℕ)
    → IsNewer time d
    → newest (d ++ ((id, time) ∷ [])) ≡ newest d ++ ((id, time) ∷ [])
newest_last id time [] h = refl
newest_last id time (e ∷ d) h =
    ap (put_newest e) (newest_last id time d h.1) ∙ put_newest_last e id time (newest d) h.0

length-put_newest : (e : String × ℕ) (d : Dict String ℕ) → length (put_newest e d) ≡ suc (length d)
length-put_newest e [] = refl
length-put_newest e (x ∷ d) = elim (Bool-cases (leb x.1 e.1)) [
  | inl here ↦ rw here refl
  | inr later ↦ rw later (ap suc (length-put_newest e d))
]

length-newest : (d : Dict String ℕ) → length (newest d) ≡ length d
length-newest [] = refl
length-newest (e ∷ d) = length-put_newest e (newest d) ∙ ap suc (length-newest d)

contains-put_newest :
    (id : String) (e : String × ℕ) (d : Dict String ℕ)
    → contains id (put_newest e d) ≡ (id == e.0 || contains id d)
contains-put_newest id e [] = ground arith
contains-put_newest id e (x ∷ d) = elim (Bool-cases (leb x.1 e.1)) [
  | inl here ↦ rw here (ground arith)
  | inr later ↦ rw later (ground (arith, contains-put_newest id e d))
]

contains-newest : (id : String) (d : Dict String ℕ) → contains id (newest d) ≡ contains id d
contains-newest id [] = refl
contains-newest id (e ∷ d) =
    ground (arith, contains-put_newest id e (newest d), contains-newest id d)

take-append : (d : Dict String ℕ) (e : String × ℕ) → take (length d) (d ++ (e ∷ [])) ≡ d
take-append [] e = refl
take-append (x ∷ d) e = ap (λ r. x ∷ r) (take-append d e)

trim_last :
    (id : String) (time most : ℕ) (d : Dict String ℕ)
    → contains id d ≡ false
    → length d ≡ most
    → IsNewer time d
    → trim most (insert id time d) ≡ newest d
unfolding trim
trim_last id time most d new full older =
    let over : leb (length (insert id time d)) most ≡ false =
      ground (arith, length-insert id time d, new, full) in
    rw over (
      ap (λ x. take most (newest x)) (insert-append id time d new)
      ∙ ap (take most) (newest_last id time d older)
      ∙ ap (λ n. take n (newest d ++ ((id, time) ∷ []))) (sym full ∙ sym (length-newest d))
      ∙ take-append (newest d) (id, time))

or_clock_given : (time clock : ℕ) → time ≢ 0 → or_clock (some time) clock ≡ time
or_clock_given zero clock h = absurd (h refl)
or_clock_given (suc time) clock h = refl

-- A ledger that is full of identities with newer times forgets an older one at once: remember goes
-- through, and the identity is not seen behind it.
pub remember_forgets :
    (id : String) (time clock : ℕ) (l : RequestLedger)
    → request_id_match id ≡ true
    → seen id l ≡ false
    → length l.entries ≡ l.max_entries
    → IsNewer time l.entries
    → time ≢ 0
    → (l' : RequestLedger) × (remember id (some time) clock l ≡ ok l') × (seen id l' ≡ false)
unfolding remember trim
remember_forgets id time clock l good new full older given =
    let kept = trim l.max_entries (insert id time l.entries) in
    (
      record l { entries = kept },
      rw (good) (
          ap (λ t. ok (record l { entries = trim l.max_entries (insert id t l.entries) }))
            (or_clock_given time clock given)),
      ap (contains id) (trim_last id time l.max_entries l.entries new full older)
          ∙ contains-newest id l.entries
          ∙ new,
    )
