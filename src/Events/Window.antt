-- ===== src/Events/Window.antt =====
-- What the window of `EventGate.make` of events.py refuses.
use zomboid_goblin.Exec.{Result, ok, err}
use zomboid_goblin.Events.Making.{
  EventCall, make, make_all, fingerprint, current_of, prepared, decided,
}
use zomboid_goblin.Json.{Fields, Value}
use zomboid_goblin.Text.Tables.{CharTables}
use zomboid_goblin.Protocol.{Codec, Message}
use mathlib.Core.Path.{subst}
use mathlib.Core.Option.{some-injective}
use zomboid_goblin.Events.Duplicates.{EventGate, note, fresh, too_soon}
use zomboid_goblin.Base.{
  ℕ, ◌+◌, ◌≤◌, ◌<◌, String, ◌≡◌, refl, sym, ◌≢◌, ◌↔◌, inl, inr, Bool, true, some, [], ◌∷◌, arith,
  le→leb, Bool-cases, Option-cases, ◌==◌, ℕ_eq, String_eq, Pair_eq, keep_if, All, List,
}
use zomboid_goblin.Dict.{Dict, lookup, insert, lookup-insert, lookup-insert_self}

lookup-keep_if :
    (test : String × ℕ → Bool) (k : String) (v : ℕ) (d : Dict String ℕ)
    → lookup k d ≡ some v
    → test (k, v) ≡ true
    → lookup k (keep_if test d) ≡ some v
lookup-keep_if test k v [] h t = cc
lookup-keep_if test k v ((j, w) ∷ d) h t = elim (Bool-cases (k == j)) [
  | inl same ↦
      let e : w ≡ v = some-injective w v (rw same at h) in
      let key : k ≡ j = (String_eq.beq_iff k j).0 same in
      let kept : test (j, w) ≡ true =
        subst (λ x. test (x, w) ≡ true) key (subst (λ y. test (k, y) ≡ true) (sym e) t) in
      rw (kept, same, e) refl
  | inr differs ↦
      let rest = lookup-keep_if test k v d (rw differs at h) t in ground (arith, rest, differs)
]

-- The times that are noted for an event are not behind the given one.
abbrev Old : String → ℕ → Dict String ℕ → Type 0
Old f t d = All (λ p. (p.0 == f) ≡ true → p.1 ≤ t) d

lookup-Old : (f : String) (t v : ℕ) (d : Dict String ℕ) → Old f t d → lookup f d ≡ some v → v ≤ t
lookup-Old f t v [] h e = cc
lookup-Old f t v ((j, w) ∷ d) (p, h) e = elim (Bool-cases (f == j)) [
  | inl same ↦
      let now : w ≡ v = some-injective w v (rw same at e) in
      let key : f ≡ j = (String_eq.beq_iff f j).0 same in
      subst (λ x. x ≤ t) now (p ((String_eq.beq_iff j f).1 (sym key)))
  | inr differs ↦ lookup-Old f t v d h (rw differs at e)
]

keep_if-Old :
    (test : String × ℕ → Bool) (f : String) (t : ℕ) (d : Dict String ℕ)
    → Old f t d
    → Old f t (keep_if test d)
keep_if-Old test f t [] h = tt
keep_if-Old test f t (p ∷ d) (q, h) = ground (arith, q, keep_if-Old test f t d h)

insert-Old :
    (f k : String) (t v : ℕ) (d : Dict String ℕ)
    → ((k == f) ≡ true → v ≤ t)
    → Old f t d
    → Old f t (insert k v d)
insert-Old f k t v [] n h = (n, tt)
insert-Old f k t v ((j, w) ∷ d) n (p, h) = elim (Bool-cases (k == j)) [
  | inl same ↦
      let key : k ≡ j = (String_eq.beq_iff k j).0 same in
      rw same (subst (λ x. (x == f) ≡ true → v ≤ t) key n, h)
  | inr differs ↦ rw differs (p, insert-Old f k t v d n h)
]

All-Old : (f : String) (t : ℕ) (d : Dict String ℕ) → All (λ p. p.1 ≤ t) d → Old f t d
All-Old f t [] h = tt
All-Old f t (p ∷ d) (q, h) = (λ e. q, All-Old f t d h)

-- What is kept of an event, noted at the given time, until a later one
record Noted (f : String) (noted later window : ℕ) (g : EventGate) : Type 0 where
  window_same : g.duplicate_window_seconds ≡ window
  old : Old f noted g.recent
  held : later < noted + window → lookup f g.recent ≡ some noted

note-Noted :
    {M : Type 0} (f k : String) (noted later window current : ℕ) (m : M) (g : EventGate)
    → k ≢ f
    → current ≤ later
    → Noted f noted later window g
    → Noted f noted later window (note k current m g).1
unfolding note
note-Noted f k noted later window current m g apart past h =
    elim (Bool-cases (too_soon current g.duplicate_window_seconds (lookup k g.recent))) [
      | inl soon ↦ rw soon h
      | inr late ↦ rw late (record {
        window_same = h.window_same;
        old =
            keep_if-Old (fresh current g.duplicate_window_seconds) f noted
              (insert k current g.recent)
              (insert-Old f k noted current g.recent
                (λ e. absurd (apart ((String_eq.beq_iff k f).0 e))) h.old);
        held = λ soon.
            lookup-keep_if (fresh current g.duplicate_window_seconds) f noted
              (insert k current g.recent)
              (ground (
                arith,
                lookup-insert f k current g.recent,
                String_eq.beq_iff f k,
                h.held soon,
                apart,
              ))
              (le→leb current (noted + g.duplicate_window_seconds)
                (omega (arith, h.window_same, soon, past)));
      })
    ]

-- The event itself, when it is accepted
accepted-Noted :
    {M : Type 0} (f : String) (noted later : ℕ) (m : M) (g : EventGate)
    → All (λ p. p.1 ≤ noted) g.recent
    → (note f noted m g).0.accepted ≡ true
    → Noted f noted later g.duplicate_window_seconds (note f noted m g).1
unfolding note
accepted-Noted f noted later m g h taken =
    elim (Bool-cases (too_soon noted g.duplicate_window_seconds (lookup f g.recent))) [
      | inl soon ↦ cc (soon, taken)
      | inr late ↦ rw late (record {
        window_same = refl;
        old =
            keep_if-Old (fresh noted g.duplicate_window_seconds) f noted (insert f noted g.recent)
              (insert-Old f f noted noted g.recent (λ e. omega arith) (All-Old f noted g.recent h));
        held = λ soon.
            lookup-keep_if (fresh noted g.duplicate_window_seconds) f noted
              (insert f noted g.recent) (lookup-insert_self f noted g.recent)
              (le→leb noted (noted + g.duplicate_window_seconds) (omega arith));
      })
    ]

Noted-again :
    {M : Type 0} (f : String) (noted later window : ℕ) (m : M) (g : EventGate)
    → Noted f noted later window g
    → ((note f later m g).0.accepted ≡ true) ↔ (noted + window ≤ later)
unfolding note
Noted-again f noted later window m g h = elim (Option-cases (lookup f g.recent)) [
  | inl free ↦ (λ e. ground (arith, h.held, free), λ e. rw free refl)
  | inr (v, e) ↦
      let before = lookup-Old f noted v g.recent h.old e in
      (
        λ taken. ground (arith, h.held, h.window_same, e, taken),
        λ passed. ground (arith, h.window_same, e, before, passed),
      )
]

module _ {B : Type 0} (codec : Codec B) (tables : CharTables) (text_of : Fields → String)
    (repr : String → List (String × Value) → String) where
  -- A call with another event, not behind the given time
  abbrev pub IsOther : EventCall → ℕ → EventCall → Type 0
  IsOther c later o =
      (fingerprint codec tables text_of repr o ≢ fingerprint codec tables text_of repr c)
      × (current_of o ≤ later)

  decided-Noted :
      (f : String) (noted later window : ℕ) (o : EventCall) (q : Result Message) (g : EventGate)
      → fingerprint codec tables text_of repr o ≢ f
      → current_of o ≤ later
      → Noted f noted later window g
      → Noted f noted later window (decided codec tables text_of repr o q g).1
  decided-Noted f noted later window o (err x) g apart past h = h
  decided-Noted f noted later window o (ok m) g apart past h =
      note-Noted f (fingerprint codec tables text_of repr o) noted later window (current_of o) m g
        apart past h

  make_all-Noted :
      (c : EventCall) (noted later window : ℕ) (others : List EventCall) (g : EventGate)
      → All (IsOther c later) others
      → Noted (fingerprint codec tables text_of repr c) noted later window g
      → Noted
          (fingerprint codec tables text_of repr c)
          noted
          later
          window
          (make_all codec tables text_of repr others g)
  unfolding make_all make
  make_all-Noted c noted later window [] g h n = n
  make_all-Noted c noted later window (o ∷ os) g ((apart, past), h) n =
      make_all-Noted c noted later window os (make codec tables text_of repr o g).1 h (
        decided-Noted (fingerprint codec tables text_of repr c) noted later window o
          (prepared codec tables text_of repr o) g apart past n)

  decided_taken :
      (later : ℕ) (c : EventCall) (q : Result Message) (g : EventGate)
      → All (λ p. p.1 ≤ current_of c) g.recent
      → (decided codec tables text_of repr c q g).0.accepted ≡ true
      → Noted
          (fingerprint codec tables text_of repr c)
          (current_of c)
          later
          g.duplicate_window_seconds
          (decided codec tables text_of repr c q g).1
  decided_taken later c (err x) g h taken = cc
  decided_taken later c (ok m) g h taken =
      accepted-Noted (fingerprint codec tables text_of repr c) (current_of c) later m g h taken

  -- Let EventGate.make accept an event, on a gate whose noted times are not behind that of the call.
  -- Whatever other events it is called with next, up to the time of a further call with that same
  -- event, whose checks and message go through: that call is accepted exactly when the duplicate
  -- window has passed since the first one.
  pub make-duplicate :
      (c again : EventCall) (others : List EventCall) (g : EventGate) (m : Message)
      → All (λ p. p.1 ≤ current_of c) g.recent
      → (make codec tables text_of repr c g).0.accepted ≡ true
      → All (IsOther c (current_of again)) others
      → fingerprint codec tables text_of repr again ≡ fingerprint codec tables text_of repr c
      → prepared codec tables text_of repr again ≡ ok m
      → ((make codec tables text_of repr again (
            make_all codec tables text_of repr others
              (make codec tables text_of repr c g).1)).0.accepted
          ≡ true)
        ↔ (current_of c + g.duplicate_window_seconds ≤ current_of again)
  unfolding make
  make-duplicate c again others g m h taken o same checked =
      let first =
        decided_taken (current_of again) c (prepared codec tables text_of repr c) g h taken in
      let after =
        make_all-Noted c (current_of c) (current_of again) g.duplicate_window_seconds others _ o
          first in
      rw (checked, same)
        (Noted-again (fingerprint codec tables text_of repr c) (current_of c) (current_of again)
          g.duplicate_window_seconds m _ after)
