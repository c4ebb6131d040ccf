-- ===== src/Social/Governor/Cooldown.antt =====
-- The cooldown between ordinary remarks.
use zomboid_goblin.Memory.Chatter.{Ascending, All-sort_rows, sort_rows-Ascending}
use zomboid_goblin.Memory.{ChatterRow, chatter_since, sort_rows, MemoryStore}
use zomboid_goblin.Social.Governor.{ChatterGovernor, last_time, allow, decide_chatter}
use zomboid_goblin.Base.{
  ℕ, ◌+◌, ◌-◌, ◌≤◌, ◌≡◌, true, some, List, [], ◌∷◌, arith, leb, ℕ_eq, String_eq, Pair_eq, All,
  String, Bool, none, ◌≢◌, keep_if, ◌<◌, Bool-cases, inl, Option-cases, inr,
}

last_time-ge :
    (rows : List ChatterRow) (t : ℕ)
    → Ascending rows
    → last_time rows ≡ some t
    → All (λ r. r.created_at ≤ t) rows
last_time-ge [] t h e = tt
last_time-ge (r ∷ []) t h e = (ground arith, tt)
last_time-ge (r ∷ s ∷ rows) t h e =
    let rest = last_time-ge (s ∷ rows) t h.1 e in (omega (arith, h.0.0, rest.0), rest)

All-spaced :
    (rows : List ChatterRow) (last now gap : ℕ)
    → last + gap ≤ now
    → All (λ r. r.created_at ≤ last) rows
    → All (λ r. r.created_at + gap ≤ now) rows
All-spaced [] last now gap h old = tt
All-spaced (r ∷ rows) last now gap h old =
    (omega (arith, old.0), All-spaced rows last now gap h old.1)

-- A chatter row is silent long enough: older than the hour, or at least the interval ago.
abbrev pub Quiet : ChatterGovernor → ℕ → ChatterRow → Type 0
Quiet g now r = (leb (now - 3600) r.created_at ≡ true) → r.created_at + g.min_interval_seconds ≤ now

last_time-cons : (r : ChatterRow) (rows : List ChatterRow) → last_time (r ∷ rows) ≢ none
last_time-cons r [] h = cc
last_time-cons r (s ∷ rows) h = last_time-cons s rows h

All-silent : (P : ChatterRow → Type 0) (rows : List ChatterRow) → last_time rows ≡ none → All P rows
All-silent P [] h = tt
All-silent P (r ∷ rows) h = absurd (last_time-cons r rows h)

All-keep_if :
    (P : ChatterRow → Type 0) (test : ChatterRow → Bool) (rows : List ChatterRow)
    → All P (keep_if test rows)
    → All (λ r. test r ≡ true → P r) rows
All-keep_if P test [] h = tt
All-keep_if P test (r ∷ rows) h = elim (Bool-cases (test r)) [
  | inl kept ↦
      let h' : P r × All P (keep_if test rows) = rw kept at h in
      ((λ _. h'.0), All-keep_if P test rows h'.1)
  | inr dropped ↦
      let h' : All P (keep_if test rows) = rw dropped at h in
      ((λ e. cc (dropped, e)), All-keep_if P test rows h')
]

granted_gap :
    (g : ChatterGovernor) (k : String) (now priority last : ℕ) (recent : List ChatterRow)
    → priority < 3
    → (decide_chatter g k now priority recent).allowed ≡ true
    → last_time recent ≡ some last
    → last + g.min_interval_seconds ≤ now
unfolding decide_chatter
granted_gap g k now priority last recent p h e = ground arith

recent_spaced :
    (g : ChatterGovernor) (k : String) (now priority : ℕ) (rows : List ChatterRow)
    → priority < 3
    → (decide_chatter g k now priority (sort_rows rows)).allowed ≡ true
    → All (λ r. r.created_at + g.min_interval_seconds ≤ now) (sort_rows rows)
recent_spaced g k now priority rows p h = elim (Option-cases (last_time (sort_rows rows))) [
  | inl silent ↦
      All-silent (λ r. r.created_at + g.min_interval_seconds ≤ now) (sort_rows rows) silent
  | inr (last, e) ↦
      All-spaced (sort_rows rows) last now g.min_interval_seconds
        (granted_gap g k now priority last (sort_rows rows) p h e)
        (last_time-ge (sort_rows rows) last (sort_rows-Ascending rows) e)
]

-- An ordinary remark is allowed only when each remark of the last hour is at least the minimum
-- interval ago.
pub allow-Quiet :
    (g : ChatterGovernor) (k : String) (now priority : ℕ) (s : MemoryStore)
    → priority < 3
    → (allow g k now priority s).allowed ≡ true
    → All (Quiet g now) s.chatter
unfolding allow chatter_since
allow-Quiet g k now priority s p h =
    let rows = keep_if (λ r. leb (now - 3600) r.created_at) s.chatter in
    All-keep_if (λ r. r.created_at + g.min_interval_seconds ≤ now)
      (λ r. leb (now - 3600) r.created_at) s.chatter
      ((All-sort_rows (λ r. r.created_at + g.min_interval_seconds ≤ now) rows).0
        (recent_spaced g k now priority rows p h))
