-- ===== src/Social/Governor/Hourly.antt =====
-- The hourly limit over any run of ordinary remarks.
use zomboid_goblin.Social.Speech.{sanitize_speech}
use zomboid_goblin.Social.Governor.{
  ChatterGovernor, ChatterDecision, record_speech, record_clean, allow,
}
use zomboid_goblin.Memory.Chatter.{length-sort_rows}
use zomboid_goblin.Text.Tables.{CharTables}
use zomboid_goblin.Memory.{
  MemoryStore, chatter_since, ChatterRow, record_chatter, empty, chatter_row, or_clock,
}
use zomboid_goblin.Base.{
  ℕ, ◌+◌, ◌-◌, ◌≤◌, ◌<◌, String, ◌≡◌, Bool, true, Option, some, List, [], ◌∷◌, ◌++◌, arith, leb,
  ℕ_eq, String_eq, Pair_eq, length, keep_if,
}
use zomboid_goblin.Exec.{ok, err, Exec, lift, ◌>>=◌}

pub record Remark : Type 0 where
  pub event_key : String
  pub channel : String
  pub text : String
  pub now : ℕ
  pub clock : ℕ
  pub row_clock : ℕ
  pub priority : ℕ

-- The rows of the hour before `t`.
abbrev pub in_hour : ℕ → ChatterRow → Bool
in_hour t r = leb (t - 3600) r.created_at

pub hour_count : ℕ → MemoryStore → ℕ
hour_count t s = length (keep_if (in_hour t) s.chatter)

length-chatter_since :
    (t : ℕ) (s : MemoryStore) → length (chatter_since (t - 3600) s) ≡ hour_count t s
unfolding chatter_since hour_count
length-chatter_since t s = length-sort_rows (keep_if (in_hour t) s.chatter)

later_hour :
    (t u : ℕ) (rows : List ChatterRow)
    → t ≤ u
    → length (keep_if (in_hour u) rows) ≤ length (keep_if (in_hour t) rows)
later_hour t u [] h = omega arith
later_hour t u (r ∷ rows) h = ground (arith, later_hour t u rows h)

later_hour_count : (t u : ℕ) (s : MemoryStore) → t ≤ u → hour_count u s ≤ hour_count t s
unfolding hour_count
later_hour_count t u s h = later_hour t u s.chatter h

hour_append :
    (t : ℕ) (rows : List ChatterRow) (r : ChatterRow)
    → length (keep_if (in_hour t) (rows ++ r ∷ [])) ≤ length (keep_if (in_hour t) rows) + 1
hour_append t [] r = ground arith
hour_append t (x ∷ rows) r = ground (arith, hour_append t rows r)

record_chatter_hour :
    (k c x : String) (now : Option ℕ) (clock t : ℕ) (s : MemoryStore)
    → hour_count t (record_chatter k c x now clock s).1 ≤ hour_count t s + 1
unfolding record_chatter hour_count
record_chatter_hour k c x now clock t s =
    ground
      (arith, hour_append t s.chatter (chatter_row (s.last_chatter + 1) k c x (or_clock now clock)))

allow_room :
    (g : ChatterGovernor) (k : String) (now priority : ℕ) (s : MemoryStore)
    → priority < 3
    → (allow g k now priority s).allowed ≡ true
    → hour_count now s < g.hourly_limit
unfolding allow
allow_room g k now priority s p h = ground (arith, length-chatter_since now s)

record_clean_hour :
    (g : ChatterGovernor) (k c x : String) (now clock row_clock priority : ℕ) (s : MemoryStore)
    → priority < 3
    → hour_count now s ≤ g.hourly_limit
    → hour_count now (record_clean g k c (some now) clock row_clock priority x s).1 ≤ g.hourly_limit
unfolding record_clean
record_clean_hour g k c x now clock row_clock priority s p h =
    ground
      (arith, allow_room g k now priority s p, record_chatter_hour k c x (some now) row_clock now s)

module _ (tables : CharTables) (g : ChatterGovernor) where
  abbrev pub speak : Remark → Exec MemoryStore ChatterDecision
  speak u =
      record_speech tables g u.event_key u.channel u.text (some u.now) u.clock u.row_clock
        u.priority

  -- The remarks with the newest first, each given as its own time, none with priority 3.
  abbrev pub Ordinary : ℕ → List Remark → Type 0
  Ordinary t [] = Unit
  Ordinary t (u ∷ earlier) = (u.now ≤ t) × (u.priority < 3) × Ordinary u.now earlier

  pub say_all : List Remark → MemoryStore → MemoryStore
  say_all [] s = s
  say_all (u ∷ earlier) s = (speak u (say_all earlier s)).1

  -- An ordinary remark keeps the hour that ends with it within the limit.
  speak_hour :
      (u : Remark) (s : MemoryStore)
      → u.priority < 3
      → hour_count u.now s ≤ g.hourly_limit
      → hour_count u.now (speak u s).1 ≤ g.hourly_limit
  unfolding record_speech
  speak_hour u s p h =
      elim (sanitize_speech tables u.text)
        as (λ r.
          hour_count u.now
            ((lift r
                >>= record_clean g u.event_key u.channel (some u.now) u.clock u.row_clock
                    u.priority)
              s).1
          ≤ g.hourly_limit) [
            | ok clean ↦
                record_clean_hour g u.event_key u.channel clean u.now u.clock u.row_clock u.priority
                  s p h
            | err x ↦ h
          ]

  -- Whatever is said from an empty store, in the order of time and without priority 3, the remarks
  -- kept of the last hour are never more than the hourly limit.
  pub say_all-hourly :
      (remarks : List Remark) (t : ℕ)
      → Ordinary t remarks
      → hour_count t (say_all remarks empty) ≤ g.hourly_limit
  unfolding say_all
  say_all-hourly [] t h = unfold hour_count empty in omega arith
  say_all-hourly (u ∷ earlier) t h =
      let before = say_all-hourly earlier u.now h.2 in
      omega (
        arith,
        later_hour_count u.now t (speak u (say_all earlier empty)).1 h.0,
        speak_hour u (say_all earlier empty) h.1 before,
      )
