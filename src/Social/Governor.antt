-- ===== src/Social/Governor.antt =====
-- `ChatterGovernor`: the limits on unprompted chatter. Times are natural numbers of seconds.
pub mod Hourly
pub mod Cooldown
use zomboid_goblin.Social.Speech.{sanitize_speech}
use zomboid_goblin.Text.Tables.{CharTables}
use zomboid_goblin.Memory.{ChatterRow, MemoryStore, chatter_since, record_chatter}
use zomboid_goblin.Base.{
  ℕ, zero, suc, ◌+◌, ◌-◌, ◌*◌, ◌/◌, ◌%◌, ◌≤◌, ◌<◌, min, String, count, ◌≡◌, refl, sym, ap, ◌∙◌, ◌≢◌,
  ◌↔◌, ◌⊎◌, inl, inr, Bool, true, false, not, ◌&&◌, ◌||◌, false≢true, Option, none, some, List, [],
  ◌∷◌, ◌++◌, map, arith, ltb, leb, eqb, if◌then◌else◌, ltb→lt, lt→ltb, leb→le, le→leb, eqb_iff,
  Bool-cases, Option-cases, is_some, some_or, Eq, ◌==◌, ℕ_eq, String_eq, Pair_eq, ==_refl, elem,
  length, take, keep_if, length-append, length-take-le, length-keep_if-le, All, Distinct,
}
use zomboid_goblin.Exec.{
  Error, value_error, protocol_error, intent_error, file_exists, file_not_found, os_error, Result,
  ok, err, Exec, pure, raise, lift, gets, ◌>>=◌, ◌>>◌, modify, raise_if, and_then,
}
use zomboid_goblin.Dict.{
  Dict, lookup, contains, insert, remove, lookup-insert, lookup-remove, lookup-insert_self,
  lookup-insert_absent, length-insert, length-remove-le,
}

pub record ChatterGovernor : Type 0 where
  pub min_interval_seconds : ℕ
  pub event_interval_seconds : ℕ
  pub hourly_limit : ℕ

pub record ChatterDecision : Type 0 where
  pub allowed : Bool
  pub reason : String

abbrev pub denied : String → ChatterDecision
denied reason = record { allowed = false; reason = reason }

abbrev pub granted : ChatterDecision
granted = record { allowed = true; reason = "allowed" }

-- `rows[-1]["created_at"]`
abbrev pub last_time : List ChatterRow → Option ℕ
last_time [] = none
last_time (r ∷ []) = some r.created_at
last_time (r ∷ s ∷ rows) = last_time (s ∷ rows)

-- `a - b < limit`, for a difference that may be negative
abbrev pub within : ℕ → ℕ → ℕ → Bool
within a b limit = ltb a (b + limit)

-- `allow`, for the rows of the last hour
unfoldable pub decide_chatter : ChatterGovernor → String → ℕ → ℕ → List ChatterRow → ChatterDecision
decide_chatter g event_key current priority recent =
    if leb g.hourly_limit (length recent) && ltb priority 3
    then denied "hourly chatter limit"
    else elim (last_time recent) [
      | none ↦ granted
      | some last ↦
          if within current last g.min_interval_seconds && ltb priority 3
          then denied "global chatter cooldown"
          else elim (last_time (keep_if (λ r. r.event_key == event_key) recent)) [
            | none ↦ granted
            | some same ↦
                if within current same g.event_interval_seconds
                then denied "event chatter cooldown"
                else granted
          ]
    ]

-- `allow`: below 0 the start of the window counts as 0.
unfoldable pub allow : ChatterGovernor → String → ℕ → ℕ → MemoryStore → ChatterDecision
unfolding decide_chatter
allow g event_key current priority s =
    decide_chatter g event_key current priority (chatter_since (current - 3600) s)

-- `record`, behind the check of the text
unfoldable pub record_clean :
    ChatterGovernor
    → String
    → String
    → Option ℕ
    → ℕ
    → ℕ
    → ℕ
    → String
    → Exec MemoryStore ChatterDecision
unfolding allow
record_clean g event_key channel now clock row_clock priority clean = do
  decision ← gets (allow g event_key (some_or now clock) priority)
  if not decision.allowed
      then pure decision
      else do record_chatter event_key channel clean now row_clock; pure decision

-- `record`, with the caller's time, or else the clock's: it is read once for the decision and once
-- for the row.
unfoldable pub record_speech :
    CharTables
    → ChatterGovernor
    → String
    → String
    → String
    → Option ℕ
    → ℕ
    → ℕ
    → ℕ
    → Exec MemoryStore ChatterDecision
record_speech tables g event_key channel text now clock row_clock priority = do
  clean ← lift (sanitize_speech tables text)
  record_clean g event_key channel now clock row_clock priority clean
