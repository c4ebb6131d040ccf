-- ===== src/Events/Duplicates.antt =====
-- `EventGate.make` of events.py, behind the making of the message: the window in which the same event
-- is not accepted again. The fingerprint of the event is an argument, and so is its message.
use zomboid_goblin.Base.{
  ℕ, ◌+◌, String, Bool, true, false, Option, none, some, [], ltb, leb, if◌then◌else◌, ℕ_eq,
  String_eq, Pair_eq, keep_if,
}
use zomboid_goblin.Dict.{Dict, lookup, insert}

pub record EventDecision (M : Type 0) : Type 0 where
  pub accepted : Bool
  pub reason : String
  pub message : Option M

pub record EventGate : Type 0 where
  pub duplicate_window_seconds : ℕ
  pub recent : Dict String ℕ

-- `EventGate.__init__`
abbrev pub new_gate : ℕ → EventGate
new_gate seconds = record { duplicate_window_seconds = seconds; recent = [] }

-- `current - value <= window`
abbrev pub fresh : ℕ → ℕ → String × ℕ → Bool
fresh current window p = leb current (p.1 + window)

-- `last is not None and current - last < window`
abbrev pub too_soon : ℕ → ℕ → Option ℕ → Bool
too_soon current window none = false
too_soon current window (some last) = ltb current (last + window)

-- The end of `make`.
unfoldable pub note : {M : Type 0} → String → ℕ → M → EventGate → EventDecision M × EventGate
note fingerprint current message g =
    if too_soon current g.duplicate_window_seconds (lookup fingerprint g.recent)
    then (record { accepted = false; reason = "duplicate event cooldown"; message = none }, g)
    else (
      record { accepted = true; reason = "accepted"; message = some message },
      record g {
        recent =
            keep_if (fresh current g.duplicate_window_seconds)
              (insert fingerprint current g.recent);
      },
    )
