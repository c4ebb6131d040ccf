-- ===== src/Tests/Social.antt =====
-- Remarks under the limits of the governor.
use zomboid_goblin.Text.Location.{match_literal}
use zomboid_goblin.Social.Governor.Cooldown.{Quiet, allow-Quiet}
use zomboid_goblin.Text.Tables.{ascii}
use zomboid_goblin.Text.Trim.{strip, lstrip, rstrip}
use zomboid_goblin.Social.Governor.{ChatterGovernor, allow, decide_chatter}
use zomboid_goblin.Social.Speech.{
  sanitize_speech, words, join_words, fit, drop_control, has_fence, has_payload,
}
use zomboid_goblin.Memory.{MemoryStore, empty, chatter_row, chatter_since, sort_rows, insert_row}
use zomboid_goblin.Social.Governor.Hourly.{Remark, hour_count, say_all, say_all-hourly}
use zomboid_goblin.Base.{
  ℕ, ◌≤◌, String, ◌≡◌, refl, List, [], ◌∷◌, arith, ℕ_eq, String_eq, Pair_eq, All,
}
use zomboid_goblin.Exec.{ok}

abbrev limits : ChatterGovernor
limits = record { min_interval_seconds = 45; event_interval_seconds = 300; hourly_limit = 2 }

abbrev remark : String → ℕ → Remark
remark key now = record {
  event_key = key;
  channel = "game";
  text = "The   goblin is here.";
  now = now;
  clock = 0;
  row_clock = 0;
  priority = 1;
}

abbrev remarks : List Remark
remarks = remark "c" 900 ∷ remark "b" 500 ∷ remark "a" 100 ∷ []

say_all-hourly_example : hour_count 900 (say_all ascii limits remarks empty) ≤ 2
say_all-hourly_example =
    say_all-hourly ascii limits remarks 900
      (omega arith, omega arith, (omega arith, omega arith, (omega arith, omega arith, tt)))

abbrev one_row : MemoryStore
one_row = record empty {
  chatter = chatter_row 1 "a" "game" "The goblin is here." 4000 ∷ [];
  last_chatter = 1;
}

allow-Quiet_example : All (Quiet limits 4100) one_row.chatter
unfolding allow decide_chatter chatter_since sort_rows insert_row empty
allow-Quiet_example = allow-Quiet limits "b" 4100 1 one_row (omega arith) refl

compacted : sanitize_speech ascii "  The   goblin is here. " ≡ ok "The goblin is here."
unfolding sanitize_speech strip lstrip rstrip words join_words fit drop_control has_fence
    has_payload match_literal
compacted = refl
