-- ===== src/Sentience/Validity/Calls.antt =====
-- Sequences of calls: every self stays valid.
use zomboid_goblin.Sentience.Social.{social}
use zomboid_goblin.Sentience.Validity.Chats.{social-IsSound}
use mathlib.Core.Option.{none-ne-some}
use zomboid_goblin.Sentience.Validity.Stored.{AllValid, IsSound, self_of-IsValid, get_self-IsSound}
use zomboid_goblin.Sentience.Validity.Results.{step_result-IsSound, skip_cooling_steps-IsSound}
use zomboid_goblin.Sentience.Validity.Reflections.{apply_reflection-IsSound}
use zomboid_goblin.Json.{Fields}
use zomboid_goblin.Text.Tables.{CharTables}
use zomboid_goblin.Sentience.{Mind, Sentience, get_self, self_of, note_job}
use zomboid_goblin.Sentience.Steps.{step_result, skip_cooling_steps}
use zomboid_goblin.Sentience.Reflection.{apply_reflection}
use zomboid_goblin.Sentience.Validity.{IsValid}
use mathlib.Core.Option.{none-ne-some}
use zomboid_goblin.Base.{ℕ, String, Bool, Option, List, [], ◌∷◌, ℕ_eq, String_eq, Pair_eq}

-- A call of the service.
pub data Call : Type 0 where
  look : String → Option String → Option String → Call
  job_noted : String → String → Bool → String → ℕ → Call
  job_done : String → String → Bool → Call
  skip_call : String → ℕ → Call
  chat_heard : String → Option String → Option String → String → Call
  reflect : String → ℕ → Fields → Call

module _ {M : Type 0} (tables : CharTables) (lower : String → String) (mind : Mind M) where
  unfoldable pub perform : Call → Sentience M → Sentience M
  unfolding get_self note_job step_result skip_cooling_steps social apply_reflection
  perform (look npc_id name owner) st = (get_self mind npc_id name owner st).1
  perform (job_noted npc_id intent success detail now) st =
      note_job mind npc_id intent success detail now st
  perform (job_done npc_id intent success) st = step_result mind npc_id intent success st
  perform (skip_call npc_id now) st = skip_cooling_steps mind npc_id now st
  perform (chat_heard npc_id owner category text) st =
      social lower mind npc_id owner category text st
  perform (reflect npc_id now output) st = (apply_reflection tables mind npc_id now output st).1

  unfoldable pub run : List Call → Sentience M → Sentience M
  unfolding perform
  run [] st = st
  run (call ∷ calls) st = run calls (perform call st)

  -- `Sentience(mind)`
  abbrev pub new_sentience : M → Sentience M
  new_sentience m = record { mind = m; selves = []; inbox = []; last_seen = []; recent_jobs = [] }

  perform-IsSound :
      (call : Call) (st : Sentience M) → IsSound mind st → IsSound mind (perform call st)
  unfolding perform note_job
  perform-IsSound (look npc_id name owner) st h = get_self-IsSound mind npc_id name owner st h
  perform-IsSound (job_noted npc_id intent success detail now) st h = record {
    used = h.used;
    stored = h.stored;
  }
  perform-IsSound (job_done npc_id intent success) st h =
      step_result-IsSound mind npc_id intent success st h
  perform-IsSound (skip_call npc_id now) st h = skip_cooling_steps-IsSound mind npc_id now st h
  perform-IsSound (chat_heard npc_id owner category text) st h =
      social-IsSound lower mind npc_id owner category text st h
  perform-IsSound (reflect npc_id now output) st h =
      apply_reflection-IsSound tables mind npc_id now output st h

  IsSound-run :
      (calls : List Call) (st : Sentience M) → IsSound mind st → IsSound mind (run calls st)
  unfolding run
  IsSound-run [] st h = h
  IsSound-run (call ∷ calls) st h = IsSound-run calls (perform call st) (perform-IsSound call st h)

  -- After any sequence of get, note_job, step_result, skip_cooling_steps, social and
  -- apply_reflection, on a memory whose saved selves are valid, the self that `get` returns for any
  -- Goblin either is idle, with no goal and no plan, or has a goal and stands at one of the at most
  -- six steps of its plan, each with a known intent; and so has the goal that is set aside, if there
  -- is one.
  pub run_self :
      (calls : List Call) (m : M) (npc_id : String) (name owner : Option String)
      → AllValid (λ j. mind.load_self j m)
      → IsValid (self_of mind npc_id name owner (run calls (new_sentience m)))
  run_self calls m npc_id name owner h =
      self_of-IsValid mind npc_id name owner (run calls (new_sentience m)) (
        IsSound-run calls (new_sentience m)
          (record { used = λ j s e. absurd (none-ne-some s e); stored = h }))
