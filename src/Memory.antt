-- ===== src/Memory.antt =====
-- goblin_zomboid/memory.py: `MemoryStore`. The SQLite tables are lists of rows in the order of their
-- ids; `loot_claims` is keyed by its primary key. Each call holds the store's lock, so calls do not
-- interleave. A clock's reading is an argument, used where the caller gives no time.
pub mod Chatter
pub mod Claims
pub mod Relationships
use Prim.Native.String.{len}
use zomboid_goblin.Base.{
  ℕ, zero, suc, ◌+◌, ◌-◌, ◌*◌, ◌/◌, ◌%◌, ◌≤◌, ◌<◌, min, String, count, ◌≡◌, refl, sym, ap, ◌∙◌, ◌≢◌,
  ◌↔◌, ◌⊎◌, inl, inr, Bool, true, false, not, ◌&&◌, ◌||◌, false≢true, Option, none, some, List, [],
  ◌∷◌, ◌++◌, map, arith, ltb, leb, eqb, if◌then◌else◌, ltb→lt, lt→ltb, leb→le, le→leb, eqb_iff,
  Bool-cases, Option-cases, is_some, some_or, Eq, ◌==◌, ℕ_eq, String_eq, Pair_eq, ==_refl, elem,
  length, take, keep_if, length-append, length-take-le, length-keep_if-le, All, Distinct,
}
use zomboid_goblin.Exec.{
  Error, value_error, protocol_error, intent_error, file_exists, file_not_found, os_error, Result,
  ok, err, Exec, pure, raise, lift, gets, ◌>>=◌, ◌>>◌, modify, raise_if, and_then,
}
use zomboid_goblin.Dict.{
  Dict, lookup, contains, insert, remove, lookup-insert, lookup-remove, lookup-insert_self,
  length-insert, length-remove-le,
}

pub record MemoryRow : Type 0 where
  pub id : ℕ
  pub created_at : ℕ
  pub kind : String
  pub subject : String
  pub content : String
  pub metadata_json : String

pub record ChatterRow : Type 0 where
  pub id : ℕ
  pub created_at : ℕ
  pub event_key : String
  pub channel : String
  pub text : String

pub record MemoryStore : Type 0 where
  pub memories : List MemoryRow
  pub last_memory : ℕ
  pub chatter : List ChatterRow
  pub last_chatter : ℕ
  pub loot_claims : Dict (String × String) ℕ

unfoldable pub empty : MemoryStore
empty = record { memories = []; last_memory = 0; chatter = []; last_chatter = 0; loot_claims = [] }

-- `created_at or int(time.time())`: a given 0 counts as no time.
abbrev pub or_clock : Option ℕ → ℕ → ℕ
or_clock none clock = clock
or_clock (some zero) clock = clock
or_clock (some (suc t)) clock = suc t

-- `record_memory`, for metadata that is encoded already
pub record_memory : String → String → String → String → Option ℕ → ℕ → Exec MemoryStore ℕ
record_memory kind content subject metadata_json created_at clock = do
  raise_if (kind == "" || ltb 64 (count kind)) (value_error "invalid memory kind")
  raise_if (content == "" || ltb 4000 (count content)) (value_error "memory is invalid or too long")
  raise_if (ltb 128 (count subject)) (value_error "subject is too long")
  raise_if (ltb 8192 (len metadata_json)) (value_error "metadata is too large")
  id ← gets (λ s. s.last_memory + 1)
  modify λ s. record s {
    memories =
        s.memories
        ++ record {
          id = id;
          created_at = or_clock created_at clock;
          kind = kind;
          subject = subject;
          content = content;
          metadata_json = metadata_json;
        }
          ∷ [];
    last_memory = id;
  }
  pure id

abbrev pub chatter_row : ℕ → String → String → String → ℕ → ChatterRow
chatter_row id event_key channel text created_at = record {
  id = id;
  created_at = created_at;
  event_key = event_key;
  channel = channel;
  text = text;
}

-- `record_chatter`
unfoldable pub record_chatter : String → String → String → Option ℕ → ℕ → Exec MemoryStore ℕ
record_chatter event_key channel text created_at clock = do
  raise_if (event_key == "" || ltb 96 (count event_key)) (value_error "invalid chatter event")
  raise_if (not (elem channel ("discord" ∷ "game" ∷ "admin" ∷ [])))
      (value_error "invalid chatter channel")
  raise_if (text == "" || ltb 240 (count text)) (value_error "invalid chatter text")
  id ← gets (λ s. s.last_chatter + 1)
  modify λ s. record s {
    chatter = s.chatter ++ chatter_row id event_key channel text (or_clock created_at clock) ∷ [];
    last_chatter = id;
  }
  pure id

-- `ORDER BY created_at ASC, id ASC`
abbrev pub before : ChatterRow → ChatterRow → Bool
before r s = ltb r.created_at s.created_at || r.created_at == s.created_at && ltb r.id s.id

unfoldable pub insert_row : ChatterRow → List ChatterRow → List ChatterRow
insert_row r [] = r ∷ []
insert_row r (s ∷ rows) =
    let rest = insert_row r rows in if before s r then s ∷ rest else r ∷ s ∷ rows

unfoldable pub sort_rows : List ChatterRow → List ChatterRow
unfolding insert_row
sort_rows [] = []
sort_rows (r ∷ rows) = insert_row r (sort_rows rows)

-- `chatter_since`
unfoldable pub chatter_since : ℕ → MemoryStore → List ChatterRow
unfolding sort_rows
chatter_since since s = sort_rows (keep_if (λ r. leb since r.created_at) s.chatter)

-- `claim_loot`: the primary key makes a second insertion fail.
unfoldable pub claim_loot : String → String → Option ℕ → ℕ → Exec MemoryStore Bool
claim_loot run_id player_id claimed_at clock = do
  raise_if (run_id == "" || player_id == "" || ltb 128 (count run_id) || ltb 128 (count player_id))
      (value_error "invalid loot claim")
  taken ← gets (λ s. contains (run_id, player_id) s.loot_claims)
  if taken then pure false else do
    modify λ s. record s {
      loot_claims = insert (run_id, player_id) (or_clock claimed_at clock) s.loot_claims;
    }
    pure true
