-- ===== src/Memory/Relationships.antt =====
-- The relationships of memory.py. Their levels are floats in the program: a type with the constants
-- and with `min(1.0, max(0.0, x))`. Tags are JSON that is encoded already.
use zomboid_goblin.Memory.{MemoryRow, MemoryStore, or_clock}
use Prim.Native.String.{len}
use zomboid_goblin.Base.{
  ℕ, ◌≤◌, min, String, count, Bool, ◌&&◌, ◌||◌, Option, List, [], ◌∷◌, arith, ltb, if◌then◌else◌,
  some_or, ◌==◌, ℕ_eq, String_eq, Pair_eq, length, take, length-take-le,
}
use zomboid_goblin.Exec.{value_error, Result, ok, err, Exec, lift, ◌>>=◌, ◌>>◌, modify, raise_if}
use zomboid_goblin.Dict.{Dict, lookup, insert}

pub record Level (A : Type 0) : Type 0 where
  pub zero_level : A
  pub half : A
  pub clamp : A → A

pub record Relationship (A : Type 0) : Type 0 where
  pub trust : A
  pub fear : A
  pub affinity : A
  pub last_seen : ℕ
  pub tags_json : String

-- `_json`, behind the encoding
unfoldable pub sized_json : String → Result String
sized_json encoded =
    if ltb 8192 (len encoded) then err (value_error "metadata is too large") else ok encoded

module _ {A : Type 0} (l : Level A) where
  abbrev level_or : Option A → A → A
  level_or given standard = l.clamp (some_or given standard)

  -- `upsert_relationship`: the row for the subject, new or in place of the old one
  unfoldable pub upsert_relationship :
      String
      → Option A
      → Option A
      → Option A
      → String
      → Option ℕ
      → ℕ
      → Exec (Dict String (Relationship A)) (Unit {0})
  upsert_relationship subject trust fear affinity tags last_seen clock = do
    raise_if (subject == "" || ltb 128 (count subject)) (value_error "invalid relationship subject")
    tags_json ← lift (sized_json tags)
    modify λ d.
        insert subject
          (record {
            trust = level_or trust l.half;
            fear = level_or fear l.zero_level;
            affinity = level_or affinity l.zero_level;
            last_seen = or_clock last_seen clock;
            tags_json = tags_json;
          })
          d

-- `relationship`
abbrev pub relationship :
    {A : Type 0} → String → Dict String (Relationship A) → Option (Relationship A)
relationship subject d = lookup subject d

-- `ORDER BY created_at DESC, id DESC`
abbrev pub newer : MemoryRow → MemoryRow → Bool
newer r s = ltb s.created_at r.created_at || r.created_at == s.created_at && ltb s.id r.id

unfoldable pub insert_newest : MemoryRow → List MemoryRow → List MemoryRow
insert_newest r [] = r ∷ []
insert_newest r (s ∷ rows) =
    let rest = insert_newest r rows in if newer s r then s ∷ rest else r ∷ s ∷ rows

unfoldable pub newest_first : List MemoryRow → List MemoryRow
unfolding insert_newest
newest_first [] = []
newest_first (r ∷ rows) = insert_newest r (newest_first rows)

-- `max(1, min(int(limit), 100))`
abbrev pub bounded_limit : ℕ → ℕ
bounded_limit limit = if limit == 0 then 1 else min limit 100

-- `recent_memories`, with the metadata still encoded
unfoldable pub recent_memories : ℕ → MemoryStore → List MemoryRow
unfolding newest_first
recent_memories limit s = take (bounded_limit limit) (newest_first s.memories)

-- However much is stored and asked for, at most 100 memories are returned.
length-recent_memories-le : (limit : ℕ) (s : MemoryStore) → length (recent_memories limit s) ≤ 100
unfolding recent_memories
length-recent_memories-le limit s =
    ground (arith, length-take-le (bounded_limit limit) (newest_first s.memories))
