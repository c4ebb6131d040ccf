-- ===== src/Text/Ids.antt =====
-- The identifiers `^[A-Za-z0-9][A-Za-z0-9._:-]{0,n}$` of protocol.py, entities.py, validator.py and
-- relay.py, which differ in `n` alone.
use Prim.Native.Char.{Char, code}
use zomboid_goblin.Base.{
  ℕ_eq, ℕ, ◌≤◌, ◌≡◌, String, count, Bool, true, false, ◌&&◌, ◌||◌, ◌==◌, leb, arith,
}
use zomboid_goblin.Text.Tables.{is_alnum}

abbrev pub id_char : Char → Bool
id_char c = is_alnum c || code c == b'.' || code c == b'_' || code c == b':' || code c == b'-'

unfoldable pub all_id_chars : String → Bool
all_id_chars String.[] = true
all_id_chars (String.◌∷◌ c s) = id_char c && all_id_chars s

-- `fullmatch` of the pattern whose texts have at most `limit` characters
unfoldable pub id_match : ℕ → String → Bool
unfolding all_id_chars
id_match limit String.[] = false
id_match limit (String.◌∷◌ c s) = is_alnum c && all_id_chars s && leb (count (String.◌∷◌ c s)) limit

pub id_match-count : (limit : ℕ) (s : String) → id_match limit s ≡ true → count s ≤ limit
unfolding id_match
id_match-count limit String.[] h = cc
id_match-count limit (String.◌∷◌ c s) h = ground arith

-- REQUEST_ID_RE of protocol.py
abbrev pub request_id_match : String → Bool
request_id_match = id_match 128

-- _ID_RE of entities.py
abbrev pub entity_id_match : String → Bool
entity_id_match = id_match 96
