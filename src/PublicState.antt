-- ===== src/PublicState.antt =====
-- goblin_zomboid/state.py: the views of the world's state for the language model and for players.
pub mod Paths
pub mod Views
use zomboid_goblin.Json.{
  Value, null, bool_value, int_value, float_value, str_value, list_value, dict_value, Items, nil,
  cons, Fields, end, field, get, is_number,
}
use zomboid_goblin.Text.Tables.{CharTables}
use zomboid_goblin.Text.Trim.{casefold}
use text.Mathlib.Text.{starts_with}
use Prim.Native.Char.{code}
use zomboid_goblin.Base.{
  ℕ, zero, suc, ◌+◌, ◌-◌, ◌*◌, ◌/◌, ◌%◌, ◌≤◌, ◌<◌, min, String, count, ◌≡◌, refl, sym, ap, ◌∙◌, ◌≢◌,
  ◌↔◌, ◌⊎◌, inl, inr, Bool, true, false, not, ◌&&◌, ◌||◌, false≢true, Option, none, some, List, [],
  ◌∷◌, ◌++◌, map, arith, ltb, leb, eqb, if◌then◌else◌, ltb→lt, lt→ltb, leb→le, le→leb, eqb_iff,
  Bool-cases, Option-cases, is_some, some_or, Eq, ◌==◌, ℕ_eq, String_eq, Pair_eq, ==_refl, elem,
  length, take, keep_if, length-append, length-take-le, length-keep_if-le, All, Distinct,
}
use zomboid_goblin.Exec.{
  Error, value_error, protocol_error, intent_error, file_exists, file_not_found, os_error, Result,
  ok, err, Exec, pure, raise, lift, gets, ◌>>=◌, ◌>>◌, modify, raise_if, and_then,
}
use zomboid_goblin.Dict.{
  Dict, lookup, contains, insert, remove, lookup-insert, lookup-remove, lookup-insert_self,
  lookup-insert_absent, length-insert, length-remove-le,
}

-- `_DROP_KEYS`
abbrev pub drop_keys : List String
drop_keys =
    "x" ∷ "y" ∷ "z" ∷ "coord" ∷ "coords" ∷ "coordinates" ∷ "route" ∷ "routes" ∷ "waypoint"
    ∷ "waypoints" ∷ "cell" ∷ "chunk" ∷ "building_id" ∷ "raw_packet" ∷ "packet" ∷ "exact_distance"
    ∷ "location" ∷ "exact_location" ∷ "authority_token" ∷ "token" ∷ []

-- `.replace("-", "_")`
unfoldable pub underscored : String → String
underscored String.[] = String.[]
underscored (String.◌∷◌ c s) =
    let rest = underscored s in if code c == b'-' then String.◌∷◌ "_" rest else String.◌∷◌ c rest

-- `s.endswith(suffix)`
unfoldable pub ends_with : String → String → Bool
ends_with suffix String.[] = suffix == ""
ends_with suffix (String.◌∷◌ c s) = suffix == String.◌∷◌ c s || ends_with suffix s

-- `$`: the end, or the newline in front of it
abbrev at_end : String → Bool
at_end s = s == "" || s == "\n"

-- `(?:_|$)`
abbrev word_end : String → Bool
word_end String.[] = true
word_end (String.◌∷◌ c s) = code c == b'_' || at_end (String.◌∷◌ c s)

-- What follows a literal at the front of a text.
unfoldable pub behind : String → String → Option String
behind String.[] s = some s
behind (String.◌∷◌ p ps) String.[] = none
behind (String.◌∷◌ p ps) (String.◌∷◌ c s) =
    let rest = behind ps s in if code p == code c then rest else none

abbrev test_behind : (String → Bool) → String → String → Bool
test_behind test literal s = elim (behind literal s) [ none ↦ false | some rest ↦ test rest ]

-- The two branches of `_DROP_RE` behind `(?:^|_)`.
unfoldable pub drop_here : String → Bool
unfolding behind
drop_here s =
    test_behind at_end "x" s
    || test_behind at_end "y" s
    || test_behind at_end "z" s
    || test_behind word_end "coord" s
    || test_behind word_end "coords" s
    || test_behind word_end "coordinate" s
    || test_behind word_end "route" s
    || test_behind word_end "waypoint" s
    || test_behind word_end "cell" s
    || test_behind word_end "chunk" s

-- `_DROP_RE.search` behind the first place: each further match begins with an underscore.
unfoldable pub drop_later : String → Bool
unfolding drop_here
drop_later String.[] = false
drop_later (String.◌∷◌ c s) = code c == b'_' && drop_here s || drop_later s

-- `_DROP_RE.search`
unfoldable pub drop_match : String → Bool
unfolding drop_here drop_later
drop_match s = drop_here s || drop_later s

-- The keys of `public_view`.
abbrev pub public_keys : List String
public_keys =
    "alive" ∷ "hunt_active" ∷ "prize_tier" ∷ "npc_id" ∷ "npc_alive" ∷ "npc_active" ∷ "body_mode"
    ∷ "control_ready" ∷ "npc_engine_ready" ∷ "threat_level" ∷ "threat_bucket" ∷ "server_status"
    ∷ "players" ∷ "npcs" ∷ "squads" ∷ "base" ∷ "events" ∷ "updated_at" ∷ []

module _ (tables : CharTables) where
  -- `key.casefold().replace("-", "_")`
  unfoldable pub normal_key : String → String
  unfolding underscored
  normal_key key = underscored (casefold tables key)

  -- `_is_sensitive_key`
  unfoldable pub is_sensitive_key : String → Bool
  unfolding normal_key ends_with drop_match
  is_sensitive_key key =
      elem (normal_key key) drop_keys
      || ends_with "token" (normal_key key)
      || starts_with (normal_key key) "coord"
      || starts_with (normal_key key) "coordinate"
      || drop_match (normal_key key)

  -- The tests of `_redact` on one entry of an object.
  unfoldable pub is_hidden : String → Value → Bool
  is_hidden key v = is_sensitive_key key || normal_key key == "distance" && is_number v

  -- `_redact`
  unfoldable mutual
    pub redact : Value → Value
    redact null = null
    redact (bool_value b) = bool_value b
    redact (int_value n) = int_value n
    redact (float_value x) = float_value x
    redact (str_value s) = str_value s
    redact (list_value vs) = list_value (redact_items vs)
    redact (dict_value fs) = dict_value (redact_fields fs)

    pub redact_items : Items → Items
    redact_items nil = nil
    redact_items (cons v vs) = cons (redact v) (redact_items vs)

    pub redact_fields : Fields → Fields
    redact_fields end = end
    redact_fields (field k v fs) =
        if is_hidden k v then redact_fields fs else field k (redact v) (redact_fields fs)

  -- `brain_view`
  unfoldable pub brain_view : Fields → Fields
  unfolding redact
  brain_view state = redact_fields state

  abbrev keep_entry : String → Option Value → Fields → Fields
  keep_entry key none fs = fs
  keep_entry key (some v) fs = field key (redact v) fs

  -- The loop of `public_view`; the types that it accepts are all that a value of JSON has.
  unfoldable pub pick : List String → Fields → Fields
  pick [] state = end
  pick (key ∷ rest) state = keep_entry key (get key state) (pick rest state)

  -- `public_view`
  unfoldable pub public_view : Fields → Fields
  unfolding pick
  public_view state = pick public_keys state

-- `admin_view`: a deep copy
abbrev pub admin_view : Fields → Fields
admin_view state = state
