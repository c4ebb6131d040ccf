-- ===== src/Protocol.antt =====
-- goblin_zomboid/protocol.py: the messages of the bridge. `json` is not in the repository: `Codec` is
-- what the code relies on. The clock's reading and a fresh request id are arguments.
pub mod Envelope
pub mod RoundTrip
use zomboid_goblin.Json.{
  Value, int_value, float_value, str_value, dict_value, pos, Fields, end, field, get, has_key, keys,
}
use zomboid_goblin.Text.Ids.{request_id_match, id_char}
use zomboid_goblin.Text.Tables.{is_lower, is_digit}
use Prim.Native.Char.{code}
use Prim.Native.String.{◌++◌ as str_append}
use zomboid_goblin.Memory.{or_clock}
use zomboid_goblin.Json.{null}
use Prim.Native.Char.{Char}
use zomboid_goblin.Text.Tables.{is_upper}
use mathlib.Core.Option
use zomboid_goblin.Base.{
  ℕ, zero, suc, ◌+◌, ◌-◌, ◌*◌, ◌/◌, ◌%◌, ◌≤◌, ◌<◌, min, String, count, ◌≡◌, refl, sym, ap, ◌∙◌, ◌≢◌,
  ◌↔◌, ◌⊎◌, inl, inr, Bool, true, false, not, ◌&&◌, ◌||◌, false≢true, Option, none, some, List, [],
  ◌∷◌, ◌++◌, map, arith, ltb, leb, eqb, if◌then◌else◌, ltb→lt, lt→ltb, leb→le, le→leb, eqb_iff,
  Bool-cases, Option-cases, is_some, some_or, Eq, ◌==◌, ℕ_eq, String_eq, Pair_eq, ==_refl, elem,
  length, take, keep_if, length-append, length-take-le, length-keep_if-le, All, Distinct,
}
use zomboid_goblin.Exec.{
  Error, value_error, protocol_error, intent_error, file_exists, file_not_found, os_error, Result,
  ok, err, Exec, pure, raise, lift, gets, ◌>>=◌, ◌>>◌, modify, raise_if, and_then,
}
use zomboid_goblin.Dict.{
  Dict, lookup, contains, insert, remove, lookup-insert, lookup-remove, lookup-insert_self,
  lookup-insert_absent, length-insert, length-remove-le,
}

-- Bytes, `json.dumps` with its compact separators and sorted keys, and `json.loads`. `none` is a value
-- that is no JSON (a float that is not finite), or a text that is none. What `loads` makes of a dumped
-- object has the same entries, in some other order inside of them (`reordered`), and the same size.
pub record Codec (B : Type 0) : Type 0 where
  pub size : B → ℕ
  pub encoded_size : Fields → Option ℕ
  pub dumps : Fields → Option B
  pub loads : B → Option Value
  pub reordered : Value → Value
  pub reordered_str : (s : String) → reordered (str_value s) ≡ str_value s
  pub reordered_int : (n : ℕ) → reordered (int_value (pos n)) ≡ int_value (pos n)
  pub encoded_size-dumps :
      (fs : Fields) (b : B) → dumps fs ≡ some b → encoded_size fs ≡ some (size b)
  pub loads-dumps :
      (fs : Fields) (b : B)
      → dumps fs ≡ some b
      → (gs : Fields) × (loads b ≡ some (dict_value gs))
        × (encoded_size gs ≡ some (size b))
        × ((key : String) → get key gs ≡ Option.map reordered (get key fs))

pub record Message : Type 0 where
  pub protocol : Value
  pub request_id : String
  pub timestamp_ms : ℕ
  pub type_name : String
  pub fields : Fields

-- `MAX_MESSAGE_BYTES`
abbrev pub max_message_bytes : ℕ
max_message_bytes = 262144

-- The envelope's keys, in the order of `sorted`.
abbrev pub required : List String
required = "protocol" ∷ "request_id" ∷ "timestamp_ms" ∷ "type" ∷ []

-- `result[key] = value`
unfoldable pub set_field : String → Value → Fields → Fields
set_field key v end = field key v end
set_field key v (field k w fs) = if key == k then field k v fs else field k w (set_field key v fs)

-- `result.update(fields)`
unfoldable pub update : Fields → Fields → Fields
unfolding set_field
update result end = result
update result (field k v fs) = update (set_field k v result) fs

abbrev pub envelope : Message → Fields
envelope m = field "protocol" m.protocol (
    field "request_id" (str_value m.request_id) (
      field "timestamp_ms" (int_value (pos m.timestamp_ms))
        (field "type" (str_value m.type_name) end)))

-- `as_dict`
unfoldable pub as_dict : Message → Fields
unfolding update
as_dict m = update (envelope m) m.fields

-- `[a-z0-9._:-]`
abbrev type_char : Char → Bool
type_char c = id_char c && not (is_upper c)

unfoldable pub all_type_chars : String → Bool
all_type_chars String.[] = true
all_type_chars (String.◌∷◌ c s) = type_char c && all_type_chars s

-- `MESSAGE_TYPE_RE.fullmatch`
unfoldable pub type_match : String → Bool
unfolding all_type_chars
type_match String.[] = false
type_match (String.◌∷◌ c s) = is_lower c && all_type_chars s && leb (count (String.◌∷◌ c s)) 64

-- `{key: value for key, value in raw.items() if key not in required}`
unfoldable pub without : List String → Fields → Fields
without names end = end
without names (field k v fs) =
    if elem k names then without names fs else field k v (without names fs)

-- `protocol == PROTOCOL_VERSION`: `2.0 == 2` in Python
unfoldable pub is_version : Value → Bool
is_version (int_value (pos n)) = n == 2
is_version (float_value x) = x == "2.0"
is_version _ = false

-- The first envelope field that is missing.
unfoldable pub missing : List String → Fields → Option String
missing [] raw = none
missing (k ∷ ks) raw = if has_key k raw then missing ks raw else some k

unfoldable pub checked_id : Option Value → Result String
checked_id (some (str_value s)) =
    if request_id_match s then ok s else err (protocol_error "invalid request id")
checked_id _ = err (protocol_error "invalid request id")

unfoldable pub checked_time : Option Value → Result ℕ
checked_time (some (int_value (pos n))) =
    if n == 0 then err (protocol_error "invalid timestamp") else ok n
checked_time _ = err (protocol_error "invalid timestamp")

-- `max_age_ms is not None`: the age in both directions
unfoldable pub checked_age : Option ℕ → ℕ → ℕ → Result (Unit {0})
checked_age none current timestamp = ok tt
checked_age (some most) current timestamp =
    if ltb (current + 60000) timestamp
    then err (protocol_error "message timestamp is too far in the future")
    else if ltb (timestamp + most) current
    then err (protocol_error "stale message")
    else ok tt

unfoldable pub checked_type : Option Value → Result String
checked_type (some (str_value s)) =
    if type_match s then ok s else err (protocol_error "invalid message type")
checked_type _ = err (protocol_error "invalid message type")

abbrev pub direct_fields : Fields → List String
direct_fields raw = keys (without ("payload" ∷ required) raw)

-- The branch on `payload`.
unfoldable pub body_fields : Fields → Option Value → Result Fields
body_fields raw none = ok (without required raw)
body_fields raw (some (dict_value payload)) = elim (direct_fields raw) [
  | [] ↦ ok payload
  | _ ↦ err (protocol_error "payload cannot be mixed with direct fields")
]
body_fields raw (some _) = err (protocol_error "payload must be an object")

-- The checks of `from_mapping` behind the size, in the order of the code.
unfoldable pub from_fields : Option ℕ → ℕ → Fields → Result Message
from_fields max_age now raw = elim (missing required raw) [
  | some key ↦ err (protocol_error (str_append "missing envelope field: " key))
  | none ↦
      if not (is_version (some_or (get "protocol" raw) null))
      then err (protocol_error "unsupported protocol version")
      else and_then (checked_id (get "request_id" raw)) λ id.
        and_then (checked_time (get "timestamp_ms" raw)) λ time.
          and_then (checked_age max_age now time) λ _.
            and_then (checked_type (get "type" raw)) λ name.
              and_then (body_fields raw (get "payload" raw)) λ body. ok (record {
                protocol = some_or (get "protocol" raw) null;
                request_id = id;
                timestamp_ms = time;
                type_name = name;
                fields = body;
              })
]

unfoldable pub sized : Option ℕ → ℕ → Result Message → Result Message
sized none most m = err (protocol_error "message contains non-JSON values")
sized (some n) most m =
    if ltb most n then err (protocol_error "message exceeds the configured size limit") else m

module _ {B : Type 0} (codec : Codec B) where
  -- `Message.from_mapping`, for an object; its keys are strings in JSON
  unfoldable pub from_mapping : Option ℕ → ℕ → ℕ → Fields → Result Message
  from_mapping max_age now most raw =
      sized (codec.encoded_size raw) most (from_fields max_age now raw)

  unfoldable pub from_value : Option ℕ → ℕ → ℕ → Value → Result Message
  from_value max_age now most (dict_value raw) = from_mapping max_age now most raw
  from_value max_age now most _ = err (protocol_error "message must be a JSON object")

  abbrev pub or_fresh : Option String → String → String
  or_fresh none fresh = fresh
  or_fresh (some id) fresh = if id == "" then fresh else id

  -- `make_message`: without an id or a time, a fresh id and the clock's
  unfoldable pub make_message :
      String → Option String → String → Option ℕ → ℕ → Fields → Result Message
  make_message name request_id fresh timestamp clock fields =
      from_mapping none clock max_message_bytes (
        as_dict (record {
          protocol = int_value (pos 2);
          request_id = or_fresh request_id fresh;
          timestamp_ms = or_clock timestamp clock;
          type_name = name;
          fields = fields;
        }))

  unfoldable pub encoded : Option B → ℕ → Result B
  encoded none most = err (protocol_error "message contains non-JSON values")
  encoded (some b) most =
      if ltb most (codec.size b)
      then err (protocol_error "message exceeds the size limit")
      else ok b

  -- `encode_message`
  unfoldable pub encode_message : ℕ → Fields → Result B
  encode_message most raw =
      and_then (from_mapping none 0 most raw) λ m. encoded (codec.dumps (as_dict m)) most

  unfoldable pub decoded : Option ℕ → ℕ → ℕ → Option Value → Result Message
  decoded max_age now most none = err (protocol_error "invalid JSON")
  decoded max_age now most (some v) = from_value max_age now most v

  -- `decode_message`
  unfoldable pub decode_message : Option ℕ → ℕ → ℕ → B → Result Message
  decode_message max_age now most b =
      if ltb most (codec.size b)
      then err (protocol_error "message exceeds the size limit")
      else decoded max_age now most (codec.loads b)
