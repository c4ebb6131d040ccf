-- ===== src/Ipc.antt =====
-- goblin_zomboid/ipc.py: the bridge's files. The file system is a dictionary from a channel and a file's
-- name to its content; writing and moving files does not fail. Fresh uuids are drawn from a supply, and
-- the clock's reading is an argument.
pub mod Ledger
pub mod Consumers
pub mod Rounds
pub mod Taken
pub mod Once
pub mod Forgets
use zomboid_goblin.Json.{Value, Fields, field, end, str_value}
use zomboid_goblin.PublicState.{ends_with}
use zomboid_goblin.Protocol.{
  or_fresh, Codec, Message, as_dict, encode_message, decode_message, make_message,
}
use zomboid_goblin.Text.Ids.{request_id_match}
use zomboid_goblin.Text.Trim.{take_chars}
use Prim.Native.String.{◌++◌ as str_append, compare}
use Prim.Native.Nat.{lt, eq, gt}
use zomboid_goblin.Base.{
  ℕ, zero, suc, ◌+◌, ◌-◌, ◌*◌, ◌/◌, ◌%◌, ◌≤◌, ◌<◌, min, String, count, ◌≡◌, refl, sym, ap, ◌∙◌, ◌≢◌,
  ◌↔◌, ◌⊎◌, inl, inr, Bool, true, false, not, ◌&&◌, ◌||◌, false≢true, Option, none, some, List, [],
  ◌∷◌, ◌++◌, map, arith, ltb, leb, eqb, if◌then◌else◌, ltb→lt, lt→ltb, leb→le, le→leb, eqb_iff,
  Bool-cases, Option-cases, is_some, some_or, Eq, ◌==◌, ℕ_eq, String_eq, Pair_eq, ==_refl, elem,
  length, take, keep_if, length-append, length-take-le, length-keep_if-le, All, Distinct,
}
use zomboid_goblin.Exec.{
  Error, value_error, protocol_error, intent_error, file_exists, file_not_found, os_error, Result,
  ok, err, Exec, pure, raise, lift, gets, ◌>>=◌, ◌>>◌, modify, raise_if, and_then,
}
use zomboid_goblin.Dict.{
  Dict, lookup, contains, insert, remove, lookup-insert, lookup-remove, lookup-insert_self,
  lookup-insert_absent, length-insert, length-remove-le,
}

-- `CHANNELS`
abbrev pub channels : List String
channels =
    "state" ∷ "events" ∷ "commands" ∷ "responses" ∷ "acks" ∷ "runtime" ∷ "archive" ∷ "deadletter"
    ∷ []

-- The texts that the bridge writes beside the messages: the ready mark, the reason of a move with its
-- time, and the index of ready stems.
pub record Texts (B : Type 0) : Type 0 where
  pub ready_mark : B
  pub reason_text : String → ℕ → B
  pub index_text : List String → B

-- `ReadyItem`; its paths are those of its stem
pub record ReadyItem : Type 0 where
  pub channel : String
  pub stem : String

-- The files, and how many uuids have been drawn.
pub record BridgeStore (B : Type 0) : Type 0 where
  pub files : Dict (String × String) B
  pub drawn : ℕ

abbrev pub json_name : String → String
json_name stem = str_append stem ".json"

abbrev pub ready_name : String → String
ready_name stem = str_append stem ".ready"

-- The order of names in `sorted`
unfoldable pub before : String → String → Bool
before a b = elim (compare a b) [ lt ↦ true | eq ↦ true | gt ↦ false ]

abbrev pub put_name : String → List String → List String
put_name name [] = name ∷ []
put_name name (n ∷ ns) =
    let rest = put_name name ns in if before name n then name ∷ n ∷ ns else n ∷ rest

abbrev pub sort_names : List String → List String
sort_names [] = []
sort_names (n ∷ ns) = put_name n (sort_names ns)

-- `directory.glob("*.ready")`
unfoldable pub ready_names {ℓ} : {B : Type ℓ} → String → Dict (String × String) B → List String
ready_names channel [] = []
ready_names channel (((c, name), b) ∷ files) =
    let rest = ready_names channel files in
    if c == channel && ends_with ".ready" name then name ∷ rest else rest

-- `path.stem` of a name that ends in ".ready"
abbrev pub stem_of : String → String
stem_of name = take_chars (count name - 6) name

abbrev pub has_file {ℓ} : {B : Type ℓ} → String → String → Dict (String × String) B → Bool
has_file channel name files = contains (channel, name) files

abbrev pub is_ready {ℓ} : {B : Type ℓ} → String → Dict (String × String) B → String → Bool
is_ready channel files stem = request_id_match stem && has_file channel (json_name stem) files

-- The stems that `iter_ready` yields
unfoldable pub ready_stems {ℓ} : {B : Type ℓ} → String → Dict (String × String) B → List String
unfolding ready_names before
ready_stems channel files =
    keep_if (is_ready channel files) (map stem_of (sort_names (ready_names channel files)))

-- `_channel`
abbrev pub check_channel : String → Result (Unit {0})
check_channel channel =
    if elem channel channels then ok tt else err (value_error "unknown bridge channel")

-- `_safe_stem`
abbrev pub check_stem : String → Result (Unit {0})
check_stem stem =
    if request_id_match stem then ok tt else err (value_error "unsafe bridge filename stem")

module _ {B : Type 0} (codec : Codec B) (texts : Texts B) (uuid : ℕ → String) (most : ℕ) where
  -- `_atomic_write`
  abbrev pub write : String → String → B → BridgeStore B → BridgeStore B
  write channel name b s = record s { files = insert (channel, name) b s.files }

  -- `_refresh_ready_index`
  unfoldable pub refresh_index : BridgeStore B → BridgeStore B
  unfolding ready_stems
  refresh_index s =
      write "commands" ".ready-index.json" (texts.index_text (ready_stems "commands" s.files)) s

  unfoldable pub mark_ready : String → String → BridgeStore B → BridgeStore B
  unfolding refresh_index
  mark_ready channel stem s =
      let marked = write channel (ready_name stem) texts.ready_mark s in
      if channel == "commands" then refresh_index marked else marked

  -- The files that `publish` writes
  unfoldable pub put_message : String → String → B → Bool → BridgeStore B → BridgeStore B
  unfolding mark_ready
  put_message channel stem b ready s =
      let written = write channel (json_name stem) b s in
      if ready then mark_ready channel stem written else written

  -- The same on a disk that may fail: with `some n`, a write raises when the first `n` files are there.
  unfoldable pub put_files : Option ℕ → String → String → B → Bool → Exec (BridgeStore B) (Unit {0})
  unfolding put_message
  put_files none channel stem b ready s = (ok tt, put_message channel stem b ready s)
  put_files (some zero) channel stem b ready s = (err os_error, s)
  put_files (some (suc zero)) channel stem b ready s =
      (err os_error, write channel (json_name stem) b s)
  put_files (some (suc (suc zero))) channel stem b ready s =
      let written = write channel (json_name stem) b s in
      (
        err os_error,
        if ready then write channel (ready_name stem) texts.ready_mark written else written,
      )
  put_files (some (suc (suc (suc n)))) channel stem b ready s =
      (err os_error, put_message channel stem b ready s)

  abbrev pub named : String → B → Result (String × B)
  named name b = and_then (check_stem name) λ _. ok (name, b)

  -- The stem for bytes that are read again
  abbrev pub named_file : Option String → B → Result (String × B)
  named_file stem b =
      and_then (decode_message codec none 0 most b)
        λ validated. named (or_fresh codec stem validated.request_id) b

  abbrev pub encoded_file : Fields → Option String → Result (String × B)
  encoded_file raw stem = and_then (encode_message codec most raw) (named_file stem)

  -- The checks of `publish`, with the stem and the bytes that they yield
  unfoldable pub prepared_file : String → Fields → Option String → Result (String × B)
  unfolding encode_message decode_message
  prepared_file channel raw stem = and_then (check_channel channel) λ _. encoded_file raw stem

  abbrev pub put_new :
      Option ℕ → String → Bool → Result (String × B) → Exec (BridgeStore B) (Unit {0})
  put_new disk channel ready (err x) s = (err x, s)
  put_new disk channel ready (ok (name, b)) s =
      if has_file channel (json_name name) s.files || has_file channel (ready_name name) s.files
      then (err file_exists, s)
      else put_files disk channel name b ready s

  -- `publish`, of a message's dictionary; the path that it returns is left out.
  unfoldable pub publish_on :
      Option ℕ → String → Fields → Option String → Bool → Exec (BridgeStore B) (Unit {0})
  unfolding prepared_file put_files
  publish_on disk channel raw stem ready s =
      put_new disk channel ready (prepared_file channel raw stem) s

  -- On a disk that does not fail
  unfoldable pub publish : String → Fields → Option String → Bool → Exec (BridgeStore B) (Unit {0})
  unfolding publish_on
  publish channel raw stem ready s = publish_on none channel raw stem ready s

  -- `publish_runtime`
  unfoldable pub publish_runtime : String → Fields → Exec (BridgeStore B) String
  unfolding encode_message
  publish_runtime name raw = lift (check_stem name) >>= λ _.
      lift (encode_message codec most raw) >>= λ encoded.
      modify (write "runtime" (json_name name) encoded) >> pure (json_name name)

  abbrev pub stored : Option B → Result B
  stored none = err file_not_found
  stored (some b) = ok b

  -- `read_runtime`
  unfoldable pub read_runtime : String → Option ℕ → ℕ → BridgeStore B → Result Message
  unfolding decode_message
  read_runtime name max_age now s = and_then (check_stem name) λ _.
      and_then (stored (lookup ("runtime", json_name name) s.files))
        λ b. decode_message codec max_age now most b

  -- `read_ready`
  unfoldable pub read_ready : ReadyItem → Option ℕ → ℕ → BridgeStore B → Result Message
  unfolding decode_message
  read_ready item max_age now s = and_then (check_channel item.channel) λ _.
      if not (has_file item.channel (ready_name item.stem) s.files)
      then err file_not_found
      else and_then (stored (lookup (item.channel, json_name item.stem) s.files))
          λ b. decode_message codec max_age now most b

  -- `os.replace` of one file
  unfoldable pub replace_file :
      String × String → String × String → Dict (String × String) B → Dict (String × String) B
  replace_file from to files = elim (lookup from files) [
    | none ↦ files
    | some b ↦ insert to b (remove from files)
  ]

  -- `target_stem`, and the supply behind it
  unfoldable pub target_stem : String → String → BridgeStore B → String × ℕ
  target_stem target stem s =
      if has_file target (json_name stem) s.files || has_file target (ready_name stem) s.files
      then (str_append stem (str_append "-" (take_chars 12 (uuid s.drawn))), s.drawn + 1)
      else (stem, s.drawn)

  -- `_move`, for the two destinations of `archive` and `deadletter`
  unfoldable pub move : ReadyItem → String → String → ℕ → BridgeStore B → BridgeStore B
  unfolding target_stem replace_file refresh_index
  move item target reason clock s =
      let (name, drawn) = target_stem target item.stem s in
      let moved =
        replace_file (item.channel, ready_name item.stem) (target, ready_name name)
          (replace_file (item.channel, json_name item.stem) (target, json_name name) s.files) in
      let told =
        write target (str_append name ".reason.json")
          (texts.reason_text (take_chars 512 reason) clock)
          (record { files = moved; drawn = drawn }) in
      if item.channel == "commands" then refresh_index told else told

  abbrev pub archive : ReadyItem → String → ℕ → BridgeStore B → BridgeStore B
  archive item reason clock s = move item "archive" reason clock s

  abbrev pub deadletter : ReadyItem → String → ℕ → BridgeStore B → BridgeStore B
  deadletter item reason clock s = move item "deadletter" reason clock s

  -- `acknowledge`
  unfoldable pub acknowledge : String → String → ℕ → Exec (BridgeStore B) (Unit {0})
  unfolding publish make_message
  acknowledge request_id status clock = lift (check_stem request_id) >>= λ _.
      lift (
        make_message codec "ack.command" (some request_id) "" none clock
          (field "status" (str_value status) end))
      >>= λ message. publish "acks" (as_dict message) (some request_id) true

  -- `write_response`, without further fields
  unfoldable pub write_response :
      String → String → String → Fields → ℕ → Exec (BridgeStore B) (Unit {0})
  unfolding publish make_message
  write_response request_id status detail fields clock = lift (check_stem request_id) >>= λ _.
      lift (
        make_message codec "response.command" (some request_id) "" none clock (
          field "status" (str_value status)
            (field "detail" (str_value (take_chars 512 detail)) fields)))
      >>= λ message. publish "responses" (as_dict message) (some request_id) true
