-- ===== src/Driver/Npc.antt =====
-- `NpcBodyDriver` of npc.py: the last checks, and the command that goes to the bridge.
pub mod Published
use zomboid_goblin.Exec.{overflow_error, type_error, intent_error, protocol_error}
use zomboid_goblin.Json.{
  Value, Fields, Items, field, end, str_value, bool_value, int_value, dict_value, list_value, nil,
  cons, pos,
}
use zomboid_goblin.Protocol.{Codec, Message, make_message, as_dict}
use zomboid_goblin.Ipc.{Texts, BridgeStore, publish_on}
use Prim.Native.String.{◌++◌ as str_append}
use zomboid_goblin.Social.Speech.{compact_speech}
use zomboid_goblin.Controllers.Intent.{SafeAction}
use zomboid_goblin.Text.Trim.{take_chars}
use zomboid_goblin.Controllers.Actions.{Action, action_value}
use zomboid_goblin.Driver.Gate.{DriverResult, admit, refused}
use zomboid_goblin.Text.Tables.{CharTables}
use zomboid_goblin.Base.{
  ℕ, zero, suc, ◌+◌, ◌-◌, ◌*◌, ◌/◌, ◌%◌, ◌≤◌, ◌<◌, min, String, count, ◌≡◌, refl, sym, ap, ◌∙◌, ◌≢◌,
  ◌↔◌, ◌⊎◌, inl, inr, Bool, true, false, not, ◌&&◌, ◌||◌, false≢true, Option, none, some, List, [],
  ◌∷◌, ◌++◌, map, arith, ltb, leb, eqb, if◌then◌else◌, ltb→lt, lt→ltb, leb→le, le→leb, eqb_iff,
  Bool-cases, Option-cases, is_some, some_or, Eq, ◌==◌, ℕ_eq, String_eq, Pair_eq, ==_refl, elem,
  length, take, keep_if, length-append, length-take-le, length-keep_if-le, All, Distinct,
}
use zomboid_goblin.Exec.{
  Error, value_error, protocol_error, intent_error, file_exists, file_not_found, os_error, Result,
  ok, err, Exec, pure, raise, lift, gets, ◌>>=◌, ◌>>◌, modify, raise_if, and_then,
}
use zomboid_goblin.Dict.{
  Dict, lookup, contains, insert, remove, lookup-insert, lookup-remove, lookup-insert_self,
  lookup-insert_absent, length-insert, length-remove-le,
}

-- `PRIVILEGED_ACTIONS`
abbrev privileged_actions : List String
privileged_actions =
    "FORM_SQUAD" ∷ "DISMISS_SQUAD" ∷ "ASSIGN_JOB" ∷ "SECURE_BASE" ∷ "BUILD" ∷ "OPEN_DOOR"
    ∷ "OPEN_WINDOW" ∷ "GAIN_ACCESS" ∷ "CLOSE_CURTAINS" ∷ "FARM" ∷ "CRAFT" ∷ "REPAIR_VEHICLE"
    ∷ "ENTER_VEHICLE" ∷ "EXIT_VEHICLE" ∷ "INSPECT_BASE" ∷ "MAINTAIN_BASE" ∷ "REPAIR_STRUCTURE"
    ∷ "DISMANTLE" ∷ "STOCKPILE" ∷ "SORT_STORAGE" ∷ "FETCH_ITEM" ∷ "DELIVER" ∷ "VEHICLE_INSPECT"
    ∷ "REFUEL_VEHICLE" ∷ "VEHICLE_SERVICE" ∷ "INSTALL_PART" ∷ "REMOVE_PART" ∷ "REPLACE_PART"
    ∷ "CHANGE_TIRE" ∷ "CHOP_WOOD" ∷ "TREAT_PLAYER" ∷ "FORAGE" ∷ "CHECK_TRAPS" ∷ "COOK"
    ∷ "RESTORE_POWER" ∷ "MOVE_CORPSE" ∷ []

-- `OFFLINE_ACTIONS`
abbrev offline_actions : List String
offline_actions = "WAIT" ∷ "LOOT_AREA" ∷ "RETURN_TO_BASE" ∷ "SECURE_BASE" ∷ "EQUIP" ∷ []

unfoldable pub is_privileged : Action → Bool
is_privileged a = elem (action_value a) privileged_actions

unfoldable pub is_offline_task : Action → Bool
is_offline_task a = elem (action_value a) offline_actions

-- The fields of `command.npc_action`.
pub record NpcCommand : Type 0 where
  pub request_id : String
  pub npc_id : String
  pub action : Action
  pub priority : ℕ
  pub reason : String
  pub controller_action : SafeAction
  pub owner : Option String
  pub authority_token : Option String
  pub autonomous : Bool
  pub freewill : Bool
  pub target : Option (String × String)
  pub item : Option (String × ℕ)
  pub text : Option String
  pub loot_focus : Option String
  pub leader : Option String
  pub job : Option String
  pub formation : Option String
  pub squad_id : Option String
  pub members : List String

abbrev text_entry : String → Option String → Fields → Fields
text_entry key none rest = rest
text_entry key (some s) rest = field key (str_value s) rest

abbrev flag_entry : String → Bool → Fields → Fields
flag_entry key flag rest = if flag then field key (bool_value true) rest else rest

abbrev target_value : String → String → Value
target_value kind label =
    dict_value (field "kind" (str_value kind) (field "label" (str_value label) end))

abbrev target_entry : Option (String × String) → Fields → Fields
target_entry none rest = rest
target_entry (some (kind, label)) rest = field "target" (target_value kind label) rest

abbrev item_value : String → ℕ → Value
item_value name n =
    dict_value (field "name" (str_value name) (field "count" (int_value (pos n)) end))

abbrev item_entry : Option (String × ℕ) → Fields → Fields
item_entry none rest = rest
item_entry (some (name, n)) rest = field "item" (item_value name n) rest

abbrev items_of : List String → Items
items_of [] = nil
items_of (x ∷ xs) = cons (str_value x) (items_of xs)

abbrev members_entry : List String → Fields → Fields
members_entry [] rest = rest
members_entry (x ∷ xs) rest = field "members" (list_value (items_of (x ∷ xs))) rest

-- `action.item_count or 1`
abbrev count_or_one : Option ℕ → ℕ
count_or_one none = 1
count_or_one (some n) = if n == 0 then 1 else n

abbrev whole_target : Option String → Option String → Option (String × String)
whole_target none label = none
whole_target (some kind) label = some (kind, some_or label "")

abbrev whole_item : Option String → Option ℕ → Option (String × ℕ)
whole_item none n = none
whole_item (some name) n = some (name, count_or_one n)

-- `SafeAction.as_dict`
unfoldable pub action_fields : SafeAction → Fields
unfolding action_value
action_fields a = field "action" (str_value (action_value a.action)) (
    field "priority" (int_value (pos a.priority)) (
      field "reason" (str_value a.reason) (
        field "npc_id" (str_value a.npc_id) (
          target_entry (whole_target a.target_kind a.target_label) (
            item_entry (whole_item a.item_name a.item_count) (
              text_entry "leader" a.leader (
                members_entry a.members (
                  text_entry "job" a.job (
                    text_entry "formation" a.formation (
                      text_entry "text" a.text (
                        text_entry "squad_id" a.squad_id
                          (text_entry "loot_focus" a.loot_focus end))))))))))))

-- `fields` of `execute`
unfoldable pub command_fields : NpcCommand → Fields
unfolding action_fields action_value
command_fields c = field "npc_id" (str_value c.npc_id) (
    field "action" (str_value (action_value c.action)) (
      field "priority" (int_value (pos c.priority)) (
        field "reason" (str_value c.reason) (
          field "controller_action" (dict_value (action_fields c.controller_action)) (
            text_entry "owner" c.owner (
              text_entry "authority_token" c.authority_token (
                flag_entry "autonomous" c.autonomous (
                  flag_entry "freewill" c.freewill (
                    target_entry c.target (
                      item_entry c.item (
                        text_entry "text" c.text (
                          text_entry "loot_focus" c.loot_focus (
                            text_entry "leader" c.leader (
                              text_entry "job" c.job (
                                text_entry "formation" c.formation (
                                  text_entry "squad_id" c.squad_id
                                    (members_entry c.members end)))))))))))))))))

pub record NpcBodyDriver : Type 0 where
  pub npc_id : String
  pub control_ready : Bool
  pub npc_engine_ready : Bool

-- `NpcBodyDriver.__init__`
unfoldable pub new_driver : String → Bool → Bool → Result NpcBodyDriver
new_driver npc_id control_ready npc_engine_ready =
    if npc_id == "" || ltb 96 (count npc_id)
    then err (value_error "invalid NPC id")
    else ok (record {
      npc_id = npc_id;
      control_ready = control_ready;
      npc_engine_ready = npc_engine_ready;
    })

-- `available`
abbrev pub available : NpcBodyDriver → Bool
available d = d.control_ready && d.npc_engine_ready

-- `update_contract`
unfoldable pub update_contract : Bool → Bool → NpcBodyDriver → NpcBodyDriver
update_contract control_ready npc_engine_ready d = record d {
  control_ready = control_ready;
  npc_engine_ready = npc_engine_ready;
}

-- The keyword arguments of `execute`.
pub record Call : Type 0 where
  pub authority_token : Option String
  pub owner : Option String
  pub autonomous : Bool
  pub freewill : Bool

-- `isinstance(authority_token, str) and authority_token and len(authority_token) <= 128`
unfoldable pub valid_token : Option String → Bool
valid_token none = false
valid_token (some t) = not (t == "") && leb (count t) 128

abbrev pub needs_token : Call → SafeAction → Bool
needs_token call a = call.autonomous || is_privileged a.action

-- The checks of `execute` in front of the command, in the order of the code.
module _ (tables : CharTables) where
  unfoldable pub refusal : NpcBodyDriver → Call → SafeAction → Option DriverResult
  refusal d call a =
      if not (admit tables a).accepted
      then some (admit tables a)
      else if not (a.npc_id == d.npc_id)
      then some (refused "unknown or non-selected NPC id")
      else if call.autonomous && not (is_offline_task a.action)
      then some (refused "unsupported offline task")
      else if needs_token call a && not (valid_token call.authority_token)
      then some (refused "privileged NPC action requires an authorized in-game request")
      else if not (available d)
      then some (record {
        accepted = false;
        status = "sensor_only";
        detail = "NPC engine contract is unavailable";
      })
      else none

-- `owner[:96]`, for an owner that is there
owner_field : Option String → Option String
owner_field none = none
owner_field (some o) = if o == "" then none else some (take_chars 96 o)

target_field : Option String → Option String → Option (String × String)
target_field none label = none
target_field (some kind) label = some (kind, take_chars 96 (some_or label ""))

item_field : Option String → Option ℕ → Option (String × ℕ)
item_field none n = none
item_field (some name) n = some (take_chars 64 name, count_or_one n)

text_field : CharTables → Option String → Option String
text_field tables none = none
text_field tables (some t) = some (compact_speech tables t)

unfoldable pub command : CharTables → String → NpcBodyDriver → Call → SafeAction → NpcCommand
unfolding owner_field target_field item_field text_field
command tables request_id d call a = record {
  request_id = request_id;
  npc_id = d.npc_id;
  action = a.action;
  priority = a.priority;
  reason = take_chars 240 a.reason;
  controller_action = a;
  owner = owner_field call.owner;
  authority_token = if needs_token call a then call.authority_token else none;
  autonomous = call.autonomous;
  freewill = call.freewill && not call.autonomous;
  target = target_field a.target_kind a.target_label;
  item = item_field a.item_name a.item_count;
  text = text_field tables a.text;
  loot_focus = a.loot_focus;
  leader = a.leader;
  job = a.job;
  formation = a.formation;
  squad_id = a.squad_id;
  members = a.members;
}

abbrev pub published_result : String → DriverResult
published_result request_id = record { accepted = true; status = "published"; detail = request_id }

-- `type(exc).__name__`
abbrev pub class_name : Error → String
class_name (value_error s) = "ValueError"
class_name (protocol_error s) = "ProtocolError"
class_name (intent_error s) = "IntentError"
class_name (type_error s) = "TypeError"
class_name (overflow_error s) = "OverflowError"
class_name file_exists = "FileExistsError"
class_name file_not_found = "FileNotFoundError"
class_name os_error = "OSError"

abbrev pub failed_result : Error → DriverResult
failed_result x = record {
  accepted = false;
  status = "failed";
  detail = str_append "NPC command was not published: " (class_name x);
}

module _ {B : Type 0} (codec : Codec B) (texts : Texts B) (uuid : ℕ → String) (most : ℕ)
    (disk : Option ℕ) where
  -- The handler takes `FileExistsError`, `OSError` and `ValueError`, which are all that `publish` raises.
  abbrev pub reported :
      String → Result (Unit {0}) × BridgeStore B → Result DriverResult × BridgeStore B
  reported request_id (ok u, s) = (ok (published_result request_id), s)
  reported request_id (err x, s) = (ok (failed_result x), s)

  unfoldable pub send : String → Result Message → Exec (BridgeStore B) DriverResult
  unfolding publish_on
  send request_id (err x) s = (err x, s)
  send request_id (ok m) s =
      reported request_id
        (publish_on codec texts uuid most disk "commands" (as_dict m) (some request_id) true s)

  -- The message of a command
  unfoldable pub command_message : String → ℕ → NpcCommand → Result Message
  unfolding command_fields make_message
  command_message request_id clock c =
      make_message codec "command.npc_action" (some request_id) "" none clock (command_fields c)

  -- what `execute` does when the checks have answered
  unfoldable pub deliver :
      String → Result Message → Option DriverResult → Exec (BridgeStore B) DriverResult
  deliver request_id message (some r) s = (ok r, s)
  deliver request_id message none s = send request_id message s

  -- `execute`, with the id that `new_request_id` draws and the clock's reading: `make_message` may
  -- raise, outside of the handler.
  unfoldable pub execute :
      CharTables
      → String
      → ℕ
      → NpcBodyDriver
      → Call
      → SafeAction
      → Exec (BridgeStore B) DriverResult
  execute tables request_id clock d call a s =
      deliver request_id (command_message request_id clock (command tables request_id d call a))
        (refusal tables d call a) s
