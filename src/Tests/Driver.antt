-- ===== src/Tests/Driver.antt =====
-- A driver over an empty bridge.
use zomboid_goblin.Protocol.{
  from_mapping, sized, as_dict, update, set_field, from_fields, missing, is_version, checked_id,
  checked_time, checked_age, checked_type, type_match, all_type_chars, body_fields, without,
  encoded, encode_message, decode_message, decoded, from_value, make_message,
}
use zomboid_goblin.Text.Ids.{id_match, all_id_chars}
use zomboid_goblin.Ipc.{prepared_file, put_files, publish_on}
use zomboid_goblin.Driver.Npc.{command_message, command, command_fields}
use zomboid_goblin.Json.{Fields}
use zomboid_goblin.Ipc.{BridgeStore}
use zomboid_goblin.Tests.Protocol.{plain_codec}
use zomboid_goblin.Tests.Ipc.{texts, uuid}
use zomboid_goblin.Exec.{os_error}
use zomboid_goblin.Base.{none}
use zomboid_goblin.Driver.Npc.{deliver, refusal, is_privileged, valid_token, send}
use zomboid_goblin.Controllers.Actions.{action_value}
use zomboid_goblin.Driver.Gate.{
  fault, target_fault, known_target, safe_target_label, detail_fault, unsafe_count, unsafe_focus,
}
use zomboid_goblin.Text.Location.{has_location}
use zomboid_goblin.Driver.Npc.{Call, published_result, failed_result, NpcBodyDriver, execute}
use zomboid_goblin.Driver.Npc.Published.{execute-IsEntitled, Outcome}
use zomboid_goblin.Controllers.Intent.{targeted, SafeAction}
use zomboid_goblin.Controllers.Actions.{open_door}
use zomboid_goblin.Controllers.Actions.{open_door}
use zomboid_goblin.Driver.Gate.Admitted.{IsSafe, admit-IsSafe}
use zomboid_goblin.Text.Tables.{ascii}
use zomboid_goblin.Driver.Gate.{admit}
use zomboid_goblin.Controllers.Intent.{SafeAction}
use zomboid_goblin.Driver.Npc.{NpcBodyDriver}
use zomboid_goblin.Base.{◌≡◌, refl, true, false, some, [], ℕ_eq, String_eq, Pair_eq}
use zomboid_goblin.Exec.{ok}

abbrev bridge : BridgeStore Fields
bridge = record { files = []; drawn = 0 }

abbrev driver : NpcBodyDriver
driver = record { npc_id = "goblin.primary"; control_ready = true; npc_engine_ready = true }

abbrev order : Call
order = record {
  authority_token = some "token-1";
  owner = some "ann";
  autonomous = false;
  freewill = true;
}

abbrev to_yard : SafeAction
to_yard = targeted open_door 1 "validated intent OPEN_DOOR" "yard" "back yard" "goblin.primary"

sent :
    (execute plain_codec texts uuid 1000 none ascii "npc-1" 2000 driver order to_yard bridge).0
    ≡ ok (published_result "npc-1")
unfolding execute deliver refusal admit fault target_fault known_target safe_target_label
    has_location detail_fault unsafe_count unsafe_focus is_privileged action_value valid_token send
    command_message from_mapping sized as_dict update set_field command command_fields from_fields
    missing is_version checked_id id_match all_id_chars checked_time checked_age checked_type
    type_match all_type_chars body_fields without encoded encode_message decode_message decoded
    from_value prepared_file put_files publish_on make_message
sent = refl

-- The disk fails behind the command's first file.
failed :
    (execute plain_codec texts uuid 1000 (some 1) ascii "npc-1" 2000 driver order to_yard bridge).0
    ≡ ok (failed_result os_error)
unfolding execute deliver refusal admit fault target_fault known_target safe_target_label
    has_location detail_fault unsafe_count unsafe_focus is_privileged action_value valid_token send
    command_message from_mapping sized as_dict update set_field command command_fields from_fields
    missing is_version checked_id id_match all_id_chars checked_time checked_age checked_type
    type_match all_type_chars body_fields without encoded encode_message decode_message decoded
    from_value prepared_file put_files publish_on make_message
failed = refl

admit-IsSafe_example : IsSafe ascii to_yard
unfolding admit fault target_fault known_target safe_target_label has_location detail_fault
    unsafe_count unsafe_focus
admit-IsSafe_example = admit-IsSafe ascii to_yard refl

execute-IsEntitled_example :
    let (r, s) =
      execute plain_codec texts uuid 1000 none ascii "npc-1" 2000 driver order to_yard bridge in
    Outcome plain_codec texts uuid 1000 none ascii "npc-1" 2000 driver order to_yard bridge s r
execute-IsEntitled_example =
    execute-IsEntitled plain_codec texts uuid 1000 none ascii "npc-1" 2000 driver order to_yard
      bridge refl
