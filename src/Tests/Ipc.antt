-- ===== src/Tests/Ipc.antt =====
-- A bridge whose files are message dictionaries, with one command in it.
use zomboid_goblin.PublicState.{ends_with}
use zomboid_goblin.Json.{Fields, end}
use zomboid_goblin.Protocol.{as_dict, update, set_field}
use zomboid_goblin.Text.Trim.{take_chars}
use zomboid_goblin.Protocol.{
  update, set_field, decoded, from_value, from_mapping, sized, from_fields, missing, is_version,
  checked_id, checked_time, checked_age, checked_type, type_match, body_fields,
}
use zomboid_goblin.Tests.Protocol.{plain_codec, spoken}
use zomboid_goblin.Ipc.{Texts, BridgeStore}
use zomboid_goblin.Ipc.Ledger.{RequestLedger, seen, remember}
use zomboid_goblin.Ipc.Consumers.{Inbox, command_consumer, poll}
use zomboid_goblin.Ipc.Once.{Round, poll_all, poll_all_once, ids}
use zomboid_goblin.Ipc.Forgets.{remember_forgets}
use zomboid_goblin.Text.Ids.{id_match, all_id_chars}
use zomboid_goblin.Base.{
  ℕ, String, ◌≡◌, refl, false, some, [], ◌∷◌, arith, ℕ_eq, String_eq, Pair_eq, elem, length, All,
  Distinct, true,
}
use zomboid_goblin.Exec.{ok}

abbrev pub texts : Texts Fields
texts = record { ready_mark = end; reason_text = λ reason time. end; index_text = λ stems. end }

abbrev pub uuid : ℕ → String
uuid n = "0123456789abcdef"

abbrev bridge : BridgeStore Fields
bridge = record {
  files = (("commands", "req-1.json"), as_dict spoken) ∷ (("commands", "req-1.ready"), end) ∷ [];
  drawn = 0;
}

abbrev inbox : Inbox Fields
inbox = record { store = bridge; ledger = record { max_entries = 8; entries = [] } }

abbrev again : Round plain_codec texts uuid 1000
again = record { changed = λ s. bridge; limit = 4; now = 2000 }

poll_all_once_example :
    let o =
      poll_all plain_codec texts uuid 1000 (command_consumer 30000 []) (again ∷ again ∷ []) inbox in
    Distinct (ids o.0)
    × All (λ id. seen id inbox.ledger ≡ false) (ids o.0)
    × ((id : String) → elem id (ids o.0) ≡ true → seen id o.1.ledger ≡ true)
poll_all_once_example =
    poll_all_once plain_codec texts uuid 1000 (command_consumer 30000 []) (again ∷ again ∷ []) inbox
      (omega arith)

taken :
    length
      (poll_all plain_codec texts uuid 1000
        (command_consumer 30000 [])
        (again ∷ again ∷ [])
        inbox).0
    ≡ 1
unfolding poll_all poll update set_field as_dict ends_with id_match take_chars decoded from_value
    from_mapping sized from_fields missing is_version checked_id checked_time checked_age
    checked_type type_match body_fields
taken = refl

abbrev full_ledger : RequestLedger
full_ledger = record { max_entries = 2; entries = ("a", 50) ∷ ("b", 60) ∷ [] }

remember_forgets_example :
    (l' : RequestLedger) × (remember "late" (some 40) 0 full_ledger ≡ ok l')
    × (seen "late" l' ≡ false)
unfolding id_match all_id_chars
remember_forgets_example =
    remember_forgets "late" 40 0 full_ledger refl refl refl (omega arith, (omega arith, tt))
      (omega arith)
