-- ===== src/Tests/Protocol.antt =====
-- A message of a bridge that carries objects themselves in place of bytes.
use zomboid_goblin.Json.{
  Value, int_value, str_value, dict_value, bool_value, pos, Fields, end, field, get,
}
use mathlib.Core.Option
use mathlib.Core.Option.{some-injective}
use zomboid_goblin.Text.Ids.{id_match, all_id_chars}
use zomboid_goblin.Json.{keys}
use zomboid_goblin.Protocol.{
  Codec, Message, as_dict, update, set_field, encode_message, encoded, decode_message, from_mapping,
  from_fields, sized, missing, checked_id, checked_time, checked_age, checked_type, body_fields,
  without, is_version, type_match, all_type_chars, required,
}
use zomboid_goblin.Protocol.Envelope.{IsSendable}
use zomboid_goblin.Protocol.RoundTrip.{decode_message-encode_message}
use zomboid_goblin.Base.{
  ℕ, ◌+◌, String, ◌≡◌, refl, sym, ap, ◌∙◌, inl, inr, true, false, Option, none, some, ◌∷◌, arith,
  Bool-cases, ◌==◌, ℕ_eq, String_eq, Pair_eq, elem,
}
use zomboid_goblin.Exec.{ok}

abbrev pub count_fields : Fields → ℕ
count_fields end = 0
count_fields (field k v fs) = count_fields fs + 1

pub map_id : (o : Option Value) → o ≡ Option.map (λ v. v) o
map_id none = refl
map_id (some v) = refl

abbrev pub plain_codec : Codec Fields
plain_codec = record {
  size = count_fields;
  encoded_size = λ fs. some (count_fields fs);
  dumps = some;
  loads = λ b. some (dict_value b);
  reordered = λ v. v;
  reordered_str = λ s. refl;
  reordered_int = λ n. refl;
  encoded_size-dumps = λ fs b e. ap (λ x. some (count_fields x)) (some-injective fs b e);
  loads-dumps = λ fs b e.
      (b, refl, refl, λ key. ap (get key) (sym (some-injective fs b e)) ∙ map_id (get key fs));
}

abbrev pub spoken : Message
spoken = record {
  protocol = int_value (pos 2);
  request_id = "req-1";
  timestamp_ms = 1000;
  type_name = "command.intent";
  fields = field "intent" (str_value "SAY") (field "urgent" (bool_value true) end);
}

free_names :
    (k : String) → elem k (keys spoken.fields) ≡ true → elem k ("payload" ∷ required) ≡ false
free_names k h = elim (Bool-cases (k == "intent")) [
  | inl same ↦ rw ((String_eq.beq_iff k "intent").0 same) refl
  | inr other ↦ rw ((String_eq.beq_iff k "urgent").0 (ground (arith, h, other))) refl
]

spoken-IsSendable : IsSendable spoken
unfolding is_version type_match all_type_chars all_id_chars id_match
spoken-IsSendable = record {
  version = refl;
  id = refl;
  time = ground arith;
  name = refl;
  body = record { distinct = (refl, (refl, tt)); free = λ k h. free_names k h };
}

spoken_encoded : encode_message plain_codec 100 (as_dict spoken) ≡ ok (as_dict spoken)
unfolding encode_message encoded from_mapping sized from_fields missing checked_id checked_time
    checked_age checked_type body_fields without is_version type_match all_type_chars all_id_chars
    id_match as_dict update set_field
spoken_encoded = refl

decode_message-encode_message_example :
    (fs : Fields) × (decode_message plain_codec (some 30000) 2000 100 (as_dict spoken)
      ≡ ok (record spoken { fields = fs }))
    × ((key : String)
        → elem key required ≡ false
        → get key fs ≡ Option.map (λ v. v) (get key spoken.fields))
unfolding checked_age
decode_message-encode_message_example =
    decode_message-encode_message plain_codec (some 30000) 2000 100 spoken (as_dict spoken)
      spoken-IsSendable refl refl spoken_encoded
