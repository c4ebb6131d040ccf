-- ===== src/Protocol/RoundTrip.antt =====
-- `decode_message` behind `encode_message`.
use zomboid_goblin.Json.{Value, int_value, str_value, pos, Fields, end, field, get}
use mathlib.Core.Option
use zomboid_goblin.Protocol.{
  Codec, Message, as_dict, envelope, without, required, from_fields, missing, from_mapping, sized,
  is_version, checked_id, checked_time, checked_age, checked_type, body_fields, request_id_match,
  type_match, encode_message, encoded, decode_message, decoded, from_value,
}
use zomboid_goblin.Protocol.Envelope.{
  append, as_dict-append, IsSendable, free_name, from_fields-as_dict, IsBody,
}
use zomboid_goblin.Base.{
  ℕ, String, ◌≡◌, refl, sym, ap, ◌∙◌, inl, inr, true, false, Option, none, some, List, arith, ltb,
  Bool-cases, ◌==◌, ℕ_eq, String_eq, Pair_eq, elem,
}
use zomboid_goblin.Exec.{Result, ok, and_then}

get-append_apart : (k : String) (fs gs : Fields) → get k fs ≡ none → get k (append fs gs) ≡ get k gs
get-append_apart k end gs h = refl
get-append_apart k (field j v fs) gs h = ground (arith, get-append_apart k fs gs)

get-without :
    (k : String) (names : List String) (fs : Fields)
    → elem k names ≡ false
    → get k (without names fs) ≡ get k fs
unfolding without
get-without k names end h = refl
get-without k names (field j v fs) h = elim (Bool-cases (elem j names)) [
  | inl e ↦ rw (e) (ground (arith, get-without k names fs h, String_eq.beq_iff k j))
  | inr e ↦ rw (e) (ground (arith, get-without k names fs h))
]

-- The entries that `from_mapping` reads.
from_fields_gets :
    (max_age : Option ℕ) (now time : ℕ) (id name : String) (gs : Fields)
    → get "protocol" gs ≡ some (int_value (pos 2))
    → get "request_id" gs ≡ some (str_value id)
    → get "timestamp_ms" gs ≡ some (int_value (pos time))
    → get "type" gs ≡ some (str_value name)
    → get "payload" gs ≡ none
    → request_id_match id ≡ true
    → (time == 0) ≡ false
    → type_match name ≡ true
    → checked_age max_age now time ≡ ok tt
    → from_fields max_age now gs
      ≡ ok (record {
        protocol = int_value (pos 2);
        request_id = id;
        timestamp_ms = time;
        type_name = name;
        fields = without required gs;
      })
unfolding from_fields missing checked_id checked_time checked_type body_fields is_version
from_fields_gets max_age now time id name gs p r t n b i z m a =
    rw (from_fields, missing, p, r, t, n, b) (rw (p, r, t, n, i) (rw (z, m, a) refl))

sized_ok :
    {B : Type 0} (n : Option ℕ) (most : ℕ) (m : Message) (f : Message → Result B) (b : B)
    → and_then (sized n most (ok m)) f ≡ ok b
    → f m ≡ ok b
unfolding sized
sized_ok none most m f b e = ground (arith, e)
sized_ok (some n) most m f b e = elim (Bool-cases (ltb most n)) [
  | inl over ↦ ground (arith, e, over)
  | inr fits ↦ ground (arith, e, fits)
]

encoded_ok :
    {B : Type 0} (codec : Codec B) (most : ℕ) (d : Option B) (b : B)
    → encoded codec d most ≡ ok b
    → (d ≡ some b) × (ltb most (codec.size b) ≡ false)
unfolding encoded
encoded_ok codec most none b e = ground (arith, e)
encoded_ok codec most (some c) b e = ground (arith, e)

-- What is encoded has been dumped, within the limit.
encode_message-dumps :
    {B : Type 0} (codec : Codec B) (most : ℕ) (m : Message) (b : B)
    → IsSendable m
    → encode_message codec most (as_dict m) ≡ ok b
    → (codec.dumps (as_dict m) ≡ some b) × (ltb most (codec.size b) ≡ false)
unfolding encode_message from_mapping
encode_message-dumps codec most m b s e = encoded_ok codec most (codec.dumps (as_dict m)) b (
    sized_ok (codec.encoded_size (as_dict m)) most m
      (λ m'. encoded codec (codec.dumps (as_dict m')) most) b
      (rw (sym (from_fields-as_dict m 0 s)) e))

get-as_dict :
    (m : Message) (key : String)
    → IsBody m.fields
    → elem key required ≡ false
    → get key (as_dict m) ≡ get key m.fields
get-as_dict m key body h =
    rw (as_dict-append m body) (get-append_apart key (envelope m) m.fields (ground (arith, h)))

kept :
    {B : Type 0} (codec : Codec B) (gs fs : Fields) (key : String) (v : Value)
    → ((k : String) → get k gs ≡ Option.map (codec.reordered) (get k fs))
    → get key fs ≡ some v
    → codec.reordered v ≡ v
    → get key gs ≡ some v
kept codec gs fs key v entries e r = entries key ∙ ap (Option.map (codec.reordered)) e ∙ ap some r

kept_none :
    {B : Type 0} (codec : Codec B) (gs fs : Fields) (key : String)
    → ((k : String) → get k gs ≡ Option.map (codec.reordered) (get k fs))
    → get key fs ≡ none
    → get key gs ≡ none
kept_none codec gs fs key entries e = entries key ∙ ap (Option.map (codec.reordered)) e

-- The message that is read back, when each entry has been kept.
from_fields-loads :
    {B : Type 0} (codec : Codec B) (max_age : Option ℕ) (now : ℕ) (m : Message) (gs : Fields)
    → IsSendable m
    → m.protocol ≡ int_value (pos 2)
    → checked_age max_age now m.timestamp_ms ≡ ok tt
    → ((k : String) → get k gs ≡ Option.map (codec.reordered) (get k (as_dict m)))
    → from_fields max_age now gs ≡ ok (record m { fields = without required gs })
from_fields-loads codec max_age now m gs s p a entries =
    let shape = as_dict-append m s.body in
    from_fields_gets max_age now m.timestamp_ms m.request_id m.type_name gs
      (kept codec gs (as_dict m) "protocol" (int_value (pos 2)) entries (rw (shape) (ap some p))
        (codec.reordered_int 2))
      (kept codec gs (as_dict m) "request_id" (str_value m.request_id) entries (rw (shape) refl)
        (codec.reordered_str m.request_id))
      (kept codec gs (as_dict m) "timestamp_ms" (int_value (pos m.timestamp_ms)) entries
        (rw (shape) refl) (codec.reordered_int m.timestamp_ms))
      (kept codec gs (as_dict m) "type" (str_value m.type_name) entries (rw (shape) refl)
        (codec.reordered_str m.type_name))
      (kept_none codec gs (as_dict m) "payload" entries
        (rw (shape) (free_name m.fields "payload" s.body refl)))
      s.id (ground (arith, s.time)) s.name a
    ∙ ap (λ v. ok (record m { protocol = v; fields = without required gs })) (sym p)

-- A message can be encoded and decoded again: what `decode_message` returns for the bytes of
-- `encode_message`, inside of the same limit on the size and while the message is not too old, has the
-- same envelope, and its fields have the same entries, up to the order inside of them.
pub decode_message-encode_message :
    {B : Type 0} (codec : Codec B) (max_age : Option ℕ) (now most : ℕ) (m : Message) (b : B)
    → IsSendable m
    → m.protocol ≡ int_value (pos 2)
    → checked_age max_age now m.timestamp_ms ≡ ok tt
    → encode_message codec most (as_dict m) ≡ ok b
    → (fs : Fields) × (decode_message codec max_age now most b ≡ ok (record m { fields = fs }))
      × ((key : String)
          → elem key required ≡ false
          → get key fs ≡ Option.map (codec.reordered) (get key m.fields))
unfolding decode_message decoded from_value from_mapping sized
decode_message-encode_message codec max_age now most m b s p a e =
    let (dumped, fits) = encode_message-dumps codec most m b s e in
    let (gs, loaded, measured, entries) = codec.loads-dumps (as_dict m) b dumped in
    let read : from_fields max_age now gs ≡ ok (record m { fields = without required gs }) =
      from_fields-loads codec max_age now m gs s p a entries in
    (
      without required gs,
      rw (fits, loaded, measured, fits) read,
      λ key h.
          get-without key required gs h
          ∙ entries key
          ∙ ap (Option.map (codec.reordered)) (get-as_dict m key s.body h),
    )
