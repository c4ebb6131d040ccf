-- ===== src/Protocol/Envelope.antt =====
-- The dictionary of a message: the envelope, and behind it the fields.
use zomboid_goblin.Json.{Value, Fields, end, field, get, has_key, keys}
use zomboid_goblin.Protocol.{
  Message, set_field, update, as_dict, envelope, without, required, from_fields, missing,
  is_version, checked_id, checked_time, checked_age, checked_type, body_fields, request_id_match,
  type_match,
}
use zomboid_goblin.Base.{
  ℕ, String, ◌≡◌, refl, sym, ap, ◌∙◌, ◌≢◌, inl, inr, true, false, ◌||◌, none, List, [], ◌∷◌, arith,
  Bool-cases, ◌==◌, ℕ_eq, String_eq, Pair_eq, ==_refl, elem, All, Distinct,
}
use zomboid_goblin.Exec.{ok}

abbrev pub append : Fields → Fields → Fields
append end gs = gs
append (field k v fs) gs = field k v (append fs gs)

append_assoc : (fs gs hs : Fields) → append (append fs gs) hs ≡ append fs (append gs hs)
append_assoc end gs hs = refl
append_assoc (field k v fs) gs hs = ap (field k v) (append_assoc fs gs hs)

set_field_absent :
    (k : String) (v : Value) (fs : Fields)
    → has_key k fs ≡ false
    → set_field k v fs ≡ append fs (field k v end)
unfolding set_field
set_field_absent k v end h = refl
set_field_absent k v (field j w fs) h = ground (arith, set_field_absent k v fs)

has_key-append :
    (j k : String) (v : Value) (fs : Fields)
    → has_key j (append fs (field k v end)) ≡ (has_key j fs || j == k)
has_key-append j k v end = ground arith
has_key-append j k v (field i w fs) = ground (arith, has_key-append j k v fs)

-- Every key of the second is absent from the first.
abbrev pub IsApart : Fields → Fields → Type 0
IsApart r end = Unit
IsApart r (field k v fs) = (has_key k r ≡ false) × IsApart r fs

IsApart-append :
    (r fs : Fields) (k : String) (v : Value)
    → IsApart r fs
    → elem k (keys fs) ≡ false
    → IsApart (append r (field k v end)) fs
IsApart-append r end k v h e = tt
IsApart-append r (field j w fs) k v h e = (
  ground (arith, has_key-append j k v r, h.0, String_eq.beq_iff j k, String_eq.beq_iff k j),
  IsApart-append r fs k v h.1 (ground arith),
)

pub update-append : (r fs : Fields) → IsApart r fs → Distinct (keys fs) → update r fs ≡ append r fs
unfolding update
update-append r end h d = sym (append-end r)
  where
    append-end : (gs : Fields) → append gs end ≡ gs
    append-end end = refl
    append-end (field k v gs) = ap (field k v) (append-end gs)
update-append r (field k v fs) h d = rw (set_field_absent k v r h.0) (
    update-append (append r (field k v end)) fs (IsApart-append r fs k v h.1 d.0) d.1
    ∙ append_assoc r (field k v end) fs)

-- Fields that can stand in a message: each key once, none of the envelope, and no `payload`.
pub record IsBody (fs : Fields) : Type 0 where
  pub distinct : Distinct (keys fs)
  pub free : (k : String) → elem k (keys fs) ≡ true → elem k ("payload" ∷ required) ≡ false

get_absent : (k : String) (fs : Fields) → elem k (keys fs) ≡ false → get k fs ≡ none
get_absent k end h = refl
get_absent k (field j v fs) h = ground (arith, get_absent k fs)

pub free_name :
    (fs : Fields) (k : String) → IsBody fs → elem k ("payload" ∷ required) ≡ true → get k fs ≡ none
free_name fs k b h = elim (Bool-cases (elem k (keys fs))) [
  | inl there ↦ cc (b.free k there, h)
  | inr absent ↦ get_absent k fs absent
]

AllFree : Fields → Type 0
AllFree fs = All (λ k. elem k ("payload" ∷ required) ≡ false) (keys fs)

All-free :
    (ks : List String) (P : String → Type 0) → ((k : String) → elem k ks ≡ true → P k) → All P ks
All-free [] P h = tt
All-free (k ∷ ks) P h = (h k (rw (==_refl k)), All-free ks P (λ j e. h j (ground (arith, e))))

without_none :
    (names : List String) (fs : Fields)
    → All (λ k. elem k names ≡ false) (keys fs)
    → without names fs ≡ fs
unfolding without
without_none names end h = refl
without_none names (field k v fs) h = rw (h.0) (ap (field k v) (without_none names fs h.1))

IsApart-names :
    (r fs : Fields) (names : List String)
    → ((k : String) → elem k names ≡ false → has_key k r ≡ false)
    → All (λ k. elem k names ≡ false) (keys fs)
    → IsApart r fs
IsApart-names r end names f h = tt
IsApart-names r (field k v fs) names f h = (f k h.0, IsApart-names r fs names f h.1)

pub as_dict-append : (m : Message) → IsBody m.fields → as_dict m ≡ append (envelope m) m.fields
unfolding as_dict
as_dict-append m b =
    update-append (envelope m) m.fields
      (IsApart-names (envelope m) m.fields ("payload" ∷ required) (λ k e. ground arith)
        (All-free (keys m.fields) (λ k. elem k ("payload" ∷ required) ≡ false) b.free))
      b.distinct

-- A message that can be sent.
pub record IsSendable (m : Message) : Type 0 where
  pub version : is_version m.protocol ≡ true
  pub id : request_id_match m.request_id ≡ true
  pub time : m.timestamp_ms ≢ 0
  pub name : type_match m.type_name ≡ true
  pub body : IsBody m.fields

-- `from_mapping` undoes `as_dict`, but for the limit on the size and the age: a message with an
-- envelope that is in order, whose fields have neither a key of the envelope nor `payload`, comes back
-- as it was.
pub from_fields-as_dict :
    (m : Message) (now : ℕ) → IsSendable m → from_fields none now (as_dict m) ≡ ok m
unfolding from_fields missing checked_id checked_time checked_age checked_type body_fields without
from_fields-as_dict m now s =
    let time : (m.timestamp_ms == 0) ≡ false = ground (arith, s.time) in
    let bare : without required m.fields ≡ m.fields = without_none required m.fields (
      All-free (keys m.fields) (λ k. elem k required ≡ false)
        (λ k e. ground (arith, s.body.free k e))) in
    rw (as_dict-append m s.body)
      (rw (s.version, s.id, time, s.name, free_name m.fields "payload" s.body refl, bare) refl)
