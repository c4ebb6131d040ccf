-- ===== src/Validator/Targets.antt =====
-- `_text`, `_id`, `_object`, `_target`, `_item`, `_candidate`, `_id_list` and `_member_request` of
-- goblin_zomboid/validator.py, on JSON values.
use zomboid_goblin.Json.{
  pos, Value, int_value, str_value, list_value, dict_value, Items, nil, cons, Fields, get, keys,
  size,
}
use zomboid_goblin.Validator.{text, id}
use zomboid_goblin.Text.Tables.{CharTables}
use zomboid_goblin.Text.Trim.{casefold}
use zomboid_goblin.Entities.Squads.{sort_texts}
use Prim.Native.String.{◌++◌ as str_append}
use zomboid_goblin.Base.{
  ℕ, String, Bool, not, ◌&&◌, Option, none, some, List, [], ◌∷◌, leb, if◌then◌else◌, is_some, ◌==◌,
  ℕ_eq, String_eq, Pair_eq, elem, keep_if,
}
use zomboid_goblin.Exec.{intent_error, Result, ok, err, and_then}

-- `TARGET_KINDS`
abbrev pub intent_target_kinds : List String
intent_target_kinds =
    "nearby_building" ∷ "named_location" ∷ "area" ∷ "player" ∷ "home_base" ∷ "escape_route"
    ∷ "candidate" ∷ "current_position" ∷ "nearby_threat" ∷ "goblin" ∷ "squad" ∷ "base" ∷ "vehicle"
    ∷ "job" ∷ "building" ∷ "room" ∷ "yard" ∷ "container" ∷ []

-- `if not ...: raise IntentError(...)`
abbrev pub require : Bool → String → Result (Unit {0})
require holds reason = if holds then ok tt else err (intent_error reason)

-- `if key in raw: ...`
abbrev pub optional {ℓ} : {A : Type ℓ} → (Value → Result A) → Option Value → Result (Option A)
optional read none = ok none
optional read (some v) = and_then (read v) λ a. ok (some a)

abbrev pub unknown_field : String → List String → Result (Unit {0})
unknown_field field [] = ok tt
unknown_field field (x ∷ _) =
    err (intent_error (str_append "unknown " (str_append field (str_append " field: " x))))

-- The names of an object that are not allowed, in the order of `sorted`
unfoldable pub check_keys : String → List String → Fields → Result (Unit {0})
unfolding sort_texts
check_keys field allowed fs =
    unknown_field field (sort_texts (keep_if (λ k. not (elem k allowed)) (keys fs)))

-- `_object`
unfoldable pub object : String → List String → Value → Result Fields
unfolding check_keys
object field allowed (dict_value fs) = and_then (check_keys field allowed fs) λ _. ok fs
object field allowed _ = err (intent_error (str_append field " must be an object"))

pub record ItemData : Type 0 where
  pub item_name : Option String
  pub category : Option String
  pub item_count : Option ℕ

pub record CandidateData : Type 0 where
  pub kind : String
  pub label : String
  pub clue : Option String

-- `_target`: the kind, and the name and the text that say which
pub record TargetData : Type 0 where
  pub kind : String
  pub label_key : String
  pub label : String

pub data MemberRequest : Type 0 where
  number_of : ℕ → MemberRequest
  id_list : List String → MemberRequest

-- `item["count"]`
unfoldable pub item_count_value : Value → Result ℕ
item_count_value (int_value (pos n)) =
    if leb 1 n && leb n 20 then ok n else err (intent_error "item.count must be between 1 and 20")
item_count_value _ = err (intent_error "item.count must be between 1 and 20")

unfoldable pub is_empty_item : ItemData → Bool
is_empty_item i =
    not (is_some i.item_name) && (not (is_some i.category) && not (is_some i.item_count))

module _ (tables : CharTables) where
  -- `_text`
  unfoldable pub text_value : String → ℕ → Value → Result String
  unfolding text
  text_value field maximum (str_value s) = text tables field maximum s
  text_value field maximum _ = err (intent_error (str_append field " must be text"))

  -- `_text(raw.get(...), ...)`: a missing value is no text
  unfoldable pub required_text : String → ℕ → Option Value → Result String
  unfolding text_value
  required_text field maximum none = err (intent_error (str_append field " must be text"))
  required_text field maximum (some v) = text_value field maximum v

  -- `_id`
  unfoldable pub id_value : String → Value → Result String
  unfolding id
  id_value field (str_value s) = id tables field s
  id_value field _ = err (intent_error (str_append field " must be text"))

  abbrev pub label_key_of : String → String
  label_key_of kind = if kind == "player" then "player" else "name"

  abbrev other_label : String → String → Option Value → Result TargetData
  other_label field kind none = err (intent_error (str_append field " needs a safe label"))
  other_label field kind (some v) =
      and_then (text_value (str_append field ".label") 96 v)
        λ label. ok (record { kind = kind; label_key = "label"; label = label })

  -- The label of a target
  unfoldable pub target_label : String → String → Fields → Option Value → Result TargetData
  unfolding text_value
  target_label field kind raw none = other_label field kind (get "label" raw)
  target_label field kind raw (some v) =
      and_then (text_value (str_append field (str_append "." (label_key_of kind))) 96 v)
        λ label. ok (record { kind = kind; label_key = label_key_of kind; label = label })

  -- `_target`
  unfoldable pub target : String → Value → Result TargetData
  unfolding object required_text target_label
  target field v = and_then (object field ("kind" ∷ "name" ∷ "player" ∷ "label" ∷ []) v) λ raw.
      and_then (required_text (str_append field ".kind") 32 (get "kind" raw)) λ named.
        let kind = casefold tables named in
        and_then
          (require (elem kind intent_target_kinds)
            (str_append "unsupported " (str_append field " kind")))
          λ _. target_label field kind raw (get (label_key_of kind) raw)

  -- `_item`
  unfoldable pub item : Value → Result ItemData
  unfolding object text_value item_count_value is_empty_item
  item v = and_then (object "item" ("name" ∷ "category" ∷ "count" ∷ []) v) λ raw.
      and_then (optional (text_value "item.name" 64) (get "name" raw)) λ name.
        and_then (optional (text_value "item.category" 32) (get "category" raw)) λ category.
          and_then (optional item_count_value (get "count" raw)) λ n.
            let found : ItemData = record {
              item_name = name;
              category = category;
              item_count = n;
            } in
            and_then (require (not (is_empty_item found)) "item cannot be empty") λ _. ok found

  -- `_candidate`
  unfoldable pub candidate : Value → Result CandidateData
  unfolding object required_text text_value
  candidate v = and_then (object "candidate" ("kind" ∷ "label" ∷ "clue" ∷ []) v) λ raw.
      and_then (required_text "candidate.kind" 32 (get "kind" raw)) λ named.
        let kind = casefold tables named in
        and_then
          (require (elem kind ("nearby_building" ∷ "area" ∷ "named_location" ∷ "candidate" ∷ []))
            "candidate has an unsafe kind")
          λ _. and_then (required_text "candidate.label" 96 (get "label" raw)) λ label.
            and_then (optional (text_value "candidate.clue" 160) (get "clue" raw))
              λ clue. ok (record { kind = kind; label = label; clue = clue })

  unfoldable pub all_items {ℓ} : {A : Type ℓ} → (Value → Result A) → Items → Result (List A)
  all_items read nil = ok []
  all_items read (cons v vs) =
      and_then (read v) λ a. and_then (all_items read vs) λ rest. ok (a ∷ rest)

  -- `_id_list`
  unfoldable pub id_list_value : String → Value → Result (List String)
  unfolding id_value all_items
  id_list_value field (list_value vs) =
      and_then
        (require (leb 1 (size vs) && leb (size vs) 16)
          (str_append field " must contain 1 to 16 ids"))
        λ _. all_items (id_value (str_append field " item")) vs
  id_list_value field _ = err (intent_error (str_append field " must contain 1 to 16 ids"))

  abbrev pub id_members : String → Value → Result MemberRequest
  id_members field v = and_then (id_list_value field v) λ ids. ok (id_list ids)

  -- `_member_request` for "requested_members"
  unfoldable pub requested : Value → Result MemberRequest
  unfolding id_list_value
  requested (int_value (pos n)) =
      if leb 1 n && leb n 15
      then ok (number_of n)
      else err (intent_error "requested_members count must be between 1 and 15")
  requested (int_value n) = err (intent_error "requested_members count must be between 1 and 15")
  requested v = id_members "requested_members" v
