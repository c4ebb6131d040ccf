-- ===== src/Json.antt =====
-- The values of JSON, as `json.loads` gives them: the keys of an object stand in the order of its
-- entries. A float is kept as its text.
use zomboid_goblin.Base.{
  ℕ, zero, suc, String, Bool, true, false, Option, none, some, List, [], ◌∷◌, if◌then◌else◌,
  is_some, ◌==◌, ℕ_eq, String_eq, Pair_eq,
}

-- Python's integers: `negsuc n` is -1 - n.
pub data ℤ : Type 0 where
  pos negsuc : ℕ → ℤ

mutual
  pub data Value : Type 0 where
    null : Value
    bool_value : Bool → Value
    int_value : ℤ → Value
    float_value : String → Value
    str_value : String → Value
    list_value : Items → Value
    dict_value : Fields → Value

  pub data Items : Type 0 where
    nil : Items
    cons : Value → Items → Items

  pub data Fields : Type 0 where
    end : Fields
    field : String → Value → Fields → Fields

-- `d.get(key)`
abbrev pub get : String → Fields → Option Value
get key end = none
get key (field k v fs) = if key == k then some v else get key fs

-- `key in d`
abbrev pub has_key : String → Fields → Bool
has_key key fs = is_some (get key fs)

-- `list(d)`
abbrev pub keys : Fields → List String
keys end = []
keys (field k v fs) = k ∷ keys fs

-- `items[n]`
abbrev pub item : ℕ → Items → Option Value
item n nil = none
item zero (cons v vs) = some v
item (suc n) (cons v vs) = item n vs

-- `len(items)`
abbrev pub size : Items → ℕ
size nil = 0
size (cons v vs) = suc (size vs)

abbrev pub then_get : Option Value → (Value → Option Value) → Option Value
then_get none f = none
then_get (some v) f = f v

-- `isinstance(value, (int, float)) and not isinstance(value, bool)`
abbrev pub is_number : Value → Bool
is_number (int_value _) = true
is_number (float_value _) = true
is_number _ = false

-- A way down into a value, by keys and by places in lists.
pub data Step : Type 0 where
  at_key : String → Step
  at_place : ℕ → Step

abbrev pub step : Step → Value → Option Value
step (at_key key) (dict_value fs) = get key fs
step (at_place n) (list_value vs) = item n vs
step _ _ = none

unfoldable pub find : List Step → Value → Option Value
find [] v = some v
find (s ∷ path) v = then_get (step s v) (find path)
