-- ===== src/Validator/Scan.antt =====
-- `_scan_forbidden` of goblin_zomboid/validator.py: the names that no intent may hold, at any depth.
use zomboid_goblin.Json.{
  Value, null, bool_value, int_value, float_value, str_value, list_value, dict_value, Items, nil,
  cons, Fields, end, field, size,
}
use zomboid_goblin.PublicState.{normal_key}
use zomboid_goblin.Validator.Targets.{require}
use zomboid_goblin.Text.Tables.{CharTables}
use Prim.Native.String.{◌++◌ as str_append}
use zomboid_goblin.Base.{String, Bool, not, List, [], ◌∷◌, leb, ℕ_eq, String_eq, Pair_eq, elem}
use zomboid_goblin.Exec.{Result, ok, and_then}

-- `FORBIDDEN_KEYS`
abbrev pub forbidden_keys : List String
forbidden_keys =
    "code" ∷ "command" ∷ "eval" ∷ "exec" ∷ "lua" ∷ "shell" ∷ "script" ∷ "raw" ∷ "raw_packet"
    ∷ "packet" ∷ "x" ∷ "y" ∷ "z" ∷ "cell" ∷ "chunk" ∷ "building_id" ∷ "teleport" ∷ "path" ∷ "paths"
    ∷ "absolute_path" ∷ []

-- `[{index}]`, for the places of a list that is short enough
abbrev pub index_texts : List String
index_texts =
    "[0]" ∷ "[1]" ∷ "[2]" ∷ "[3]" ∷ "[4]" ∷ "[5]" ∷ "[6]" ∷ "[7]" ∷ "[8]" ∷ "[9]" ∷ "[10]" ∷ "[11]"
    ∷ "[12]" ∷ "[13]" ∷ "[14]" ∷ "[15]" ∷ []

-- The text of the place that the rest of the list begins at
abbrev pub first_text : List String → String
first_text [] = ""
first_text (t ∷ ts) = t

abbrev pub other_texts : List String → List String
other_texts [] = []
other_texts (t ∷ ts) = ts

abbrev pub below : String → String → String
below path key = str_append path (str_append "." key)

module _ (tables : CharTables) where
  unfoldable pub is_forbidden : String → Bool
  is_forbidden key = elem (normal_key tables key) forbidden_keys

  -- `_scan_forbidden`; the names of an object are texts
  unfoldable mutual
    pub scan : String → Value → Result (Unit {0})
    scan path null = ok tt
    scan path (bool_value b) = ok tt
    scan path (int_value n) = ok tt
    scan path (float_value x) = ok tt
    scan path (str_value s) = ok tt
    scan path (list_value vs) =
        and_then (require (leb (size vs) 16) (str_append "list is too long at " path))
          λ _. scan_items path index_texts vs
    scan path (dict_value fs) = scan_fields path fs

    pub scan_items : String → List String → Items → Result (Unit {0})
    scan_items path texts nil = ok tt
    scan_items path texts (cons v vs) =
        and_then (scan (str_append path (first_text texts)) v)
          λ _. scan_items path (other_texts texts) vs

    pub scan_fields : String → Fields → Result (Unit {0})
    scan_fields path end = ok tt
    scan_fields path (field key v fs) =
        and_then
          (require (not (is_forbidden key)) (str_append "forbidden field at " (below path key)))
          λ _. and_then (scan (below path key) v) λ _. scan_fields path fs
