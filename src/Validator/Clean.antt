-- ===== src/Validator/Clean.antt =====
-- No intent that is let through has a forbidden name in it.
use zomboid_goblin.Base.{
  ℕ, zero, suc, String, ◌≡◌, refl, sym, inl, inr, Bool, true, false, not, some, List, [], ◌∷◌, ◌++◌,
  leb, Bool-cases, Option-cases, ◌==◌, ℕ_eq, String_eq, Pair_eq,
}
use zomboid_goblin.Exec.{Result, ok, err, and_then}
use zomboid_goblin.Json.{
  Value, null, bool_value, int_value, float_value, str_value, list_value, dict_value, Items, nil,
  cons, Fields, end, field, get, item, size, Step, at_key, at_place, step, find,
}
use zomboid_goblin.Validator.Scan.{
  scan, scan_items, scan_fields, is_forbidden, index_texts, first_text, other_texts, below,
}
use zomboid_goblin.Validator.Targets.{require}
use zomboid_goblin.Validator.Intents.{IntentData, validate}
use zomboid_goblin.Text.Tables.{CharTables}
use mathlib.Core.Option.{some-injective}
use Prim.Native.String.{◌++◌ as str_append}
use mathlib.Core.Path.{subst}

pub and_then-ok :
    {A B : Type 0} (r : Result A) (f : A → Result B) (b : B)
    → and_then r f ≡ ok b
    → (a : A) × (r ≡ ok a) × (f a ≡ ok b)
and_then-ok (ok a) f b e = (a, refl, e)
and_then-ok (err x) f b e = cc

pub require-ok : (h : Bool) (reason : String) (u : Unit {0}) → require h reason ≡ ok u → h ≡ true
require-ok true reason u e = refl
require-ok false reason u e = cc

both-ok : (a b : Result (Unit {0})) → and_then a (λ _. b) ≡ ok tt → (a ≡ ok tt) × (b ≡ ok tt)
both-ok (ok u) b e = (refl, e)
both-ok (err x) b e = cc

not-true : (b : Bool) → not b ≡ true → b ≡ false
not-true true h = cc
not-true false h = refl

module _ (tables : CharTables) where
  Passes : Value → Type 0
  Passes v = (path : String) × (scan tables path v ≡ ok tt)

  scan_fields_parts :
      (path key : String) (v : Value) (fs : Fields)
      → scan_fields tables path (field key v fs) ≡ ok tt
      → (is_forbidden tables key ≡ false)
        × (scan tables (below path key) v ≡ ok tt)
        × (scan_fields tables path fs ≡ ok tt)
  unfolding scan
  scan_fields_parts path key v fs e =
      let name =
        require (not (is_forbidden tables key))
          (str_append "forbidden field at " (below path key)) in
      let (allowed, e1) =
        both-ok name (and_then (scan tables (below path key) v) λ _. scan_fields tables path fs)
          e in
      let (inner, rest) =
        both-ok (scan tables (below path key) v) (scan_fields tables path fs) e1 in
      (not-true (is_forbidden tables key) (require-ok _ _ tt allowed), inner, rest)

  scan_get :
      (path key : String) (fs : Fields) (w : Value)
      → scan_fields tables path fs ≡ ok tt
      → get key fs ≡ some w
      → (is_forbidden tables key ≡ false) × Passes w
  unfolding Passes
  scan_get path key end w e g = cc
  scan_get path key (field k v fs) w e g =
      let (allowed, inner, rest) = scan_fields_parts path k v fs e in
      elim (Bool-cases (key == k)) [
        | inl same ↦ (
          subst (λ x. is_forbidden tables x ≡ false) (sym ((String_eq.beq_iff key k).0 same))
              allowed,
          (
            below path k,
            subst (λ x. scan tables (below path k) x ≡ ok tt) (some-injective v w (rw same at g))
                inner,
          ),
        )
        | inr other ↦ scan_get path key fs w rest (rw other at g)
      ]

  scan_item :
      (path : String) (texts : List String) (n : ℕ) (vs : Items) (w : Value)
      → scan_items tables path texts vs ≡ ok tt
      → item n vs ≡ some w
      → Passes w
  unfolding scan Passes
  scan_item path texts n nil w e g = cc
  scan_item path texts zero (cons v vs) w e g =
      let (inner, rest) =
        both-ok (scan tables (str_append path (first_text texts)) v)
          (scan_items tables path (other_texts texts) vs) e in
      (
        str_append path (first_text texts),
        subst (λ x. scan tables (str_append path (first_text texts)) x ≡ ok tt)
            (some-injective v w g) inner,
      )
  scan_item path texts (suc n) (cons v vs) w e g =
      let (inner, rest) =
        both-ok (scan tables (str_append path (first_text texts)) v)
          (scan_items tables path (other_texts texts) vs) e in
      scan_item path (other_texts texts) n vs w rest g

  scan-step :
      (path : String) (s : Step) (v w : Value)
      → scan tables path v ≡ ok tt
      → step s v ≡ some w
      → Passes w
  unfolding scan Passes
  scan-step path (at_key key) (dict_value fs) w e g = (scan_get path key fs w e g).1
  scan-step path (at_place n) (list_value vs) w e g =
      scan_item path index_texts n vs w
        (both-ok (require (leb (size vs) 16) (str_append "list is too long at " path))
          (scan_items tables path index_texts vs) e).1
        g
  scan-step path (at_key key) null w e g = cc
  scan-step path (at_key key) (bool_value b) w e g = cc
  scan-step path (at_key key) (int_value n) w e g = cc
  scan-step path (at_key key) (float_value x) w e g = cc
  scan-step path (at_key key) (str_value x) w e g = cc
  scan-step path (at_key key) (list_value vs) w e g = cc
  scan-step path (at_place n) null w e g = cc
  scan-step path (at_place n) (bool_value b) w e g = cc
  scan-step path (at_place n) (int_value m) w e g = cc
  scan-step path (at_place n) (float_value x) w e g = cc
  scan-step path (at_place n) (str_value x) w e g = cc
  scan-step path (at_place n) (dict_value fs) w e g = cc

  scan_key :
      (path key : String) (v w : Value)
      → scan tables path v ≡ ok tt
      → step (at_key key) v ≡ some w
      → is_forbidden tables key ≡ false
  unfolding scan
  scan_key path key (dict_value fs) w e g = (scan_get path key fs w e g).0
  scan_key path key null w e g = cc
  scan_key path key (bool_value b) w e g = cc
  scan_key path key (int_value n) w e g = cc
  scan_key path key (float_value x) w e g = cc
  scan_key path key (str_value x) w e g = cc
  scan_key path key (list_value vs) w e g = cc

  scan-find :
      (way : List Step) (path key : String) (v w : Value)
      → scan tables path v ≡ ok tt
      → find (way ++ at_key key ∷ []) v ≡ some w
      → is_forbidden tables key ≡ false
  unfolding find Passes
  scan-find [] path key v w e g = elim (Option-cases (step (at_key key) v)) [
    | inl gone ↦ cc (rw gone at g)
    | inr (u, there) ↦ scan_key path key v u e there
  ]
  scan-find (s ∷ way) path key v w e g = elim (Option-cases (step s v)) [
    | inl gone ↦ cc (rw gone at g)
    | inr (u, there) ↦
        let (path', e') = scan-step path s v u e there in
        scan-find way path' key u w e' (rw there at g)
  ]

  validate_scanned :
      (upper : String → String) (v : Value) (i : IntentData)
      → validate tables upper v ≡ ok i
      → scan tables "$" v ≡ ok tt
  unfolding validate
  validate_scanned upper (dict_value raw) i e =
      (and_then-ok (scan tables "$" (dict_value raw)) _ i e).1
  validate_scanned upper null i e = cc
  validate_scanned upper (bool_value b) i e = cc
  validate_scanned upper (int_value n) i e = cc
  validate_scanned upper (float_value x) i e = cc
  validate_scanned upper (str_value x) i e = cc
  validate_scanned upper (list_value vs) i e = cc

  -- In a value that `validate` lets through, no way down, at whatever depth, ends in a key with a
  -- forbidden name.
  pub validate_clean :
      (upper : String → String) (v w : Value) (i : IntentData) (way : List Step) (key : String)
      → validate tables upper v ≡ ok i
      → find (way ++ at_key key ∷ []) v ≡ some w
      → is_forbidden tables key ≡ false
  validate_clean upper v w i way key e g =
      scan-find way "$" key v w (validate_scanned upper v i e) g
