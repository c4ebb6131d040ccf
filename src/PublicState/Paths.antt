-- ===== src/PublicState/Paths.antt =====
-- What is left of a value, seen along the ways down into it.
use zomboid_goblin.Json.{
  Value, null, bool_value, int_value, float_value, str_value, list_value, dict_value, Items, nil,
  cons, Fields, end, field, get, item, Step, at_key, at_place, step, find, then_get,
}
use zomboid_goblin.PublicState.{
  redact, redact_items, redact_fields, is_hidden, is_sensitive_key, normal_key,
}
use zomboid_goblin.Text.Tables.{CharTables}
use mathlib.Core.Path.{subst}
use mathlib.Core.Option
use mathlib.Core.Option.{some-injective}
use zomboid_goblin.Base.{
  ℕ, zero, suc, String, ◌≡◌, refl, sym, inl, inr, true, false, Option, none, some, List, [], ◌∷◌,
  ◌++◌, arith, Bool-cases, Option-cases, ◌==◌, ℕ_eq, String_eq, Pair_eq, All,
}

module _ (tables : CharTables) where
  -- A step that no rule of `_redact` is about.
  abbrev pub IsPlain : Step → Type 0
  IsPlain (at_key key) =
      (is_sensitive_key tables key ≡ false) × ((normal_key tables key == "distance") ≡ false)
  IsPlain (at_place n) = Unit

  get-redact_fields :
      (key : String) (fs : Fields)
      → IsPlain (at_key key)
      → get key (redact_fields tables fs) ≡ Option.map (redact tables) (get key fs)
  unfolding redact is_hidden
  get-redact_fields key end h = refl
  get-redact_fields key (field k v fs) h = elim (Bool-cases (key == k)) [
    | inl same ↦
        let e : key ≡ k = (String_eq.beq_iff key k).0 same in
        let h' : IsPlain (at_key k) = subst (λ x. IsPlain (at_key x)) e h in
        ground (arith, same, h'.0, h'.1)
    | inr other ↦ ground (arith, other, get-redact_fields key fs h)
  ]

  get_hidden :
      (key : String) (fs : Fields)
      → is_sensitive_key tables key ≡ true
      → get key (redact_fields tables fs) ≡ none
  unfolding redact is_hidden
  get_hidden key end h = refl
  get_hidden key (field k v fs) h = elim (Bool-cases (key == k)) [
    | inl same ↦
        let e : key ≡ k = (String_eq.beq_iff key k).0 same in
        let h' : is_sensitive_key tables k ≡ true =
          subst (λ x. is_sensitive_key tables x ≡ true) e h in
        rw h' (get_hidden key fs h)
    | inr other ↦ ground (arith, other, get_hidden key fs h)
  ]

  item-redact_items :
      (n : ℕ) (vs : Items)
      → item n (redact_items tables vs) ≡ Option.map (redact tables) (item n vs)
  unfolding redact
  item-redact_items n nil = refl
  item-redact_items zero (cons v vs) = refl
  item-redact_items (suc n) (cons v vs) = item-redact_items n vs

  step-redact :
      (s : Step) (v : Value)
      → IsPlain s
      → step s (redact tables v) ≡ Option.map (redact tables) (step s v)
  unfolding redact
  step-redact (at_key key) (dict_value fs) h = get-redact_fields key fs h
  step-redact (at_place n) (list_value vs) h = item-redact_items n vs
  step-redact (at_key key) null h = refl
  step-redact (at_key key) (bool_value b) h = refl
  step-redact (at_key key) (int_value n) h = refl
  step-redact (at_key key) (float_value x) h = refl
  step-redact (at_key key) (str_value x) h = refl
  step-redact (at_key key) (list_value vs) h = refl
  step-redact (at_place n) null h = refl
  step-redact (at_place n) (bool_value b) h = refl
  step-redact (at_place n) (int_value m) h = refl
  step-redact (at_place n) (float_value x) h = refl
  step-redact (at_place n) (str_value x) h = refl
  step-redact (at_place n) (dict_value fs) h = refl

  then_get-redact :
      (o : Option Value) (f : Value → Option Value)
      → ((w : Value) → f (redact tables w) ≡ Option.map (redact tables) (f w))
      → then_get (Option.map (redact tables) o) f ≡ Option.map (redact tables) (then_get o f)
  then_get-redact none f h = refl
  then_get-redact (some w) f h = h w

  -- Redaction leaves alone, at any depth, what no hidden key stands in front of: down such a way, the
  -- redacted value has the redaction of what the value has there, and nothing where that has nothing.
  pub redact-find :
      (path : List Step) (v : Value)
      → All IsPlain path
      → find path (redact tables v) ≡ Option.map (redact tables) (find path v)
  unfolding find
  redact-find [] v h = refl
  redact-find (s ∷ path) v h =
      rw (step-redact s v h.0)
        (then_get-redact (step s v) (find path) (λ w. redact-find path w h.1))

  get_image :
      (key : String) (fs : Fields) (w : Value)
      → get key (redact_fields tables fs) ≡ some w
      → (u : Value) × (w ≡ redact tables u)
  unfolding redact
  get_image key end w h = cc
  get_image key (field k v fs) w h = elim (Bool-cases (is_hidden tables k v)) [
    | inl hidden ↦ get_image key fs w (rw hidden at h)
    | inr shown ↦ elim (Bool-cases (key == k)) [
      | inl same ↦ (v, sym (some-injective (redact tables v) w (rw (shown, same) at h)))
      | inr other ↦ get_image key fs w (rw (shown, other) at h)
    ]
  ]

  item_image :
      (n : ℕ) (vs : Items) (w : Value)
      → item n (redact_items tables vs) ≡ some w
      → (u : Value) × (w ≡ redact tables u)
  unfolding redact
  item_image n nil w h = cc
  item_image zero (cons v vs) w h = (v, sym (some-injective (redact tables v) w h))
  item_image (suc n) (cons v vs) w h = item_image n vs w h

  step_image :
      (s : Step) (v w : Value)
      → step s (redact tables v) ≡ some w
      → (u : Value) × (w ≡ redact tables u)
  unfolding redact
  step_image (at_key key) (dict_value fs) w h = get_image key fs w h
  step_image (at_place n) (list_value vs) w h = item_image n vs w h
  step_image (at_key key) null w h = cc
  step_image (at_key key) (bool_value b) w h = cc
  step_image (at_key key) (int_value n) w h = cc
  step_image (at_key key) (float_value x) w h = cc
  step_image (at_key key) (str_value x) w h = cc
  step_image (at_key key) (list_value vs) w h = cc
  step_image (at_place n) null w h = cc
  step_image (at_place n) (bool_value b) w h = cc
  step_image (at_place n) (int_value m) w h = cc
  step_image (at_place n) (float_value x) w h = cc
  step_image (at_place n) (str_value x) w h = cc
  step_image (at_place n) (dict_value fs) w h = cc

  step_hidden :
      (key : String) (v : Value)
      → is_sensitive_key tables key ≡ true
      → step (at_key key) (redact tables v) ≡ none
  unfolding redact
  step_hidden key (dict_value fs) h = get_hidden key fs h
  step_hidden key null h = refl
  step_hidden key (bool_value b) h = refl
  step_hidden key (int_value n) h = refl
  step_hidden key (float_value x) h = refl
  step_hidden key (str_value x) h = refl
  step_hidden key (list_value vs) h = refl

  -- No way that passes a sensitive key leads anywhere in a redacted value.
  pub redact_hides :
      (before : List Step) (key : String) (after : List Step) (v : Value)
      → is_sensitive_key tables key ≡ true
      → find (before ++ at_key key ∷ after) (redact tables v) ≡ none
  unfolding find
  redact_hides [] key after v h = rw (step_hidden key v h)
  redact_hides (s ∷ before) key after v h = elim (Option-cases (step s (redact tables v))) [
    | inl gone ↦ rw gone
    | inr (w, e) ↦
        let (u, image) = step_image s v w e in rw (e, image) (redact_hides before key after u h)
  ]
