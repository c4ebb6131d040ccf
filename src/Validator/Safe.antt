-- ===== src/Validator/Safe.antt =====
-- What a validated intent satisfies.
use zomboid_goblin.Base.{
  ℕ, ◌≤◌, String, ◌≡◌, ap, inl, inr, Bool, true, not, ◌||◌, Option, none, some, List, [], ◌∷◌,
  arith, leb, Bool-cases, is_some, ℕ_eq, String_eq, Pair_eq, elem,
}
use zomboid_goblin.Exec.{ok, err, and_then}
use mathlib.Core.Path.{subst}
use Prim.Native.String.{◌++◌ as str_append}
use zomboid_goblin.Json.{
  Value, null, bool_value, int_value, float_value, str_value, list_value, dict_value, pos, negsuc,
  Fields, get, has_key,
}
use zomboid_goblin.Modes.{Mode}
use zomboid_goblin.Validator.{mode_allows, intents}
use zomboid_goblin.Validator.Scan.{scan}
use zomboid_goblin.Validator.Targets.{
  require, optional, required_text, ItemData, target, item, candidate, text_value, all_items,
  check_keys,
}
use zomboid_goblin.Validator.Intents.{
  IntentData, Opening, Objects, Work, validate, read_intent, head, opening, objects, people, work,
  allowed_mode, mode_of, priority_value, short_list, rule, item_rules, job_rules, named_item,
  has_item_name, one_of, count_of, target_required, word, lowered, allowed_keys, assembled,
}
use zomboid_goblin.Validator.Clean.{and_then-ok, require-ok}
use zomboid_goblin.Text.Tables.{CharTables}

ok-injective : {A : Type 0} (a b : A) → ok a ≡ ok b → a ≡ b
ok-injective a b e = ap (λ r. elim r [ ok x ↦ x | err _ ↦ a ]) e

rule-ok :
    (intent : String) (those : List String) (holds : Bool) (reason : String) (u : Unit {0})
    → rule intent those holds reason ≡ ok u
    → elem intent those ≡ true
    → holds ≡ true
rule-ok intent those holds reason u e h =
    ground (arith, require-ok (not (elem intent those) || holds) reason u e, h)

priority-le : (o : Option Value) (n : ℕ) → priority_value o ≡ ok n → n ≤ 3
unfolding priority_value
priority-le none n e = ground (arith, e)
priority-le (some (int_value (pos m))) n e = elim (Bool-cases (leb m 3)) [
  | inl small ↦ ground (arith, rw small at e, small)
  | inr large ↦ cc (rw large at e)
]
priority-le (some (int_value (negsuc m))) n e = cc
priority-le (some null) n e = cc
priority-le (some (bool_value b)) n e = cc
priority-le (some (float_value x)) n e = cc
priority-le (some (str_value x)) n e = cc
priority-le (some (list_value vs)) n e = cc
priority-le (some (dict_value fs)) n e = cc

allowed_mode-ok :
    (intent name : String) (o : Option Mode) (mode : Mode)
    → allowed_mode intent name o ≡ ok mode
    → mode_allows mode intent ≡ true
unfolding allowed_mode
allowed_mode-ok intent name none mode e = cc
allowed_mode-ok intent name (some m) mode e = elim (Bool-cases (mode_allows m intent)) [
  | inl allowed ↦
      subst (λ x. mode_allows x intent ≡ true) (ok-injective m mode (rw allowed at e)) allowed
  | inr barred ↦ cc (rw barred at e)
]

module _ (tables : CharTables) (upper : String → String) where
  head-ok :
      (raw : Fields) (named : String × Mode)
      → head tables upper raw ≡ ok named
      → mode_allows named.1 named.0 ≡ true
  unfolding head
  head-ok raw named e =
      let (first, _, e1) =
        and_then-ok (required_text tables "intent" 32 (get "intent" raw)) _ named e in
      let (second, _, e2) =
        and_then-ok (required_text tables "mode" 16 (get "mode" raw)) _ named e1 in
      let (_, _, e3) =
        and_then-ok (require (elem (upper first) intents) "unsupported intent") _ named e2 in
      let (mode, m, e4) =
        and_then-ok (allowed_mode (upper first) (upper second) (mode_of (upper second))) _ named
          e3 in
      subst (λ x. mode_allows x.1 x.0 ≡ true) (ok-injective (upper first, mode) named e4)
        (allowed_mode-ok (upper first) (upper second) (mode_of (upper second)) mode m)

  IsOpening : Opening → Type 0
  IsOpening a = (mode_allows a.mode a.intent ≡ true) × (a.priority ≤ 3)

  opening-ok : (raw : Fields) (a : Opening) → opening tables upper raw ≡ ok a → IsOpening a
  unfolding opening IsOpening
  opening-ok raw a e =
      let (named, h, e1) = and_then-ok (head tables upper raw) _ a e in
      let intent = named.0 in
      let (text, _, e2) =
        and_then-ok (optional (text_value tables "text" 240) (get "text" raw)) _ a e1 in
      let (_, _, e3) =
        and_then-ok (rule intent ("SAY" ∷ []) (is_some text) "SAY requires text") _ a e2 in
      let (_, _, e4) =
        and_then-ok
          (rule intent ("SAY" ∷ []) (not (has_key "target" raw)) "SAY does not accept a target") _ a
          e3 in
      let (_, _, e5) =
        and_then-ok (rule intent ("EQUIP" ∷ []) (has_key "item" raw) "EQUIP requires an item") _ a
          e4 in
      let (n, p, e6) = and_then-ok (priority_value (get "priority" raw)) _ a e5 in
      let (abort_if, _, e7) =
        and_then-ok
          (optional
            (λ v.
              and_then (short_list v)
                λ vs. all_items tables (text_value tables "abort_if item" 80) vs)
            (get "abort_if" raw))
          _ a e6 in
      subst IsOpening
        (ok-injective
          (record {
            intent = intent;
            mode = named.1;
            text = text;
            priority = n;
            abort_if = abort_if;
          })
          a e7)
        (head-ok raw named h, priority-le (get "priority" raw) n p)

  work-ok :
      (intent : String) (thing : Option ItemData) (raw : Fields) (d : Work)
      → work tables upper intent thing raw ≡ ok d
      → elem intent ("CRAFT" ∷ "FARM" ∷ "BUILD" ∷ []) ≡ true
      → count_of thing ≤ 10
  unfolding work job_rules
  work-ok intent thing raw d e h =
      let (job, _, e1) = and_then-ok (optional (lowered tables upper) (get "job" raw)) _ d e in
      let (_, rules, _) = and_then-ok (job_rules intent job thing) _ d e1 in
      let (_, _, r1) =
        and_then-ok
          (rule intent ("FARM" ∷ [])
            (one_of job ("plow" ∷ "sow" ∷ "water" ∷ "harvest" ∷ "tend" ∷ []))
            "FARM requires plow, sow, water, harvest, or tend")
          _ tt rules in
      let (_, _, r2) =
        and_then-ok
          (rule intent ("FARM" ∷ []) (not (one_of job ("sow" ∷ [])) || has_item_name thing)
            "sowing requires a crop name")
          _ tt r1 in
      let (_, few, _) =
        and_then-ok
          (rule intent ("CRAFT" ∷ "FARM" ∷ "BUILD" ∷ []) (leb (count_of thing) 10)
            "item.count must be between 1 and 10 for this intent")
          _ tt r2 in
      ground (
        arith,
        rule-ok intent ("CRAFT" ∷ "FARM" ∷ "BUILD" ∷ []) (leb (count_of thing) 10)
            "item.count must be between 1 and 10 for this intent" tt few h,
      )

  objects-ok :
      (intent : String) (raw : Fields) (b : Objects)
      → objects tables upper intent raw ≡ ok b
      → elem intent ("EQUIP" ∷ []) ≡ true
      → one_of (named_item b.item) ("Base.DoubleBarrelShotgun" ∷ []) ≡ true
  unfolding objects item_rules
  objects-ok intent raw b e h =
      let (_, _, e1) =
        and_then-ok
          (rule intent target_required (has_key "target" raw)
            (str_append intent " requires a target"))
          _ b e in
      let (aim, _, e2) =
        and_then-ok (optional (target tables "target") (get "target" raw)) _ b e1 in
      let (thing, _, e3) = and_then-ok (optional (item tables) (get "item" raw)) _ b e2 in
      let (_, rules, e4) = and_then-ok (item_rules intent thing) _ b e3 in
      let (_, gun, _) =
        and_then-ok
          (rule intent ("EQUIP" ∷ []) (one_of (named_item thing) ("Base.DoubleBarrelShotgun" ∷ []))
            "EQUIP only permits Base.DoubleBarrelShotgun")
          _ tt rules in
      let (place, _, e5) = and_then-ok (optional (candidate tables) (get "candidate" raw)) _ b e4 in
      let (_, _, e6) =
        and_then-ok
          (rule intent ("HUNT_RELOCATE" ∷ []) (is_some place) "HUNT_RELOCATE requires a candidate")
          _ b e5 in
      let (focus, _, e7) =
        and_then-ok
          (optional
            (word tables upper "loot_focus" 32
              ("food" ∷ "medical" ∷ "tools" ∷ "ammo" ∷ "surprise" ∷ []) "unsupported loot_focus")
            (get "loot_focus" raw))
          _ b e6 in
      subst (λ x. one_of (named_item x.item) ("Base.DoubleBarrelShotgun" ∷ []) ≡ true)
        (ok-injective (record { target = aim; item = thing; candidate = place; loot_focus = focus })
          b e7)
        (rule-ok intent ("EQUIP" ∷ []) (one_of (named_item thing) ("Base.DoubleBarrelShotgun" ∷ []))
          "EQUIP only permits Base.DoubleBarrelShotgun" tt gun h)

  -- What is guaranteed of an intent
  abbrev pub IsSafeIntent : IntentData → Type 0
  IsSafeIntent i =
      (mode_allows i.mode i.intent ≡ true)
      × (i.priority ≤ 3)
      × (elem i.intent ("EQUIP" ∷ []) ≡ true
          → one_of (named_item i.item) ("Base.DoubleBarrelShotgun" ∷ []) ≡ true)
      × (elem i.intent ("CRAFT" ∷ "FARM" ∷ "BUILD" ∷ []) ≡ true → count_of i.item ≤ 10)

  read_intent-ok :
      (raw : Fields) (i : IntentData) → read_intent tables upper raw ≡ ok i → IsSafeIntent i
  unfolding read_intent IsOpening
  read_intent-ok raw i e =
      let (a, ha, e1) = and_then-ok (opening tables upper raw) _ i e in
      let (b, hb, e2) = and_then-ok (objects tables upper a.intent raw) _ i e1 in
      let (c, _, e3) = and_then-ok (people tables upper a.intent raw) _ i e2 in
      let (d, hd, e4) = and_then-ok (work tables upper a.intent b.item raw) _ i e3 in
      let (allowed, small) = opening-ok raw a ha in
      subst IsSafeIntent (ok-injective (assembled a b c d) i e4)
        (allowed, small, objects-ok a.intent raw b hb, work-ok a.intent b.item raw d hd)

  -- An intent that `validate` lets through is allowed in its mode, has a priority of at most 3, equips
  -- nothing but the shotgun, and crafts, farms or builds at most ten times.
  pub validate-IsSafeIntent :
      (v : Value) (i : IntentData) → validate tables upper v ≡ ok i → IsSafeIntent i
  unfolding validate
  validate-IsSafeIntent (dict_value raw) i e =
      let (_, _, e1) = and_then-ok (scan tables "$" (dict_value raw)) _ i e in
      let (_, _, e2) = and_then-ok (check_keys "intent" allowed_keys raw) _ i e1 in
      read_intent-ok raw i e2
  validate-IsSafeIntent null i e = cc
  validate-IsSafeIntent (bool_value b) i e = cc
  validate-IsSafeIntent (int_value n) i e = cc
  validate-IsSafeIntent (float_value x) i e = cc
  validate-IsSafeIntent (str_value x) i e = cc
  validate-IsSafeIntent (list_value vs) i e = cc
