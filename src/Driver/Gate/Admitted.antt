-- ===== src/Driver/Gate/Admitted.antt =====
-- What the gate lets through.
use zomboid_goblin.Text.Location.{has_location}
use zomboid_goblin.Controllers.Actions.{is_equip}
use zomboid_goblin.Controllers.Intent.{SafeAction}
use zomboid_goblin.Driver.Gate.{
  target_fault, other_weapon, detail_fault, fault, admit, safe_target_label, known_target,
  unsafe_count, unsafe_focus, known_focus,
}
use zomboid_goblin.Text.Tables.{CharTables}
use zomboid_goblin.Base.{
  ℕ, ◌≤◌, String, count, ◌≡◌, ap, ◌≢◌, true, false, ◌&&◌, Option, none, some, arith, ℕ_eq,
  String_eq, Pair_eq,
}

-- A text that is there.
abbrev Present : Option String → (String → Type 0) → Type 0
Present none P = ⊥
Present (some x) P = P x

-- A target that may be shown to the game: of a known kind, with a short label that names no
-- coordinates.
abbrev pub SafeTarget : CharTables → SafeAction → Type 0
SafeTarget tables a =
    (kind : String)
    → a.target_kind ≡ some kind
    → (known_target kind ≡ true)
      × Present a.target_label
          λ label. (label ≢ "") × (count label ≤ 96) × (has_location tables label ≡ false)

pub record IsSafe (tables : CharTables) (a : SafeAction) : Type 0 where
  pub priority : a.priority ≤ 3
  pub target : SafeTarget tables a
  pub item_count : (n : ℕ) → a.item_count ≡ some n → (1 ≤ n) × (n ≤ 20)
  pub weapon : is_equip a.action ≡ true → a.item_name ≡ some "Base.DoubleBarrelShotgun"
  pub loot_focus : (f : String) → a.loot_focus ≡ some f → known_focus f ≡ true
  pub reason : count a.reason ≤ 240

module _ (tables : CharTables) where
  label_safe :
      (label : Option String)
      → safe_target_label tables label ≡ true
      → Present label λ l. (l ≢ "") × (count l ≤ 96) × (has_location tables l ≡ false)
  unfolding safe_target_label
  label_safe none h = cc
  label_safe (some l) h = (λ e. ground (arith, String_eq.beq_iff l ""), ground arith, ground arith)

  target_safe :
      (k label : Option String) (kind : String)
      → target_fault tables k label ≡ none
      → k ≡ some kind
      → (known_target kind ≡ true) × (safe_target_label tables label ≡ true)
  unfolding target_fault
  target_safe none label kind h e = cc
  target_safe (some x) label kind h e = (ground arith, ground arith)

  fault_parts :
      (a : SafeAction)
      → fault tables a ≡ none
      → (a.priority ≤ 3)
        × (target_fault tables a.target_kind a.target_label ≡ none)
        × (detail_fault a ≡ none)
  unfolding fault
  fault_parts a h = (ground arith, ground arith, ground arith)

  detail_parts :
      (a : SafeAction)
      → detail_fault a ≡ none
      → (unsafe_count a.item_count ≡ false)
        × (unsafe_focus a.loot_focus ≡ false)
        × ((is_equip a.action && other_weapon a.item_name) ≡ false)
        × (count a.reason ≤ 240)
  unfolding detail_fault
  detail_parts a h = (ground arith, ground arith, ground arith, ground arith)

  admit-fault : (a : SafeAction) → (admit tables a).accepted ≡ true → fault tables a ≡ none
  unfolding admit
  admit-fault a h = ground arith

  weapon_known :
      (name : Option String) → other_weapon name ≡ false → name ≡ some "Base.DoubleBarrelShotgun"
  unfolding other_weapon
  weapon_known none h = cc
  weapon_known (some n) h =
      ap some ((String_eq.beq_iff n "Base.DoubleBarrelShotgun").0 (ground arith))

  -- An admitted action is safe in every field that the gate looks at.
  pub admit-IsSafe : (a : SafeAction) → (admit tables a).accepted ≡ true → IsSafe tables a
  admit-IsSafe a h =
      let (priority, target, detail) = fault_parts a (admit-fault a h) in
      let (counts, focus, weapon, reason) = detail_parts a detail in
      record {
        priority = priority;
        target = λ kind e.
            let (known, label) = target_safe a.target_kind a.target_label kind target e in
            (known, label_safe a.target_label label);
        item_count = λ n e. unfold unsafe_count in (ground arith, ground arith);
        weapon = λ e. weapon_known a.item_name (ground arith);
        loot_focus = λ f e. unfold unsafe_focus in ground arith;
        reason = reason;
      }
