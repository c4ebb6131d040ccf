-- ===== src/Validator/Intents.antt =====
-- `IntentValidator.validate` of goblin_zomboid/validator.py.
use zomboid_goblin.Json.{
  pos, Value, int_value, list_value, dict_value, Items, Fields, get, has_key, size,
}
use zomboid_goblin.Modes.{Mode, safe, roam, party, hunt}
use zomboid_goblin.Validator.{intents, mode_allows}
use zomboid_goblin.Validator.Scan.{scan}
use zomboid_goblin.Validator.Targets.{
  require, optional, check_keys, ItemData, CandidateData, TargetData, MemberRequest, text_value,
  required_text, id_value, target, item, candidate, all_items, id_members, requested,
}
use zomboid_goblin.Text.Tables.{CharTables, is_lower, is_digit}
use zomboid_goblin.Text.Trim.{casefold}
use Prim.Native.Char.{Char, code}
use Prim.Native.String.{◌++◌ as str_append}
use zomboid_goblin.Base.{
  ℕ, String, count, Bool, true, false, not, ◌&&◌, ◌||◌, Option, none, some, List, [], ◌∷◌, leb,
  if◌then◌else◌, is_some, some_or, ◌==◌, ℕ_eq, String_eq, Pair_eq, elem,
}
use zomboid_goblin.Exec.{intent_error, Result, ok, err, and_then}

-- `ALLOWED_KEYS`
abbrev pub allowed_keys : List String
allowed_keys =
    "intent" ∷ "mode" ∷ "text" ∷ "priority" ∷ "abort_if" ∷ "target" ∷ "item" ∷ "candidate"
    ∷ "loot_focus" ∷ "npc_id" ∷ "leader" ∷ "requested_members" ∷ "members" ∷ "job" ∷ "formation"
    ∷ "squad_id" ∷ "zone" ∷ "mission" ∷ []

-- `target_required`
abbrev pub target_required : List String
target_required =
    "MOVE_TO" ∷ "FOLLOW" ∷ "FOLLOW_GOBLIN" ∷ "SEARCH" ∷ "SCAVENGE" ∷ "LOOT_AREA" ∷ "JOIN_PARTY"
    ∷ "TRADE" ∷ "HELP" ∷ "DEFEND_PLAYER" ∷ "DEFEND_AREA" ∷ "GUARD" ∷ "PATROL" ∷ "CLEAR_BUILDING"
    ∷ "FLEE" ∷ "RETREAT" ∷ "REGROUP" ∷ "GO_HOME" ∷ "RETURN_TO_BASE" ∷ "GAIN_ACCESS" ∷ []

-- `MODES`, and the mode of a name in it
unfoldable pub mode_of : String → Option Mode
mode_of s =
    if s == "SAFE"
    then some safe
    else if s == "ROAM"
    then some roam
    else if s == "PARTY"
    then some party
    else if s == "HUNT"
    then some hunt
    else none

-- `[a-z0-9_]`
abbrev part_char : Char → Bool
part_char c = is_lower c || (is_digit c || code c == b'_')

unfoldable pub all_part_chars : String → Bool
all_part_chars String.[] = true
all_part_chars (String.◌∷◌ c s) = part_char c && all_part_chars s

-- `PART_RE.match`, of a text without spaces around it
unfoldable pub part_match : String → Bool
unfolding all_part_chars
part_match String.[] = false
part_match (String.◌∷◌ c s) =
    is_lower c && (all_part_chars s && (leb 1 (count s) && leb (count s) 31))

-- The names of the result that `ValidatedIntent` carries in `data`.
pub record IntentData : Type 0 where
  pub intent : String
  pub mode : Mode
  pub text : Option String
  pub priority : ℕ
  pub abort_if : Option (List String)
  pub target : Option TargetData
  pub item : Option ItemData
  pub candidate : Option CandidateData
  pub loot_focus : Option String
  pub npc_id : Option String
  pub leader : Option String
  pub squad_id : Option String
  pub requested_members : Option MemberRequest
  pub members : Option MemberRequest
  pub job : Option String
  pub formation : Option String
  pub zone : Option String
  pub mission : Option String

abbrev pub named_item : Option ItemData → Option String
named_item none = none
named_item (some i) = i.item_name

-- `not result.get("item", {}).get("name")`: a text that has passed is not empty
abbrev pub has_item_name : Option ItemData → Bool
has_item_name i = is_some (named_item i)

-- `result.get("item", {}).get("count", 1)`
abbrev pub count_of : Option ItemData → ℕ
count_of none = 1
count_of (some i) = some_or i.item_count 1

-- `name in {...}`, for a name that may be missing
abbrev pub one_of : Option String → List String → Bool
one_of none names = false
one_of (some s) names = elem s names

-- A rule of an intent: where it is one of those, the test holds.
abbrev pub rule : String → List String → Bool → String → Result (Unit {0})
rule intent those holds reason = require (not (elem intent those) || holds) reason

infixr 3 ◌then◌
abbrev pub ◌then◌ : Result (Unit {0}) → Result (Unit {0}) → Result (Unit {0})
a then b = and_then a λ _. b

-- The rules on the item, where it has been read
unfoldable pub item_rules : String → Option ItemData → Result (Unit {0})
item_rules intent i =
    rule intent ("EQUIP" ∷ []) (one_of (named_item i) ("Base.DoubleBarrelShotgun" ∷ []))
      "EQUIP only permits Base.DoubleBarrelShotgun"
    then rule intent ("BUILD" ∷ []) (one_of (named_item i) ("crate" ∷ "wall" ∷ "fence" ∷ []))
        "BUILD requires crate, wall, or fence"

abbrev part_jobs : List String
part_jobs = "INSTALL_PART" ∷ "REMOVE_PART" ∷ "REPLACE_PART" ∷ []

abbrev good_part : Option String → Bool
good_part none = true
good_part (some job) = part_match job

-- The rules on job and item, in the order of the code
unfoldable pub job_rules : String → Option String → Option ItemData → Result (Unit {0})
unfolding part_match
job_rules intent job i =
    rule intent ("FARM" ∷ []) (one_of job ("plow" ∷ "sow" ∷ "water" ∷ "harvest" ∷ "tend" ∷ []))
      "FARM requires plow, sow, water, harvest, or tend"
    then rule intent ("FARM" ∷ []) (not (one_of job ("sow" ∷ [])) || has_item_name i)
        "sowing requires a crop name"
    then rule intent ("CRAFT" ∷ "FARM" ∷ "BUILD" ∷ []) (leb (count_of i) 10)
        "item.count must be between 1 and 10 for this intent"
    then rule intent ("CRAFT" ∷ []) (has_item_name i) "CRAFT requires an installed recipe name"
    then rule intent ("REPAIR_VEHICLE" ∷ [])
        (elem (some_or job "all") ("all" ∷ "engine" ∷ "bodywork" ∷ []))
        "vehicle repair requires all, engine, or bodywork"
    then rule intent ("FETCH_ITEM" ∷ "STOCKPILE" ∷ []) (has_item_name i)
        (str_append intent " requires item.name")
    then rule intent part_jobs (is_some job)
        (str_append intent " requires job as the vehicle part id")
    then rule intent ("INSTALL_PART" ∷ "REMOVE_PART" ∷ "REPLACE_PART" ∷ "CHANGE_TIRE" ∷ [])
        (good_part job) "vehicle part id must be a simple identifier"
    then rule intent ("DISMANTLE" ∷ []) (elem (some_or job "here") ("here" ∷ "salvage" ∷ []))
        "DISMANTLE job must be here or salvage"
    then rule intent ("SORT_STORAGE" ∷ []) (elem (some_or job "inbox") ("inbox" ∷ "all" ∷ []))
        "SORT_STORAGE job must be inbox or all"
    then rule intent ("DELIVER" ∷ []) (elem (some_or job "storage") ("storage" ∷ "floor" ∷ []))
        "DELIVER job must be storage or floor"
    then rule intent ("CHOP_WOOD" ∷ []) (leb (count_of i) 5) "CHOP_WOOD fells at most 5 trees"
    then rule intent ("FORAGE" ∷ []) (leb (count_of i) 10) "FORAGE gathers at most 10 finds"
    then rule intent ("COOK" ∷ []) (elem (some_or job "food") ("food" ∷ "soup" ∷ "stew" ∷ []))
        "COOK job must be food, soup or stew"
    then rule intent ("COOK" ∷ [])
        (leb (count_of i) (if some_or job "food" == "food" then 5 else 6))
        "COOK takes at most 5 foods or 6 pot ingredients"
    then rule intent ("CHECK_TRAPS" ∷ []) (elem (some_or job "check") ("check" ∷ "place" ∷ []))
        "CHECK_TRAPS job must be check or place"
    then rule intent ("CHECK_TRAPS" ∷ []) (leb (count_of i) 5) "CHECK_TRAPS places at most 5 traps"
    then rule intent ("ASSIGN_JOB" ∷ []) (is_some job) "ASSIGN_JOB requires job"

-- `raw.get("priority", 1)`
unfoldable pub priority_value : Option Value → Result ℕ
priority_value none = ok 1
priority_value (some (int_value (pos n))) =
    if leb n 3 then ok n else err (intent_error "priority must be between 0 and 3")
priority_value (some _) = err (intent_error "priority must be between 0 and 3")

-- `MODE_ALLOWED[mode]`, for the name of a mode
unfoldable pub allowed_mode : String → String → Option Mode → Result Mode
allowed_mode intent name none = err (intent_error "unsupported mode")
allowed_mode intent name (some mode) =
    if mode_allows mode intent
    then ok mode
    else err (intent_error (str_append intent (str_append " is not allowed in " name)))

-- `abort_if`
abbrev pub short_list : Value → Result Items
short_list (list_value vs) =
    and_then
      (require (leb 1 (size vs) && leb (size vs) 8) "abort_if must be a short non-empty list")
      λ _. ok vs
short_list _ = err (intent_error "abort_if must be a short non-empty list")

-- The result up to `abort_if`, its objects, its people, and its work.
pub record Opening : Type 0 where
  pub intent : String
  pub mode : Mode
  pub text : Option String
  pub priority : ℕ
  pub abort_if : Option (List String)

pub record Objects : Type 0 where
  pub target : Option TargetData
  pub item : Option ItemData
  pub candidate : Option CandidateData
  pub loot_focus : Option String

pub record People : Type 0 where
  pub npc_id : Option String
  pub leader : Option String
  pub squad_id : Option String
  pub requested_members : Option MemberRequest
  pub members : Option MemberRequest

pub record Work : Type 0 where
  pub job : Option String
  pub formation : Option String
  pub zone : Option String
  pub mission : Option String

abbrev pub assembled : Opening → Objects → People → Work → IntentData
assembled a b c d = record {
  intent = a.intent;
  mode = a.mode;
  text = a.text;
  priority = a.priority;
  abort_if = a.abort_if;
  target = b.target;
  item = b.item;
  candidate = b.candidate;
  loot_focus = b.loot_focus;
  npc_id = c.npc_id;
  leader = c.leader;
  squad_id = c.squad_id;
  requested_members = c.requested_members;
  members = c.members;
  job = d.job;
  formation = d.formation;
  zone = d.zone;
  mission = d.mission;
}

module _ (tables : CharTables) (upper : String → String) where
  -- The intent and the mode
  unfoldable pub head : Fields → Result (String × Mode)
  unfolding required_text allowed_mode mode_of
  head raw = and_then (required_text tables "intent" 32 (get "intent" raw)) λ first.
      and_then (required_text tables "mode" 16 (get "mode" raw)) λ second.
        let intent = upper first in
        and_then (require (elem intent intents) "unsupported intent") λ _.
          and_then (allowed_mode intent (upper second) (mode_of (upper second)))
            λ mode. ok (intent, mode)

  unfoldable pub opening : Fields → Result Opening
  unfolding head text_value priority_value all_items
  opening raw = and_then (head raw) λ named.
      let intent = named.0 in
      and_then (optional (text_value tables "text" 240) (get "text" raw)) λ text.
        and_then (rule intent ("SAY" ∷ []) (is_some text) "SAY requires text") λ _.
          and_then
            (rule intent ("SAY" ∷ []) (not (has_key "target" raw)) "SAY does not accept a target")
            λ _.
              and_then (rule intent ("EQUIP" ∷ []) (has_key "item" raw) "EQUIP requires an item")
                λ _. and_then (priority_value (get "priority" raw)) λ priority.
                  and_then
                    (optional
                      (λ v.
                        and_then (short_list v)
                          λ vs. all_items tables (text_value tables "abort_if item" 80) vs)
                      (get "abort_if" raw))
                    λ abort_if. ok (record {
                      intent = intent;
                      mode = named.1;
                      text = text;
                      priority = priority;
                      abort_if = abort_if;
                    })

  -- A word of a set, in lower case
  unfoldable pub word : String → ℕ → List String → String → Value → Result String
  unfolding text_value
  word field maximum words reason v =
      and_then (text_value tables field maximum v)
        λ s. and_then (require (elem (casefold tables s) words) reason) λ _. ok (casefold tables s)

  unfoldable pub objects : String → Fields → Result Objects
  unfolding target item item_rules candidate word
  objects intent raw =
      and_then
        (rule intent target_required (has_key "target" raw)
          (str_append intent " requires a target"))
        λ _. and_then (optional (target tables "target") (get "target" raw)) λ aim.
          and_then (optional (item tables) (get "item" raw)) λ thing.
            and_then (item_rules intent thing) λ _.
              and_then (optional (candidate tables) (get "candidate" raw)) λ place.
                and_then
                  (rule intent ("HUNT_RELOCATE" ∷ []) (is_some place)
                    "HUNT_RELOCATE requires a candidate")
                  λ _.
                    and_then
                      (optional
                        (word "loot_focus" 32
                          ("food" ∷ "medical" ∷ "tools" ∷ "ammo" ∷ "surprise" ∷ [])
                          "unsupported loot_focus")
                        (get "loot_focus" raw))
                      λ focus. ok (record {
                        target = aim;
                        item = thing;
                        candidate = place;
                        loot_focus = focus;
                      })

  unfoldable pub people : String → Fields → Result People
  unfolding id_value requested
  people intent raw = and_then (optional (id_value tables "npc_id") (get "npc_id" raw)) λ npc_id.
      and_then (optional (id_value tables "leader") (get "leader" raw)) λ leader.
        and_then (optional (id_value tables "squad_id") (get "squad_id" raw)) λ squad_id.
          and_then (optional (requested tables) (get "requested_members" raw)) λ asked.
            and_then (optional (id_members tables "members") (get "members" raw)) λ members.
              and_then
                (rule intent ("FORM_SQUAD" ∷ []) (is_some asked || is_some members)
                  "FORM_SQUAD requires requested_members")
                λ _.
                  and_then
                    (rule intent ("FORM_SQUAD" ∷ []) (is_some leader) "FORM_SQUAD requires leader")
                    λ _. ok (record {
                      npc_id = npc_id;
                      leader = leader;
                      squad_id = squad_id;
                      requested_members = asked;
                      members = members;
                    })

  unfoldable pub lowered : Value → Result String
  unfolding text_value
  lowered v = and_then (text_value tables "job" 32 v) λ s. ok (casefold tables s)

  unfoldable pub work : String → Option ItemData → Fields → Result Work
  unfolding lowered job_rules word text_value
  work intent thing raw = and_then (optional lowered (get "job" raw)) λ job.
      and_then (job_rules intent job thing) λ _.
        and_then
          (optional
            (word "formation" 16 ("line" ∷ "wedge" ∷ "column" ∷ "ring" ∷ "loose" ∷ [])
              "unsupported formation")
            (get "formation" raw))
          λ formation. and_then (optional (text_value tables "zone" 96) (get "zone" raw)) λ zone.
            and_then (optional (text_value tables "mission" 96) (get "mission" raw)) λ mission.
              ok (record { job = job; formation = formation; zone = zone; mission = mission })

  unfoldable pub read_intent : Fields → Result IntentData
  unfolding opening objects people work
  read_intent raw = and_then (opening raw) λ a. and_then (objects a.intent raw) λ b.
      and_then (people a.intent raw)
        λ c. and_then (work a.intent b.item raw) λ d. ok (assembled a b c d)

  -- `validate`
  unfoldable pub validate : Value → Result IntentData
  unfolding scan check_keys read_intent
  validate (dict_value raw) =
      and_then (scan tables "$" (dict_value raw))
        λ _. and_then (check_keys "intent" allowed_keys raw) λ _. read_intent raw
  validate _ = err (intent_error "intent must be an object")
