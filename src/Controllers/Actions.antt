-- ===== src/Controllers/Actions.antt =====
-- `Action` of controllers.py, and the tactical table from intents to actions.
use zomboid_goblin.Base.{String, Bool, true, false, [], ◌∷◌, ℕ_eq, String_eq, Pair_eq}
use zomboid_goblin.Dict.{Dict}

pub data Action : Type 0 where
  farm craft repair_vehicle open_door open_window gain_access close_curtains move_corpse : Action
  noop say equip move_to follow search scavenge retreat : Action
  rest go_home set_base join_party leave_party attack flee eat : Action
  drink bandage reload claim_reward follow_goblin hold_position regroup loot_area : Action
  defend_player defend_area guard patrol form_squad dismiss_squad assign_job secure_base : Action
  build return_to_base clear_building enter_vehicle exit_vehicle inspect_base maintain_base
        repair_structure :
      Action
  dismantle stockpile sort_storage fetch_item deliver vehicle_inspect refuel_vehicle
        vehicle_service :
      Action
  install_part remove_part replace_part change_tire chop_wood treat_player forage check_traps :
      Action
  cook restore_power : Action

-- `Action.value`
unfoldable pub action_value : Action → String
action_value farm = "FARM"
action_value craft = "CRAFT"
action_value repair_vehicle = "REPAIR_VEHICLE"
action_value open_door = "OPEN_DOOR"
action_value open_window = "OPEN_WINDOW"
action_value gain_access = "GAIN_ACCESS"
action_value close_curtains = "CLOSE_CURTAINS"
action_value move_corpse = "MOVE_CORPSE"
action_value noop = "NOOP"
action_value say = "SAY"
action_value equip = "EQUIP"
action_value move_to = "MOVE_TO"
action_value follow = "FOLLOW"
action_value search = "SEARCH"
action_value scavenge = "SCAVENGE"
action_value retreat = "RETREAT"
action_value rest = "REST"
action_value go_home = "GO_HOME"
action_value set_base = "SET_BASE"
action_value join_party = "JOIN_PARTY"
action_value leave_party = "LEAVE_PARTY"
action_value attack = "ATTACK"
action_value flee = "FLEE"
action_value eat = "EAT"
action_value drink = "DRINK"
action_value bandage = "BANDAGE"
action_value reload = "RELOAD"
action_value claim_reward = "CLAIM_REWARD"
action_value follow_goblin = "FOLLOW_GOBLIN"
action_value hold_position = "HOLD_POSITION"
action_value regroup = "REGROUP"
action_value loot_area = "LOOT_AREA"
action_value defend_player = "DEFEND_PLAYER"
action_value defend_area = "DEFEND_AREA"
action_value guard = "GUARD"
action_value patrol = "PATROL"
action_value form_squad = "FORM_SQUAD"
action_value dismiss_squad = "DISMISS_SQUAD"
action_value assign_job = "ASSIGN_JOB"
action_value secure_base = "SECURE_BASE"
action_value build = "BUILD"
action_value return_to_base = "RETURN_TO_BASE"
action_value clear_building = "CLEAR_BUILDING"
action_value enter_vehicle = "ENTER_VEHICLE"
action_value exit_vehicle = "EXIT_VEHICLE"
action_value inspect_base = "INSPECT_BASE"
action_value maintain_base = "MAINTAIN_BASE"
action_value repair_structure = "REPAIR_STRUCTURE"
action_value dismantle = "DISMANTLE"
action_value stockpile = "STOCKPILE"
action_value sort_storage = "SORT_STORAGE"
action_value fetch_item = "FETCH_ITEM"
action_value deliver = "DELIVER"
action_value vehicle_inspect = "VEHICLE_INSPECT"
action_value refuel_vehicle = "REFUEL_VEHICLE"
action_value vehicle_service = "VEHICLE_SERVICE"
action_value install_part = "INSTALL_PART"
action_value remove_part = "REMOVE_PART"
action_value replace_part = "REPLACE_PART"
action_value change_tire = "CHANGE_TIRE"
action_value chop_wood = "CHOP_WOOD"
action_value treat_player = "TREAT_PLAYER"
action_value forage = "FORAGE"
action_value check_traps = "CHECK_TRAPS"
action_value cook = "COOK"
action_value restore_power = "RESTORE_POWER"

-- `TacticalController._mapping`
unfoldable pub mapping : Dict String Action
mapping =
    ("ATTACK", attack)
    ∷ ("OPEN_DOOR", open_door)
    ∷ ("FARM", farm)
    ∷ ("CRAFT", craft)
    ∷ ("REPAIR_VEHICLE", repair_vehicle)
    ∷ ("OPEN_WINDOW", open_window)
    ∷ ("GAIN_ACCESS", gain_access)
    ∷ ("CLOSE_CURTAINS", close_curtains)
    ∷ ("WAIT", noop)
    ∷ ("SAY", say)
    ∷ ("EQUIP", equip)
    ∷ ("MOVE_TO", move_to)
    ∷ ("FOLLOW", follow)
    ∷ ("FLEE", flee)
    ∷ ("SEARCH", search)
    ∷ ("SCAVENGE", scavenge)
    ∷ ("RETREAT", retreat)
    ∷ ("REST", rest)
    ∷ ("GO_HOME", go_home)
    ∷ ("SET_BASE", set_base)
    ∷ ("JOIN_PARTY", join_party)
    ∷ ("LEAVE_PARTY", leave_party)
    ∷ ("HUNT_START", noop)
    ∷ ("HUNT_HINT", say)
    ∷ ("HUNT_RELOCATE", move_to)
    ∷ ("HUNT_REWARD", claim_reward)
    ∷ ("TRADE", move_to)
    ∷ ("HELP", follow)
    ∷ ("FOLLOW_GOBLIN", follow_goblin)
    ∷ ("HOLD_POSITION", hold_position)
    ∷ ("REGROUP", regroup)
    ∷ ("LOOT_AREA", loot_area)
    ∷ ("DEFEND_PLAYER", defend_player)
    ∷ ("DEFEND_AREA", defend_area)
    ∷ ("GUARD", guard)
    ∷ ("PATROL", patrol)
    ∷ ("FORM_SQUAD", form_squad)
    ∷ ("DISMISS_SQUAD", dismiss_squad)
    ∷ ("ASSIGN_JOB", assign_job)
    ∷ ("SECURE_BASE", secure_base)
    ∷ ("BUILD", build)
    ∷ ("RETURN_TO_BASE", return_to_base)
    ∷ ("CLEAR_BUILDING", clear_building)
    ∷ ("ENTER_VEHICLE", enter_vehicle)
    ∷ ("EXIT_VEHICLE", exit_vehicle)
    ∷ ("INSPECT_BASE", inspect_base)
    ∷ ("MAINTAIN_BASE", maintain_base)
    ∷ ("REPAIR_STRUCTURE", repair_structure)
    ∷ ("DISMANTLE", dismantle)
    ∷ ("STOCKPILE", stockpile)
    ∷ ("SORT_STORAGE", sort_storage)
    ∷ ("FETCH_ITEM", fetch_item)
    ∷ ("DELIVER", deliver)
    ∷ ("VEHICLE_INSPECT", vehicle_inspect)
    ∷ ("REFUEL_VEHICLE", refuel_vehicle)
    ∷ ("VEHICLE_SERVICE", vehicle_service)
    ∷ ("INSTALL_PART", install_part)
    ∷ ("REMOVE_PART", remove_part)
    ∷ ("REPLACE_PART", replace_part)
    ∷ ("CHANGE_TIRE", change_tire)
    ∷ ("CHOP_WOOD", chop_wood)
    ∷ ("TREAT_PLAYER", treat_player)
    ∷ ("FORAGE", forage)
    ∷ ("CHECK_TRAPS", check_traps)
    ∷ ("COOK", cook)
    ∷ ("MOVE_CORPSE", move_corpse)
    ∷ ("RESTORE_POWER", restore_power)
    ∷ []

-- The actions that a Goblin without a body can carry out.
abbrev pub is_bodiless : Action → Bool
is_bodiless say = true
is_bodiless noop = true
is_bodiless _ = false

-- `action.action is Action.EQUIP`
abbrev pub is_equip : Action → Bool
is_equip equip = true
is_equip _ = false
