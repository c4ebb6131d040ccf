-- ===== src/Lib.antt =====
-- zomboid-goblin: the Python core in goblin_zomboid/ of a companion for Project Zomboid.
--
-- A language model proposes intents for a non-player character, Goblin; deterministic code decides
-- what becomes of them. `controllers` turns the state of the body and a validated intent into one
-- safe action, `body` checks that action again, and `npc` publishes it as a command to the game.
-- `modes`, `party` and `hunt` keep the state of play, `social` limits what Goblin says, and `memory`
-- is the store that `hunt` and `social` write to.
--
-- Files:
-- Base, Base/*: Boolean tests, lists and equality over the native numbers; Exec: calls that change a
--   state and may raise; Dict: Python's dictionaries.
-- Text/*: what `str` methods and the regular expressions do, over tables of Unicode data.
-- Modes: goblin_zomboid/modes.py, `ModeController`.
-- Party, Party/*: goblin_zomboid/party.py, `PartyManager`.
-- Memory, Memory/*: goblin_zomboid/memory.py, `MemoryStore`, its tables as lists of rows.
-- Hunt, Hunt/*: goblin_zomboid/hunt.py, `HuntManager`; Hunt/Runs has sequences of calls.
-- Social/Speech, Social/Governor: goblin_zomboid/social.py, the text of a remark and
--   `ChatterGovernor`.
-- Controllers, Controllers/*: goblin_zomboid/controllers.py; Controllers/Intent also has
--   `ValidatedIntent` of goblin_zomboid/validator.py; Controllers/Inventory is `InventoryController`.
-- Driver/Gate: goblin_zomboid/body.py; Driver/Npc: goblin_zomboid/npc.py, `NpcBodyDriver` over Ipc.
-- Validator, Validator/*: goblin_zomboid/validator.py, `validate` on JSON values; the controllers read
--   its result as `ValidatedIntent`.
-- Events, Events/*: goblin_zomboid/events.py, an event's fields, its message and the duplicate window.
-- Entities, Entities/*: goblin_zomboid/entities.py, the registry, squads, formations and jobs.
-- Json: the values of JSON, and ways down into them.
-- PublicState, PublicState/*: goblin_zomboid/state.py, the redaction and the views.
-- Protocol, Protocol/*: goblin_zomboid/protocol.py, `Message` and its encoding; `Codec` is `json`.
-- Ipc, Ipc/*: goblin_zomboid/ipc.py, the files of the bridge, the ledger and the consumers.
-- Admin, Admin/*: goblin_zomboid/admin.py, the answers of `AdminApp.handle`.
-- Reflex, Reflex/*: goblin_zomboid/reflex.py, the router of chat, with its words and replies in
--   Reflex/Bank and its classifier in Reflex/Bayes.
-- Sentience: goblin_zomboid/sentience.py, the self of each Goblin and the calls on `GoblinMind` as
--   the interface `Mind`; Sentience/Plans and Sentience/Steps have the plans and the results of jobs,
--   Sentience/Reflection what the language model's reflection changes, Sentience/Waking when there is
--   one; Sentience/Validity/* and Sentience/Progress are proofs.
-- Mind: goblin_zomboid/mind.py, the tables that sentience.py uses; they fill its interface `Mind`.
-- Tests/*: the model at concrete inputs.
--
-- A method is a function on a record of its object's fields, with the same guards in the same
-- order. Where it may raise, it is in `Exec`: the result or the exception, with the state at that
-- point. Constructors and fields are the source's words in lower case; a string that stands for a
-- phase, a threat or a join status is a data type. The arguments of `isinstance` tests are typed,
-- so those tests pass. Times are natural numbers, of seconds or in Sentience and Protocol of
-- milliseconds, and the clock's reading is an argument beside the caller's optional time. No
-- definition uses fuel: each recurs on a list or a string.
--
-- Parameters, since their code is not in the repository: Unicode data (`CharTables`), SHA-256,
-- random tokens, `json`, `str` and `repr` of a dictionary, `str.lower`, `urlsplit`, `random.choice`,
-- and floats (`Scale`, `Level`, `Floats`, `Opinion`). The files of Ipc are a dictionary; reading them
-- does not fail, and writing them only where a disk is given, as in `publish_on`. A request id that
-- `new_request_id` draws is not empty.
--
-- Not modelled: `perceive` of sentience.py and the other tables of mind.py; the service loop, the
-- relay, the training of the router, the tracker's HTTP server, the language model's client, and
-- the Lua, Java and web code of the game's side; the tools under tools/ are not part of the running
-- program.
pub mod Base
pub mod Dict
pub mod Exec
pub mod Text
pub mod Json
pub mod PublicState
pub mod Protocol
pub mod Admin
pub mod Reflex
pub mod Sentience
pub mod Mind
pub mod Ipc
pub mod Modes
pub mod Party
pub mod Memory
pub mod Hunt
pub mod Social
pub mod Controllers
pub mod Driver
pub mod Entities
pub mod Validator
pub mod Events
pub mod Tests
