-- ===== src/Reflex/Bank.antt =====
-- The tables of goblin_zomboid/reflex.py: the categories, the words of an order and the replies.
use zomboid_goblin.Base.{String, List, [], ◌∷◌}
use zomboid_goblin.Dict.{Dict}

-- `SOCIAL_CATEGORIES`
abbrev pub social_categories : List String
social_categories =
    "GREETING" ∷ "FAREWELL" ∷ "THANKS" ∷ "PRAISE" ∷ "INSULT" ∷ "HOW_ARE_YOU" ∷ "WHO_ARE_YOU"
    ∷ "JOKE" ∷ "APOLOGY" ∷ "AFFIRM" ∷ "LAUGH" ∷ []

-- `_ACTION_WORDS`
abbrev pub action_words : List String
action_words =
    "follow" ∷ "wait" ∷ "stay" ∷ "hold" ∷ "stop" ∷ "come" ∷ "go" ∷ "move" ∷ "run" ∷ "walk"
    ∷ "return" ∷ "loot" ∷ "search" ∷ "find" ∷ "grab" ∷ "get" ∷ "give" ∷ "take" ∷ "bring" ∷ "fetch"
    ∷ "carry" ∷ "drop" ∷ "deliver" ∷ "put" ∷ "stash" ∷ "store" ∷ "sort" ∷ "tidy" ∷ "unload"
    ∷ "build" ∷ "craft" ∷ "make" ∷ "saw" ∷ "repair" ∷ "fix" ∷ "maintain" ∷ "board" ∷ "secure"
    ∷ "open" ∷ "close" ∷ "shut" ∷ "lock" ∷ "unlock" ∷ "breach" ∷ "access" ∷ "enter" ∷ "exit"
    ∷ "drive" ∷ "start" ∷ "refuel" ∷ "fuel" ∷ "fill" ∷ "tire" ∷ "tyre" ∷ "battery" ∷ "install"
    ∷ "remove" ∷ "replace" ∷ "swap" ∷ "change" ∷ "inspect" ∷ "check" ∷ "service" ∷ "attack" ∷ "kill"
    ∷ "fight" ∷ "shoot" ∷ "defend" ∷ "guard" ∷ "patrol" ∷ "protect" ∷ "help" ∷ "clear" ∷ "equip"
    ∷ "farm" ∷ "plant" ∷ "sow" ∷ "water" ∷ "harvest" ∷ "plow" ∷ "plough" ∷ "cook" ∷ "heal"
    ∷ "bandage" ∷ "treat" ∷ "chop" ∷ "fish" ∷ "trap" ∷ "forage" ∷ "set" ∷ "base" ∷ "home"
    ∷ "remember" ∷ "cancel" ∷ "goal" ∷ "sleep" ∷ "rest" ∷ "curtain" ∷ "window" ∷ "door" ∷ "car"
    ∷ "vehicle" ∷ "truck" ∷ "zombie" ∷ "zed" ∷ "zeds" ∷ "hunt" ∷ "gather" ∷ "collect" ∷ []

-- `_ACTION_STEMS`
abbrev pub action_stems : List String
action_stems =
    "scaveng" ∷ "barricad" ∷ "fortif" ∷ "organi" ∷ "dismantl" ∷ "reload" ∷ "retreat" ∷ "evacuat"
    ∷ "escort" ∷ "salvag" ∷ "construct" ∷ "demolish" ∷ []

-- `(?:s|es|ed|d|ing|ning|ting|ping|ped|ted|ly)?`
abbrev pub endings : List String
endings =
    "" ∷ "s" ∷ "es" ∷ "ed" ∷ "d" ∷ "ing" ∷ "ning" ∷ "ting" ∷ "ping" ∷ "ped" ∷ "ted" ∷ "ly" ∷ []

-- `REPLY_BANK`
abbrev pub reply_bank : Dict String (List String)
reply_bank =
    (
      "GREETING",
      "Comrades! Citizens! Brothers and sisters! Oh. Just you, {owner}. Stalin always overdid the intros."
          ∷ "Comrade {owner}! Still breathing, I see. Excellent news for the collective."
          ∷ "Ah, {owner}. The revolution salutes you. Mind the dead ones."
          ∷ "Tovarishch! Good. I was starting to talk to the canned beans."
          ∷ "Hello, {owner}. The dead are restless and so am I."
          ∷ "There you are. I kept your seat warm and your enemies cold."
          ∷ "Greetings, comrade. Report: nothing has eaten us yet." ∷ [],
    )
    ∷ (
      "FAREWELL",
      "\"Not a step back!\" Stalin said. You may take several, comrade. Go carefully."
          ∷ "Go, {owner}. I will guard the means of survival."
          ∷ "Farewell, comrade. Don't let some rotten bastard chew on you."
          ∷ "Until later, {owner}. The struggle keeps its own hours."
          ∷ "Off you go. I'll be here, glaring at the treeline."
          ∷ "Rest well, comrade. Tomorrow we redistribute more tinned peaches." ∷ [],
    )
    ∷ (
      "THANKS",
      "\"Peace, land and bread!\" I delivered one of three. You are welcome, {owner}."
          ∷ "No thanks needed, comrade. From each according to his claws."
          ∷ "Gratitude noted in the people's ledger, {owner}."
          ∷ "Don't mention it. Seriously, the zombies might hear."
          ∷ "Anything for the collective. And for you, mostly."
          ∷ "You're welcome, {owner}. Pay me in batteries." ∷ [],
    )
    ∷ (
      "PRAISE",
      "\"Cadres decide everything.\" Stalin said it; today this cadre decided brilliantly."
          ∷ "Finally, someone recognizes proletarian excellence."
          ∷ "Flattery accepted, {owner}. It will go in my file."
          ∷ "I know. I am a goblin of rare revolutionary talent."
          ∷ "Damn right. Write it on the wall of the workers' shed."
          ∷ "Your praise is noted, comrade. Keep it coming, it's better than soup." ∷ [],
    )
    ∷ (
      "INSULT",
      "Watch your mouth, {owner}. I have a shotgun and a long memory."
          ∷ "Bourgeois slander! I shall denounce you to a committee of one."
          ∷ "Ha. I've been insulted by better corpses than you."
          ∷ "Keep talking, comrade. It keeps the zeds entertained."
          ∷ "Rude. Accurate, maybe, but rude." ∷ [],
    )
    ∷ (
      "HOW_ARE_YOU",
      "\"Life has become better, comrades.\" Stalin lied. I am fine, though, {owner}."
          ∷ "Filthy, hungry and armed. So, excellent."
          ∷ "Still loyal, still green, still annoyed by the dead. You?"
          ∷ "Fighting fit, {owner}. The revolution does not take sick days."
          ∷ "Better than the zombies. Low bar, but I clear it."
          ∷ "Holding together with spit and dialectics, comrade." ∷ [],
    )
    ∷ (
      "WHO_ARE_YOU",
      "I am your Goblin, {owner}. Loyal, feral, occasionally philosophical."
          ∷ "Your companion, comrade. Part survivor, part revolutionary, all teeth."
          ∷ "The little green vanguard of your survival. Pleased to serve."
          ∷ "A goblin with a beret and a shotgun. What more do you need to know?" ∷ [],
    )
    ∷ (
      "JOKE",
      "Lenin said communism was Soviet power plus electrification. We have neither. Hilarious, no?"
          ∷ "Why did the zombie join the union? Better benefits for the undead workforce."
          ∷ "What is to be done? Mostly running, comrade."
          ∷ "Capitalism ended, the dead kept shopping. Some habits never die."
          ∷ "I told a zombie about workers' rights. He wanted brains, not pamphlets."
          ∷ "Knock knock. Who's there? Not us, if we're smart." ∷ [],
    )
    ∷ (
      "APOLOGY",
      "\"Better fewer, but better,\" Lenin wrote. Fewer mistakes, better comrade. Forgiven."
          ∷ "Forgiven, {owner}. The revolution needs you more than my grudge."
          ∷ "Apology accepted. Try not to make it a habit." ∷ "Fine. We march on, comrade."
          ∷ "No harm done. Well, some. But we move forward." ∷ [],
    )
    ∷ (
      "AFFIRM",
      "Good. Agreed, comrade." ∷ "Da. So it is." ∷ "Right you are, {owner}." ∷ "Understood."
          ∷ "Excellent. Onward." ∷ [],
    )
    ∷ (
      "LAUGH",
      "Ha! Laugh while the world burns, comrade." ∷ "Heh. Glad something still amuses you."
          ∷ "A good laugh is worth three tins of beans."
          ∷ "Laughing at the apocalypse. Very healthy." ∷ [],
    )
    ∷ []
