-- ===== src/Reflex/Social.antt =====
-- What a reply of the router rests on.
use zomboid_goblin.Text.Trim.{strip}
use mathlib.Core.Option.{some-injective}
use zomboid_goblin.Sentience.{given}
use zomboid_goblin.Text.Tables.{CharTables}
use zomboid_goblin.Reflex.Bank.{social_categories, reply_bank}
use zomboid_goblin.Reflex.Orders.{normalize, action_match}
use zomboid_goblin.Reflex.Bayes.{Floats, NaiveBayes, probabilities}
use zomboid_goblin.Reflex.Route.{
  route_chat, Chat, Router, ReflexDecision, social, addressed, answered, answer, classify, weighed,
  read_chat, pick_reply, drawn_reply, most_likely, choices, from_bank, modelled, read_text,
}
use zomboid_goblin.Social.Speech.{sanitize_speech, words}
use zomboid_goblin.Base.{
  String, ◌≡◌, refl, ap, ◌∙◌, Bool, true, false, not, ◌||◌, Option, none, some, List, [], ◌∷◌, ltb,
  if◌then◌else◌, is_some, ◌==◌, ℕ_eq, String_eq, Pair_eq, elem, length,
}
use zomboid_goblin.Exec.{Result, ok, err}
use zomboid_goblin.Dict.{Dict, lookup, lookup-insert_self}

module _ {P R : Type 0} (floats : Floats P) (tables : CharTables)
    (choice : List String → R → String × R) where
  -- The reply is the cleaned form of a template, which is kept as the owner's last one.
  abbrev pub IsDrawn : String → Router P R → String → Type 0
  IsDrawn owner after line =
      (template : String) × (sanitize_speech tables (addressed owner template) ≡ ok line)
      × (lookup owner after.last_reply ≡ some template)

  abbrev pub IsBanter : ReflexDecision P → P → Type 0
  IsBanter d threshold =
      (d.route ≡ social)
      × (elem d.category social_categories ≡ true)
      × (floats.less d.confidence threshold ≡ false)

  -- A chat that asks for nothing to be done
  abbrev pub IsIdle : Chat → Type 0
  IsIdle c =
      (is_some (given c.direct_action) ≡ false)
      × (text : String) × (c.text ≡ some text)
      × (action_match tables (normalize tables text c.companion_name) ≡ false)

  Replies : ReflexDecision P × Router P R → String → Type 0
  Replies d line = d.0.reply ≡ some line

  -- A branch without a reply is not the one that was taken.
  past :
      (Holds : ReflexDecision P × Router P R → Type 0) (b : Bool)
      (d x : ReflexDecision P × Router P R) (line : String)
      → d.0.reply ≡ none
      → (b ≡ false → Replies x line → Holds x)
      → Replies (if b then d else x) line
      → Holds (if b then d else x)
  unfolding Replies
  past Holds true d x line n k e = cc
  past Holds false d x line n k e = k refl e

  fitting : (a b : Bool) → (not a || b) ≡ false → (a ≡ true) × (b ≡ false)
  fitting true b h = (refl, h)
  fitting false b h = cc

  drawn_reply_lem :
      (owner template line : String) (q : Result String) (r : Router P R)
      → sanitize_speech tables (addressed owner template) ≡ q
      → (drawn_reply floats tables choice owner template q r).0 ≡ some line
      → IsDrawn owner (drawn_reply floats tables choice owner template q r).1 line
  drawn_reply_lem owner template line (err x) r s e = cc
  drawn_reply_lem owner template line (ok clean) r s e =
      (template, s ∙ ap ok (some-injective _ _ e), lookup-insert_self owner template r.last_reply)

  from_bank_lem :
      (owner line : String) (bank : Option (List String)) (r : Router P R)
      → (from_bank floats tables choice owner bank r).0 ≡ some line
      → IsDrawn owner (from_bank floats tables choice owner bank r).1 line
  from_bank_lem owner line none r e = cc
  from_bank_lem owner line (some bank) r e =
      let drawn = choice (choices (lookup owner r.last_reply) bank) r.random in
      drawn_reply_lem owner drawn.0 line (sanitize_speech tables (addressed owner drawn.0))
        (record r { random = drawn.1 }) refl e

  IsMeant : Chat → P → ReflexDecision P × Router P R → String → Type 0
  IsMeant c threshold (d, after) line = IsBanter d threshold × IsDrawn c.owner after line

  answered_lem :
      (c : Chat) (category : String) (confidence threshold : P) (q : Option String × Router P R)
      (line : String)
      → elem category social_categories ≡ true
      → floats.less confidence threshold ≡ false
      → (q.0 ≡ some line → IsDrawn c.owner q.1 line)
      → Replies (answered floats tables choice category confidence q) line
      → IsMeant c threshold (answered floats tables choice category confidence q) line
  unfolding Replies IsMeant
  answered_lem c category confidence threshold (none, after) line h l k e = cc
  answered_lem c category confidence threshold (some said, after) line h l k e = ((refl, h, l), k e)

  answer_lem :
      (c : Chat) (r : Router P R) (category : String) (confidence : P) (line : String)
      → Replies (answer floats tables choice c.owner (category, confidence) r) line
      → IsMeant c r.threshold (answer floats tables choice c.owner (category, confidence) r) line
  unfolding answer pick_reply
  answer_lem c r category confidence line =
      past (λ y. IsMeant c r.threshold y line) (category == "ACTION") _ _ line refl
        (λ h.
          past (λ y. IsMeant c r.threshold y line)
            (not (elem category social_categories) || floats.less confidence r.threshold) _ _ line
            refl
            λ l e.
              let (known, sure) = fitting _ _ l in
              answered_lem c category confidence r.threshold
                (pick_reply floats tables choice category c.owner r) line known sure
                (from_bank_lem c.owner line (lookup category reply_bank) r) e)

  weighed_lem :
      (c : Chat) (r : Router P R) (chances : Option (Dict String P)) (line : String)
      → Replies (weighed floats tables choice c.owner chances r) line
      → IsMeant c r.threshold (weighed floats tables choice c.owner chances r) line
  unfolding Replies
  weighed_lem c r none line e = cc
  weighed_lem c r (some []) line e = cc
  weighed_lem c r (some (p ∷ ps)) line e =
      let best = most_likely floats tables choice p ps in answer_lem c r best.0 best.1 line e

  modelled_lem :
      (c : Chat) (r : Router P R) (normalized : String) (model : Option (NaiveBayes P))
      (line : String)
      → Replies (modelled floats tables choice c.owner normalized model r) line
      → IsMeant c r.threshold (modelled floats tables choice c.owner normalized model r) line
  unfolding Replies
  modelled_lem c r normalized none line e = cc
  modelled_lem c r normalized (some model) line e =
      past (λ y. IsMeant c r.threshold y line) (ltb r.max_words (length (words tables normalized)))
        _ _ line refl (λ h. weighed_lem c r (probabilities floats tables model normalized) line) e

  read_chat_lem :
      (c : Chat) (r : Router P R) (text line : String)
      → Replies (read_chat floats tables choice c text r) line
      → IsMeant c r.threshold (read_chat floats tables choice c text r) line
        × (action_match tables (normalize tables text c.companion_name) ≡ false)
  unfolding classify
  read_chat_lem c r text line =
      let normalized = normalize tables text c.companion_name in
      past (λ y. IsMeant c r.threshold y line × (action_match tables normalized ≡ false))
        (strip tables text == "") _ _ line refl
        (λ h.
          past (λ y. IsMeant c r.threshold y line × (action_match tables normalized ≡ false))
            (action_match tables normalized) _ _ line refl
            λ idle e. (modelled_lem c r normalized r.model line e, idle))

  read_text_lem :
      (c : Chat) (r : Router P R) (text : Option String) (line : String)
      → c.text ≡ text
      → Replies (read_text floats tables choice c text r) line
      → IsMeant c r.threshold (read_text floats tables choice c text r) line
        × ((said : String) × (c.text ≡ some said)
            × (action_match tables (normalize tables said c.companion_name) ≡ false))
  unfolding Replies
  read_text_lem c r none line t e = cc
  read_text_lem c r (some text) line t e =
      let (meant, idle) = read_chat_lem c r text line e in (meant, (text, t, idle))

  -- A decision of ReflexRouter.route that has a reply is a social one, in a social category and with
  -- a confidence that is not below the threshold; the server had dispatched no order, the chat has
  -- no word of an order, and the reply is what sanitize_speech makes of a template, which is
  -- remembered as the last one for the owner.
  pub route_chat-reply :
      (c : Chat) (r : Router P R) (line : String)
      → (route_chat floats tables choice c r).0.reply ≡ some line
      → IsBanter (route_chat floats tables choice c r).0 r.threshold
        × IsDrawn c.owner (route_chat floats tables choice c r).1 line
        × IsIdle c
  unfolding route_chat IsMeant Replies
  route_chat-reply c r line =
      past (λ y. IsBanter y.0 r.threshold × IsDrawn c.owner y.1 line × IsIdle c)
        (is_some (given c.direct_action)) _ _ line refl
        λ h e.
          let ((banter, drawn), (said, t, idle)) = read_text_lem c r c.text line refl e in
          (banter, drawn, (h, said, t, idle))
