-- ===== src/Tests/Reflex.antt =====
-- Tests of the router's model.
use zomboid_goblin.Text.Tables.{ascii}
use zomboid_goblin.Text.Trim.{strip}
use zomboid_goblin.Text.Location.{match_literal}
use zomboid_goblin.Social.Speech.{sanitize_speech}
use zomboid_goblin.Reflex.Orders.{normalize, action_match}
use zomboid_goblin.Reflex.Bayes.{Floats, NaiveBayes, probabilities, features}
use zomboid_goblin.Reflex.Route.{
  route_chat, classify, answer, pick_reply, addressed, Chat, Router, ReflexDecision,
}
use zomboid_goblin.Reflex.Social.{route_chat-reply, IsBanter, IsDrawn, IsIdle}
use zomboid_goblin.Base.{
  ℕ, zero, suc, ◌+◌, ◌-◌, ◌*◌, ◌/◌, String, ◌≡◌, refl, true, false, none, some, List, [], ◌∷◌, ltb,
  ℕ_eq, String_eq, Pair_eq,
}

abbrev sum_of : List ℕ → ℕ
sum_of [] = 0
sum_of (n ∷ ns) = n + sum_of ns

-- Thousandths, with a growing function for `exp`
abbrev thousandths : Floats ℕ
thousandths = record {
  zero_float = 0;
  one_float = 1000;
  plus = λ a b. a + b;
  sum = sum_of;
  minus = λ a b. a - b;
  divided = λ a b. 1000 * a / b;
  exp = λ n. n + 1;
  less = ltb;
}

abbrev small_model : NaiveBayes ℕ
small_model = record {
  classes = "AFFIRM" ∷ [];
  log_prior = ("AFFIRM", 1) ∷ [];
  log_likelihood = ("AFFIRM", ("w:ok", 5) ∷ []) ∷ [];
  log_unknown = ("AFFIRM", 1) ∷ [];
}

abbrev picked : List String → ℕ → String × ℕ
picked [] n = ("", n)
picked (l ∷ ls) zero = (l, zero)
picked (l ∷ ls) (suc n) = let (line, m) = picked ls n in (line, suc m)

abbrev router : Router ℕ ℕ
router = record {
  model = some small_model;
  error = none;
  threshold = 850;
  max_words = 14;
  random = 3;
  last_reply = [];
}

abbrev chat : String → Chat
chat said = record { text = some said; owner = "bob"; companion_name = none; direct_action = none }

order_found : action_match ascii "please folow me" ≡ true
unfolding action_match
order_found = refl

no_order : action_match ascii "ok" ≡ false
unfolding action_match
no_order = refl

called_by_name : normalize ascii "goblin, ok!" none ≡ "ok"
unfolding normalize
called_by_name = refl

ok_features : features ascii "ok" ≡ "w:ok" ∷ "c:<ok" ∷ "c:ok>" ∷ []
unfolding features
ok_features = refl

affirmed : (route_chat thousandths ascii picked (chat "ok") router).0.reply ≡ some "Understood."
unfolding route_chat strip action_match normalize classify probabilities answer pick_reply
    sanitize_speech addressed match_literal
affirmed = refl

abbrev run : ReflexDecision ℕ × Router ℕ ℕ
run = route_chat thousandths ascii picked (chat "ok") router

route_chat-reply_example :
    IsBanter thousandths ascii picked run.0 850
    × IsDrawn thousandths ascii picked "bob" run.1 "Understood."
    × IsIdle thousandths ascii picked (chat "ok")
route_chat-reply_example =
    route_chat-reply thousandths ascii picked (chat "ok") router "Understood." affirmed
