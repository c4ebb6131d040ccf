-- ===== src/Tests/PublicState.antt =====
-- A state with a hidden place in it.
use zomboid_goblin.Json.{
  Value, int_value, str_value, dict_value, list_value, cons, nil, pos, Fields, end, field, get,
  Step, at_key, at_place, find,
}
use mathlib.Core.Option
use zomboid_goblin.Text.Tables.{ascii}
use zomboid_goblin.Text.Trim.{casefold}
use zomboid_goblin.PublicState.{
  redact, public_view, public_keys, is_sensitive_key, normal_key, underscored, ends_with,
  drop_match,
}
use zomboid_goblin.PublicState.Paths.{redact-find, redact_hides}
use zomboid_goblin.PublicState.Views.{get-public_view}
use zomboid_goblin.Base.{
  ◌≡◌, refl, none, List, [], ◌∷◌, ◌++◌, if◌then◌else◌, ℕ_eq, String_eq, Pair_eq, elem,
}

abbrev world : Value
world = dict_value (
    field "players"
      (list_value (
        cons
          (dict_value
            (field "name" (str_value "tom") (field "coordinates" (str_value "10,20") end)))
          nil))
      end)

abbrev down : List Step
down = at_key "players" ∷ at_place 0 ∷ at_key "name" ∷ []

redact-find_example : find down (redact ascii world) ≡ Option.map (redact ascii) (find down world)
unfolding is_sensitive_key normal_key underscored casefold ends_with drop_match
redact-find_example = redact-find ascii down world ((refl, refl), (tt, ((refl, refl), tt)))

redact_hides_example :
    find ((at_key "players" ∷ at_place 0 ∷ []) ++ at_key "coordinates" ∷ []) (redact ascii world)
    ≡ none
unfolding is_sensitive_key normal_key underscored casefold ends_with drop_match
redact_hides_example =
    redact_hides ascii (at_key "players" ∷ at_place 0 ∷ []) "coordinates" [] world refl

abbrev shown : Fields
shown = field "hunt" (str_value "active") (field "seed" (int_value (pos 7)) end)

get-public_view_example :
    get "hunt" (public_view ascii shown)
    ≡ (if elem "hunt" public_keys then Option.map (redact ascii) (get "hunt" shown) else none)
get-public_view_example = get-public_view ascii "hunt" shown
