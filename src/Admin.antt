-- ===== src/Admin.antt =====
-- goblin_zomboid/admin.py: the answers of `AdminApp.handle`. The suppliers and the control of the
-- service are arguments, on a state of its own; so are `urlsplit(...).path`, and of `json` and `int`
-- what they read. Sockets and the encoding of the answer are not modelled.
pub mod Boundary
use zomboid_goblin.Json.{Value, bool_value, str_value, dict_value, ℤ, pos, Fields, end, field, keys}
use zomboid_goblin.PublicState.{public_view}
use text.Mathlib.Text.{starts_with}
use zomboid_goblin.Text.Tables.{CharTables}
use Prim.Native.Char.{Char, code}
use zomboid_goblin.Base.{
  ℕ, zero, suc, ◌+◌, ◌-◌, ◌*◌, ◌/◌, ◌%◌, ◌≤◌, ◌<◌, min, String, count, ◌≡◌, refl, sym, ap, ◌∙◌, ◌≢◌,
  ◌↔◌, ◌⊎◌, inl, inr, Bool, true, false, not, ◌&&◌, ◌||◌, false≢true, Option, none, some, List, [],
  ◌∷◌, ◌++◌, map, arith, ltb, leb, eqb, if◌then◌else◌, ltb→lt, lt→ltb, leb→le, le→leb, eqb_iff,
  Bool-cases, Option-cases, is_some, some_or, Eq, ◌==◌, ℕ_eq, String_eq, Pair_eq, ==_refl, elem,
  length, take, keep_if, length-append, length-take-le, length-keep_if-le, All, Distinct,
}
use zomboid_goblin.Exec.{
  Error, value_error, protocol_error, intent_error, file_exists, file_not_found, os_error, Result,
  ok, err, Exec, pure, raise, lift, gets, ◌>>=◌, ◌>>◌, modify, raise_if, and_then, type_error,
}
use zomboid_goblin.Dict.{
  Dict, lookup, contains, insert, remove, lookup-insert, lookup-remove, lookup-insert_self,
  lookup-insert_absent, length-insert, length-remove-le,
}

-- `hmac.compare_digest` takes text of ASCII only.
unfoldable pub is_ascii : String → Bool
is_ascii String.[] = true
is_ascii (String.◌∷◌ c s) = ltb (code c) 128 && is_ascii s

unfoldable pub compare_digest : String → String → Result Bool
unfolding is_ascii
compare_digest a b =
    if is_ascii a && is_ascii b
    then ok (a == b)
    else err (type_error "comparing strings with non-ASCII characters is not supported")

-- `text[n:]`
unfoldable pub skip : ℕ → String → String
skip zero s = s
skip (suc n) String.[] = String.[]
skip (suc n) (String.◌∷◌ c s) = skip n s

-- A request: `headers.get`, and the body's length with what `json.loads` makes of it.
pub record Request : Type 0 where
  pub method : String
  pub path : String
  pub header : String → Option String
  pub body_size : ℕ
  pub body : Option Value

pub record Response : Type 0 where
  pub status : ℕ
  pub headers : List (String × String)
  pub payload : Fields

pub record AdminApp (S : Type 0) : Type 0 where
  pub public_supplier : S → Fields
  pub admin_supplier : S → Fields
  pub control : String → Exec S Fields
  pub admin_token : Option String

-- `authorization[7:]` behind "Bearer "
unfoldable pub bearer : String → String
unfolding skip
bearer authorization = if starts_with authorization "Bearer " then skip 7 authorization else ""

-- `supplied`
unfoldable pub supplied_token : (String → Option String) → String
unfolding bearer
supplied_token header =
    let supplied = some_or (header "X-Goblin-Admin-Token") "" in
    if supplied == "" then bearer (some_or (header "Authorization") "") else supplied

abbrev pub refusal : ℕ → String → Response
refusal code reason = record {
  status = code;
  headers = [];
  payload = field "ok" (bool_value false) (field "error" (str_value reason) end);
}

abbrev pub plain : ℕ → Fields → Response
plain code payload = record { status = code; headers = []; payload = payload }

-- `_authorized`
unfoldable pub authorized : Option String → (String → Option String) → Result Bool
unfolding compare_digest supplied_token
authorized none header = ok false
authorized (some token) header =
    if token == "" then ok false else compare_digest (supplied_token header) token

-- `request["action"]`, or the reason against it
unfoldable pub action_value : Value → (String ⊎ String)
action_value (str_value action) = if ltb 32 (count action) then inl "invalid action" else inr action
action_value _ = inl "invalid action"

-- The action of a control request; `dict_value` with one entry under "action"
unfoldable pub control_action : Option Value → (String ⊎ String)
unfolding action_value
control_action none = inl "invalid JSON"
control_action (some (dict_value (field key v end))) =
    if key == "action" then action_value v else inl "invalid control request"
control_action (some _) = inl "invalid control request"

module _ {S : Type 0} (tables : CharTables) (url_path : String → String) (app : AdminApp S) where
  unfoldable pub run_control : (String ⊎ String) → Exec S Response
  run_control (inl reason) = pure (refusal 400 reason)
  run_control (inr action) = app.control action >>= λ answer. pure (plain 200 answer)

  -- The routes behind the token.
  unfoldable pub admin_route : String → Request → Exec S Response
  unfolding control_action run_control
  admin_route route request =
      if route == "/admin/api/state" && request.method == "GET"
      then gets (λ s. plain 200 (app.admin_supplier s))
      else if route == "/admin/api/control" && request.method == "POST"
      then if ltb 4096 request.body_size
        then pure (refusal 413 "request too large")
        else run_control (control_action request.body)
      else pure (refusal 404 "not found")

  -- The routes that ask for the token.
  unfoldable pub checked_route : String → Request → Exec S Response
  unfolding authorized admin_route
  checked_route route request = lift (authorized app.admin_token request.header) >>= λ allowed.
      if allowed then admin_route route request else pure (refusal 401 "unauthorized")

  -- `handle`
  unfoldable pub handle : Request → Exec S Response
  unfolding checked_route public_view
  handle request =
      let route = url_path request.path in
      if route == "/healthz" && request.method == "GET"
      then pure (plain 200 (field "ok" (bool_value true) end))
      else if route == "/api/public/status" && request.method == "GET"
      then gets (λ s. record {
        status = 200;
        headers = ("Cache-Control", "no-store") ∷ [];
        payload = public_view tables (app.public_supplier s);
      })
      else if starts_with route "/admin/"
      then checked_route route request
      else pure (refusal 404 "not found")

  -- `do_POST`: the length is what `int` makes of the header, and then of so many bytes the body is read
  unfoldable pub do_post :
      Option ℤ → (ℕ → Option Value) → String → (String → Option String) → Exec S Response
  unfolding handle
  do_post (some (pos length)) read path header =
      if ltb 4096 length
      then pure (refusal 413 "request too large")
      else handle (record {
        method = "POST";
        path = path;
        header = header;
        body_size = length;
        body = read length;
      })
  do_post _ read path header = pure (refusal 413 "request too large")
