-- ===== src/Tests/Admin.antt =====
-- Requests to an administration with a counter as its state.
use zomboid_goblin.Json.{int_value, str_value, dict_value, pos, end, field}
use zomboid_goblin.Text.Tables.{ascii}
use zomboid_goblin.Admin.{
  AdminApp, Request, handle, authorized, compare_digest, is_ascii, supplied_token, bearer, skip,
  control_action, action_value, admin_route, checked_route, run_control,
}
use zomboid_goblin.Admin.Boundary.{handle_refused, handle_changes}
use zomboid_goblin.Base.{
  ℕ, ◌+◌, ◌≤◌, String, ◌≡◌, ◌≢◌, inr, true, Option, none, some, arith, if◌then◌else◌, ◌==◌, ℕ_eq,
  String_eq, Pair_eq,
}
use zomboid_goblin.Exec.{ok}

abbrev app : AdminApp ℕ
app = record {
  public_supplier = λ n. end;
  admin_supplier = λ n. field "count" (int_value (pos n)) end;
  control = λ action n. (ok (field "did" (str_value action) end), n + 1);
  admin_token = some "key";
}

abbrev header_of : String → String → Option String
header_of token name = if name == "Authorization" then some token else none

abbrev request_of : String → Request
request_of token = record {
  method = "POST";
  path = "/admin/api/control";
  header = header_of token;
  body_size = 20;
  body = some (dict_value (field "action" (str_value "pause") end));
}

refused : authorized app.admin_token (header_of "Bearer no") ≢ ok true
unfolding authorized compare_digest is_ascii supplied_token bearer skip
refused e = ground (arith, e)

handle_refused_example :
    (handle ascii (λ p. p) app (request_of "Bearer no") 4
      ≡ handle ascii
          (λ p. p)
          (record app { admin_supplier = λ n. end; control = λ a n. (ok end, 0) })
          (request_of "Bearer no")
          4)
    × ((handle ascii (λ p. p) app (request_of "Bearer no") 4).1 ≡ 4)
handle_refused_example =
    handle_refused ascii (λ p. p) app (request_of "Bearer no") (λ n. end) (λ a n. (ok end, 0)) 4
      refused

paused : (handle ascii (λ p. p) app (request_of "Bearer key") 4).1 ≢ 4
unfolding handle checked_route admin_route run_control control_action action_value authorized
    compare_digest is_ascii supplied_token bearer skip
paused e = ground (arith, e)

handle_changes_example :
    (token action : String) × (app.admin_token ≡ some token)
    × (token ≢ "")
    × (supplied_token (header_of "Bearer key") ≡ token)
    × ((request_of "Bearer key").method ≡ "POST")
    × ((request_of "Bearer key").path ≡ "/admin/api/control")
    × (20 ≤ 4096)
    × (control_action (request_of "Bearer key").body ≡ inr action)
    × ((handle ascii (λ p. p) app (request_of "Bearer key") 4).1 ≡ (app.control action 4).1)
handle_changes_example = handle_changes ascii (λ p. p) app (request_of "Bearer key") 4 paused
