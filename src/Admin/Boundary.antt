-- ===== src/Admin/Boundary.antt =====
-- What a request without the token can see and do.
use zomboid_goblin.Admin.{
  AdminApp, Request, authorized, supplied_token, compare_digest, is_ascii, handle, checked_route,
  admin_route, run_control, control_action, plain,
}
use zomboid_goblin.Json.{Fields}
use zomboid_goblin.Text.Tables.{CharTables}
use text.Mathlib.Text.{starts_with}
use zomboid_goblin.Base.{
  ◌≤◌, String, ◌≡◌, refl, ◌≢◌, ◌⊎◌, inl, inr, Bool, true, false, ◌&&◌, Option, none, some, arith,
  ltb, Bool-cases, ◌==◌, ℕ_eq, String_eq, Pair_eq,
}
use zomboid_goblin.Exec.{Error, Result, ok, err, Exec, pure, lift, ◌>>=◌}

Result-cases : (r : Result Bool) → (r ≡ ok true) ⊎ ((r ≡ ok false) ⊎ ((x : Error) × (r ≡ err x)))
Result-cases (ok true) = inl refl
Result-cases (ok false) = inr (inl refl)
Result-cases (err x) = inr (inr (x, refl))

digest_same : (a t : String) → compare_digest a t ≡ ok true → a ≡ t
unfolding compare_digest
digest_same a t e = elim (Bool-cases (is_ascii a && is_ascii t)) [
  | inl plain ↦ (String_eq.beq_iff a t).0 (ground (arith, rw plain at e))
  | inr odd ↦ cc (rw odd at e)
]

-- A token that is let in is the configured one, which is not empty.
authorized-token :
    (token : Option String) (header : String → Option String)
    → authorized token header ≡ ok true
    → (t : String) × (token ≡ some t) × ((t == "") ≡ false) × (supplied_token header ≡ t)
unfolding authorized
authorized-token none header h = ground (arith, h)
authorized-token (some t) header h = elim (Bool-cases (t == "")) [
  | inl blank ↦ cc (rw blank at h)
  | inr given ↦ (t, refl, given, digest_same (supplied_token header) t (rw given at h))
]

module _ {S : Type 0} (tables : CharTables) (url_path : String → String) (app : AdminApp S) where
  checked_route_refused :
      (route : String) (request : Request) (view : S → Fields) (act : String → Exec S Fields)
      (s : S)
      → authorized app.admin_token request.header ≢ ok true
      → (checked_route tables url_path app route request s
          ≡ checked_route tables url_path
              (record app { admin_supplier = view; control = act })
              route
              request
              s)
        × ((checked_route tables url_path app route request s).1 ≡ s)
  unfolding checked_route
  checked_route_refused route request view act s h =
      elim (Result-cases (authorized app.admin_token request.header)) [
        | inl allowed ↦ absurd (h allowed)
        | inr (inl refused) ↦ rw refused (refl, refl)
        | inr (inr (x, bad)) ↦ rw bad (refl, refl)
      ]

  -- An answer to a request whose token does not hold is the same whatever the administrator's view of
  -- the state and the controls are, and the request changes nothing.
  pub handle_refused :
      (request : Request) (view : S → Fields) (act : String → Exec S Fields) (s : S)
      → authorized app.admin_token request.header ≢ ok true
      → (handle tables url_path app request s
          ≡ handle tables url_path (record app { admin_supplier = view; control = act }) request s)
        × ((handle tables url_path app request s).1 ≡ s)
  unfolding handle
  handle_refused request view act s h =
      let route = url_path request.path in
      elim (Bool-cases (route == "/healthz" && request.method == "GET")) [
        | inl health ↦ rw health (refl, refl)
        | inr other ↦ elim (Bool-cases (route == "/api/public/status" && request.method == "GET")) [
          | inl public ↦ rw (other, public) (refl, refl)
          | inr hidden ↦ elim (Bool-cases (starts_with route "/admin/")) [
            | inl admin ↦
                rw (other, hidden, admin) (checked_route_refused route request view act s h)
            | inr unknown ↦ rw (other, hidden, unknown) (refl, refl)
          ]
        ]
      ]

  answered : (r : Result Fields) (s : S) → ((lift r >>= λ answer. pure (plain 200 answer)) s).1 ≡ s
  answered (ok a) s = refl
  answered (err x) s = refl

  run_control_changes :
      (c : String ⊎ String) (s : S)
      → (run_control tables url_path app c s).1 ≢ s
      → (action : String) × (c ≡ inr action)
        × ((run_control tables url_path app c s).1 ≡ (app.control action s).1)
  unfolding run_control
  run_control_changes (inl reason) s h = absurd (h refl)
  run_control_changes (inr action) s h =
      (action, refl, answered (app.control action s).0 (app.control action s).1)

  admin_route_changes :
      (route : String) (request : Request) (s : S)
      → (admin_route tables url_path app route request s).1 ≢ s
      → ((route == "/admin/api/control" && request.method == "POST") ≡ true)
        × (ltb 4096 request.body_size ≡ false)
        × (action : String) × (control_action request.body ≡ inr action)
        × ((admin_route tables url_path app route request s).1 ≡ (app.control action s).1)
  unfolding admin_route
  admin_route_changes route request s h =
      elim (Bool-cases (route == "/admin/api/state" && request.method == "GET")) [
        | inl view ↦ absurd ((rw view at h) refl)
        | inr other ↦
            elim (Bool-cases (route == "/admin/api/control" && request.method == "POST")) [
              | inl control ↦ elim (Bool-cases (ltb 4096 request.body_size)) [
                | inl large ↦ absurd ((rw (other, control, large) at h) refl)
                | inr fits ↦
                    let (action, c, e) =
                      run_control_changes (control_action request.body) s
                        (rw (other, control, fits) at h) in
                    (control, fits, action, c, rw (other, control, fits) e)
              ]
              | inr unknown ↦ absurd ((rw (other, unknown) at h) refl)
            ]
      ]

  checked_route_changes :
      (route : String) (request : Request) (s : S)
      → (checked_route tables url_path app route request s).1 ≢ s
      → (authorized app.admin_token request.header ≡ ok true)
        × (checked_route tables url_path app route request s
            ≡ admin_route tables url_path app route request s)
  unfolding checked_route
  checked_route_changes route request s h =
      elim (Result-cases (authorized app.admin_token request.header)) [
        | inl allowed ↦ (allowed, rw allowed refl)
        | inr (inl refused) ↦ absurd ((rw refused at h) refl)
        | inr (inr (x, bad)) ↦ absurd ((rw bad at h) refl)
      ]

  handle_route :
      (request : Request) (s : S)
      → (handle tables url_path app request s).1 ≢ s
      → handle tables url_path app request s
        ≡ checked_route tables url_path app (url_path request.path) request s
  unfolding handle
  handle_route request s h =
      let route = url_path request.path in
      elim (Bool-cases (route == "/healthz" && request.method == "GET")) [
        | inl health ↦ absurd ((rw health at h) refl)
        | inr other ↦ elim (Bool-cases (route == "/api/public/status" && request.method == "GET")) [
          | inl public ↦ absurd ((rw (other, public) at h) refl)
          | inr hidden ↦ elim (Bool-cases (starts_with route "/admin/")) [
            | inl admin ↦ rw (other, hidden, admin) refl
            | inr unknown ↦ absurd ((rw (other, hidden, unknown) at h) refl)
          ]
        ]
      ]

  -- What a request that changes the service's state has: the configured token, which is not empty, and
  -- in at most 4096 bytes an action, of at most 32 characters, and the change is that of the control.
  pub handle_changes :
      (request : Request) (s : S)
      → (handle tables url_path app request s).1 ≢ s
      → (token action : String) × (app.admin_token ≡ some token)
        × (token ≢ "")
        × (supplied_token request.header ≡ token)
        × (request.method ≡ "POST")
        × (url_path request.path ≡ "/admin/api/control")
        × (request.body_size ≤ 4096)
        × (control_action request.body ≡ inr action)
        × ((handle tables url_path app request s).1 ≡ (app.control action s).1)
  handle_changes request s h =
      let route = url_path request.path in
      let e = handle_route request s h in
      let h1 : (checked_route tables url_path app route request s).1 ≢ s = rw e at h in
      let (allowed, e1) = checked_route_changes route request s h1 in
      let h2 : (admin_route tables url_path app route request s).1 ≢ s = rw e1 at h1 in
      let (asked, fits, action, c, e2) = admin_route_changes route request s h2 in
      let (token, t, given, supplied) = authorized-token app.admin_token request.header allowed in
      (
        token,
        action,
        t,
        ground (arith, given, String_eq.beq_iff token ""),
        supplied,
        (String_eq.beq_iff request.method "POST").0 (ground (arith, asked)),
        (String_eq.beq_iff route "/admin/api/control").0 (ground (arith, asked)),
        ground (arith, fits),
        c,
        rw (e, e1) e2,
      )
