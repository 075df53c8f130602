-- ===== src/Access/Passing.antt =====
-- Whose requests reach a handler (the sub-router `authed` of crates/server/src/lib.rs).
use agent_dep_platform.Base.{
  ℕ, ◌≤◌, ◌≡◌, ◌⊎◌, inl, inr, refl, ◌∙◌, ap, String, true, false, Option, none, some, List, arith,
  ok, Bool-cases,
}
use agent_dep_platform.Accounts.Roles.{Role, allows}
use agent_dep_platform.Accounts.Users.{UserRow, is_disabled, find_by_id}
use agent_dep_platform.Accounts.Sessions.{SessionRow}
use agent_dep_platform.Accounts.Sessions as Sessions
use agent_dep_platform.Accounts.Cookies.{parse_session_cookie}
use agent_dep_platform.Access.Requests.{Request, Response, Extensions, ServerState, Outside, Next}
use agent_dep_platform.Access.Authentication.{
  signed_in, seen, admit_session, with_session, require_session_or_bearer, check_role,
}
use agent_dep_platform.Access.Csrf.{
  is_safe_method, ct_eq, ct_eq_iff, compare_token, require_csrf_for_mutations, authed,
}
use agent_dep_platform.Access.Guards.{
  Evidence, Refused, csrf_rejected-Refused, require_session_or_bearer_lem,
}

-- A request on a session either changes nothing or repeats the session's CSRF token.
abbrev pub HasCsrf : Request → Option String → Type 0
HasCsrf req none = Unit
HasCsrf req (some token) = (is_safe_method req.method ≡ true) ⊎ (req.x_csrf_token ≡ some token)

ct_eq-text : (out : Outside) (s t : String) → ct_eq (out.as_bytes s) (out.as_bytes t) ≡ true → s ≡ t
ct_eq-text out s t h = out.as_bytes-injective s t (
    (ct_eq_iff (out.as_bytes s) (out.as_bytes t) (out.as_bytes-bounded s)
        (out.as_bytes-bounded t)).0
      h)

ct_eq-same : (out : Outside) (s : String) → ct_eq (out.as_bytes s) (out.as_bytes s) ≡ true
ct_eq-same out s =
    (ct_eq_iff (out.as_bytes s) (out.as_bytes s) (out.as_bytes-bounded s)
        (out.as_bytes-bounded s)).1
      refl

module _ {App : Type 0} (out : Outside) where
  compare_token_lem :
      (next : Next App) (req : Request) (ext : Extensions) (expected : String)
      (presented : Option String) (st : ServerState App)
      → Refused st (compare_token out next req ext expected presented st)
        ⊎ ((presented ≡ some expected)
            × (compare_token out next req ext expected presented st ≡ next req ext st))
  unfolding compare_token
  compare_token_lem next req ext expected none st = inl (csrf_rejected-Refused out req _ st)
  compare_token_lem next req ext expected (some p) st =
      elim (Bool-cases (ct_eq (out.as_bytes p) (out.as_bytes expected))) [
        | inl same ↦ inr (ap some (ct_eq-text out p expected same), rw same refl)
        | inr other ↦ inl (rw other (csrf_rejected-Refused out req _ st))
      ]

  require_csrf_lem :
      (next : Next App) (req : Request) (user : UserRow) (token : Option String)
      (st : ServerState App)
      → Refused st (require_csrf_for_mutations out next req (signed_in user token) st)
        ⊎ (HasCsrf req token
            × (require_csrf_for_mutations out next req (signed_in user token) st
                ≡ next req (signed_in user token) st))
  unfolding require_csrf_for_mutations
  require_csrf_lem next req user none st = inr (tt, ground arith)
  require_csrf_lem next req user (some expected) st =
      elim (Bool-cases (is_safe_method req.method)) [
        | inl safe ↦ inr (inl safe, rw safe refl)
        | inr changing ↦
            rw changing
              (elim (compare_token_lem next req (signed_in user (some expected)) expected
                req.x_csrf_token st) [
                  | inl refused ↦ inl refused
                  | inr (same, runs) ↦ inr (inr same, runs)
                ])
      ]

  check_role_lem :
      (allowed : List Role) (next : Next App) (req : Request) (user : UserRow)
      (token : Option String) (st : ServerState App)
      → Refused st (check_role out allowed next req (signed_in user token) st)
        ⊎ ((allows allowed user.role ≡ true)
            × (check_role out allowed next req (signed_in user token) st
                ≡ next req (signed_in user token) st))
  unfolding check_role
  check_role_lem allowed next req user token st = elim (Bool-cases (allows allowed user.role)) [
    | inl in_set ↦ inr (in_set, rw in_set refl)
    | inr other ↦
        inl (rw other (record { is_error = omega arith; same_users = refl; same_app = refl }))
  ]

  -- The answer of the layers without the handler.
  pub record Stopped (st : ServerState App) (r : ServerState App × Response) : Type 0 where
    pub is_error : 400 ≤ r.1.status
    pub same_app : r.0.app ≡ st.app

  -- The handler runs for a user who may call it.
  pub record Passed (allowed : List Role) (handler : Next App) (now : ℕ) (req : Request)
      (st : ServerState App) (r : ServerState App × Response) : Type 0 where
    pub user : UserRow
    pub token : Option String
    pub evidence : Evidence out now req st.users st.sessions user token
    pub in_role : allows allowed user.role ≡ true
    pub csrf : HasCsrf req token
    pub before : ServerState App
    pub same_app : before.app ≡ st.app
    pub result : r ≡ handler req (signed_in user token) before

  Stopped-of :
      (st before : ServerState App) (r s : ServerState App × Response)
      → before.app ≡ st.app
      → r ≡ s
      → Refused before s
      → Stopped st r
  Stopped-of st before r s same e f =
      rw e (record { is_error = f.is_error; same_app = f.same_app ∙ same })

  -- Every request to a route either is answered with an error and leaves what the handlers keep as
  -- it was, or the route's handler runs for a user such that: the request has a live session of
  -- that enabled user or a valid bearer token of that enabled user; the user's role is one of the
  -- route's; and a request on a session that is not GET, HEAD or OPTIONS repeats the session's
  -- CSRF token.
  pub authed_outcome :
      (allowed : List Role) (handler : Next App) (now : ℕ) (req : Request) (ext : Extensions)
      (st : ServerState App)
      → Stopped st (authed out allowed handler now req ext st)
        ⊎ Passed allowed handler now req st (authed out allowed handler now req ext st)
  unfolding authed
  authed_outcome allowed handler now req ext st =
      let guarded : Next App = check_role out allowed handler in
      elim (require_session_or_bearer_lem out (require_csrf_for_mutations out guarded) now req ext
        st) [
          | inl f ↦ inl (record { is_error = f.is_error; same_app = f.same_app })
          | inr a ↦ elim (require_csrf_lem guarded req a.user a.token a.before) [
            | inl f ↦ inl (Stopped-of st a.before _ _ a.same_app a.result f)
            | inr (csrf, on) ↦ elim (check_role_lem allowed handler req a.user a.token a.before) [
              | inl f ↦ inl (Stopped-of st a.before _ _ a.same_app (a.result ∙ on) f)
              | inr (role, runs) ↦ inr (record {
                user = a.user;
                token = a.token;
                evidence = a.evidence;
                in_role = role;
                csrf = csrf;
                before = a.before;
                same_app = a.same_app;
                result = a.result ∙ on ∙ runs;
              })
            ]
          ]
        ]

  session_admits :
      (next : Next App) (now : ℕ) (req : Request) (ext : Extensions) (st : ServerState App)
      (sid : String) (row : SessionRow) (user : UserRow)
      → parse_session_cookie req.cookie ≡ some sid
      → (Sessions.find sid now st.sessions).1 ≡ ok (some row)
      → find_by_id row.user_id st.users ≡ ok (some user)
      → is_disabled user ≡ false
      → require_session_or_bearer out next now req ext st
        ≡ next req
            (signed_in user (some row.csrf_token))
            (seen user.id now (record st { sessions = (Sessions.find sid now st.sessions).0 }))
  unfolding require_session_or_bearer with_session admit_session
  session_admits next now req ext st sid row user cookie live owner enabled =
      rw (require_session_or_bearer, cookie, live)
        (rw (with_session, owner) (rw (admit_session, enabled) refl))

  token_admits :
      (next : Next App) (req : Request) (user : UserRow) (expected : String) (st : ServerState App)
      → req.x_csrf_token ≡ some expected
      → require_csrf_for_mutations out next req (signed_in user (some expected)) st
        ≡ next req (signed_in user (some expected)) st
  unfolding require_csrf_for_mutations compare_token
  token_admits next req user expected st csrf =
      let same = ct_eq-same out expected in
      elim (Bool-cases (is_safe_method req.method)) [
        | inl safe ↦ rw safe refl
        | inr changing ↦ rw (changing, csrf) (rw (compare_token, same) refl)
      ]

  role_admits :
      (allowed : List Role) (next : Next App) (req : Request) (user : UserRow)
      (token : Option String) (st : ServerState App)
      → allows allowed user.role ≡ true
      → check_role out allowed next req (signed_in user token) st
        ≡ next req (signed_in user token) st
  unfolding check_role
  role_admits allowed next req user token st role = rw role refl

  -- A request with a live session of an enabled user whose role the route allows, which repeats
  -- the session's CSRF token, runs the route's handler as that user, whatever its other headers.
  pub authed_session :
      (allowed : List Role) (handler : Next App) (now : ℕ) (req : Request) (ext : Extensions)
      (st : ServerState App) (sid : String) (row : SessionRow) (user : UserRow)
      → parse_session_cookie req.cookie ≡ some sid
      → (Sessions.find sid now st.sessions).1 ≡ ok (some row)
      → find_by_id row.user_id st.users ≡ ok (some user)
      → is_disabled user ≡ false
      → allows allowed user.role ≡ true
      → req.x_csrf_token ≡ some row.csrf_token
      → authed out allowed handler now req ext st
        ≡ handler req
            (signed_in user (some row.csrf_token))
            (seen user.id now (record st { sessions = (Sessions.find sid now st.sessions).0 }))
  unfolding authed
  authed_session allowed handler now req ext st sid row user cookie live owner enabled role csrf =
      let guarded : Next App = check_role out allowed handler in
      session_admits (require_csrf_for_mutations out guarded) now req ext st sid row user cookie
        live owner enabled
      ∙ token_admits guarded req user row.csrf_token _ csrf
      ∙ role_admits allowed handler req user (some row.csrf_token) _ role
