-- ===== src/Access/Guards.antt =====
-- What the layers around a handler let through (crates/server/src/auth.rs).
use agent_dep_platform.Base.{
  ℕ, ◌≤◌, ◌≡◌, ◌⊎◌, inl, inr, refl, String, false, Option, none, some, List, arith, CoreResult, ok,
  err, Option-cases, Bool-cases,
}
use agent_dep_platform.Urls.Splitting.{is_empty}
use agent_dep_platform.Accounts.Users.{
  UserRow, UserTable, is_disabled, find_by_token, find_by_id, touch_last_seen,
}
use agent_dep_platform.Accounts.Sessions.{SessionRow}
use agent_dep_platform.Accounts.Sessions as Sessions
use agent_dep_platform.Accounts.Cookies.{parse_session_cookie}
use agent_dep_platform.Access.Requests.{Request, Response, Extensions, ServerState, Outside, Next}
use agent_dep_platform.Access.Tokens.{extract_bearer, is_expired, is_pre_oidc_refused}
use agent_dep_platform.Access.Authentication.{
  signed_in, seen, unauthorized, unavailable, admit_bearer, require_bearer, admit_session,
  with_session, require_session_or_bearer,
}
use agent_dep_platform.Access.Csrf.{csrf_rejected}

-- Why a request counts as one of a user, with the CSRF token of the session, if it is one.
pub data Evidence (out : Outside) (now : ℕ) (req : Request) (users : UserTable)
    (sessions : List SessionRow) : UserRow → Option String → Type 0 where
  by_session :
      {sid : String} {row : SessionRow} {user : UserRow}
      → parse_session_cookie req.cookie ≡ some sid
      → (Sessions.find sid now sessions).1 ≡ ok (some row)
      → find_by_id row.user_id users ≡ ok (some user)
      → is_disabled user ≡ false
      → Evidence out now req users sessions user (some row.csrf_token)
  by_token :
      {token : String} {user : UserRow}
      → extract_bearer req.authorization ≡ some token
      → find_by_token (λ s. out.sha256_hex (out.as_bytes s)) token users ≡ ok (some user)
      → is_pre_oidc_refused out user.token_expires_at ≡ false
      → is_expired out now user.token_expires_at ≡ false
      → Evidence out now req users sessions user none

module _ {App : Type 0} where
  -- An answer of a layer: an error, with the users and the handlers' state as they were.
  pub record Refused (st : ServerState App) (r : ServerState App × Response) : Type 0 where
    pub is_error : 400 ≤ r.1.status
    pub same_users : r.0.users ≡ st.users
    pub same_app : r.0.app ≡ st.app

  -- The rest of the layers runs for a user; only the time that the user was last seen, and the
  -- session's last use, are written before.
  pub record Admitted (out : Outside) (now : ℕ) (req : Request) (next : Next App)
      (sessions : List SessionRow) (st : ServerState App) (r : ServerState App × Response)
      : Type 0 where
    pub user : UserRow
    pub token : Option String
    pub evidence : Evidence out now req st.users sessions user token
    pub before : ServerState App
    pub same_app : before.app ≡ st.app
    pub same_users : before.users ≡ touch_last_seen user.id now st.users
    pub result : r ≡ next req (signed_in user token) before

  unauthorized-Refused :
      (out : Outside) (req : Request) (reason : String) (st : ServerState App)
      → Refused st (unauthorized out req reason st)
  unfolding unauthorized
  unauthorized-Refused out req reason st = record {
    is_error = omega arith;
    same_users = refl;
    same_app = refl;
  }

  unavailable-Refused : (out : Outside) (st : ServerState App) → Refused st (st, unavailable out)
  unavailable-Refused out st = record { is_error = omega arith; same_users = refl; same_app = refl }

  pub csrf_rejected-Refused :
      (out : Outside) (req : Request) (reason : String) (st : ServerState App)
      → Refused st (csrf_rejected out req reason st)
  unfolding csrf_rejected
  csrf_rejected-Refused out req reason st = record {
    is_error = omega arith;
    same_users = refl;
    same_app = refl;
  }

  module _ (out : Outside) (next : Next App) (now : ℕ) (req : Request) (ext : Extensions) where
    admit_bearer_lem :
        (token : String) (found : CoreResult (Option UserRow)) (sessions : List SessionRow)
        (st : ServerState App)
        → extract_bearer req.authorization ≡ some token
        → find_by_token (λ s. out.sha256_hex (out.as_bytes s)) token st.users ≡ found
        → Refused st (admit_bearer out next now req ext found st)
          ⊎ Admitted out now req next sessions st (admit_bearer out next now req ext found st)
    unfolding admit_bearer
    admit_bearer_lem token (err e) sessions st given found = inl (unavailable-Refused out st)
    admit_bearer_lem token (ok none) sessions st given found =
        inl (unauthorized-Refused out req "invalid bearer token" st)
    admit_bearer_lem token (ok (some user)) sessions st given found =
        elim (Bool-cases (is_pre_oidc_refused out user.token_expires_at)) [
          | inl old ↦ inl (rw old (unauthorized-Refused out req _ st))
          | inr current ↦ elim (Bool-cases (is_expired out now user.token_expires_at)) [
            | inl late ↦ inl (rw (current, late) (unauthorized-Refused out req _ st))
            | inr valid ↦ inr (
                rw (current, valid)
                  (record {
                    user = user;
                    token = none;
                    evidence = by_token given found current valid;
                    before = seen user.id now st;
                    same_app = refl;
                    same_users = refl;
                    result = refl;
                  }))
          ]
        ]

    require_bearer_lem :
        (sessions : List SessionRow) (st : ServerState App)
        → Refused st (require_bearer out next now req ext st)
          ⊎ Admitted out now req next sessions st (require_bearer out next now req ext st)
    unfolding require_bearer
    require_bearer_lem sessions st = elim (Option-cases (extract_bearer req.authorization)) [
      | inl missing ↦ inl (rw (require_bearer, missing) (unauthorized-Refused out req _ st))
      | inr (token, given) ↦ elim (Bool-cases (is_empty token)) [
        | inl empty ↦ inl (rw (require_bearer, given, empty) (unauthorized-Refused out req _ st))
        | inr full ↦
            rw (require_bearer, given, full) (admit_bearer_lem token _ sessions st given refl)
      ]
    ]

    admit_session_lem :
        (sid : String) (row : SessionRow) (found : CoreResult (Option UserRow))
        (sessions : List SessionRow) (st : ServerState App)
        → parse_session_cookie req.cookie ≡ some sid
        → (Sessions.find sid now sessions).1 ≡ ok (some row)
        → find_by_id row.user_id st.users ≡ found
        → Refused st (admit_session out next now req row found st)
          ⊎ Admitted out now req next sessions st (admit_session out next now req row found st)
    unfolding admit_session
    admit_session_lem sid row (err e) sessions st given live found =
        inl (unavailable-Refused out st)
    admit_session_lem sid row (ok none) sessions st given live found =
        inl (unauthorized-Refused out req _ st)
    admit_session_lem sid row (ok (some user)) sessions st given live found =
        elim (Bool-cases (is_disabled user)) [
          | inl off ↦ inl (rw off (unauthorized-Refused out req _ st))
          | inr on ↦ inr (
              rw on (record {
                user = user;
                token = some row.csrf_token;
                evidence = by_session given live found on;
                before = seen user.id now st;
                same_app = refl;
                same_users = refl;
                result = refl;
              }))
        ]

    with_session_lem :
        (sid : String) (result : CoreResult (Option SessionRow)) (sessions : List SessionRow)
        (st : ServerState App)
        → parse_session_cookie req.cookie ≡ some sid
        → (Sessions.find sid now sessions).1 ≡ result
        → Refused st (with_session out next now req ext result st)
          ⊎ Admitted out now req next sessions st (with_session out next now req ext result st)
    unfolding with_session
    with_session_lem sid (err e) sessions st given live = inl (unavailable-Refused out st)
    with_session_lem sid (ok none) sessions st given live = require_bearer_lem sessions st
    with_session_lem sid (ok (some row)) sessions st given live =
        admit_session_lem sid row _ sessions st given live refl

    -- The sessions that a lookup leaves do not matter to what is said of the state.
    from_sessions :
        (rows sessions : List SessionRow) (st : ServerState App) (r : ServerState App × Response)
        → Refused (record st { sessions = rows }) r
          ⊎ Admitted out now req next sessions (record st { sessions = rows }) r
        → Refused st r ⊎ Admitted out now req next sessions st r
    from_sessions rows sessions st r (inl f) =
        inl (record { is_error = f.is_error; same_users = f.same_users; same_app = f.same_app })
    from_sessions rows sessions st r (inr a) = inr (record {
      user = a.user;
      token = a.token;
      evidence = a.evidence;
      before = a.before;
      same_app = a.same_app;
      same_users = a.same_users;
      result = a.result;
    })

    -- Every request is refused with an error, or the rest of the layers runs for a user for whom
    -- there is evidence: a live session of an enabled user, or a valid token of one.
    pub require_session_or_bearer_lem :
        (st : ServerState App)
        → Refused st (require_session_or_bearer out next now req ext st)
          ⊎ Admitted out now req next st.sessions st
              (require_session_or_bearer out next now req ext st)
    unfolding require_session_or_bearer
    require_session_or_bearer_lem st = elim (Option-cases (parse_session_cookie req.cookie)) [
      | inl absent ↦ rw (require_session_or_bearer, absent) (require_bearer_lem st.sessions st)
      | inr (sid, given) ↦
          let rows = (Sessions.find sid now st.sessions).0 in
          rw (require_session_or_bearer, given)
            (from_sessions rows st.sessions st _
              (with_session_lem sid _ st.sessions (record st { sessions = rows }) given refl))
    ]
