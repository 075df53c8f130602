-- ===== src/Access/Authentication.antt =====
-- crates/server/src/auth.rs: `require_bearer`, `require_session_or_bearer` and `check_role`, each
-- around the rest of the layers. A request is handled at one reading of the clock. The spawned
-- `touch_last_seen` is performed before the rest; the metrics are not modelled.
use agent_dep_platform.Base.{
  ℕ, String, Option, none, some, List, [], ◌∷◌, CoreResult, ok, err, if◌then◌else◌,
}
use agent_dep_platform.Urls.Splitting.{is_empty}
use agent_dep_platform.Accounts.Roles.{Role, as_str, allows}
use agent_dep_platform.Accounts.Users.{
  UserRow, is_disabled, find_by_token, find_by_id, touch_last_seen,
}
use agent_dep_platform.Accounts.Sessions.{SessionRow}
use agent_dep_platform.Accounts.Sessions as Sessions
use agent_dep_platform.Accounts.Cookies.{parse_session_cookie}
use agent_dep_platform.Access.Requests.{
  Request, Response, AuthenticatedUser, Extensions, ServerState, Outside, Next, AuditEntry,
  action_of, audited, json_response,
}
use agent_dep_platform.Access.Tokens.{extract_bearer, is_expired, is_pre_oidc_refused}

abbrev pub authenticated : UserRow → AuthenticatedUser
authenticated u = record { id = u.id; name = u.name; role = u.role }

abbrev pub signed_in : UserRow → Option String → Extensions
signed_in u token = record { user = some (authenticated u); csrf = some token }

abbrev pub seen : {App : Type 0} → ℕ → ℕ → ServerState App → ServerState App
seen user_id now st = record st { users = touch_last_seen user_id now st.users }

abbrev anonymous : Request → Option String → String → AuditEntry
anonymous req resource reason = record {
  actor = "anonymous";
  action = action_of req;
  resource = resource;
  details = ("reason", reason) ∷ [];
}

abbrev pub unavailable : Outside → Response
unavailable out = json_response out 500 (("error", "auth subsystem unavailable") ∷ [])

unfoldable pub unauthorized :
    {App : Type 0} → Outside → Request → String → ServerState App → ServerState App × Response
unauthorized out req reason st =
    (audited (anonymous req none reason) st, json_response out 401 (("error", "unauthorized") ∷ []))

module _ {App : Type 0} (out : Outside) where
  -- The arm of `require_bearer` for what `find_by_token` returns.
  unfoldable pub admit_bearer :
      Next App
      → ℕ
      → Request
      → Extensions
      → CoreResult (Option UserRow)
      → ServerState App
      → ServerState App × Response
  admit_bearer next now req ext (err e) st = (st, unavailable out)
  admit_bearer next now req ext (ok none) st = unauthorized out req "invalid bearer token" st
  admit_bearer next now req ext (ok (some user)) st =
      if is_pre_oidc_refused out user.token_expires_at
      then unauthorized out req
          "bearer auth disabled for pre-OIDC users; complete OIDC migration or set AGENCY_BEARER_FALLBACK=1 (deprecated 2.12.0)"
          st
      else if is_expired out now user.token_expires_at
      then unauthorized out req "token expired, refresh required" st
      else next req (signed_in user none) (seen user.id now st)

  unfoldable pub require_bearer :
      Next App → ℕ → Request → Extensions → ServerState App → ServerState App × Response
  require_bearer next now req ext st = elim (extract_bearer req.authorization) [
    | none ↦ unauthorized out req "missing Authorization header" st
    | some token ↦
        if is_empty token
        then unauthorized out req "empty bearer token" st
        else admit_bearer next now req ext
            (find_by_token (λ s. out.sha256_hex (out.as_bytes s)) token st.users) st
  ]

  -- The arm of `require_session_or_bearer` for the session's user.
  unfoldable pub admit_session :
      Next App
      → ℕ
      → Request
      → SessionRow
      → CoreResult (Option UserRow)
      → ServerState App
      → ServerState App × Response
  admit_session next now req row (err e) st = (st, unavailable out)
  admit_session next now req row (ok none) st = unauthorized out req "session user is disabled" st
  admit_session next now req row (ok (some user)) st =
      if is_disabled user
      then unauthorized out req "session user is disabled" st
      else next req (signed_in user (some row.csrf_token)) (seen user.id now st)

  -- The arm for what `sessions.find` returns; the state has the rows that it left.
  unfoldable pub with_session :
      Next App
      → ℕ
      → Request
      → Extensions
      → CoreResult (Option SessionRow)
      → ServerState App
      → ServerState App × Response
  with_session next now req ext (err e) st = (st, unavailable out)
  with_session next now req ext (ok none) st = require_bearer next now req ext st
  with_session next now req ext (ok (some row)) st =
      admit_session next now req row (find_by_id row.user_id st.users) st

  unfoldable pub require_session_or_bearer :
      Next App → ℕ → Request → Extensions → ServerState App → ServerState App × Response
  require_session_or_bearer next now req ext st = elim (parse_session_cookie req.cookie) [
    | none ↦ require_bearer next now req ext st
    | some sid ↦
        let (rows, result) = Sessions.find sid now st.sessions in
        with_session next now req ext result (record st { sessions = rows })
  ]

  -- The layers `allow_viewer`, `allow_operator` and `allow_admin` of lib.rs give the roles.
  unfoldable pub check_role :
      List Role → Next App → Request → Extensions → ServerState App → ServerState App × Response
  check_role allowed next req ext st = elim ext.user [
    | some u ↦ if allows allowed u.role then next req ext st else (
      audited
          (record {
            actor = u.name;
            action = action_of req;
            resource = none;
            details = ("reason", "role not allowed") ∷ ("user_role", as_str u.role) ∷ [];
          })
          st,
      json_response out 403 (("error", "forbidden") ∷ []),
    )
    | none ↦ (
      audited (anonymous req none "no auth extension") st,
      json_response out 401 (("error", "unauthorized") ∷ []),
    )
  ]
