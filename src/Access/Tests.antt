-- ===== src/Access/Tests.antt =====
-- Concrete requests through the layers (crates/server/src/auth.rs), and the theorems at them.
use Prim.Native.Nat.{suc}
use agent_dep_platform.Base.{ℕ, ◌≡◌, ◌≢◌, ◌⊎◌, refl, true, false, none, some, [], ◌∷◌, arith}
use agent_dep_platform.Accounts.Roles.{operator, allow_operator, allow_admin}
use agent_dep_platform.Accounts.Users.{UserRow, UserTable, disable, find_by_id, touch_last_seen}
use agent_dep_platform.Accounts.Sessions.{SessionRow, new_session, touch}
use agent_dep_platform.Accounts.Sessions as Sessions
use agent_dep_platform.Accounts.Cookies.{parse_session_cookie, scan_pairs}
use agent_dep_platform.Accounts.Disabling.{touches, run, apply}
use agent_dep_platform.Access.Requests.{Request, ServerState, Next, post, no_extensions}
use agent_dep_platform.Access.Authentication.{signed_in, seen}
use agent_dep_platform.Access.Csrf.{authed}
use agent_dep_platform.Access.Guards.{by_session}
use agent_dep_platform.Access.Passing.{Stopped, Passed, authed_outcome, authed_session}
use agent_dep_platform.Access.Barring.{Evidence-disabled}
use agent_dep_platform.Access.Concrete.{outside}

abbrev ann : UserRow
ann = record {
  id = 7;
  name = "ann";
  role = operator;
  token_hash = none;
  created_at = 0;
  last_seen_at = none;
  disabled_at = none;
  external_id = some "ext";
  token_expires_at = none;
}

abbrev bob : UserRow
bob = record ann { id = 9; name = "bob"; external_id = none }

abbrev users : UserTable
users = record { rows = ann ∷ bob ∷ []; next_id = 10 }

abbrev login : SessionRow
login = new_session "s" "t" 1000 7 none none

abbrev deploy : Request
deploy = record {
  method = post;
  path = "/v1/deploys";
  cookie = some "agency_session=s";
  authorization = none;
  x_csrf_token = some "t";
  idempotency_key = none;
  body = [];
}

abbrev start : ServerState ℕ
start = record { users = users; sessions = login ∷ []; trail = []; app = 0 }

-- A handler that counts its runs.
abbrev counting : Next ℕ
counting req ext st = (
  record st { app = suc st.app },
  record { status = 200; is_json = true; is_replay = false; body = [] },
)

authed_outcome_example :
    Stopped outside start (authed outside allow_admin counting 2000 deploy no_extensions start)
    ⊎ Passed outside allow_admin counting 2000 deploy start
        (authed outside allow_admin counting 2000 deploy no_extensions start)
authed_outcome_example = authed_outcome outside allow_admin counting 2000 deploy no_extensions start

authed_session_example :
    authed outside allow_operator counting 2000 deploy no_extensions start
    ≡ counting deploy
        (signed_in ann (some "t"))
        (seen 7 2000 (record start { sessions = (Sessions.find "s" 2000 (login ∷ [])).0 }))
unfolding parse_session_cookie scan_pairs Sessions.find touch find_by_id
authed_session_example =
    authed_session outside allow_operator counting 2000 deploy no_extensions start "s"
      (touch 2000 login) ann refl refl refl refl refl refl

Evidence-disabled_example : ann.id ≢ 9
unfolding parse_session_cookie scan_pairs Sessions.find touch find_by_id run apply disable
    touch_last_seen
Evidence-disabled_example =
    Evidence-disabled outside (λ s. s) 9 1500 2000 (touches 9 1600 ∷ []) users deploy (login ∷ [])
      ann (some "t") (omega arith) (by_session refl refl refl refl)
