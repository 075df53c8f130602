-- ===== src/Idempotency/Ordering.antt =====
-- The order of the layers in `router` of crates/server/src/lib.rs: the idempotency middleware is the
-- last `route_layer`, so it is around the authentication.

use agent_dep_platform.Base.{
  ℕ, ◌≤◌, ◌≡◌, refl, ap, String, true, false, none, List, [], ◌∷◌, arith, any, length,
}
use agent_dep_platform.Accounts.Roles.{Role}
use agent_dep_platform.Accounts.Cookies.{parse_session_cookie}
use agent_dep_platform.Access.Requests.{
  Request, Response, ServerState, Outside, Next, no_extensions, action_of, json_response,
}
use agent_dep_platform.Access.Tokens.{extract_bearer}
use agent_dep_platform.Access.Authentication.{
  unauthorized, require_bearer, require_session_or_bearer,
}
use agent_dep_platform.Access.Csrf.{authed}
use agent_dep_platform.Idempotency.Keys.{is_key}
use agent_dep_platform.Idempotency.Middleware.{max_body_bytes, arrived, answered, Shared, step}
use agent_dep_platform.Idempotency.Replays.{IsKeyed}
use agent_dep_platform.Idempotency.Storing.{four_steps, four_steps_replayed}

module _ {App : Type 0} (out : Outside) (allowed : List Role) (handler : Next App) where
  -- What is behind the middleware.
  unfoldable pub behind : ℕ → Request → ServerState App → ServerState App × Response
  behind now req st = authed out allowed handler now req no_extensions st

  refusal : Response
  refusal = json_response out 401 (("error", "unauthorized") ∷ [])

  -- A request without a cookie and without a token is refused by the authentication.
  behind_anonymous :
      (now : ℕ) (req : Request) (st : ServerState App)
      → req.cookie ≡ none
      → req.authorization ≡ none
      → (behind now req st).1 ≡ refusal
  unfolding behind authed require_session_or_bearer require_bearer parse_session_cookie
      extract_bearer unauthorized refusal
  behind_anonymous now req st no_cookie no_token =
      simp (require_session_or_bearer, no_cookie, require_bearer, no_token) refl

  -- A request with a new key but without a cookie and a token decides what is answered under the
  -- key: its 401 is stored, and every later request with the key, the route and the body gets
  -- that 401, with whatever session or token it comes.
  pub step_after_anonymous :
      (t1 t2 t3 t4 now : ℕ) (req later : Request) (key : String) (sh : Shared (ServerState App))
      → IsKeyed req key
      → req.cookie ≡ none
      → req.authorization ≡ none
      → any (is_key key (action_of req)) sh.keys ≡ false
      → length (out.json_object (("error", "unauthorized") ∷ [])) ≤ max_body_bytes
      → IsKeyed later key
      → action_of later ≡ action_of req
      → later.body ≡ req.body
      → (step out behind now later arrived (four_steps out behind t1 t2 t3 t4 req sh).0).1
        ≡ answered (record {
          status = 401;
          is_json = true;
          is_replay = true;
          body =
              out.as_bytes (out.from_utf8_lossy (out.json_object (("error", "unauthorized") ∷ [])));
        })
  unfolding refusal
  step_after_anonymous t1 t2 t3 t4 now req later key sh keyed no_cookie no_token fresh small again
        same_route same_body =
      ap (λ t. t.1)
        (four_steps_replayed out behind t1 t2 t3 t4 now req later key refusal sh keyed fresh
          (behind_anonymous t3 req sh.rest no_cookie no_token) refl small (omega arith)
          (omega arith) again same_route same_body).1
