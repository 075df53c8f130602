-- ===== src/Idempotency/Tests.antt =====
-- Concrete requests with a key (crates/server/src/idempotency.rs), and the theorems at them.
use Prim.Native.Nat.{zero, suc}
use agent_dep_platform.Base.{
  ℕ, ◌+◌, ◌≤◌, ◌≡◌, refl, ap, true, false, none, some, List, [], ◌∷◌, arith, length,
}
use agent_dep_platform.Accounts.Roles.{allow_operator}
use agent_dep_platform.Access.Requests.{Request, Response, ServerState, Next, post}
use agent_dep_platform.Access.Concrete.{outside}
use agent_dep_platform.Idempotency.Keys.{KeyRow, in_flight_row}
use agent_dep_platform.Idempotency.Middleware.{
  arrived, polling, answered, Shared, is_invalid_key, step, poll_rounds, doubled,
}
use agent_dep_platform.Idempotency.AtMostOnce.{run, rows_of, runs_of, run_at_most_once}
use agent_dep_platform.Idempotency.Replays.{IsKeyed}
use agent_dep_platform.Idempotency.Storing.{four_steps}
use agent_dep_platform.Idempotency.Polling.{Slept, poll_rounds_terminates}
use agent_dep_platform.Idempotency.Ordering.{behind, step_after_anonymous}

abbrev deploy : Request
deploy = record {
  method = post;
  path = "/v1/deploys";
  cookie = none;
  authorization = none;
  x_csrf_token = none;
  idempotency_key = some "k1";
  body = 123 ∷ 125 ∷ [];
}

abbrev signed : Request
signed = record deploy { cookie = some "agency_session=s"; x_csrf_token = some "t" }

-- A rest of the server that counts its runs and answers with JSON.
abbrev counting : ℕ → Request → ℕ → ℕ × Response
counting now req n = (suc n, record { status = 201; is_json = true; is_replay = false; body = [] })

abbrev empty : Shared ℕ
empty = record { keys = []; rest = 0; runs = [] }

-- Both requests arrive before either claims the key.
abbrev schedule : List (ℕ × ℕ)
schedule = (0, 1) ∷ (1, 2) ∷ (1, 3) ∷ (0, 4) ∷ (0, 5) ∷ (1, 6) ∷ (1, 7) ∷ (0, 20) ∷ (0, 50) ∷ []

run_at_most_once_example :
    runs_of "k1" "POST /v1/deploys"
        (run outside counting schedule empty ((deploy, arrived) ∷ (deploy, arrived) ∷ [])).0
      + rows_of "k1" "POST /v1/deploys" empty
    ≤ 1
run_at_most_once_example =
    run_at_most_once "k1" "POST /v1/deploys" outside counting schedule empty
      ((deploy, arrived) ∷ (deploy, arrived) ∷ []) refl (omega arith) (refl, (refl, tt))

abbrev claimed_row : KeyRow
claimed_row = in_flight_row "k1" "POST /v1/deploys" "digest" 86400 1

deploy-IsKeyed : IsKeyed deploy "k1"
unfolding is_invalid_key
deploy-IsKeyed = (refl, refl, refl, omega arith)

signed-IsKeyed : IsKeyed signed "k1"
unfolding is_invalid_key
signed-IsKeyed = (refl, refl, refl, omega arith)

abbrev created : Response
created = record { status = 201; is_json = true; is_replay = false; body = [] }

-- A row that stays in flight, polled every quarter of a second.
rounds_from : ℕ → ℕ → List (ℕ × List KeyRow)
rounds_from zero last = []
rounds_from (suc n) last = (last + 250, claimed_row ∷ []) ∷ rounds_from n (last + 250)

rounds_from-Slept : (n last backoff : ℕ) → backoff ≤ 250 → Slept last backoff (rounds_from n last)
unfolding rounds_from
rounds_from-Slept zero last backoff h = tt
rounds_from-Slept (suc n) last backoff h =
    (omega (arith, h), rounds_from-Slept n (last + 250) (doubled backoff) (ground arith))

length-rounds_from : (n last : ℕ) → length (rounds_from n last) ≡ n
unfolding rounds_from
length-rounds_from zero last = refl
length-rounds_from (suc n) last = ap suc (length-rounds_from n (last + 250))

poll_rounds_terminates_example :
    (r : Response) × (poll_rounds outside deploy (rounds_from 501 0) (polling 0 10) ≡ answered r)
poll_rounds_terminates_example =
    poll_rounds_terminates outside deploy (rounds_from 501 0) 0
      (rounds_from-Slept 501 0 10 (omega arith)) (omega (arith, length-rounds_from 501 0))

-- A handler of the server, which does not run here.
abbrev handler : Next ℕ
handler req ext st = (st, record { status = 201; is_json = true; is_replay = false; body = [] })

abbrev server : Shared (ServerState ℕ)
server = record {
  keys = [];
  rest = record { users = record { rows = []; next_id = 1 }; sessions = []; trail = []; app = 0 };
  runs = [];
}

step_after_anonymous_example :
    (step outside
      (behind outside allow_operator handler)
      9
      signed
      arrived
      (four_steps outside (behind outside allow_operator handler) 1 2 3 4 deploy server).0).1
    ≡ answered
        (record { status = 401; is_json = true; is_replay = true; body = outside.as_bytes "text" })
step_after_anonymous_example =
    step_after_anonymous outside allow_operator handler 1 2 3 4 9 deploy signed "k1" server
      deploy-IsKeyed refl refl refl (omega arith) signed-IsKeyed refl refl
