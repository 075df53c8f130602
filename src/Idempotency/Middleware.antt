-- ===== src/Idempotency/Middleware.antt =====
-- crates/server/src/idempotency.rs: `idempotency_middleware` as the steps that one request takes
-- between its calls of the database, so that the steps of several requests may be interleaved. The
-- rest of the layers and the handler are one step. Lengths of bodies are bytes, times milliseconds.
use Prim.Native.Char.{code}
use Prim.Native.String.{len, [], ◌∷◌}
use mathlib.Core.List.{[] as nil, ◌∷◌ as cons, ◌++◌ as append}
use agent_dep_platform.Base.{
  ℕ, ◌+◌, ◌*◌, String, Bool, true, false, ◌&&◌, ◌||◌, Option, none, some, List, CoreResult, ok, err,
  ◌==◌, string_eq, ltb, leb, length, is_whitespace, if◌then◌else◌,
}
use agent_dep_platform.Urls.Splitting.{is_empty}
use agent_dep_platform.Access.Requests.{
  Method, post, put, patch, delete, Request, Response, Outside, action_of, json_response,
}
use agent_dep_platform.Idempotency.Keys.{
  KeyRow, StoredResponse, default_ttl_seconds, lookup, record_in_flight, finalize,
}

abbrev pub max_body_bytes : ℕ
max_body_bytes = 1024 * 1024

abbrev pub in_flight_poll_timeout : ℕ
in_flight_poll_timeout = 5000

abbrev pub is_mutation : Method → Bool
is_mutation post = true
is_mutation put = true
is_mutation patch = true
is_mutation delete = true
is_mutation _ = false

-- `s.chars().any(char::is_whitespace)`
abbrev has_whitespace : String → Bool
has_whitespace [] = false
has_whitespace (c ∷ s) = is_whitespace (code c) || has_whitespace s

unfoldable pub is_invalid_key : String → Bool
is_invalid_key key = is_empty key || ltb 255 (len key) || has_whitespace key

abbrev pub request_hash : Outside → Request → String
request_hash out req = out.sha256_hex req.body

-- `StatusCode::from_u16(status).unwrap_or(INTERNAL_SERVER_ERROR)`
abbrev pub status_code : ℕ → ℕ
status_code n = if leb 100 n && leb n 999 then n else 500

unfoldable pub replay_response : Outside → StoredResponse → Response
replay_response out stored = record {
  status = status_code stored.status;
  is_json = true;
  is_replay = true;
  body = out.as_bytes stored.body;
}

abbrev problem : Outside → ℕ → String → String → String → Response
problem out status kind what hint =
    json_response out status (cons ("code", what) (cons ("kind", kind) (cons ("hint", hint) nil)))

unfoldable pub mismatch_response : Outside → Response
mismatch_response out =
    problem out 422 "unprocessable" "idempotency.mismatch"
      "Idempotency-Key was reused with a different request body; generate a new key for each distinct request"

unfoldable pub in_flight_response : Outside → Response
in_flight_response out =
    problem out 409 "conflict" "idempotency.in_flight"
      "a previous request with the same Idempotency-Key is still being processed; retry after a short delay"

unfoldable pub error_response : Outside → String → String → Response
error_response out what hint = problem out 500 "internal" what hint

abbrev internal_error : Outside → Response
internal_error out = error_response out "internal.untyped" "internal error"

-- Where a request is.
pub data Pc : Type 0 where
  arrived claiming contending running : Pc
  finalizing : Response → Pc
  -- When the polling began, and how long the sleep before the next poll is.
  polling : ℕ → ℕ → Pc
  answered : Response → Pc

-- What the requests share: the table of keys, the state of the rest of the server, and the list of
-- the requests for which the rest has run, which no code reads.
pub record Shared (S : Type 0) : Type 0 where
  pub keys : List KeyRow
  pub rest : S
  pub runs : List Request

-- A finished row answers, with the stored response for the same body.
unfoldable pub settle : Outside → Request → StoredResponse → Pc
settle out req stored =
    if stored.request_hash == request_hash out req
    then answered (replay_response out stored)
    else answered (mismatch_response out)

-- The arms for a row that is there: `if !stored.in_flight`, and the start of the polling.
abbrev pub at_row : Outside → ℕ → Request → StoredResponse → Pc
at_row out now req stored = if stored.in_flight then polling now 10 else settle out req stored

unfoldable pub first_lookup : Outside → ℕ → Request → CoreResult (Option StoredResponse) → Pc
first_lookup out now req (err e) = answered (internal_error out)
first_lookup out now req (ok none) = claiming
first_lookup out now req (ok (some stored)) = at_row out now req stored

unfoldable pub second_lookup : Outside → ℕ → Request → CoreResult (Option StoredResponse) → Pc
second_lookup out now req (err e) = answered (internal_error out)
second_lookup out now req (ok none) =
    answered (error_response out "internal.unmapped" "idempotency row vanished after failed insert")
second_lookup out now req (ok (some stored)) = at_row out now req stored

-- `(backoff * 2).min(250 ms)`
abbrev pub doubled : ℕ → ℕ
doubled backoff = if leb (backoff * 2) 250 then backoff * 2 else 250

-- One round of `poll_or_in_flight`, after the sleep.
unfoldable pub poll_lookup : Outside → ℕ → Request → ℕ → ℕ → CoreResult (Option StoredResponse) → Pc
poll_lookup out now req start backoff (err e) = answered (internal_error out)
poll_lookup out now req start backoff (ok none) = answered (in_flight_response out)
poll_lookup out now req start backoff (ok (some stored)) =
    if stored.in_flight
    then if ltb (start + in_flight_poll_timeout) now
      then answered (in_flight_response out)
      else polling start (doubled backoff)
    else settle out req stored

unfoldable pub claimed : Outside → CoreResult Bool → Pc
claimed out (err e) = answered (internal_error out)
claimed out (ok true) = running
claimed out (ok false) = contending

-- What becomes of the handler's response: only a JSON body of at most the limit is stored.
unfoldable pub after_run : Response → Pc
after_run r =
    if ltb max_body_bytes (length r.body)
    then answered (record r { body = nil })
    else if r.is_json
    then finalizing r
    else answered r

-- The key, of a request that has one.
abbrev pub key_of : Request → String
key_of req = elim req.idempotency_key [ none ↦ "" | some key ↦ key ]

-- `poll_or_in_flight`: a list gives the time and the table that each round meets.
unfoldable pub poll_rounds : Outside → Request → List (ℕ × List KeyRow) → Pc → Pc
poll_rounds out req (cons (now, keys) rounds) (polling start backoff) =
    poll_rounds out req rounds
      (poll_lookup out now req start backoff (lookup (key_of req) (action_of req) keys))
poll_rounds out req _ pc = pc

module _ {S : Type 0} (out : Outside) (next : ℕ → Request → S → S × Response) where
  abbrev after_next : ℕ → Request → Shared S → Shared S
  after_next now req sh = record sh {
    rest = (next now req sh.rest).0;
    runs = append sh.runs (cons req nil);
  }

  -- A request that is not the middleware's business goes on.
  unfoldable pub pass_through : ℕ → Request → Shared S → Shared S × Pc
  pass_through now req sh = (after_next now req sh, answered (next now req sh.rest).1)

  -- The arm for a request with a key.
  unfoldable pub with_key : ℕ → Request → String → Shared S → Shared S × Pc
  with_key now req key sh =
      if is_invalid_key key
      then (
        sh,
        answered (
            problem out 400 "bad_request" "idempotency.invalid_key"
              "Idempotency-Key must be 1..=255 non-whitespace chars"),
      )
      else if ltb max_body_bytes (length req.body)
      then (
        sh,
        answered (
            problem out 413 "bad_request" "request.too_large"
              "request body exceeds the idempotency middleware limit"),
      )
      else (sh, first_lookup out now req (lookup key (action_of req) sh.keys))

  unfoldable pub arrive : ℕ → Request → Shared S → Shared S × Pc
  arrive now req sh =
      if is_mutation req.method
      then elim req.idempotency_key [
        | none ↦ pass_through now req sh
        | some key ↦ with_key now req key sh
      ]
      else pass_through now req sh

  -- The next step of a request.
  unfoldable pub step : ℕ → Request → Pc → Shared S → Shared S × Pc
  step now req arrived sh = arrive now req sh
  step now req claiming sh =
      let (keys, result) =
        record_in_flight (key_of req) (action_of req) (request_hash out req) default_ttl_seconds now
          sh.keys in
      (record sh { keys = keys }, claimed out result)
  step now req contending sh =
      (sh, second_lookup out now req (lookup (key_of req) (action_of req) sh.keys))
  step now req running sh = (after_next now req sh, after_run (next now req sh.rest).1)
  step now req (finalizing r) sh = (
    record sh {
      keys = finalize (key_of req) (action_of req) r.status (out.from_utf8_lossy r.body) sh.keys;
    },
    answered r,
  )
  step now req (polling start backoff) sh =
      (sh, poll_lookup out now req start backoff (lookup (key_of req) (action_of req) sh.keys))
  step now req (answered r) sh = (sh, answered r)
