-- ===== src/Idempotency/Keys.antt =====
-- crates/core/src/infrastructure/repository/idempotency_repository.rs: `IdempotencyRepository` over
-- the rows of the table `idempotency_keys`. Times are milliseconds.
use mathlib.Core.Option
use agent_dep_platform.Base.{
  ℕ, ◌+◌, ◌*◌, ◌%◌, String, Bool, true, false, not, ◌&&◌, Option, none, some, List, [], ◌∷◌, ◌++◌,
  CoreResult, ok, ◌==◌, string_eq, ltb, any, find, select, update, count, is_some, if◌then◌else◌,
}

abbrev pub default_ttl_seconds : ℕ
default_ttl_seconds = 24 * 60 * 60

pub record KeyRow : Type 0 where
  pub key : String
  pub route : String
  pub request_hash : String
  pub response_status : Option ℕ
  pub response_body : Option String
  pub created_at : ℕ
  pub expires_at : ℕ

pub record StoredResponse : Type 0 where
  pub status : ℕ
  pub body : String
  pub request_hash : String
  pub in_flight : Bool

abbrev pub is_key : String → String → KeyRow → Bool
is_key key route r = r.key == key && r.route == route

-- `n as u16` of the status.
abbrev pub stored_response : KeyRow → StoredResponse
stored_response r = record {
  status = elim r.response_status [ none ↦ 0 | some n ↦ n % 65536 ];
  body = elim r.response_body [ none ↦ "" | some b ↦ b ];
  request_hash = r.request_hash;
  in_flight = not (is_some r.response_status);
}

unfoldable pub lookup : String → String → List KeyRow → CoreResult (Option StoredResponse)
lookup key route rows = ok (Option.map stored_response (find (is_key key route) rows))

abbrev pub in_flight_row : String → String → String → ℕ → ℕ → KeyRow
in_flight_row key route request_hash ttl_seconds now = record {
  key = key;
  route = route;
  request_hash = request_hash;
  response_status = none;
  response_body = none;
  created_at = now;
  expires_at = now + ttl_seconds * 1000;
}

-- The primary key is the key with the route: a row that is there makes the insert fail, `Ok(false)`.
unfoldable pub record_in_flight :
    String → String → String → ℕ → ℕ → List KeyRow → List KeyRow × CoreResult Bool
record_in_flight key route request_hash ttl_seconds now rows =
    let row = in_flight_row key route request_hash ttl_seconds now in
    if any (is_key key route) rows then (rows, ok false) else (rows ++ (row ∷ []), ok true)

abbrev pub finished : ℕ → String → KeyRow → KeyRow
finished status body r = record r { response_status = some status; response_body = some body }

unfoldable pub finalize : String → String → ℕ → String → List KeyRow → List KeyRow
finalize key route status body rows = update (is_key key route) (finished status body) rows

unfoldable pub gc_expired : ℕ → List KeyRow → List KeyRow × ℕ
gc_expired now rows =
    (select (λ r. not (ltb r.expires_at now)) rows, count (λ r. ltb r.expires_at now) rows)
