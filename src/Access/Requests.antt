-- ===== src/Access/Requests.antt =====
-- What the layers of crates/server/src/auth.rs and crates/server/src/idempotency.rs read of a
-- request and what they answer; the server's state, as far as they use it; and what they take from
-- the standard library, `chrono`, `sha2`, `serde_json` and the environment.
use Prim.Native.String.{◌++◌}
use mathlib.Core.List.{◌++◌ as append}
use agent_dep_platform.Base.{
  ℕ, ◌≡◌, ◌<◌, String, Bool, true, false, Option, none, List, [], ◌∷◌, All,
}
use agent_dep_platform.Accounts.Roles.{Role}
use agent_dep_platform.Accounts.Users.{UserTable}
use agent_dep_platform.Accounts.Sessions.{SessionRow}

-- `axum::http::Method`; other names are extension methods.
pub data Method : Type 0 where
  get head options post put patch delete trace connect : Method
  extension : String → Method

-- `method.to_string()`
abbrev pub method_name : Method → String
method_name get = "GET"
method_name head = "HEAD"
method_name options = "OPTIONS"
method_name post = "POST"
method_name put = "PUT"
method_name patch = "PATCH"
method_name delete = "DELETE"
method_name trace = "TRACE"
method_name connect = "CONNECT"
method_name (extension name) = name

-- The headers that the layers read, each as `get(..).and_then(|v| v.to_str().ok())`.
pub record Request : Type 0 where
  pub method : Method
  pub path : String
  pub cookie : Option String
  pub authorization : Option String
  pub x_csrf_token : Option String
  pub idempotency_key : Option String
  pub body : List ℕ

pub record Response : Type 0 where
  pub status : ℕ
  pub is_json : Bool
  pub is_replay : Bool
  pub body : List ℕ

pub record AuthenticatedUser : Type 0 where
  pub id : ℕ
  pub name : String
  pub role : Role

-- The request's extensions: the user, and the `CsrfContext` with its optional token.
pub record Extensions : Type 0 where
  pub user : Option AuthenticatedUser
  pub csrf : Option (Option String)

abbrev pub no_extensions : Extensions
no_extensions = record { user = none; csrf = none }

-- What `record_sync` is asked to write, with the outcome `Error`.
pub record AuditEntry : Type 0 where
  pub actor : String
  pub action : String
  pub resource : Option String
  pub details : List (String × String)

-- `App` is the part of the state that only the handlers touch.
pub record ServerState (App : Type 0) : Type 0 where
  pub users : UserTable
  pub sessions : List SessionRow
  pub trail : List AuditEntry
  pub app : App

-- What the code takes from outside: a digest in hexadecimal, the time of an RFC 3339 text in
-- milliseconds, the bytes of a text and back, a JSON object of texts, and the variable
-- AGENCY_BEARER_FALLBACK. UTF-8 is injective, and a byte is below 256.
pub record Outside : Type 0 where
  pub sha256_hex : List ℕ → String
  pub parse_from_rfc3339 : String → Option ℕ
  pub as_bytes : String → List ℕ
  pub from_utf8_lossy : List ℕ → String
  pub json_object : List (String × String) → List ℕ
  pub agency_bearer_fallback : Option String
  pub as_bytes-injective : (s t : String) → as_bytes s ≡ as_bytes t → s ≡ t
  pub as_bytes-bounded : (s : String) → All (λ b. b < 256) (as_bytes s)

-- A handler, or the rest of the layers.
abbrev pub Next : Type 0 → Type 0
Next App = Request → Extensions → ServerState App → ServerState App × Response

abbrev pub action_of : Request → String
action_of req = method_name req.method ++ (" " ++ req.path)

abbrev pub audited : {App : Type 0} → AuditEntry → ServerState App → ServerState App
audited entry st = record st { trail = append st.trail (entry ∷ []) }

abbrev pub json_response : Outside → ℕ → List (String × String) → Response
json_response out status fields = record {
  status = status;
  is_json = true;
  is_replay = false;
  body = out.json_object fields;
}
