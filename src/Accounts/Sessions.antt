-- ===== src/Accounts/Sessions.antt =====
-- crates/core/src/infrastructure/repository/sessions_repository.rs: `SessionRepository` over the
-- rows of the table `sessions`. A call takes the clock's reading and the random texts that it
-- draws, and returns the rows that it leaves with its result. Times are milliseconds: the table's
-- RFC 3339 texts with milliseconds sort as the numbers do.
use mathlib.Core.List.{reverse}
use agent_dep_platform.Base.{
  ℕ, ◌+◌, ◌*◌, String, Bool, not, ◌&&◌, ◌||◌, Option, none, some, List, [], ◌∷◌, ◌++◌, CoreResult,
  ok, err, err_schema_invalid, err_sqlx, unique, foreign_key, ◌==◌, string_eq, eqb, ltb, leb, any,
  find as fetch_optional, select, update, count, sort_by, map, is_some, if◌then◌else◌,
}
use agent_dep_platform.Accounts.Users.{UserRow, has_user_id}

abbrev pub idle_ttl_secs : ℕ
idle_ttl_secs = 3600

abbrev pub absolute_ttl_secs : ℕ
absolute_ttl_secs = 8 * 3600

-- `Duration::seconds`, in milliseconds.
abbrev pub seconds : ℕ → ℕ
seconds n = n * 1000

pub record SessionRow : Type 0 where
  pub id : String
  pub user_id : ℕ
  pub csrf_token : String
  pub created_at : ℕ
  pub last_used_at : ℕ
  pub idle_expires_at : ℕ
  pub absolute_expires_at : ℕ
  pub revoked_at : Option ℕ
  pub ip : Option String
  pub user_agent : Option String

pub record SessionSummary : Type 0 where
  pub id : String
  pub created_at : ℕ
  pub last_used_at : ℕ
  pub idle_expires_at : ℕ
  pub absolute_expires_at : ℕ
  pub ip : Option String
  pub user_agent : Option String

abbrev pub has_session_id : String → SessionRow → Bool
has_session_id id s = s.id == id

-- `revoked_at IS NULL AND idle_expires_at > now AND absolute_expires_at > now`
abbrev pub is_active : ℕ → SessionRow → Bool
is_active now s =
    not (is_some s.revoked_at) && ltb now s.idle_expires_at && ltb now s.absolute_expires_at

abbrev pub new_session : String → String → ℕ → ℕ → Option String → Option String → SessionRow
new_session id csrf now user_id ip user_agent = record {
  id = id;
  user_id = user_id;
  csrf_token = csrf;
  created_at = now;
  last_used_at = now;
  idle_expires_at = now + seconds idle_ttl_secs;
  absolute_expires_at = now + seconds absolute_ttl_secs;
  revoked_at = none;
  ip = ip;
  user_agent = user_agent;
}

-- The primary key is `id`, and `user_id` refers to the table `users`.
unfoldable pub create :
    List UserRow
    → String
    → String
    → ℕ
    → ℕ
    → Option String
    → Option String
    → List SessionRow
    → List SessionRow × CoreResult (String × SessionRow)
create users id csrf now user_id ip user_agent rows =
    let row = new_session id csrf now user_id ip user_agent in
    if any (has_session_id id) rows
    then (rows, err (err_sqlx unique))
    else if not (any (has_user_id user_id) users)
    then (rows, err (err_sqlx foreign_key))
    else (rows ++ (row ∷ []), ok (id, row))

-- The sliding touch.
unfoldable pub touch : ℕ → SessionRow → SessionRow
touch now s = record s { last_used_at = now; idle_expires_at = now + seconds idle_ttl_secs }

unfoldable pub find :
    String → ℕ → List SessionRow → List SessionRow × CoreResult (Option SessionRow)
unfolding touch
find id now rows = elim (fetch_optional (λ s. has_session_id id s && is_active now s) rows) [
  | none ↦ (rows, ok none)
  | some row ↦
      if leb row.absolute_expires_at now
      then (rows, err (err_schema_invalid "sessions.absolute_expires_at"))
      else (update (has_session_id id) (touch now) rows, ok (some (touch now row)))
]

abbrev pub revoke_row : ℕ → SessionRow → SessionRow
revoke_row now s = record s { revoked_at = some now }

abbrev pub is_unrevoked : SessionRow → Bool
is_unrevoked s = not (is_some s.revoked_at)

unfoldable pub revoke : String → ℕ → List SessionRow → List SessionRow × Bool
revoke id now rows =
    let hit : SessionRow → Bool = λ s. has_session_id id s && is_unrevoked s in
    (update hit (revoke_row now) rows, any hit rows)

abbrev pub belongs_to : ℕ → SessionRow → Bool
belongs_to user_id s = eqb s.user_id user_id

unfoldable pub revoke_all_for_user : ℕ → ℕ → List SessionRow → List SessionRow × ℕ
revoke_all_for_user user_id now rows =
    let hit : SessionRow → Bool = λ s. belongs_to user_id s && is_unrevoked s in
    (update hit (revoke_row now) rows, count hit rows)

-- The rows that `gc_expired` deletes.
abbrev pub is_spent : ℕ → SessionRow → Bool
is_spent now s = is_some s.revoked_at || ltb s.idle_expires_at now || ltb s.absolute_expires_at now

unfoldable pub gc_expired : ℕ → List SessionRow → List SessionRow × ℕ
gc_expired now rows = (select (λ s. not (is_spent now s)) rows, count (is_spent now) rows)

abbrev summary : SessionRow → SessionSummary
summary s = record {
  id = s.id;
  created_at = s.created_at;
  last_used_at = s.last_used_at;
  idle_expires_at = s.idle_expires_at;
  absolute_expires_at = s.absolute_expires_at;
  ip = s.ip;
  user_agent = s.user_agent;
}

-- `ORDER BY last_used_at DESC`
unfoldable pub list_active_for_user : ℕ → ℕ → List SessionRow → List SessionSummary
list_active_for_user user_id now rows = map summary (
    reverse
      (sort_by (λ s. s.last_used_at) (select (λ s. belongs_to user_id s && is_active now s) rows)))
