-- ===== src/Accounts/Users.antt =====
-- crates/core/src/infrastructure/repository/users_repository.rs: `UserRepository` over the table
-- `users` as migration 019 leaves it. A call takes the clock's reading, the drawn token and the
-- hash function, and returns the table that it leaves with its result. Times are milliseconds; the
-- `CHECK` of the column `role` lets the model hold the role itself. The database answers every
-- statement that breaks no constraint.
use Prim.Native.Nat.{suc}
use agent_dep_platform.Base.{
  ℕ, String, Bool, true, false, not, ◌&&◌, ◌||◌, Option, none, some, List, [], ◌∷◌, ◌++◌,
  CoreResult, ok, err, err_schema_invalid, err_sqlx, unique, ◌==◌, string_eq, eqb, ltb, any,
  find as fetch_optional, update, sort_by, length, is_some, if◌then◌else◌,
}
use agent_dep_platform.Urls.Splitting.{is_empty}
use agent_dep_platform.Accounts.Roles.{Role, admin}

pub record UserRow : Type 0 where
  pub id : ℕ
  pub name : String
  pub role : Role
  pub token_hash : Option String
  pub created_at : ℕ
  pub last_seen_at : Option ℕ
  pub disabled_at : Option ℕ
  pub external_id : Option String
  pub token_expires_at : Option String

-- `next_id` is what `AUTOINCREMENT` gives the next row.
pub record UserTable : Type 0 where
  pub rows : List UserRow
  pub next_id : ℕ

pub record UserCreated : Type 0 where
  pub user : UserRow
  pub token : String

abbrev pub has_user_id : ℕ → UserRow → Bool
has_user_id k u = eqb u.id k

abbrev pub is_disabled : UserRow → Bool
is_disabled u = is_some u.disabled_at

-- A text column that is not NULL and holds the given text.
abbrev pub holds : Option String → String → Bool
holds none s = false
holds (some t) s = t == s

abbrev pub has_hash : String → UserRow → Bool
has_hash hash u = holds u.token_hash hash

abbrev has_name : String → UserRow → Bool
has_name name u = u.name == name

abbrev has_external_id : String → UserRow → Bool
has_external_id x u = holds u.external_id x

abbrev is_enabled_id : ℕ → UserRow → Bool
is_enabled_id k u = has_user_id k u && not (is_disabled u)

abbrev new_user : ℕ → ℕ → String → Role → Option String → Option String → UserRow
new_user id now name role hash external = record {
  id = id;
  name = name;
  role = role;
  token_hash = hash;
  created_at = now;
  last_seen_at = none;
  disabled_at = none;
  external_id = external;
  token_expires_at = none;
}

abbrev inserted : UserRow → UserTable → UserTable
inserted u t = record { rows = t.rows ++ (u ∷ []); next_id = suc t.next_id }

abbrev with_rows : UserTable → List UserRow → UserTable
with_rows t rows = record t { rows = rows }

-- `UPDATE users SET token_hash = hash` of the rows that pass a test; a second row with the same
-- hash is refused by the column's `UNIQUE`.
abbrev hash_taken : String → (UserRow → Bool) → List UserRow → Bool
hash_taken hash chosen rows = any chosen rows && any (λ u. has_hash hash u && not (chosen u)) rows

abbrev give_hash : Option String → UserRow → UserRow
give_hash hash u = record u { token_hash = hash }

-- `Ok(None)` for a row that is disabled.
abbrev pub if_enabled : Option UserRow → Option UserRow
if_enabled none = none
if_enabled (some u) = if is_disabled u then none else some u

unfoldable pub touch_last_seen : ℕ → ℕ → UserTable → UserTable
touch_last_seen user_id now t =
    with_rows t (update (has_user_id user_id) (λ u. record u { last_seen_at = some now }) t.rows)

unfoldable pub disable : ℕ → ℕ → UserTable → UserTable × Bool
disable user_id now t = (
  with_rows t (update (is_enabled_id user_id) (λ u. record u { disabled_at = some now }) t.rows),
  any (is_enabled_id user_id) t.rows,
)

unfoldable pub set_token_expiry : ℕ → String → UserTable → UserTable
set_token_expiry user_id expires_at t =
    let value : Option String = if is_empty expires_at then none else some expires_at in
    with_rows t (update (has_user_id user_id) (λ u. record u { token_expires_at = value }) t.rows)

unfoldable pub invalidate_token : ℕ → UserTable → UserTable
invalidate_token user_id t = with_rows t (update (has_user_id user_id) (give_hash none) t.rows)

unfoldable pub store_token_hash : ℕ → String → UserTable → UserTable × CoreResult (Unit {0})
store_token_hash user_id hash t =
    if hash_taken hash (has_user_id user_id) t.rows
    then (t, err (err_sqlx unique))
    else (with_rows t (update (has_user_id user_id) (give_hash (some hash)) t.rows), ok tt)

unfoldable pub find_by_id : ℕ → UserTable → CoreResult (Option UserRow)
find_by_id id t = ok (fetch_optional (has_user_id id) t.rows)

unfoldable pub find_by_external_id : String → UserTable → CoreResult (Option UserRow)
find_by_external_id x t =
    if is_empty x then ok none else ok (if_enabled (fetch_optional (has_external_id x) t.rows))

unfoldable pub list : UserTable → CoreResult (List UserRow)
list t = ok (sort_by (λ u. u.id) t.rows)

-- The index on `external_id` is not unique, so only a name that is taken refuses the row; the
-- source reports that as a taken external id.
unfoldable pub create_with_external_id :
    ℕ → String → Role → String → UserTable → UserTable × CoreResult UserRow
create_with_external_id now name role external_id t =
    let user = new_user t.next_id now name role none (some external_id) in
    if is_empty name
    then (t, err (err_schema_invalid "users.name"))
    else if is_empty external_id
    then (t, err (err_schema_invalid "users.external_id"))
    else if any (has_name name) t.rows
    then (t, err (err_schema_invalid "users.external_id"))
    else (inserted user t, ok user)

module _ (sha256_hex : String → String) where
  unfoldable pub create :
      String → ℕ → String → Role → UserTable → UserTable × CoreResult UserCreated
  create token now name role t =
      let hash = sha256_hex token in
      let user = new_user t.next_id now name role (some hash) none in
      if is_empty name
      then (t, err (err_schema_invalid "users.name"))
      else if any (has_name name) t.rows || any (has_hash hash) t.rows
      then (t, err (err_schema_invalid "users.name"))
      else (inserted user t, ok (record { user = user; token = token }))

  unfoldable pub find_by_token : String → UserTable → CoreResult (Option UserRow)
  find_by_token token t = ok (if_enabled (fetch_optional (has_hash (sha256_hex token)) t.rows))

  unfoldable pub rotate_token : String → ℕ → UserTable → UserTable × CoreResult (Option String)
  rotate_token token user_id t =
      let hash = sha256_hex token in
      if hash_taken hash (is_enabled_id user_id) t.rows then (t, err (err_sqlx unique)) else (
        with_rows t (update (is_enabled_id user_id) (give_hash (some hash)) t.rows),
        ok (if any (is_enabled_id user_id) t.rows then some token else none),
      )

  -- The token that `create` draws is replaced by the legacy token in a statement of its own.
  unfoldable pub adopt_legacy :
      String → UserTable → CoreResult UserCreated → UserTable × CoreResult Bool
  adopt_legacy legacy after (err e) = (after, err e)
  adopt_legacy legacy after (ok created) =
      let hash = sha256_hex legacy in
      let mine = has_user_id created.user.id in
      if hash_taken hash mine after.rows
      then (after, err (err_sqlx unique))
      else (with_rows after (update mine (give_hash (some hash)) after.rows), ok true)

  unfoldable pub migrate_legacy_token :
      String → ℕ → String → UserTable → UserTable × CoreResult Bool
  migrate_legacy_token token now legacy t =
      let (after, result) = create token now "admin" admin t in
      if is_empty legacy
      then (t, ok false)
      else if ltb 0 (length t.rows)
      then (t, ok false)
      else adopt_legacy legacy after result
