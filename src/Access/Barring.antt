-- ===== src/Access/Barring.antt =====
-- A disabled user is shut out: the table `users` and the layers of crates/server/src/auth.rs
-- together.
use agent_dep_platform.Base.{
  ℕ, ◌<◌, ◌≡◌, ◌≢◌, String, false, Option, none, some, List, arith, eqb_iff, ok-injective,
  find as fetch_optional,
}
use agent_dep_platform.Accounts.Users.{
  UserRow, UserTable, has_user_id, has_hash, is_disabled, find_by_token, find_by_id, disable,
  if_enabled,
}
use agent_dep_platform.Accounts.Sessions.{SessionRow}
use agent_dep_platform.Accounts.Disabling.{Call, run, disabled_after}
use agent_dep_platform.Access.Requests.{Request, Outside}
use agent_dep_platform.Access.Guards.{Evidence, by_session, by_token}

enabled_found :
    (o : Option UserRow) (u : UserRow)
    → if_enabled o ≡ some u
    → (o ≡ some u) × (is_disabled u ≡ false)
enabled_found none u h = cc
enabled_found (some x) u h = ground arith

-- After a user is disabled, no request is ever taken to be that user's, by a session or by a
-- token, whatever is called on the table of users in between and whatever sessions there are.
pub Evidence-disabled :
    (out : Outside) (hash : String → String) (k at now : ℕ) (calls : List Call) (t : UserTable)
    (req : Request) (sessions : List SessionRow) (user : UserRow) (token : Option String)
    → k < t.next_id
    → Evidence out now req (run hash calls (disable k at t).0) sessions user token
    → user.id ≢ k
Evidence-disabled out hash k at now calls t req sessions user token le
      (by_session {row = row} cookie live owner enabled) same =
    let found : fetch_optional (has_user_id row.user_id) (run hash calls (disable k at t).0).rows
        ≡ some user =
      unfold find_by_id in ok-injective owner in
    let off =
      disabled_after k hash at calls t user (has_user_id row.user_id) le found
        ((eqb_iff user.id k).1 same) in
    cc
Evidence-disabled out hash k at now calls t req sessions user token le
      (by_token {token = given_token} given owner current valid) same =
    let digest = out.sha256_hex (out.as_bytes given_token) in
    let seen : if_enabled
          (fetch_optional (has_hash digest) (run hash calls (disable k at t).0).rows)
        ≡ some user =
      unfold find_by_token in ok-injective owner in
    let (found, enabled) = enabled_found _ user seen in
    let off =
      disabled_after k hash at calls t user (has_hash digest) le found
        ((eqb_iff user.id k).1 same) in
    cc
