-- ===== src/Accounts/Sliding.antt =====
-- What the lifetimes of Accounts/Lifetimes mean for a reader of the table `sessions`
-- (crates/core/src/infrastructure/repository/sessions_repository.rs).
use agent_dep_platform.Base.{
  ℕ, ◌+◌, ◌≤◌, ◌≡◌, String, true, not, ◌&&◌, none, List, [], ◌∷◌, arith, ok, update, All,
  find-select,
}
use agent_dep_platform.Accounts.Sessions.{
  SessionRow, seconds, absolute_ttl_secs, has_session_id, is_active, find, revoke_row, is_unrevoked,
  revoke, is_spent, gc_expired,
}
use agent_dep_platform.Accounts.Lifetimes.{
  Call, run, IsFresh, IsTimed, IsOver, run-IsOver, find_over,
}

-- Eight hours after the last session of an id started, no request finds it, however often it was
-- used, whatever was called in between and at whatever times, unless a call drew the id again.
pub find_expired :
    (id : String) (start now : ℕ) (calls : List (ℕ × Call)) (rows : List SessionRow)
    → All IsTimed rows
    → All (λ s. has_session_id id s ≡ true → s.created_at ≤ start) rows
    → IsFresh id calls
    → start + seconds absolute_ttl_secs ≤ now
    → (find id now (run calls rows)).1 ≡ ok none
find_expired id start now calls rows timed started fresh late =
    find_over id (start + seconds absolute_ttl_secs) now (run calls rows) late
      (run-IsOver id (start + seconds absolute_ttl_secs) calls rows fresh (over rows timed started))
  where
    over :
        (rows : List SessionRow)
        → All IsTimed rows
        → All (λ s. has_session_id id s ≡ true → s.created_at ≤ start) rows
        → All (IsOver id (start + seconds absolute_ttl_secs)) rows
    over [] timed started = tt
    over (s ∷ rest) timed started = (
      λ mine live. let e = started.0 mine in omega (arith, timed.0.1, e),
      over rest timed.1 started.1,
    )

-- Once a session is revoked, no request finds it, whatever is called afterwards and at whatever
-- times, unless a call draws the id again.
pub find_revoked :
    (id : String) (at now : ℕ) (calls : List (ℕ × Call)) (rows : List SessionRow)
    → IsFresh id calls
    → (find id now (run calls (revoke id at rows).0)).1 ≡ ok none
unfolding revoke
find_revoked id at now calls rows fresh =
    let revoked = dead rows in
    find_over id 0 now (run calls (revoke id at rows).0) (omega arith)
      (run-IsOver id 0 calls (revoke id at rows).0 fresh revoked)
  where
    dead :
        (rows : List SessionRow)
        → All
            (IsOver id 0)
            (update (λ s. has_session_id id s && is_unrevoked s) (revoke_row at) rows)
    dead [] = tt
    dead (s ∷ rest) = (λ mine live. ground arith, dead rest)

-- The rows that the background collection deletes are rows that no request at its time or later
-- would find: it changes the result of no `find`.
pub find-gc_expired :
    (id : String) (collected now : ℕ) (rows : List SessionRow)
    → collected ≤ now
    → (find id now (gc_expired collected rows).0).1 ≡ (find id now rows).1
unfolding find gc_expired
find-gc_expired id collected now rows le =
    let same =
      find-select (λ s. has_session_id id s && is_active now s) (λ s. not (is_spent collected s))
        rows (λ s e. ground arith) in
    ground (arith, same)
