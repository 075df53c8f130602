-- ===== src/Accounts/Staying.antt =====
-- That a session stays usable while it is used (the table `sessions`,
-- crates/core/src/infrastructure/repository/sessions_repository.rs).
use agent_dep_platform.Base.{
  ℕ, ◌+◌, ◌≤◌, ◌<◌, ◌≡◌, ◌≢◌, ◌⊎◌, inl, inr, refl, ◌∙◌, ap, String, Bool, true, false, not, ◌&&◌,
  Option, none, some, List, [], ◌∷◌, arith, ok, find as fetch_optional, update, All,
  find-update_kept, find-append_kept, find-select_kept, eq_iff, find-and, find-passes,
  if◌then◌else◌, Bool-cases,
}
use agent_dep_platform.Accounts.Users.{UserRow}
use agent_dep_platform.Accounts.Sessions.{
  SessionRow, seconds, idle_ttl_secs, has_session_id, is_active, new_session, create, touch, find,
  revoke_row, is_unrevoked, revoke, belongs_to, revoke_all_for_user, is_spent, gc_expired,
}
use agent_dep_platform.Accounts.Lifetimes.{
  Call, creates, finds, revokes, revokes_all, collects, apply, run,
}

-- A row that is not idle until a time, and does not expire before another.
abbrev pub Lasts : ℕ → String → ℕ → ℕ → SessionRow → Type 0
Lasts user_id csrf until far s =
    (s.user_id ≡ user_id)
    × (s.csrf_token ≡ csrf)
    × (s.revoked_at ≡ none)
    × (until < s.idle_expires_at)
    × (far < s.absolute_expires_at)

-- The session of an id, with such a row.
abbrev pub Alive : String → ℕ → String → ℕ → ℕ → List SessionRow → Type 0
Alive id user_id csrf until far rows =
    (row : SessionRow) × (fetch_optional (has_session_id id) rows ≡ some row)
    × Lasts user_id csrf until far row

-- Calls that do not revoke the session of a user.
abbrev Spares : String → ℕ → Call → Type 0
Spares id user_id (revokes other) = other ≢ id
Spares id user_id (revokes_all other) = other ≢ user_id
Spares id user_id _ = Unit

-- Such calls, each within an hour before a time.
abbrev pub IsQuiet : String → ℕ → ℕ → List (ℕ × Call) → Type 0
IsQuiet id user_id until calls =
    All (λ c. (c.0 ≤ until) × (until < c.0 + seconds idle_ttl_secs) × Spares id user_id c.1) calls

touch-Lasts :
    (user_id : ℕ) (csrf : String) (until far now : ℕ) (s : SessionRow)
    → until < now + seconds idle_ttl_secs
    → Lasts user_id csrf until far s
    → Lasts user_id csrf until far (touch now s)
unfolding touch
touch-Lasts user_id csrf until far now s near (u, c, r, i, a) = (u, c, r, near, a)

touch_id :
    (id : String) (now : ℕ) (s : SessionRow) → has_session_id id (touch now s) ≡ has_session_id id s
unfolding touch
touch_id id now s = refl

find_effect :
    (id : String) (now : ℕ) (rows : List SessionRow)
    → ((find id now rows).0 ≡ rows)
      ⊎ ((find id now rows).0 ≡ update (has_session_id id) (touch now) rows)
unfolding find
find_effect id now rows = ground arith

module _ (id : String) (user_id : ℕ) (csrf : String) (until far : ℕ) where
  update-Alive :
      (hit : SessionRow → Bool) (f : SessionRow → SessionRow) (rows : List SessionRow)
      → ((s : SessionRow) → has_session_id id (f s) ≡ has_session_id id s)
      → ((s : SessionRow)
          → has_session_id id s ≡ true
          → hit s ≡ true
          → Lasts user_id csrf until far s
          → Lasts user_id csrf until far (f s))
      → Alive id user_id csrf until far rows
      → Alive id user_id csrf until far (update hit f rows)
  update-Alive hit f rows same keeps (r, found, lasts) = (
    if hit r then f r else r,
    find-update_kept (has_session_id id) hit f rows r same found,
    let mine = find-passes (has_session_id id) rows r found in
        elim (Bool-cases (hit r)) [
          | inl yes_ ↦ rw yes_ (keeps r mine yes_ lasts)
          | inr no_ ↦ rw no_ lasts
        ],
  )

  find-Alive :
      (other : String) (now : ℕ) (rows : List SessionRow)
      → until < now + seconds idle_ttl_secs
      → Alive id user_id csrf until far rows
      → Alive id user_id csrf until far (find other now rows).0
  find-Alive other now rows near a =
      let later =
        update-Alive (has_session_id other) (touch now) rows (touch_id id now)
          (λ s mine e. touch-Lasts user_id csrf until far now s near) a in
      elim (find_effect other now rows) [ inl same ↦ rw same a | inr touched ↦ rw touched later ]

  create-Alive :
      (users : List UserRow) (new text : String) (now owner : ℕ) (ip ua : Option String)
      (rows : List SessionRow)
      → Alive id user_id csrf until far rows
      → Alive id user_id csrf until far (create users new text now owner ip ua rows).0
  unfolding create
  create-Alive users new text now owner ip ua rows (r, found, lasts) = (
    r,
    let longer =
          find-append_kept (has_session_id id) rows (new_session new text now owner ip ua ∷ []) r
            found in
        ground arith,
    lasts,
  )

  -- Revoking other sessions leaves this one.
  revoke-Alive :
      (hit : SessionRow → Bool) (now : ℕ) (rows : List SessionRow)
      → ((s : SessionRow)
          → has_session_id id s ≡ true
          → Lasts user_id csrf until far s
          → hit s ≡ false)
      → Alive id user_id csrf until far rows
      → Alive id user_id csrf until far (update hit (revoke_row now) rows)
  revoke-Alive hit now rows misses a =
      update-Alive hit (revoke_row now) rows (λ s. refl)
        (λ s mine e lasts. let f = misses s mine lasts in cc) a

  apply-Alive :
      (now : ℕ) (c : Call) (rows : List SessionRow)
      → until ≤ far
      → (now ≤ until) × (until < now + seconds idle_ttl_secs) × Spares id user_id c
      → Alive id user_id csrf until far rows
      → Alive id user_id csrf until far (apply now c rows)
  unfolding apply revoke revoke_all_for_user gc_expired
  apply-Alive now (creates users new text owner ip ua) rows within q a =
      create-Alive users new text now owner ip ua rows a
  apply-Alive now (finds other) rows within (le, near, q) a = find-Alive other now rows near a
  apply-Alive now (revokes other) rows within (le, near, q) a =
      revoke-Alive (λ s. has_session_id other s && is_unrevoked s) now rows
        (λ s mine lasts. ground (arith, eq_iff s.id other, eq_iff s.id id)) a
  apply-Alive now (revokes_all other) rows within (le, near, q) a =
      revoke-Alive (λ s. belongs_to other s && is_unrevoked s) now rows
        (λ s mine lasts. let u = lasts.0 in ground arith) a
  apply-Alive now collects rows within (le, near, q) (r, found, lasts) = (
    r,
    find-select_kept (has_session_id id) (λ s. not (is_spent now s)) rows r found (ground arith),
    lasts,
  )

  run-Alive :
      (calls : List (ℕ × Call)) (rows : List SessionRow)
      → until ≤ far
      → IsQuiet id user_id until calls
      → Alive id user_id csrf until far rows
      → Alive id user_id csrf until far (run calls rows)
  unfolding run
  run-Alive [] rows within quiet a = a
  run-Alive ((now, c) ∷ calls) rows within quiet a =
      run-Alive calls (apply now c rows) within quiet.1 (apply-Alive now c rows within quiet.0 a)

-- A use of a row that is not idle and not expired.
find-touch :
    (id : String) (user_id : ℕ) (csrf : String) (now far : ℕ) (rows : List SessionRow)
    (r : SessionRow)
    → now ≤ far
    → fetch_optional (has_session_id id) rows ≡ some r
    → Lasts user_id csrf now far r
    → find id now rows ≡ (update (has_session_id id) (touch now) rows, ok (some (touch now r)))
unfolding find
find-touch id user_id csrf now far rows r within found lasts =
    let live = find-and (has_session_id id) (is_active now) rows r found (ground arith) in
    rw (find, live) (ground arith)

touch_idle :
    (now : ℕ) (s : SessionRow) → (touch now s).idle_expires_at ≡ now + seconds idle_ttl_secs
unfolding touch
touch_idle now s = refl

touched_Lasts :
    (user_id : ℕ) (csrf : String) (now far later : ℕ) (s : SessionRow)
    → later < now + seconds idle_ttl_secs
    → Lasts user_id csrf now far s
    → Lasts user_id csrf later far (touch now s)
unfolding touch
touched_Lasts user_id csrf now far later s near (u, c, r, i, a) = (u, c, r, near, a)

-- A session that is not idle at a time, and whose absolute expiry is later than `far`, is found at
-- that time, with its user and its CSRF token, whatever calls came within the hour before, the
-- collection and other requests included, unless one of them revoked it or all sessions of its
-- user. After that the session is not idle at any `later` that is less than an hour after, and its
-- absolute expiry is still later than `far`: as long as `far` is not reached, the same holds of the
-- next use.
pub find_used :
    (id : String) (user_id : ℕ) (csrf : String) (now far later : ℕ) (calls : List (ℕ × Call))
    (rows : List SessionRow)
    → now ≤ far
    → later < now + seconds idle_ttl_secs
    → IsQuiet id user_id now calls
    → Alive id user_id csrf now far rows
    → ((s : SessionRow) × ((find id now (run calls rows)).1 ≡ ok (some s))
        × (s.user_id ≡ user_id)
        × (s.csrf_token ≡ csrf)
        × (s.idle_expires_at ≡ now + seconds idle_ttl_secs))
      × Alive id user_id csrf later far (find id now (run calls rows)).0
unfolding touch
find_used id user_id csrf now far later calls rows within near quiet alive =
    let (r, found, lasts) = run-Alive id user_id csrf now far calls rows within quiet alive in
    let used = find-touch id user_id csrf now far (run calls rows) r within found lasts in
    (
      (touch now r, ap (λ t. t.1) used, lasts.0, lasts.1, touch_idle now r),
      rw used (
        touch now r,
        find-update_kept (has_session_id id) (has_session_id id) (touch now) (run calls rows) r
              (touch_id id now) found
            ∙ ap (λ b. some (if b then touch now r else r))
                (find-passes (has_session_id id) (run calls rows) r found),
        touched_Lasts user_id csrf now far later r near lasts,
      ),
    )
