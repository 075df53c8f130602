-- ===== src/Accounts/Lifetimes.antt =====
-- How long a session lives, whatever is called on the table `sessions`
-- (crates/core/src/infrastructure/repository/sessions_repository.rs).
use mathlib.Core.Path.{subst}
use agent_dep_platform.Base.{
  ℕ, ◌+◌, ◌≤◌, ◌≡◌, inl, inr, refl, String, Bool, true, false, not, ◌&&◌, Option, none, List, [],
  ◌∷◌, arith, ok, All, All-append, All-update, All-select, All-imp, find-absent, Bool-cases,
}
use agent_dep_platform.Accounts.Users.{UserRow}
use agent_dep_platform.Accounts.Sessions.{
  SessionRow, seconds, idle_ttl_secs, absolute_ttl_secs, has_session_id, is_active, new_session,
  create, touch, find, revoke_row, is_unrevoked, revoke, revoke_all_for_user, is_spent, gc_expired,
}

-- A call on the repository. `creates` names what is drawn and the users that there are.
pub data Call : Type 0 where
  creates : List UserRow → String → String → ℕ → Option String → Option String → Call
  finds revokes : String → Call
  revokes_all : ℕ → Call
  collects : Call

-- The rows that a call at a time leaves, whether it succeeds or not.
unfoldable pub apply : ℕ → Call → List SessionRow → List SessionRow
apply now (creates users id csrf user_id ip ua) rows =
    (create users id csrf now user_id ip ua rows).0
apply now (finds id) rows = (find id now rows).0
apply now (revokes id) rows = (revoke id now rows).0
apply now (revokes_all user_id) rows = (revoke_all_for_user user_id now rows).0
apply now collects rows = (gc_expired now rows).0

unfoldable pub run : List (ℕ × Call) → List SessionRow → List SessionRow
run [] rows = rows
run ((now, c) ∷ calls) rows = run calls (apply now c rows)

-- No call draws the id again.
abbrev draws : String → Call → Bool
draws id (creates users new csrf user_id ip ua) =
    has_session_id id (new_session new csrf 0 user_id ip ua)
draws id _ = false

abbrev pub IsFresh : String → List (ℕ × Call) → Type 0
IsFresh id calls = All (λ c. draws id c.1 ≡ false) calls

-- What every row satisfies: the two expiries are an hour after the last use and eight hours after
-- the start.
abbrev pub IsTimed : SessionRow → Type 0
IsTimed s =
    (s.idle_expires_at ≡ s.last_used_at + seconds idle_ttl_secs)
    × (s.absolute_expires_at ≡ s.created_at + seconds absolute_ttl_secs)

-- A property of rows that touching and revoking keep is kept by every call that creates no row
-- without it.
module _ (P : SessionRow → Type 0) (touched : (now : ℕ) (s : SessionRow) → P s → P (touch now s))
    (revoked : (now : ℕ) (s : SessionRow) → P s → P (revoke_row now s)) where
  create-All :
      (users : List UserRow) (id csrf : String) (now user_id : ℕ) (ip ua : Option String)
      (rows : List SessionRow)
      → P (new_session id csrf now user_id ip ua)
      → All P rows
      → All P (create users id csrf now user_id ip ua rows).0
  unfolding create
  create-All users id csrf now user_id ip ua rows new h =
      let longer = All-append P rows (new_session id csrf now user_id ip ua ∷ []) h (new, tt) in
      ground arith

  find-All :
      (id : String) (now : ℕ) (rows : List SessionRow) → All P rows → All P (find id now rows).0
  unfolding find
  find-All id now rows h =
      let kept = All-update P (has_session_id id) (touch now) rows (λ x e. touched now x) h in
      ground arith

  apply-All :
      (now : ℕ) (c : Call) (rows : List SessionRow)
      → ((users : List UserRow) (id csrf : String) (user_id : ℕ) (ip ua : Option String)
          → c ≡ creates users id csrf user_id ip ua
          → P (new_session id csrf now user_id ip ua))
      → All P rows
      → All P (apply now c rows)
  unfolding apply revoke revoke_all_for_user gc_expired
  apply-All now (creates users id csrf user_id ip ua) rows new h =
      create-All users id csrf now user_id ip ua rows (new users id csrf user_id ip ua refl) h
  apply-All now (finds id) rows new h = find-All id now rows h
  apply-All now (revokes id) rows new h =
      All-update P _ (revoke_row now) rows (λ x e. revoked now x) h
  apply-All now (revokes_all user_id) rows new h =
      All-update P _ (revoke_row now) rows (λ x e. revoked now x) h
  apply-All now collects rows new h = All-select (λ s. not (is_spent now s)) P rows h

touch-IsTimed : (now : ℕ) (s : SessionRow) → IsTimed s → IsTimed (touch now s)
unfolding touch
touch-IsTimed now s h = (refl, h.1)

-- From a table in which every session expires an hour after its last use and eight hours after its
-- start, every sequence of calls at any times leaves such a table.
pub run-IsTimed :
    (calls : List (ℕ × Call)) (rows : List SessionRow)
    → All IsTimed rows
    → All IsTimed (run calls rows)
unfolding run
run-IsTimed [] rows h = h
run-IsTimed ((now, c) ∷ calls) rows h = run-IsTimed calls (apply now c rows) (
    apply-All IsTimed touch-IsTimed (λ t s k. k) now c rows
      (λ users id csrf user_id ip ua e. (refl, refl)) h)

-- Every row of an id is revoked or expires for good by a time.
abbrev pub IsOver : String → ℕ → SessionRow → Type 0
IsOver id end s = has_session_id id s ≡ true → is_unrevoked s ≡ true → s.absolute_expires_at ≤ end

touch-IsOver :
    (id : String) (end now : ℕ) (s : SessionRow) → IsOver id end s → IsOver id end (touch now s)
unfolding touch
touch-IsOver id end now s h = h

revoke_row-IsOver :
    (id : String) (end now : ℕ) (s : SessionRow)
    → IsOver id end s
    → IsOver id end (revoke_row now s)
revoke_row-IsOver id end now s h = λ mine live. ground arith

pub run-IsOver :
    (id : String) (end : ℕ) (calls : List (ℕ × Call)) (rows : List SessionRow)
    → IsFresh id calls
    → All (IsOver id end) rows
    → All (IsOver id end) (run calls rows)
unfolding run
run-IsOver id end [] rows fresh h = h
run-IsOver id end ((now, c) ∷ calls) rows fresh h =
    run-IsOver id end calls (apply now c rows) fresh.1 (
      apply-All (IsOver id end) (touch-IsOver id end) (revoke_row-IsOver id end) now c rows
        (λ users new csrf user_id ip ua e.
          λ mine live. let f = subst (λ k. draws id k ≡ false) e fresh.0 in ground arith)
        h)

is_active-over :
    (id : String) (end now : ℕ) (s : SessionRow)
    → end ≤ now
    → IsOver id end s
    → (has_session_id id s && is_active now s) ≡ false
is_active-over id end now s le h = elim (Bool-cases (has_session_id id s)) [
  | inr other ↦ ground arith
  | inl mine ↦ elim (Bool-cases (is_unrevoked s)) [
    | inr done ↦ ground arith
    | inl live ↦ let e = h mine live in ground arith
  ]
]

pub find_over :
    (id : String) (end now : ℕ) (rows : List SessionRow)
    → end ≤ now
    → All (IsOver id end) rows
    → (find id now rows).1 ≡ ok none
unfolding find
find_over id end now rows le h =
    let gone =
      find-absent (λ s. has_session_id id s && is_active now s) rows
        (All-imp (IsOver id end) (λ s. (has_session_id id s && is_active now s) ≡ false) rows
          (λ s. is_active-over id end now s le) h) in
    rw (find, gone) refl
