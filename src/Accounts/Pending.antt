-- ===== src/Accounts/Pending.antt =====
-- crates/core/src/infrastructure/repository/oidc_pending_repository.rs: the logins that are under
-- way, by their `state`. Times are seconds of an `i64`; `now - max_age_secs` is compared with the
-- row's time, which is written here without the subtraction.
use agent_dep_platform.Base.{
  ℕ, ◌+◌, ◌≡◌, refl, String, Bool, false, not, ◌&&◌, Option, none, some, List, [], ◌∷◌, ◌++◌, arith,
  CoreResult, ok, ◌==◌, string_eq, leb, find as fetch_optional, select, count, All, All-append,
  All-select, All-imp, find-absent,
}

pub record PendingAuth : Type 0 where
  pub pkce_verifier : String
  pub nonce : String
  pub created_at_secs : ℕ

pub record PendingRow : Type 0 where
  pub state : String
  pub auth : PendingAuth

abbrev pub has_state : String → PendingRow → Bool
has_state state r = r.state == state

-- `created_at >= now - max_age_secs`
abbrev is_recent : ℕ → ℕ → PendingRow → Bool
is_recent now max_age_secs r = leb now (r.auth.created_at_secs + max_age_secs)

-- `INSERT OR REPLACE`
unfoldable pub insert : String → String → String → ℕ → List PendingRow → List PendingRow
insert state pkce_verifier nonce created_at_secs rows =
    select (λ r. not (has_state state r)) rows
    ++ (record {
      state = state;
      auth = record {
        pkce_verifier = pkce_verifier;
        nonce = nonce;
        created_at_secs = created_at_secs;
      };
    }
        ∷ [])

unfoldable pub take :
    String → ℕ → ℕ → List PendingRow → List PendingRow × CoreResult (Option PendingAuth)
take state max_age_secs now rows =
    elim (fetch_optional (λ r. has_state state r && is_recent now max_age_secs r) rows) [
      | none ↦ (rows, ok none)
      | some r ↦ (select (λ x. not (has_state state x)) rows, ok (some r.auth))
    ]

unfoldable pub gc_expired : ℕ → ℕ → List PendingRow → List PendingRow × ℕ
gc_expired max_age_secs now rows =
    (select (is_recent now max_age_secs) rows, count (λ r. not (is_recent now max_age_secs r)) rows)

pub data Call : Type 0 where
  inserts : String → String → String → ℕ → Call
  takes : String → ℕ → ℕ → Call
  collects : ℕ → ℕ → Call

unfoldable pub apply : Call → List PendingRow → List PendingRow
apply (inserts state verifier nonce created) rows = insert state verifier nonce created rows
apply (takes state age now) rows = (take state age now rows).0
apply (collects age now) rows = (gc_expired age now rows).0

unfoldable pub run : List Call → List PendingRow → List PendingRow
run [] rows = rows
run (c ∷ calls) rows = run calls (apply c rows)

-- No call inserts the state again.
abbrev renews : String → Call → Bool
renews state (inserts other verifier nonce created) = other == state
renews state _ = false

abbrev pub IsGone : String → List PendingRow → Type 0
IsGone state rows = All (λ r. has_state state r ≡ false) rows

select-IsGone :
    (state : String) (rows : List PendingRow)
    → IsGone state (select (λ r. not (has_state state r)) rows)
select-IsGone state [] = tt
select-IsGone state (r ∷ rows) = ground (arith, select-IsGone state rows)

apply-IsGone :
    (state : String) (c : Call) (rows : List PendingRow)
    → renews state c ≡ false
    → IsGone state rows
    → IsGone state (apply c rows)
unfolding apply insert take gc_expired
apply-IsGone state (inserts other verifier nonce created) rows new h =
    All-append (λ r. has_state state r ≡ false) (select (λ r. not (has_state other r)) rows) _
      (All-select (λ r. not (has_state other r)) (λ r. has_state state r ≡ false) rows h) (new, tt)
apply-IsGone state (takes other age now) rows new h =
    let rest = All-select (λ r. not (has_state other r)) (λ r. has_state state r ≡ false) rows h in
    ground arith
apply-IsGone state (collects age now) rows new h =
    All-select (is_recent now age) (λ r. has_state state r ≡ false) rows h

run-IsGone :
    (state : String) (calls : List Call) (rows : List PendingRow)
    → All (λ c. renews state c ≡ false) calls
    → IsGone state rows
    → IsGone state (run calls rows)
unfolding run
run-IsGone state [] rows new h = h
run-IsGone state (c ∷ calls) rows new h =
    run-IsGone state calls (apply c rows) new.1 (apply-IsGone state c rows new.0 h)

-- A login that was taken is never taken again, whatever is called in between, unless its state is
-- inserted again.
pub take_once :
    (state : String) (age now later_age later : ℕ) (auth : PendingAuth) (calls : List Call)
    (rows : List PendingRow)
    → (take state age now rows).1 ≡ ok (some auth)
    → All (λ c. renews state c ≡ false) calls
    → (take state later_age later (run calls (take state age now rows).0)).1 ≡ ok none
unfolding take
take_once state age now later_age later auth calls rows taken new =
    let gone : IsGone state (take state age now rows).0 =
      let e = select-IsGone state rows in ground (arith, taken) in
    let absent =
      find-absent (λ r. has_state state r && is_recent later later_age r) _
        (All-imp (λ r. has_state state r ≡ false)
          (λ r. (has_state state r && is_recent later later_age r) ≡ false)
          (run calls (take state age now rows).0) (λ r h. ground arith)
          (run-IsGone state calls (take state age now rows).0 new gone)) in
    rw (take, absent) refl
