-- ===== src/Accounts/Tests.antt =====
-- Concrete sessions and cookies (crates/core/src/infrastructure/repository/sessions_repository.rs,
-- crates/server/src/session_cookie.rs), and the theorems at them.
use agent_dep_platform.Base.{
  ℕ, ◌+◌, ◌≡◌, refl, true, none, some, List, [], ◌∷◌, arith, eq_iff, ok, err, err_sqlx, foreign_key,
}
use agent_dep_platform.Accounts.Roles.{operator}
use agent_dep_platform.Accounts.Users.{UserRow}
use agent_dep_platform.Accounts.Sessions.{
  SessionRow, seconds, idle_ttl_secs, new_session, create, find, gc_expired,
}
use agent_dep_platform.Accounts.Lifetimes.{Call, creates, finds, revokes, collects, run}
use agent_dep_platform.Accounts.Sliding.{find_expired, find-gc_expired}
use agent_dep_platform.Accounts.Staying.{Alive, find_used}
use agent_dep_platform.Accounts.Cookies.{
  make_session_cookie_header, parse_session_cookie, scan_pairs, parse-make,
}

abbrev ann : UserRow
ann = record {
  id = 7;
  name = "ann";
  role = operator;
  token_hash = none;
  created_at = 0;
  last_seen_at = none;
  disabled_at = none;
  external_id = some "ext";
  token_expires_at = none;
}

abbrev login : SessionRow
login = new_session "s1" "csrf" 1000 7 none none

abbrev rows : List SessionRow
rows = login ∷ []

abbrev calls : List (ℕ × Call)
calls =
    (2000, finds "s1")
    ∷ (3000, revokes "s2")
    ∷ (3500, creates (ann ∷ []) "s3" "other" 7 none none)
    ∷ (4000, collects)
    ∷ []

-- Without the user there is no session.
orphan : (create [] "s1" "csrf" 1000 7 none none []).1 ≡ err (err_sqlx foreign_key)
unfolding create
orphan = refl

abbrev far : List (ℕ × Call)
far = (28000000, finds "s1") ∷ (28800500, collects) ∷ []

find_expired_example : (find "s1" 28801000 (run far rows)).1 ≡ ok none
find_expired_example =
    find_expired "s1" 1000 28801000 far rows ((refl, refl), tt) (λ mine. omega arith, tt)
      (refl, (refl, tt)) (omega arith)

find-gc_expired_example : (find "s1" 5000 (gc_expired 4000 rows).0).1 ≡ (find "s1" 5000 rows).1
find-gc_expired_example = find-gc_expired "s1" 4000 5000 rows (omega arith)

find_used_example :
    ((s : SessionRow) × ((find "s1" 5000 (run calls rows)).1 ≡ ok (some s))
      × (s.user_id ≡ 7)
      × (s.csrf_token ≡ "csrf")
      × (s.idle_expires_at ≡ 5000 + seconds idle_ttl_secs))
    × Alive "s1" 7 "csrf" 8000 28000 (find "s1" 5000 (run calls rows)).0
find_used_example =
    find_used "s1" 7 "csrf" 5000 28000 8000 calls rows (omega arith) (omega arith)
      (
        (omega arith, omega arith, tt),
        (
          (omega arith, omega arith, λ e. let same = (eq_iff "s2" "s1").1 e in cc),
          ((omega arith, omega arith, tt), ((omega arith, omega arith, tt), tt)),
        ),
      )
      (login, refl, (refl, refl, refl, omega arith, omega arith))

parse-make_example :
    parse_session_cookie (some (make_session_cookie_header "abc" true)) ≡ some "abc"
parse-make_example = parse-make "abc" true refl refl refl

-- A cookie whose name only starts with the session cookie's name hides the session cookie.
hidden : parse_session_cookie (some "agency_session_old=1; agency_session=abc") ≡ none
unfolding parse_session_cookie scan_pairs
hidden = refl
