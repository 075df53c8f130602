-- ===== src/Idempotency/Polling.antt =====
-- That waiting for a request in flight ends (crates/server/src/idempotency.rs).
use agent_dep_platform.Base.{
  ℕ, ◌+◌, ◌*◌, ◌≤◌, ◌<◌, ◌≡◌, ◌⊎◌, inl, inr, refl, Bool, true, false, Option, none, some, List, [],
  ◌∷◌, arith, CoreResult, ok, err, ltb, length, Bool-cases, ◌==◌, string_eq,
}
use agent_dep_platform.Access.Requests.{Request, Response, Outside, action_of}
use agent_dep_platform.Idempotency.Keys.{KeyRow, StoredResponse, lookup}
use agent_dep_platform.Idempotency.Middleware.{
  Pc, polling, answered, in_flight_poll_timeout, doubled, settle, poll_lookup, poll_rounds, key_of,
  request_hash, replay_response, mismatch_response, in_flight_response, arrived, claiming,
  contending, running, finalizing,
}

abbrev pub is_answered : Pc → Bool
is_answered (answered r) = true
is_answered _ = false

-- Each round comes after the sleep that follows the one before.
abbrev pub Slept : ℕ → ℕ → List (ℕ × List KeyRow) → Type 0
Slept last backoff [] = Unit
Slept last backoff ((now, keys) ∷ rounds) =
    (last + backoff ≤ now) × Slept now (doubled backoff) rounds

settle_answers :
    (out : Outside) (req : Request) (s : StoredResponse)
    → (r : Response) × (settle out req s ≡ answered r)
unfolding settle
settle_answers out req s = elim (Bool-cases (s.request_hash == request_hash out req)) [
  | inl same ↦ (replay_response out s, rw same refl)
  | inr other ↦ (mismatch_response out, rw other refl)
]

-- A round answers or goes on within the time.
poll_cases :
    (out : Outside) (now : ℕ) (req : Request) (start backoff : ℕ)
    (o : CoreResult (Option StoredResponse))
    → ((r : Response) × (poll_lookup out now req start backoff o ≡ answered r))
      ⊎ ((now ≤ start + in_flight_poll_timeout)
          × (poll_lookup out now req start backoff o ≡ polling start (doubled backoff)))
unfolding poll_lookup
poll_cases out now req start backoff (err e) = inl (_, refl)
poll_cases out now req start backoff (ok none) = inl (_, refl)
poll_cases out now req start backoff (ok (some s)) = elim (Bool-cases s.in_flight) [
  | inr done ↦ let (r, e) = settle_answers out req s in inl (r, simp done e)
  | inl waits ↦ elim (Bool-cases (ltb (start + in_flight_poll_timeout) now)) [
    | inl late ↦ inl (in_flight_response out, rw (waits, late) refl)
    | inr early ↦ inr (ground arith, rw (waits, early) refl)
  ]
]

poll_rounds_answered :
    (out : Outside) (req : Request) (rounds : List (ℕ × List KeyRow)) (r : Response)
    → poll_rounds out req rounds (answered r) ≡ answered r
unfolding poll_rounds
poll_rounds_answered out req [] r = refl
poll_rounds_answered out req (x ∷ rounds) r = refl

poll_rounds_end :
    (out : Outside) (req : Request) (rounds : List (ℕ × List KeyRow)) (start last backoff : ℕ)
    → 10 ≤ backoff
    → last ≤ start + in_flight_poll_timeout
    → start + in_flight_poll_timeout < last + 10 * length rounds
    → Slept last backoff rounds
    → is_answered (poll_rounds out req rounds (polling start backoff)) ≡ true
unfolding poll_rounds
poll_rounds_end out req [] start last backoff ten early many slept =
    absurd (omega (arith, early, many))
poll_rounds_end out req ((now, keys) ∷ rounds) start last backoff ten early many (after, slept) =
    elim (poll_cases out now req start backoff (lookup (key_of req) (action_of req) keys)) [
      | inl (r, done) ↦ rw (done, poll_rounds_answered out req rounds r) refl
      | inr (within, on) ↦ rw on (
          poll_rounds_end out req rounds start now (doubled backoff) (ground arith) within
            (omega arith) slept)
    ]

-- A request that waits for another with its key is answered after at most 501 rounds, whatever
-- becomes of the table between the rounds: each round sleeps at least 10 milliseconds, and the
-- wait is given up after five seconds.
pub poll_rounds_terminates :
    (out : Outside) (req : Request) (rounds : List (ℕ × List KeyRow)) (start : ℕ)
    → Slept start 10 rounds
    → 500 < length rounds
    → (r : Response) × (poll_rounds out req rounds (polling start 10) ≡ answered r)
poll_rounds_terminates out req rounds start slept many = response_of _ (
    poll_rounds_end out req rounds start start 10 (omega arith) (omega arith) (omega (arith, many))
      slept)
  where
    response_of : (pc : Pc) → is_answered pc ≡ true → (r : Response) × (pc ≡ answered r)
    response_of (answered r) h = (r, refl)
    response_of arrived h = cc
    response_of claiming h = cc
    response_of contending h = cc
    response_of running h = cc
    response_of (finalizing r) h = cc
    response_of (polling start backoff) h = cc
