-- ===== src/Idempotency/AtMostOnce.antt =====
-- How often the handler runs for one key (crates/server/src/idempotency.rs), whatever the order in
-- which the requests take their steps.
use agent_dep_platform.Base.{
  ℕ, zero, suc, ◌+◌, ◌≤◌, ◌≡◌, refl, String, Bool, true, false, ◌&&◌, Option, none, some, List, [],
  ◌∷◌, ◌++◌, arith, CoreResult, ok, err, ◌==◌, string_eq, eq_iff, any, count, update, All,
  Bool-cases, Option-cases, inl, inr, ◌⊎◌, sym, ap, ◌∙◌, and-true, if◌then◌else◌,
}
use agent_dep_platform.Access.Requests.{Request, Response, Outside, action_of}
use agent_dep_platform.Idempotency.Keys.{
  KeyRow, StoredResponse, is_key, in_flight_row, default_ttl_seconds, lookup, record_in_flight,
  finished, finalize,
}
use agent_dep_platform.Idempotency.Middleware.{
  is_mutation, Pc, arrived, claiming, contending, running, finalizing, polling, answered, Shared,
  settle, first_lookup, second_lookup, poll_lookup, claimed, after_run, pass_through, with_key,
  arrive, step, key_of, request_hash,
}

-- A mutation with the key on the route.
abbrev pub asks : String → String → Request → Bool
asks key route req =
    is_mutation req.method
    && (elim req.idempotency_key [ none ↦ false | some k ↦ k == key ])
    && action_of req == route

abbrev is_running : Pc → Bool
is_running running = true
is_running _ = false

abbrev unit : Bool → ℕ
unit b = if b then 1 else 0

-- A request with its place.
abbrev pub Worker : Type 0
Worker = Request × Pc

module _ {S : Type 0} (out : Outside) (next : ℕ → Request → S → S × Response) where
  -- The request at an index takes a step at a time.
  unfoldable pub turn : ℕ → ℕ → Shared S → List Worker → Shared S × List Worker
  turn i now sh [] = (sh, [])
  turn zero now sh (w ∷ ws) =
      let (after, pc) = step out next now w.0 w.1 sh in (after, (w.0, pc) ∷ ws)
  turn (suc i) now sh (w ∷ ws) = let (after, rest) = turn i now sh ws in (after, w ∷ rest)

  -- A schedule: which request takes a step when.
  unfoldable pub run : List (ℕ × ℕ) → Shared S → List Worker → Shared S × List Worker
  run [] sh ws = (sh, ws)
  run ((i, now) ∷ schedule) sh ws = let (after, rest) = turn i now sh ws in run schedule after rest

count-append :
    {A : Type 0} (p : A → Bool) (xs : List A) (a : A)
    → count p (xs ++ (a ∷ [])) ≡ count p xs + unit (p a)
count-append p [] a = ground arith
count-append p (x ∷ xs) a = ground (arith, count-append p xs a)

count-update :
    {A : Type 0} (p q : A → Bool) (f : A → A) (xs : List A)
    → ((x : A) → p (f x) ≡ p x)
    → count p (update q f xs) ≡ count p xs
count-update p q f [] h = refl
count-update p q f (x ∷ xs) h = ground (arith, h x, count-update p q f xs h)

count-absent : {A : Type 0} (p : A → Bool) (xs : List A) → any p xs ≡ false → count p xs ≡ 0
count-absent p [] h = refl
count-absent p (x ∷ xs) h = ground (arith, count-absent p xs)

module _ (key route : String) where
  -- The requests whose handler is to run, and the requests for which it has run.
  abbrev claims : List Worker → ℕ
  claims [] = 0
  claims (w ∷ ws) = unit (asks key route w.0 && is_running w.1) + claims ws

  abbrev pub rows_of : {S : Type 0} → Shared S → ℕ
  rows_of sh = count (is_key key route) sh.keys

  abbrev pub runs_of : {S : Type 0} → Shared S → ℕ
  runs_of sh = count (asks key route) sh.runs

  -- What a step may do: a claim comes with a row, and a run uses up a claim.
  abbrev Conserves : {S : Type 0} → Shared S → ℕ → Shared S → ℕ → Type 0
  Conserves sh before after_sh after =
      (after + runs_of after_sh + rows_of sh ≤ before + runs_of sh + rows_of after_sh)
      × (rows_of sh ≤ 1 → rows_of after_sh ≤ 1)

settle_rests :
    (out : Outside) (req : Request) (s : StoredResponse) → is_running (settle out req s) ≡ false
unfolding settle
settle_rests out req s = ground arith

first_lookup_rests :
    (out : Outside) (now : ℕ) (req : Request) (o : CoreResult (Option StoredResponse))
    → is_running (first_lookup out now req o) ≡ false
unfolding first_lookup
first_lookup_rests out now req (err e) = refl
first_lookup_rests out now req (ok none) = refl
first_lookup_rests out now req (ok (some s)) = ground (arith, settle_rests out req s)

second_lookup_rests :
    (out : Outside) (now : ℕ) (req : Request) (o : CoreResult (Option StoredResponse))
    → is_running (second_lookup out now req o) ≡ false
unfolding second_lookup
second_lookup_rests out now req (err e) = refl
second_lookup_rests out now req (ok none) = refl
second_lookup_rests out now req (ok (some s)) = ground (arith, settle_rests out req s)

poll_lookup_rests :
    (out : Outside) (now : ℕ) (req : Request) (start backoff : ℕ)
    (o : CoreResult (Option StoredResponse))
    → is_running (poll_lookup out now req start backoff o) ≡ false
unfolding poll_lookup
poll_lookup_rests out now req start backoff (err e) = refl
poll_lookup_rests out now req start backoff (ok none) = refl
poll_lookup_rests out now req start backoff (ok (some s)) = ground (arith, settle_rests out req s)

after_run_rests : (r : Response) → is_running (after_run r) ≡ false
unfolding after_run
after_run_rests r = ground arith

module _ (key route : String) {S : Type 0} (out : Outside)
    (next : ℕ → Request → S → S × Response) where
  abbrev claim : Request → Pc → ℕ
  claim req pc = unit (asks key route req && is_running pc)

  no_claim : (req : Request) (pc : Pc) → is_running pc ≡ false → claim req pc ≡ 0
  no_claim req pc h = ground arith

  -- A step that leaves the rows and runs nothing.
  rests :
      (req : Request) (pc pc' : Pc) (sh : Shared S)
      → is_running pc' ≡ false
      → Conserves key route sh (claim req pc) sh (claim req pc')
  rests req pc pc' sh h = (let e = no_claim req pc' h in omega (arith, e), λ u. u)

  pass_through-Conserves :
      (now : ℕ) (req : Request) (pc : Pc) (sh : Shared S)
      → asks key route req ≡ false
      → Conserves key route sh
          (claim req pc)
          (pass_through out next now req sh).0
          (claim req (pass_through out next now req sh).1)
  unfolding pass_through
  pass_through-Conserves now req pc sh h =
      (ground (arith, count-append (asks key route) sh.runs req), λ u. u)

  -- A request that is not a mutation with a key goes on; the other leaves everything.
  arrive_cases :
      (now : ℕ) (req : Request) (sh : Shared S)
      → ((arrive out next now req sh ≡ pass_through out next now req sh)
          × (asks key route req ≡ false))
        ⊎ (((arrive out next now req sh).0 ≡ sh)
            × (is_running (arrive out next now req sh).1 ≡ false))
  unfolding arrive with_key
  arrive_cases now req sh = elim (Bool-cases (is_mutation req.method)) [
    | inr safe ↦ inl (rw safe refl, ground arith)
    | inl changing ↦ elim (Option-cases req.idempotency_key) [
      | inl missing ↦ inl (ground arith, ground arith)
      | inr (k, given) ↦ inr (
          let rest = first_lookup_rests out now req (lookup k (action_of req) sh.keys) in
          (rw (changing, given) (ground arith), rw (changing, given) (ground (arith, rest))))
    ]
  ]

  arrive-Conserves :
      (now : ℕ) (req : Request) (sh : Shared S)
      → Conserves key route sh
          (claim req arrived)
          (arrive out next now req sh).0
          (claim req (arrive out next now req sh).1)
  arrive-Conserves now req sh = elim (arrive_cases now req sh) [
    | inl (passes, other) ↦ rw passes (pass_through-Conserves now req arrived sh other)
    | inr (same, idle) ↦ rw same (rests req arrived _ sh idle)
  ]

  -- The row that a claim inserts.
  insert_count :
      (k r : String) (row : KeyRow) (rows : List KeyRow)
      → row.key ≡ k
      → row.route ≡ r
      → any (is_key k r) rows ≡ false
      → count (is_key key route) rows ≤ 1
      → count (is_key key route) (rows ++ (row ∷ [])) ≤ 1
  insert_count k r row rows ek er absent h = elim (Bool-cases (is_key key route row)) [
    | inr other ↦ ground (arith, count-append (is_key key route) rows row)
    | inl mine ↦
        let parts = and-true (row.key == key) (row.route == route) mine in
        let kk : k ≡ key = sym ek ∙ (eq_iff row.key key).0 parts.0 in
        let rr : r ≡ route = sym er ∙ (eq_iff row.route route).0 parts.1 in
        let gone : any (is_key key route) rows ≡ false = rw (← kk, ← rr) absent in
        ground (
          arith,
          count-append (is_key key route) rows row,
          count-absent (is_key key route) rows gone,
        )
  ]

  asks_row :
      (req : Request) (row : KeyRow)
      → row.key ≡ key_of req
      → row.route ≡ action_of req
      → asks key route req ≡ true
      → is_key key route row ≡ true
  asks_row req row ek er h = elim (Option-cases req.idempotency_key) [
    | inl missing ↦ ground arith
    | inr (k, given) ↦
        let named : row.key ≡ k = ek ∙ ap (λ o. elim o [ none ↦ "" | some key ↦ key ]) given in
        rw (named, er) (ground arith)
  ]

  claim-Conserves :
      (now : ℕ) (req : Request) (sh : Shared S)
      → Conserves key route sh
          (claim req claiming)
          (step out next now req claiming sh).0
          (claim req (step out next now req claiming sh).1)
  unfolding step record_in_flight claimed
  claim-Conserves now req sh =
      elim (Bool-cases (any (is_key (key_of req) (action_of req)) sh.keys)) [
        | inl taken ↦ rw taken (rests req claiming contending sh refl)
        | inr fresh ↦
            let row =
              in_flight_row (key_of req) (action_of req) (request_hash out req) default_ttl_seconds
                now in
            rw fresh (
              ground
                  (arith, count-append (is_key key route) sh.keys row, asks_row req row refl refl),
              insert_count (key_of req) (action_of req) row sh.keys refl refl fresh,
            )
      ]

  step-Conserves :
      (now : ℕ) (req : Request) (pc : Pc) (sh : Shared S)
      → Conserves key route sh
          (claim req pc)
          (step out next now req pc sh).0
          (claim req (step out next now req pc sh).1)
  unfolding step finalize
  step-Conserves now req arrived sh = arrive-Conserves now req sh
  step-Conserves now req claiming sh = claim-Conserves now req sh
  step-Conserves now req contending sh =
      rests req contending _ sh (second_lookup_rests out now req _)
  step-Conserves now req running sh = (
    ground (
      arith,
      count-append (asks key route) sh.runs req,
      no_claim req _ (after_run_rests (next now req sh.rest).1),
    ),
    λ u. u,
  )
  step-Conserves now req (finalizing r) sh = (
    let same =
          count-update (is_key key route) (is_key (key_of req) (action_of req))
            (finished r.status (out.from_utf8_lossy r.body)) sh.keys (λ x. refl) in
        ground (arith, same),
    λ u. ground (
      arith,
      count-update (is_key key route) (is_key (key_of req) (action_of req))
          (finished r.status (out.from_utf8_lossy r.body)) sh.keys (λ x. refl),
    ),
  )
  step-Conserves now req (polling start backoff) sh =
      rests req (polling start backoff) _ sh (poll_lookup_rests out now req start backoff _)
  step-Conserves now req (answered r) sh = rests req (answered r) (answered r) sh refl

  turn-Conserves :
      (i now : ℕ) (sh : Shared S) (ws : List Worker)
      → Conserves key route sh
          (claims key route ws)
          (turn out next i now sh ws).0
          (claims key route (turn out next i now sh ws).1)
  unfolding turn
  turn-Conserves i now sh [] = (omega arith, λ u. u)
  turn-Conserves zero now sh (w ∷ ws) =
      let (flow, bound) = step-Conserves now w.0 w.1 sh in (omega (arith, flow), bound)
  turn-Conserves (suc i) now sh (w ∷ ws) =
      let (flow, bound) = turn-Conserves i now sh ws in (omega (arith, flow), bound)

  run-Conserves :
      (schedule : List (ℕ × ℕ)) (sh : Shared S) (ws : List Worker)
      → Conserves key route sh
          (claims key route ws)
          (run out next schedule sh ws).0
          (claims key route (run out next schedule sh ws).1)
  unfolding run
  run-Conserves [] sh ws = (omega arith, λ u. u)
  run-Conserves ((i, now) ∷ schedule) sh ws =
      let (flow, bound) = turn-Conserves i now sh ws in
      let (later, bounded) =
        run-Conserves schedule (turn out next i now sh ws).0 (turn out next i now sh ws).1 in
      (omega (arith, flow, later), λ u. bounded (bound u))

  no_claims : (ws : List Worker) → All (λ w. w.1 ≡ arrived) ws → claims key route ws ≡ 0
  no_claims [] h = refl
  no_claims (w ∷ ws) h =
      let e = no_claim w.0 w.1 (ap is_running h.0) in omega (arith, e, no_claims ws h.1)

  -- Whatever the order in which any number of requests take their steps, what is behind the
  -- middleware runs at most once for the mutations with one key on one route, and not at all when
  -- the table has a row of the key and the route, as long as no row is collected.
  pub run_at_most_once :
      (schedule : List (ℕ × ℕ)) (sh : Shared S) (ws : List Worker)
      → sh.runs ≡ []
      → rows_of key route sh ≤ 1
      → All (λ w. w.1 ≡ arrived) ws
      → runs_of key route (run out next schedule sh ws).0 + rows_of key route sh ≤ 1
  run_at_most_once schedule sh ws none_yet unique start =
      let (flow, bound) = run-Conserves schedule sh ws in
      let begun : runs_of key route sh ≡ 0 = ap (count (asks key route)) none_yet in
      omega (arith, flow, bound unique, begun, no_claims ws start)
