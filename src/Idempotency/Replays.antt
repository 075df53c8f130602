-- ===== src/Idempotency/Replays.antt =====
-- What answers a request whose key has been used (crates/server/src/idempotency.rs).
use mathlib.Core.Option
use agent_dep_platform.Base.{
  ℕ, ◌%◌, ◌≤◌, ◌≡◌, refl, sym, ◌∙◌, ap, String, true, false, none, some, List, arith, ok, ◌==◌,
  string_eq, eq_iff, length, find, update, find-update_kept, find-passes, if◌then◌else◌,
}
use agent_dep_platform.Access.Requests.{Request, Response, Outside, action_of}
use agent_dep_platform.Idempotency.Keys.{
  KeyRow, is_key, stored_response, lookup, finished, finalize,
}
use agent_dep_platform.Idempotency.Middleware.{
  is_mutation, is_invalid_key, max_body_bytes, request_hash, status_code, replay_response, arrived,
  answered, mismatch_response, Shared, settle, first_lookup, with_key, arrive, step, finalizing,
  key_of,
}

-- A mutation with a key that the middleware accepts, and a body within its limit.
abbrev pub IsKeyed : Request → String → Type 0
IsKeyed req key =
    (is_mutation req.method ≡ true)
    × (req.idempotency_key ≡ some key)
    × (is_invalid_key key ≡ false)
    × (length req.body ≤ max_body_bytes)

lookup-found :
    (key route : String) (rows : List KeyRow) (row : KeyRow)
    → find (is_key key route) rows ≡ some row
    → lookup key route rows ≡ ok (some (stored_response row))
unfolding lookup
lookup-found key route rows row found = ap (λ o. ok (Option.map stored_response o)) found

first_lookup-done :
    (out : Outside) (now : ℕ) (req : Request) (row : KeyRow) (status : ℕ)
    → row.response_status ≡ some status
    → first_lookup out now req (ok (some (stored_response row)))
      ≡ answered (
          if row.request_hash == request_hash out req
          then replay_response out (stored_response row)
          else mismatch_response out)
unfolding first_lookup settle
first_lookup-done out now req row status done = ground arith

module _ {S : Type 0} (out : Outside) (next : ℕ → Request → S → S × Response) where
  pub arrive_keyed :
      (now : ℕ) (req : Request) (key : String) (sh : Shared S)
      → IsKeyed req key
      → arrive out next now req sh
        ≡ (sh, first_lookup out now req (lookup key (action_of req) sh.keys))
  unfolding arrive with_key
  arrive_keyed now req key sh (changing, given, valid, small) = ground arith

  -- A request whose key and route have a row with a response is answered in one step, whatever
  -- its cookie, its token and its other headers, and what is behind the middleware does not run:
  -- with the stored status and body, marked as a replay, if its body is the one that the row was
  -- made for, and with 422 otherwise.
  pub step_replay :
      (now : ℕ) (req : Request) (key : String) (sh : Shared S) (row : KeyRow) (status : ℕ)
      → IsKeyed req key
      → find (is_key key (action_of req)) sh.keys ≡ some row
      → row.response_status ≡ some status
      → step out next now req arrived sh ≡ (
        sh,
        answered (
            if row.request_hash == request_hash out req
            then replay_response out (stored_response row)
            else mismatch_response out),
      )
  unfolding step
  step_replay now req key sh row status keyed found done =
      arrive_keyed now req key sh keyed
      ∙ ap (λ pc. (sh, pc))
          (ap (first_lookup out now req) (lookup-found key (action_of req) sh.keys row found)
            ∙ first_lookup-done out now req row status done)

  replayed_finished :
      (r : Response) (text : String) (row : KeyRow)
      → 100 ≤ r.status
      → r.status ≤ 999
      → replay_response out (stored_response (finished r.status text row))
        ≡ record { status = r.status; is_json = true; is_replay = true; body = out.as_bytes text }
  unfolding replay_response
  replayed_finished r text row low high =
      let status : status_code (r.status % 65536) ≡ r.status =
        let small : r.status % 65536 ≡ r.status = omega (arith, high) in
        ap status_code small ∙ ground (arith, low, high) in
      ap (λ n. record { status = n; is_json = true; is_replay = true; body = out.as_bytes text })
        status

  -- The row that the middleware has finished.
  found_finished :
      (now : ℕ) (req : Request) (key : String) (r : Response) (sh : Shared S) (row : KeyRow)
      → IsKeyed req key
      → find (is_key key (action_of req)) sh.keys ≡ some row
      → find (is_key key (action_of req)) (step out next now req (finalizing r) sh).0.keys
        ≡ some (finished r.status (out.from_utf8_lossy r.body) row)
  unfolding step finalize
  found_finished now req key r sh row keyed found =
      let named : key_of req ≡ key = ap (λ o. elim o [ none ↦ "" | some k ↦ k ]) keyed.1 in
      let test = is_key key (action_of req) in
      let change = finished r.status (out.from_utf8_lossy r.body) in
      ap (λ k. find test (update (is_key k (action_of req)) change sh.keys)) named
      ∙ find-update_kept test test change sh.keys row (λ x. refl) found
      ∙ ap (λ b. some (if b then change row else row)) (find-passes test sh.keys row found)

  -- A response that is being stored for a key is what a later request with the key, the route and
  -- the body gets.
  pub step_stored :
      (then_ now : ℕ) (req later : Request) (key : String) (r : Response) (sh : Shared S)
      (row : KeyRow)
      → IsKeyed req key
      → IsKeyed later key
      → action_of later ≡ action_of req
      → later.body ≡ req.body
      → find (is_key key (action_of req)) sh.keys ≡ some row
      → row.request_hash ≡ request_hash out req
      → 100 ≤ r.status
      → r.status ≤ 999
      → step out next now later arrived (step out next then_ req (finalizing r) sh).0 ≡ (
        (step out next then_ req (finalizing r) sh).0,
        answered (record {
          status = r.status;
          is_json = true;
          is_replay = true;
          body = out.as_bytes (out.from_utf8_lossy r.body);
        }),
      )
  step_stored then_ now req later key r sh row mine keyed same_route same_body found hash low high =
      let text = out.from_utf8_lossy r.body in
      let after = (step out next then_ req (finalizing r) sh).0 in
      let there = found_finished then_ req key r sh row mine found in
      let replayed =
        step_replay now later key after (finished r.status text row) r.status keyed
          (ap (λ route. find (is_key key route) after.keys) same_route ∙ there) refl in
      let same_hash : row.request_hash ≡ out.sha256_hex later.body =
        hash ∙ ap out.sha256_hex (sym same_body) in
      let same_test : (row.request_hash == request_hash out later) ≡ true =
        (eq_iff row.request_hash (request_hash out later)).1 same_hash in
      replayed
      ∙ ap
          (λ b. (
            after,
            answered (
                if b
                then replay_response out (stored_response (finished r.status text row))
                else mismatch_response out),
          ))
          same_test
      ∙ ap (λ x. (after, answered x)) (replayed_finished r text row low high)
