-- ===== src/Idempotency/Storing.antt =====
-- A request with a new key that the middleware of crates/server/src/idempotency.rs takes through all
-- of its steps, and the requests that come with its key afterwards.
use mathlib.Core.Option
use agent_dep_platform.Base.{
  ℕ, ◌≤◌, ◌≡◌, refl, ◌∙◌, ap, String, true, false, none, some, [], ◌∷◌, ◌++◌, arith, ok, eq_iff,
  any, find, find-absent_any, find-append_absent, length,
}
use agent_dep_platform.Access.Requests.{Request, Response, Outside, action_of}
use agent_dep_platform.Idempotency.Keys.{
  is_key, in_flight_row, default_ttl_seconds, lookup, record_in_flight, stored_response,
}
use agent_dep_platform.Idempotency.Middleware.{
  max_body_bytes, request_hash, Pc, arrived, claiming, running, finalizing, answered, Shared,
  first_lookup, claimed, after_run, step, key_of,
}
use agent_dep_platform.Idempotency.Replays.{IsKeyed, arrive_keyed, step_stored}

module _ {S : Type 0} (out : Outside) (next : ℕ → Request → S → S × Response) where
  -- The table with the row of a request that is being handled.
  abbrev inserted : ℕ → Request → Shared S → Shared S
  inserted now req sh = record sh {
    keys =
        sh.keys
        ++ (in_flight_row (key_of req) (action_of req) (request_hash out req) default_ttl_seconds
              now
            ∷ []);
  }

  claiming_first :
      (now : ℕ) (req : Request) (key : String) (sh : Shared S)
      → IsKeyed req key
      → any (is_key key (action_of req)) sh.keys ≡ false
      → step out next now req arrived sh ≡ (sh, claiming)
  unfolding step first_lookup lookup
  claiming_first now req key sh keyed fresh =
      arrive_keyed out next now req key sh keyed
      ∙ ap (λ o. (sh, first_lookup out now req (ok (Option.map stored_response o))))
          (find-absent_any (is_key key (action_of req)) sh.keys fresh)

  running_next :
      (now : ℕ) (req : Request) (sh : Shared S)
      → any (is_key (key_of req) (action_of req)) sh.keys ≡ false
      → step out next now req claiming sh ≡ (inserted now req sh, running)
  unfolding step record_in_flight claimed
  running_next now req sh fresh = rw fresh refl

  stored_later :
      (now : ℕ) (req : Request) (sh : Shared S) (r : Response)
      → (next now req sh.rest).1 ≡ r
      → r.is_json ≡ true
      → length r.body ≤ max_body_bytes
      → (step out next now req running sh).1 ≡ finalizing r
  unfolding step after_run
  stored_later now req sh r given json small = ap after_run given ∙ ground (arith, json, small)

  keys_while_running :
      (now : ℕ) (req : Request) (sh : Shared S)
      → (step out next now req running sh).0.keys ≡ sh.keys
  unfolding step
  keys_while_running now req sh = refl

  inserted-find :
      (now : ℕ) (req : Request) (key : String) (sh : Shared S)
      → key_of req ≡ key
      → any (is_key key (action_of req)) sh.keys ≡ false
      → find (is_key key (action_of req)) (inserted now req sh).keys
        ≡ some (
            in_flight_row
              (key_of req)
              (action_of req)
              (request_hash out req)
              default_ttl_seconds
              now)
  inserted-find now req key sh named fresh =
      let row =
        in_flight_row (key_of req) (action_of req) (request_hash out req) default_ttl_seconds now in
      let is_mine : is_key key (action_of req) row ≡ true =
        rw ((eq_iff (key_of req) key).1 named, (eq_iff (action_of req) (action_of req)).1 refl)
          refl in
      find-append_absent (is_key key (action_of req)) sh.keys row fresh is_mine

  -- What four steps of a request that is alone leave, and where they leave it.
  unfoldable pub four_steps : ℕ → ℕ → ℕ → ℕ → Request → Shared S → Shared S × Pc
  four_steps t1 t2 t3 t4 req sh =
      let (s1, p1) = step out next t1 req arrived sh in
      let (s2, p2) = step out next t2 req p1 s1 in
      let (s3, p3) = step out next t3 req p2 s2 in step out next t4 req p3 s3

  pub four_steps_replayed :
      (t1 t2 t3 t4 now : ℕ) (req later : Request) (key : String) (r : Response) (sh : Shared S)
      → IsKeyed req key
      → any (is_key key (action_of req)) sh.keys ≡ false
      → (next t3 req sh.rest).1 ≡ r
      → r.is_json ≡ true
      → length r.body ≤ max_body_bytes
      → 100 ≤ r.status
      → r.status ≤ 999
      → IsKeyed later key
      → action_of later ≡ action_of req
      → later.body ≡ req.body
      → ((four_steps t1 t2 t3 t4 req sh).1 ≡ answered r)
        × (step out next now later arrived (four_steps t1 t2 t3 t4 req sh).0 ≡ (
          (four_steps t1 t2 t3 t4 req sh).0,
          answered (record {
            status = r.status;
            is_json = true;
            is_replay = true;
            body = out.as_bytes (out.from_utf8_lossy r.body);
          }),
        ))
  unfolding four_steps
  four_steps_replayed t1 t2 t3 t4 now req later key r sh keyed fresh given json small low high again
        same_route same_body =
      let named : key_of req ≡ key = ap (λ o. elim o [ none ↦ "" | some k ↦ k ]) keyed.1 in
      let fresh_here : any (is_key (key_of req) (action_of req)) sh.keys ≡ false =
        ap (λ k. any (is_key k (action_of req)) sh.keys) named ∙ fresh in
      let third = inserted t2 req sh in
      let row =
        in_flight_row (key_of req) (action_of req) (request_hash out req) default_ttl_seconds t2 in
      let s1 = claiming_first t1 req key sh keyed fresh in
      let s2 = running_next t2 req sh fresh_here in
      let s3 = stored_later t3 req third r given json small in
      let there =
        ap (find (is_key key (action_of req))) (keys_while_running t3 req third)
        ∙ inserted-find t2 req key sh named fresh in
      rw (s1, s2, s3)
        (
          (unfold step in refl),
          step_stored out next t4 now req later key r (step out next t3 req running third).0 row
              keyed again same_route same_body there refl low high,
        )
