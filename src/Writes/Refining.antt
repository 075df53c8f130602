-- ===== src/Writes/Refining.antt =====
-- What the loop of `DeploymentService::apply` (crates/core/src/application/deploy/mod.rs) does for
-- each write of a list, and that the later writes leave it.
use mathlib.Core.Path.{subst}
use agent_dep_platform.Base.{
  false, ℕ, ◌≡◌, ◌≢◌, ◌⊎◌, inl, inr, refl, sym, ◌∙◌, ap, String, Bool, true, none, some, List, [],
  ◌∷◌, ◌++◌, arith, CoreResult, ok, err, ◌==◌, string_eq, eq_iff, contains, find, All, Option-cases,
}
use agent_dep_platform.Systems.Catalog.{ResolvedAgent, System}
use agent_dep_platform.Writes.Disk.{Disk, content}
use agent_dep_platform.Writes.Placing.{WriteOutcome, Draws, Tools, join, write_one, parent}
use agent_dep_platform.Writes.Landing.{content-Keeps, IsAside, write_one-Keeps}
use agent_dep_platform.Writes.Installing.{HasDigest, Lands, write_one_lem}
use agent_dep_platform.Writes.Applying.{
  DeployWrite, Progress, ref_of, recorded, write_agent, write_agents, with_failure, Tally, counted,
}

-- The specification of a write: its file has the digest, or its agent is reported.
abbrev pub IsDone : Tools → String → DeployWrite → Progress → Type 0
IsDone tools target w p =
    HasDigest tools (join target w.relative) w.body_sha256 p.disk
    ⊎ (contains p.tally.failed w.agent_ref ≡ true)

-- A write of the system's own agent, into a directory.
abbrev pub IsSourced : Tools → String → System → DeployWrite × Draws → Type 0
IsSourced tools target system w =
    (ra : ResolvedAgent) × (dir : String) × (find (λ r. ref_of r == w.0.agent_ref) system.resolved
      ≡ some ra)
    × (w.0.body_sha256 ≡ tools.sha256_hex (tools.as_bytes ra.agent.body))
    × (parent (join target w.0.relative) ≡ some dir)
    × IsAside dir (join target w.0.relative) w.1 (join target w.0.relative)

-- A write that does not touch a path.
abbrev pub Avoids : String → String → DeployWrite × Draws → Type 0
Avoids target q w =
    (dir : String) × (parent (join target w.0.relative) ≡ some dir)
    × IsAside dir (join target w.0.relative) w.1 q
    × (join target w.0.relative ≢ q)

-- Writes that do not touch what the ones before have written.
abbrev pub IsClear : String → List (DeployWrite × Draws) → Type 0
IsClear target [] = Unit
IsClear target (w ∷ ws) = All (Avoids target (join target w.0.relative)) ws × IsClear target ws

contains-append :
    (xs : List String) (x y : String) → contains xs x ≡ true → contains (xs ++ (y ∷ [])) x ≡ true
contains-append [] x y h = cc
contains-append (z ∷ xs) x y h = ground (arith, contains-append xs x y)

contains-append_last : (xs : List String) (x : String) → contains (xs ++ (x ∷ [])) x ≡ true
contains-append_last [] x = ground (arith, (eq_iff x x).1 refl)
contains-append_last (z ∷ xs) x = ground (arith, contains-append_last xs x)

module _ (tools : Tools) (now : ℕ) (target : String) (with_store : Bool) (system : System) where
  recorded_disk :
      (takes : Bool) (w : DeployWrite) (r : Disk × CoreResult WriteOutcome) (p : Progress)
      → (recorded tools now system.metadata.id takes w r p).disk ≡ r.0
  unfolding recorded
  recorded_disk takes w (d, err e) p = refl
  recorded_disk true w (d, ok o) p = refl
  recorded_disk false w (d, ok o) p = refl

  counted_failed : (o : WriteOutcome) (t : Tally) → (counted o t).failed ≡ t.failed
  counted_failed WriteOutcome.wrote t = refl
  counted_failed WriteOutcome.skipped t = refl
  counted_failed WriteOutcome.backed_up t = refl

  recorded_failed :
      (takes : Bool) (w : DeployWrite) (r : Disk × CoreResult WriteOutcome) (p : Progress)
      (x : String)
      → contains p.tally.failed x ≡ true
      → contains (recorded tools now system.metadata.id takes w r p).tally.failed x ≡ true
  unfolding recorded
  recorded_failed takes w (d, err e) p x h = contains-append p.tally.failed x w.agent_ref h
  recorded_failed true w (d, ok o) p x h = ap (λ f. contains f x) (counted_failed o p.tally) ∙ h
  recorded_failed false w (d, ok o) p x h =
      contains-append (counted o p.tally).failed x w.agent_ref
        (ap (λ f. contains f x) (counted_failed o p.tally) ∙ h)

  recorded-IsDone :
      (takes : Bool) (w : DeployWrite) (r : Disk × CoreResult WriteOutcome) (p : Progress)
      → Lands tools (join target w.relative) w.body_sha256 p.disk r
      → IsDone tools target w (recorded tools now system.metadata.id takes w r p)
  unfolding recorded Lands
  recorded-IsDone takes w (d, err e) p h = inr (contains-append_last p.tally.failed w.agent_ref)
  recorded-IsDone true w (d, ok o) p h = inl h
  recorded-IsDone false w (d, ok o) p h = inl h

  missing_agent :
      (w : DeployWrite × Draws) (p : Progress)
      → find (λ r. ref_of r == w.0.agent_ref) system.resolved ≡ none
      → write_agent tools now target with_store system w.0 w.1 p
        ≡ record p { tally = with_failure w.0.agent_ref p.tally }
  unfolding write_agent
  missing_agent w p missing = rw (write_agent, missing) refl

  found_agent :
      (w : DeployWrite × Draws) (p : Progress) (ra : ResolvedAgent)
      → find (λ r. ref_of r == w.0.agent_ref) system.resolved ≡ some ra
      → write_agent tools now target with_store system w.0 w.1 p
        ≡ recorded tools now system.metadata.id w.1.takes_row w.0
            (write_one tools
              (join target w.0.relative)
              (tools.as_bytes ra.agent.body)
              w.0.body_sha256
              with_store
              w.1
              p.disk)
            p
  unfolding write_agent
  found_agent w p ra found = rw (write_agent, found) refl

  write_agent-IsDone :
      (w : DeployWrite × Draws) (p : Progress)
      → IsSourced tools target system w
      → IsDone tools target w.0 (write_agent tools now target with_store system w.0 w.1 p)
  write_agent-IsDone w p (ra, dir, found, hash, inside, aside) =
      subst (IsDone tools target w.0) (sym (found_agent w p ra found)) (
        recorded-IsDone w.1.takes_row w.0 _ p (
          rw hash (
            write_one_lem tools dir (join target w.0.relative) w.1 with_store
              (tools.as_bytes ra.agent.body) p.disk inside aside)))

  -- What a write does not touch, and a failure, stay.
  write_agent_keeps :
      (q : String) (w : DeployWrite × Draws) (p : Progress)
      → Avoids target q w
      → content q (write_agent tools now target with_store system w.0 w.1 p).disk.files
        ≡ content q p.disk.files
  write_agent_keeps q w p (dir, inside, aside, other) =
      elim (Option-cases (find (λ r. ref_of r == w.0.agent_ref) system.resolved)) [
        | inl missing ↦ ap (λ x. content q x.disk.files) (missing_agent w p missing)
        | inr (ra, found) ↦
            ap (λ x. content q x.disk.files) (found_agent w p ra found)
            ∙ (ap (λ d. content q d.files) (recorded_disk w.1.takes_row w.0 _ p)
                ∙ content-Keeps q p.disk _ (
                    write_one-Keeps tools dir (join target w.0.relative) w.1 q
                      (tools.as_bytes ra.agent.body) w.0.body_sha256 with_store p.disk inside aside
                      other))
      ]

  write_agent_failed :
      (w : DeployWrite × Draws) (p : Progress) (x : String)
      → contains p.tally.failed x ≡ true
      → contains (write_agent tools now target with_store system w.0 w.1 p).tally.failed x ≡ true
  write_agent_failed w p x h =
      elim (Option-cases (find (λ r. ref_of r == w.0.agent_ref) system.resolved)) [
        | inl missing ↦
            ap (λ s. contains s.tally.failed x) (missing_agent w p missing)
            ∙ contains-append p.tally.failed x w.0.agent_ref h
        | inr (ra, found) ↦
            ap (λ s. contains s.tally.failed x) (found_agent w p ra found)
            ∙ recorded_failed w.1.takes_row w.0 _ p x h
      ]

  IsDone-kept :
      (v : DeployWrite) (ws : List (DeployWrite × Draws)) (p : Progress)
      → All (Avoids target (join target v.relative)) ws
      → IsDone tools target v p
      → IsDone tools target v (write_agents tools now target with_store system ws p)
  unfolding write_agents
  IsDone-kept v [] p clear done = done
  IsDone-kept v (w ∷ ws) p clear done =
      IsDone-kept v ws (write_agent tools now target with_store system w.0 w.1 p) clear.1
        (elim done [
          | inl (b, there, hash) ↦
              inl (b, write_agent_keeps (join target v.relative) w p clear.0 ∙ there, hash)
          | inr failed ↦ inr (write_agent_failed w p v.agent_ref failed)
        ])

  -- The loop, over writes of which each is one of the system's agents.
  pub write_agents_lem :
      (ws : List (DeployWrite × Draws)) (p : Progress)
      → All (IsSourced tools target system) ws
      → IsClear target ws
      → All (λ w. IsDone tools target w.0 (write_agents tools now target with_store system ws p)) ws
  unfolding write_agents
  write_agents_lem [] p sourced clear = tt
  write_agents_lem (w ∷ ws) p sourced clear =
      let after = write_agent tools now target with_store system w.0 w.1 p in
      (
        IsDone-kept w.0 ws after clear.0 (write_agent-IsDone w p sourced.0),
        write_agents_lem ws after sourced.1 clear.1,
      )
