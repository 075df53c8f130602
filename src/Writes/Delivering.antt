-- ===== src/Writes/Delivering.antt =====
-- What the loop of `DeploymentService::apply` (crates/core/src/application/deploy/mod.rs) promises for
-- a system, without the steps by which it writes: the file of each agent is there, or the agent is
-- reported.
use Prim.Native.String.{◌++◌}
use agent_dep_platform.Base.{
  ℕ, suc, ◌≡◌, ◌≢◌, ◌⊎◌, refl, String, Bool, true, some, List, [], ◌∷◌, arith, ◌==◌, string_eq,
  eq_iff, contains, find, map, All,
}
use agent_dep_platform.Systems.Catalog.{ResolvedAgent, System}
use agent_dep_platform.Writes.Placing.{Draws, Tools, join, parent}
use agent_dep_platform.Writes.Landing.{IsAside}
use agent_dep_platform.Writes.Installing.{HasDigest}
use agent_dep_platform.Writes.Applying.{
  DeployWrite, Progress, ref_of, write_of, writes_of, write_agents, with_draws,
}
use agent_dep_platform.Writes.Refining.{IsDone, IsSourced, IsClear, write_agents_lem}

-- A write into a directory, under a name that it uses for nothing else.
abbrev pub IsPlaced : String → DeployWrite × Draws → Type 0
IsPlaced target w =
    (dir : String) × (parent (join target w.0.relative) ≡ some dir)
    × IsAside dir (join target w.0.relative) w.1 (join target w.0.relative)

abbrev pub HasDistinctRefs : List ResolvedAgent → Type 0
HasDistinctRefs [] = Unit
HasDistinctRefs (r ∷ rs) = All (λ s. ref_of s ≢ ref_of r) rs × HasDistinctRefs rs

-- The path of an agent in a target, as the module's comment has it.
abbrev pub agent_path : String → ResolvedAgent → String
agent_path target r = join target ("agents/" ++ (ref_of r ++ ("/" ++ (r.agent.id ++ ".md"))))

module _ (tools : Tools) (now : ℕ) (target : String) (with_store : Bool) (system : System) where
  abbrev IsFoundIn : List ResolvedAgent → ResolvedAgent → Type 0
  IsFoundIn all_ r = find (λ s. ref_of s == ref_of r) all_ ≡ some r

  found_later :
      (r : ResolvedAgent) (all_ rs : List ResolvedAgent)
      → All (λ s. ref_of s ≢ ref_of r) rs
      → All (IsFoundIn all_) rs
      → All (IsFoundIn (r ∷ all_)) rs
  found_later r all_ [] apart found = tt
  found_later r all_ (s ∷ rs) apart found = (
    ground (arith, eq_iff (ref_of r) (ref_of s), apart.0, found.0),
    found_later r all_ rs apart.1 found.1,
  )

  -- Each agent is the one that its reference finds.
  distinct-found : (rs : List ResolvedAgent) → HasDistinctRefs rs → All (IsFoundIn rs) rs
  distinct-found [] d = tt
  distinct-found (r ∷ rs) d = (
    ground (arith, (eq_iff (ref_of r) (ref_of r)).1 refl),
    found_later r rs rs d.0 (distinct-found rs d.1),
  )

  writes-IsSourced :
      (draws : ℕ → Draws) (n : ℕ) (rs : List ResolvedAgent)
      → All (IsFoundIn system.resolved) rs
      → All (IsPlaced target) (with_draws draws n (map (write_of tools) rs))
      → All (IsSourced tools target system) (with_draws draws n (map (write_of tools) rs))
  writes-IsSourced draws n [] found placed = tt
  writes-IsSourced draws n (r ∷ rs) found placed =
      let (dir, inside, aside) = placed.0 in
      ((r, dir, found.0, refl, inside, aside), writes-IsSourced draws (suc n) rs found.1 placed.1)

  agents-IsDone :
      (draws : ℕ → Draws) (n : ℕ) (rs : List ResolvedAgent) (p : Progress)
      → All (λ w. IsDone tools target w.0 p) (with_draws draws n (map (write_of tools) rs))
      → All (λ r. IsDone tools target (write_of tools r) p) rs
  agents-IsDone draws n [] p done = tt
  agents-IsDone draws n (r ∷ rs) p done = (done.0, agents-IsDone draws (suc n) rs p done.1)

  -- After the loop over the writes of a system, each of its agents either has at
  -- `agents/<id>@<version>/<id>.md` in the target a file with the digest of its body, or is in the
  -- list of failures; whatever is on the disk before, and whatever the operating system refuses,
  -- for each write another operation on another path, a refused write leaving any part of a file.
  -- The conditions are that the agents have distinct references, that each path has a directory, and
  -- that no name that a write draws for its temporary file and its backups is its own path or that
  -- of an earlier write.
  pub written_or_failed :
      (draws : ℕ → Draws) (p : Progress)
      → HasDistinctRefs system.resolved
      → All (IsPlaced target) (with_draws draws 0 (writes_of tools system))
      → IsClear target (with_draws draws 0 (writes_of tools system))
      → All
          (λ r.
            HasDigest tools
              (agent_path target r)
              (tools.sha256_hex (tools.as_bytes r.agent.body))
              (write_agents tools now target with_store system
                (with_draws draws 0 (writes_of tools system))
                p).disk
            ⊎ (contains
                  (write_agents tools now target with_store system
                    (with_draws draws 0 (writes_of tools system))
                    p).tally.failed
                  (ref_of r)
                ≡ true))
          system.resolved
  unfolding writes_of
  written_or_failed draws p distinct placed clear =
      let ws = with_draws draws 0 (map (write_of tools) system.resolved) in
      agents-IsDone draws 0 system.resolved (write_agents tools now target with_store system ws p) (
        write_agents_lem tools now target with_store system ws p
          (writes-IsSourced draws 0 system.resolved (distinct-found system.resolved distinct)
            placed)
          clear)
