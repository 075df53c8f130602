-- ===== src/Writes/Succeeding.antt =====
-- What a call of `DeploymentService::apply` (crates/core/src/application/deploy/mod.rs) that returns
-- an outcome has done.
use agent_dep_platform.Base.{string_eq, ℕ, ◌≡◌, ◌⊎◌, String, Bool, true, List, All, contains}
use agent_dep_platform.Journal.Service.{JsonCodec}
use agent_dep_platform.Systems.Catalog.{System}
use agent_dep_platform.Writes.Disk.{Disk}
use agent_dep_platform.Writes.Placing.{Draws, Tools}
use agent_dep_platform.Writes.Installing.{HasDigest}
use agent_dep_platform.Writes.Applying.{
  Progress, no_tally, ref_of, writes_of, write_agents, with_draws,
}
use agent_dep_platform.Writes.Delivering.{agent_path}
use agent_dep_platform.Writes.Deploying.{Workspace, DeployOutcome}
use agent_dep_platform.Writes.Finishing.{Finished}

module _ (json : JsonCodec) (tools : Tools) (now : ℕ) (target : String) (with_store : Bool)
    (system : System) (draws : ℕ → Draws) where
  -- What the loop leaves, from a workspace.
  abbrev looped : Workspace → Progress
  looped st =
      write_agents tools now target with_store system (with_draws draws 0 (writes_of tools system))
        (record { disk = st.disk; artifacts = st.artifacts; tally = no_tally })

  -- Each agent has a file with the digest of its body, or is among the failures.
  abbrev pub AreDelivered : Disk → List String → Type 0
  AreDelivered d failures =
      All
        (λ r.
          HasDigest tools (agent_path target r) (tools.sha256_hex (tools.as_bytes r.agent.body)) d
          ⊎ (contains failures (ref_of r) ≡ true))
        system.resolved

  -- A call whose loop began in a workspace.
  record Ran (op_id : ℕ) (st after : Workspace) (o : DeployOutcome) : Type 0 where
    checked : Workspace
    same_disk : checked.disk ≡ (looped st).disk
    finished : Finished json op_id target (writes_of tools system) (looped st).tally checked after o
