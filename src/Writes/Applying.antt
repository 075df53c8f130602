-- ===== src/Writes/Applying.antt =====
-- crates/core/src/application/deploy/mod.rs: `DeploymentService::apply` writes the agents of a
-- system into a target, one after the other, and records each in the table `deployed_artifacts`.
-- A failed `upsert` leaves the table as it was.
use Prim.Native.String.{◌++◌}
use mathlib.Core.List.{◌++◌ as append}
use agent_dep_platform.Base.{
  ℕ, suc, String, Bool, ◌&&◌, Option, none, some, List, [], ◌∷◌, CoreResult, ok, err, ◌==◌,
  string_eq, any, find, update, map, if◌then◌else◌,
}
use agent_dep_platform.Systems.Catalog.{ResolvedAgent, System, show_ref}
use agent_dep_platform.Writes.Disk.{Disk}
use agent_dep_platform.Writes.Placing.{
  WriteOutcome, wrote, skipped, backed_up, Draws, Tools, join, write_one,
}

pub record DeployWrite : Type 0 where
  pub agent_ref : String
  pub relative : String
  pub expected_sha256 : String
  pub body_sha256 : String

-- A row of the table `deployed_artifacts`, whose key is the system with the target.
pub record DeployedArtifactRow : Type 0 where
  pub system_id : String
  pub target : String
  pub expected_sha256 : String
  pub actual_sha256 : Option String
  pub state : String
  pub deployed_at : ℕ
  pub last_verified_at : Option ℕ

abbrev same_artifact : DeployedArtifactRow → DeployedArtifactRow → Bool
same_artifact a b = a.system_id == b.system_id && a.target == b.target

unfoldable pub upsert : DeployedArtifactRow → List DeployedArtifactRow → List DeployedArtifactRow
upsert row rows =
    if any (same_artifact row) rows
    then update (same_artifact row) (λ _. row) rows
    else append rows (row ∷ [])

-- The counters and the agents whose write failed.
pub record Tally : Type 0 where
  pub wrote_count : ℕ
  pub skipped_count : ℕ
  pub backed_up_count : ℕ
  pub failed : List String

abbrev pub no_tally : Tally
no_tally = record { wrote_count = 0; skipped_count = 0; backed_up_count = 0; failed = [] }

abbrev pub counted : WriteOutcome → Tally → Tally
counted wrote t = record t { wrote_count = suc t.wrote_count }
counted skipped t = record t { skipped_count = suc t.skipped_count }
counted backed_up t = record t {
  wrote_count = suc t.wrote_count;
  backed_up_count = suc t.backed_up_count;
}

abbrev pub with_failure : String → Tally → Tally
with_failure agent_ref t = record t { failed = append t.failed (agent_ref ∷ []) }

pub record Progress : Type 0 where
  pub disk : Disk
  pub artifacts : List DeployedArtifactRow
  pub tally : Tally

abbrev pub ref_of : ResolvedAgent → String
ref_of r = show_ref r.from_ref.id r.from_ref.version

module _ (tools : Tools) where
  abbrev pub write_of : ResolvedAgent → DeployWrite
  write_of r =
      let body_sha = tools.sha256_hex (tools.as_bytes r.agent.body) in
      record {
        agent_ref = ref_of r;
        relative = "agents/" ++ (ref_of r ++ ("/" ++ (r.agent.id ++ ".md")));
        expected_sha256 = body_sha;
        body_sha256 = body_sha;
      }

  -- The writes, from the system.
  unfoldable pub writes_of : System → List DeployWrite
  writes_of system = map write_of system.resolved

  abbrev artifact_row : ℕ → String → DeployWrite → DeployedArtifactRow
  artifact_row now system_id w = record {
    system_id = system_id;
    target = w.relative;
    expected_sha256 = w.body_sha256;
    actual_sha256 = some w.body_sha256;
    state = "current";
    deployed_at = now;
    last_verified_at = some now;
  }

  -- What a write leaves: an error of the `upsert` is reported too, with the file in place.
  unfoldable pub recorded :
      ℕ → String → Bool → DeployWrite → Disk × CoreResult WriteOutcome → Progress → Progress
  recorded now system_id takes_row w (d, err e) p = record p {
    disk = d;
    tally = with_failure w.agent_ref p.tally;
  }
  recorded now system_id takes_row w (d, ok outcome) p =
      if takes_row
      then record {
        disk = d;
        artifacts = upsert (artifact_row now system_id w) p.artifacts;
        tally = counted outcome p.tally;
      }
      else record p { disk = d; tally = with_failure w.agent_ref (counted outcome p.tally) }

  -- One round of the loop.
  unfoldable pub write_agent :
      ℕ → String → Bool → System → DeployWrite → Draws → Progress → Progress
  write_agent now target with_store system w draws p =
      elim (find (λ r. ref_of r == w.agent_ref) system.resolved) [
        | none ↦ record p { tally = with_failure w.agent_ref p.tally }
        | some ra ↦
            recorded now system.metadata.id draws.takes_row w
              (write_one tools (join target w.relative) (tools.as_bytes ra.agent.body) w.body_sha256
                with_store draws p.disk)
              p
      ]

  unfoldable pub write_agents :
      ℕ → String → Bool → System → List (DeployWrite × Draws) → Progress → Progress
  write_agents now target with_store system [] p = p
  write_agents now target with_store system ((w, draws) ∷ rest) p =
      write_agents now target with_store system rest
        (write_agent now target with_store system w draws p)

-- Each write with what it draws.
abbrev pub with_draws : (ℕ → Draws) → ℕ → List DeployWrite → List (DeployWrite × Draws)
with_draws draws n [] = []
with_draws draws n (w ∷ ws) = (w, draws n) ∷ with_draws draws (suc n) ws
