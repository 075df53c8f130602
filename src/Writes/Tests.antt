-- ===== src/Writes/Tests.antt =====
-- A concrete system written into a target (crates/core/src/application/deploy/mod.rs), and the
-- theorems at it.
use agent_dep_platform.Base.{
  Option, eqb, length, if◌then◌else◌, ℕ, zero, suc, not, contains, ◌≡◌, ◌≢◌, ◌⊎◌, refl, sym, String,
  true, false, none, some, [], ◌∷◌, eq_iff, All, ◌==◌, string_eq,
}
use agent_dep_platform.Journal.Kind.{deploy}
use agent_dep_platform.Journal.Status.{committing, failed}
use agent_dep_platform.Journal.Service.{JsonCodec, OpRow, prepared_row}
use agent_dep_platform.Systems.Catalog.{Version, Agent, ResolvedAgent, System}
use agent_dep_platform.Writes.Disk.{Os, renames_to, content, create_dir_all, write_file, rename}
use agent_dep_platform.Writes.Placing.{Draws, Tools, write_one, write_in, displace, place, and_then}
use agent_dep_platform.Writes.Applying.{
  DeployWrite, Progress, no_tally, writes_of, write_agents, write_agent, recorded, with_draws,
  ref_of,
}
use agent_dep_platform.Writes.Installing.{HasDigest}
use agent_dep_platform.Writes.Refining.{IsClear}
use agent_dep_platform.Writes.Delivering.{IsPlaced, agent_path, written_or_failed}
use agent_dep_platform.Writes.Deploying.{Workspace, DeployOutcome, DeployEffect}

abbrev one : Version
one = record { major = 1; minor = 0; patch = 0 }

abbrev backend : Agent
backend = record {
  snapshot_id = 1;
  id = "be";
  division = "core";
  name = "Backend";
  display_name = none;
  role = "backend";
  description = "";
  version = one;
  sensitive = false;
  tools = [];
  activation_phrases = [];
  body = "x";
  body_hash = "";
}

abbrev resolved_backend : ResolvedAgent
resolved_backend = record {
  agent = backend;
  from_ref = record { id = "be"; version = one };
  applied_override = none;
}

abbrev resolved_frontend : ResolvedAgent
resolved_frontend = record {
  agent = record backend { id = "fe"; name = "Frontend"; role = "frontend"; body = "yy" };
  from_ref = record { id = "fe"; version = one };
  applied_override = none;
}

abbrev shop : System
shop = record {
  metadata = record { id = "shop"; name = "Shop"; description = none };
  spec = record {
    runtime_type = "claude";
    source = "main";
    agents = [];
    skills = [];
    project_root = none;
  };
  source_id = 1;
  snapshot_id = 1;
  resolved = resolved_backend ∷ resolved_frontend ∷ [];
  resolved_skills = [];
}

abbrev tools : Tools
tools = record {
  sha256_hex = λ b. if eqb (length b) 1 then "digest" else "other";
  as_bytes = λ s. 120 ∷ [];
  to_vec_pretty = λ r. some [];
}

-- An operating system that refuses a rename to the backend's file, and a write anywhere after its
-- first byte.
abbrev strict : Os
strict = record {
  permits = λ op p. elim op [ renames_to ↦ not (p == "root/agents/be@1.0.0/be.md") | _ ↦ true ];
  partial = λ p. some (120 ∷ []);
}

abbrev lax : Os
lax = record { permits = λ op p. true; partial = λ p. none }

abbrev draws : ℕ → Draws
draws zero = record {
  ts = 5;
  tmp_uuid = "11111111-0";
  backup_uuid = "22222222-0";
  os = strict;
  takes_row = true;
}
draws (suc n) = record {
  ts = 6;
  tmp_uuid = "33333333-0";
  backup_uuid = "44444444-0";
  os = lax;
  takes_row = true;
}

abbrev write : DeployWrite
write = record {
  agent_ref = "be@1.0.0";
  relative = "agents/be@1.0.0/be.md";
  expected_sha256 = "digest";
  body_sha256 = "digest";
}

abbrev front : DeployWrite
front = record write { agent_ref = "fe@1.0.0"; relative = "agents/fe@1.0.0/fe.md" }

abbrev file : String
file = "root/agents/be@1.0.0/be.md"

abbrev front_file : String
front_file = "root/agents/fe@1.0.0/fe.md"

abbrev empty : Progress
empty = record {
  disk = record { files = []; dirs = []; objects = [] };
  artifacts = [];
  tally = no_tally;
}

differ : (s t : String) → (s == t) ≡ false → s ≢ t
differ s t h e = let same = (eq_iff s t).1 e in cc

the_writes : writes_of tools shop ≡ write ∷ front ∷ []
unfolding writes_of
the_writes = refl

-- The loop reports the one and writes the other.
abbrev after : Progress
after = write_agents tools 9 "root" true shop ((write, draws 0) ∷ (front, draws 1) ∷ []) empty

refused_and_written :
    (after.tally.failed ≡ "be@1.0.0" ∷ []) × (content front_file after.disk.files ≡ some (120 ∷ []))
unfolding write_agents write_agent recorded write_one write_in displace place and_then
    create_dir_all write_file rename
refused_and_written = (refl, refl)

placed : All (IsPlaced "root") (with_draws draws 0 (writes_of tools shop))
unfolding writes_of
placed = (
  (
    "root/agents/be@1.0.0",
    refl,
    (differ _ file refl, differ _ file refl, differ _ file refl, differ _ file refl),
  ),
  (
    (
      "root/agents/fe@1.0.0",
      refl,
      (
        differ _ front_file refl,
        differ _ front_file refl,
        differ _ front_file refl,
        differ _ front_file refl,
      ),
    ),
    tt,
  ),
)

clear : IsClear "root" (with_draws draws 0 (writes_of tools shop))
unfolding writes_of
clear = (
  (
    (
      "root/agents/fe@1.0.0",
      refl,
      (differ _ file refl, differ _ file refl, differ _ file refl, differ _ file refl),
      differ _ file refl,
    ),
    tt,
  ),
  (tt, tt),
)

written_or_failed_example :
    All
      (λ r.
        HasDigest tools
          (agent_path "root" r)
          "digest"
          (write_agents tools 9 "root" true shop
            (with_draws draws 0 (writes_of tools shop))
            empty).disk
        ⊎ (contains
              (write_agents tools 9 "root" true shop
                (with_draws draws 0 (writes_of tools shop))
                empty).tally.failed
              (ref_of r)
            ≡ true))
      shop.resolved
written_or_failed_example =
    written_or_failed tools 9 "root" true shop draws empty
      ((differ "fe@1.0.0" "be@1.0.0" refl, tt), (tt, tt)) placed clear

-- Effects that are their own text.
abbrev plain : JsonCodec
plain = record {
  Json = String;
  to_string = λ s. some s;
  from_str = λ s. some s;
  round_trip = λ j s h. sym h;
}

abbrev begun : OpRow
begun = record (prepared_row 1 1000 deploy "abc" "{}") { status = committing }

abbrev lost : Workspace
lost = record {
  journal = begun ∷ [];
  disk = record { files = []; dirs = []; objects = [] };
  artifacts = [];
}

-- The backend's file is there with another content.
abbrev earlier : Workspace
earlier = record {
  journal = [];
  disk = record { files = (file, []) ∷ []; dirs = "root" ∷ []; objects = [] };
  artifacts = [];
}

abbrev effect_of : DeployEffect → Option String
effect_of e = some "{}"

-- The rename to the backend's file is refused, and the old file is taken for the new one.
abbrev reported : DeployOutcome
reported = record {
  operation_id = 4;
  tally = record {
    wrote_count = 1;
    skipped_count = 0;
    backed_up_count = 0;
    failed = "be@1.0.0" ∷ [];
  };
}
