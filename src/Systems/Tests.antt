-- ===== src/Systems/Tests.antt =====
-- Compositions and plans at concrete inputs.
use agent_dep_platform.Base.{
  ℕ, leb, arith, ◌⊎◌, String, true, false, Option, none, some, List, [], ◌∷◌, ◌≡◌, ◌↔◌, inl, inr,
  refl, ok, err, err_schema_invalid, err_dependency_missing, contains, string_eq, All,
}
use agent_dep_platform.Systems.Catalog.{
  Version, Agent, AgentOverride, SystemAgentRef, Skill, SystemFile, SystemFileV2, v1, v2, System,
}
use agent_dep_platform.Systems.Composing.{
  api_version_v1, hermes, resolve_agents, compose_v1, compose, system_v1,
}
use agent_dep_platform.Systems.Composition.{IsIn, IsComposition, agents_of, skills_of, compose_lem}
use agent_dep_platform.Systems.Totality.{IsListedAgent, IsListedSkill, compose_total}
use agent_dep_platform.Systems.Planning.{
  noop, delete, DeployedObservation, path_operation, planned_targets, plan_for,
}
use agent_dep_platform.Systems.Plans.{IsInPlace, IsQuiet, plan_for_converged}
use agent_dep_platform.Systems.Deletions.{plan_for_deletes}
use agent_dep_platform.Systems.Resolver.{Semver, resolve, resolve_lem}

abbrev one : Version
one = record { major = 1; minor = 0; patch = 0 }

abbrev ten : Version
ten = record { major = 1; minor = 10; patch = 0 }

abbrev backend : Agent
backend = record {
  snapshot_id = 2;
  id = "be";
  division = "engineering";
  name = "Backend";
  display_name = none;
  role = "builds APIs";
  description = "";
  version = ten;
  sensitive = false;
  tools = [];
  activation_phrases = [];
  body = "text";
  body_hash = "h1";
}

abbrev sql : Skill
sql = record {
  snapshot_id = 2;
  id = "sql";
  name = "SQL";
  version = one;
  description = "";
  tags = [];
  body = "";
  body_hash = "h2";
  dependencies = [];
  permissions = [];
}

abbrev renamed : AgentOverride
renamed = record { display_name = some "Bea"; role = none; description = none }

abbrev backend_ref : SystemAgentRef
backend_ref = record {
  agent_ref = record { id = "be"; version = ten };
  agent_override = some renamed;
}

abbrev missing_ref : SystemAgentRef
missing_ref = record { agent_ref = record { id = "be"; version = one }; agent_override = none }

abbrev file_of : List SystemAgentRef → SystemFile
file_of refs = record {
  api_version = api_version_v1;
  kind = "System";
  metadata = record { id = "shop"; name = "Shop"; description = none };
  spec = record { source = "local"; agents = refs };
}

abbrev file : SystemFileV2
file = record {
  schema_url = "";
  api_version = "agency/v1";
  kind = "System";
  metadata = record { id = "shop"; name = "Shop"; version = none; description = none };
  spec = record {
    runtime_type = hermes;
    agents = record { agent_ref = record { id = "be"; version = ten }; agent_override = none } ∷ [];
    skills = record { skill_ref = record { id = "sql"; version = one } } ∷ [];
    project_root = some "/srv";
  };
}

abbrev shop : System
shop = system_v1 1 2 (file_of (backend_ref ∷ [])) (
    record {
      agent = record backend { display_name = some "Bea" };
      from_ref = record { id = "be"; version = ten };
      applied_override = some renamed;
    }
    ∷ [])

composed : compose 1 2 (backend ∷ []) [] (v1 (file_of (backend_ref ∷ []))) ≡ ok shop
unfolding compose compose_v1 resolve_agents
composed = refl

duplicate_ref :
    compose 1 2 (backend ∷ []) [] (v1 (file_of (backend_ref ∷ backend_ref ∷ [])))
    ≡ err (err_schema_invalid "spec.agents[].ref")
unfolding compose compose_v1 resolve_agents
duplicate_ref = refl

unknown_version :
    compose 1 2 (backend ∷ []) [] (v1 (file_of (missing_ref ∷ [])))
    ≡ err (err_dependency_missing "agent:be@1.0.0 (known versions: 1.10.0)" "system:shop")
unfolding compose compose_v1 resolve_agents
unknown_version = refl

compose_lem_example : IsComposition 1 2 (backend ∷ []) [] (v1 (file_of (backend_ref ∷ []))) shop
compose_lem_example =
    compose_lem 1 2 (backend ∷ []) [] (v1 (file_of (backend_ref ∷ []))) shop composed

backend_listed : All (IsListedAgent (backend ∷ [])) (agents_of (v2 file))
unfolding IsListedAgent
backend_listed = ((backend, inl refl, refl, refl), tt)

sql_listed : All (IsListedSkill (sql ∷ [])) (skills_of (v2 file))
unfolding IsListedSkill
sql_listed = ((sql, inl refl, refl, refl), tt)

compose_total_example : (s : System) × (compose 1 2 (backend ∷ []) (sql ∷ []) (v2 file) ≡ ok s)
compose_total_example =
    compose_total 1 2 (backend ∷ []) (sql ∷ []) (v2 file) refl backend_listed (tt, tt) sql_listed
      (tt, tt)

abbrev old_file : String
old_file = "agents/old@1.0.0/old.md"

abbrev actuals : Option (List (String × String))
actuals = some (("be@1.10.0", "h1") ∷ [])

abbrev observation : DeployedObservation
observation = record {
  target = old_file;
  expected_sha256 = "h3";
  observed_sha256 = some "h3";
  backup_present = true;
}

in_place : All (IsInPlace actuals) shop.resolved
unfolding IsInPlace
in_place = (refl, tt)

quiet : All (IsQuiet (planned_targets shop)) ((old_file, observation) ∷ [])
unfolding IsQuiet
quiet = (inr (refl, refl), tt)

plan_for_converged_example :
    All
      (λ o. o.kind ≡ noop)
      (plan_for shop actuals
        (some ("agents/be@1.10.0/be.md" ∷ []))
        (some ((old_file, observation) ∷ []))).operations
plan_for_converged_example =
    plan_for_converged shop actuals (some ("agents/be@1.10.0/be.md" ∷ []))
      (some ((old_file, observation) ∷ [])) in_place (refl, tt) quiet

plan_for_deletes_example :
    IsIn
      (path_operation delete old_file)
      (plan_for shop none (some (old_file ∷ "agents/be@1.10.0/be.md" ∷ [])) none).operations
    ↔ (IsIn old_file (old_file ∷ "agents/be@1.10.0/be.md" ∷ [])
        × (contains (planned_targets shop) old_file ≡ false))
plan_for_deletes_example =
    plan_for_deletes shop none (some (old_file ∷ "agents/be@1.10.0/be.md" ∷ [])) none old_file

-- Versions and ranges as numbers: a range matches what is at least its number.
abbrev numbers : Semver
numbers = record {
  Version = ℕ;
  VersionReq = ℕ;
  matches = leb;
  le = leb;
  le_total = λ a b. ground arith;
  le_trans = λ a b c h k. ground (arith, h, k);
}

highest : resolve numbers 2 (1 ∷ 3 ∷ 5 ∷ 2 ∷ []) ≡ some 5
unfolding resolve
highest = refl

resolve_example :
    ((top : ℕ) × (resolve numbers 2 (1 ∷ 3 ∷ []) ≡ some top)
      × IsIn top (1 ∷ 3 ∷ [])
      × (leb 2 top ≡ true)
      × All (λ v. leb 2 v ≡ true → leb v top ≡ true) (1 ∷ 3 ∷ []))
    ⊎ ((resolve numbers 2 (1 ∷ 3 ∷ []) ≡ none) × All (λ v. leb 2 v ≡ true → ⊥) (1 ∷ 3 ∷ []))
resolve_example = resolve_lem numbers 2 (1 ∷ 3 ∷ [])
