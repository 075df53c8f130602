-- ===== src/Systems/Composing.antt =====
-- `CompositionService` of crates/core/src/application/compose/mod.rs. Its three loops over
-- references are one function, `resolve_all`, at three item types.
use Prim.Native.String.{◌++◌ as append_text}
use agent_dep_platform.Base.{
  ℕ, String, Bool, true, false, not, ◌&&◌, Option, none, some, List, [], ◌∷◌, CoreResult, ok, err,
  ◌>>=◌, ◌>>◌, CoreError, err_schema_invalid, err_dependency_missing, find, select, contains, map,
  ◌==◌, string_eq, if◌then◌else◌,
}
use agent_dep_platform.Base.{is_blank}
use agent_dep_platform.Systems.Catalog.{
  Version, same_version, version_as_string, show_ref, Agent, Skill, AgentRef, SkillRef,
  AgentOverride, SystemAgentRef, SystemFile, SystemAgentRefV2, SystemSkillRefV2, SystemFileV2,
  ParsedSystemFile, v1, v2, ResolvedAgent, ResolvedSkill, System,
}

abbrev pub api_version_v1 : String
api_version_v1 = "agent-dep/v1"

abbrev pub hermes : String
hermes = "hermes"

abbrev or_keep : {A : Type 0} → Option A → A → A
or_keep none old = old
or_keep (some new) old = new

abbrev or_keep_name : Option String → Option String → Option String
or_keep_name none old = old
or_keep_name (some new) old = some new

abbrev pub apply_override : Agent → Option AgentOverride → Agent
apply_override a none = a
apply_override a (some o) = record a {
  display_name = or_keep_name o.display_name a.display_name;
  role = or_keep o.role a.role;
  description = or_keep o.description a.description;
}

-- The loop: an id that was seen before, or an item that the catalog does not have, ends the call.
-- `seen` has the newest id first.
module _ {E R : Type 0} (id_of : E → String) (look_up : E → Option R) (duplicate : CoreError)
    (missing : E → CoreError) where
  abbrev pub resolve_all : List String → List E → CoreResult (List R)
  resolve_all seen [] = ok []
  resolve_all seen (e ∷ es) =
      let rest = resolve_all (id_of e ∷ seen) es in
      if contains seen (id_of e)
      then err duplicate
      else elim (look_up e) [ none ↦ err (missing e) | some r ↦ rest >>= λ rs. ok (r ∷ rs) ]

-- `[v1, v2, …].join(", ")`
abbrev join_versions : List Version → String
join_versions [] = ""
join_versions (v ∷ []) = version_as_string v
join_versions (v ∷ w ∷ vs) =
    append_text (version_as_string v) (append_text ", " (join_versions (w ∷ vs)))

abbrev with_known : String → List Version → String
with_known requested [] = requested
with_known requested (v ∷ vs) =
    append_text requested
      (append_text " (known versions: " (append_text (join_versions (v ∷ vs)) ")"))

abbrev missing_error : String → String → Version → List Version → String → CoreError
missing_error kind id version known system_id =
    err_dependency_missing
      (with_known (append_text kind (append_text ":" (show_ref id version))) known)
      (append_text "system:" system_id)

module _ (agents : List Agent) where
  abbrev pub is_agent : AgentRef → Agent → Bool
  is_agent ref a = (a.id == ref.id) && same_version a.version ref.version

  abbrev pub look_up_agent : SystemAgentRef → Option ResolvedAgent
  look_up_agent entry = elim (find (is_agent entry.agent_ref) agents) [
    | none ↦ none
    | some a ↦ some (record {
      agent = apply_override a entry.agent_override;
      from_ref = entry.agent_ref;
      applied_override = entry.agent_override;
    })
  ]

  abbrev pub agent_missing : String → SystemAgentRef → CoreError
  agent_missing system_id entry =
      missing_error "agent" entry.agent_ref.id entry.agent_ref.version
        (map (λ a. a.version) (select (λ a. a.id == entry.agent_ref.id) agents)) system_id

  unfoldable pub resolve_agents : String → List SystemAgentRef → CoreResult (List ResolvedAgent)
  resolve_agents system_id entries =
      resolve_all (λ e. e.agent_ref.id) look_up_agent (err_schema_invalid "spec.agents[].ref")
        (agent_missing system_id) [] entries

module _ (skills : List Skill) where
  abbrev pub is_skill : SkillRef → Skill → Bool
  is_skill ref s = (s.id == ref.id) && same_version s.version ref.version

  abbrev pub look_up_skill : SystemSkillRefV2 → Option ResolvedSkill
  look_up_skill entry = elim (find (is_skill entry.skill_ref) skills) [
    | none ↦ none
    | some s ↦ some (record { skill = s; from_ref = entry.skill_ref })
  ]

  abbrev pub skill_missing : String → SystemSkillRefV2 → CoreError
  skill_missing system_id entry =
      missing_error "skill" entry.skill_ref.id entry.skill_ref.version
        (map (λ s. s.version) (select (λ s. s.id == entry.skill_ref.id) skills)) system_id

  unfoldable pub resolve_skills : String → List SystemSkillRefV2 → CoreResult (List ResolvedSkill)
  resolve_skills system_id entries =
      resolve_all (λ e. e.skill_ref.id) look_up_skill (err_schema_invalid "spec.skills[].ref")
        (skill_missing system_id) [] entries

abbrev is_nil : {A : Type 0} → List A → Bool
is_nil [] = true
is_nil (x ∷ xs) = false

abbrev pub check_file_v1 : SystemFile → CoreResult (Unit {0})
check_file_v1 f =
    if not (f.api_version == api_version_v1)
    then err (err_schema_invalid "apiVersion")
    else if is_blank f.metadata.id
    then err (err_schema_invalid "metadata.id")
    else if is_nil f.spec.agents
    then err (err_schema_invalid "spec.agents")
    else ok tt

abbrev pub check_file_v2 : SystemFileV2 → CoreResult (Unit {0})
check_file_v2 f =
    if is_blank f.metadata.id
    then err (err_schema_invalid "metadata.id")
    else if is_nil f.spec.agents && is_nil f.spec.skills
    then err (err_schema_invalid "spec")
    else if not (f.spec.runtime_type == hermes)
    then err (err_schema_invalid "spec.runtime.type")
    else ok tt

-- A reference of the second format, in the shape of the first.
abbrev pub lift_ref : SystemAgentRefV2 → SystemAgentRef
lift_ref a = record { agent_ref = a.agent_ref; agent_override = a.agent_override }

abbrev pub system_v1 : ℕ → ℕ → SystemFile → List ResolvedAgent → System
system_v1 source_id snapshot_id f resolved = record {
  metadata = f.metadata;
  spec = record {
    runtime_type = hermes;
    source = f.spec.source;
    agents = f.spec.agents;
    skills = [];
    project_root = none;
  };
  source_id = source_id;
  snapshot_id = snapshot_id;
  resolved = resolved;
  resolved_skills = [];
}

abbrev pub system_v2 : ℕ → ℕ → SystemFileV2 → List ResolvedAgent → List ResolvedSkill → System
system_v2 source_id snapshot_id f resolved resolved_skills = record {
  metadata = record {
    id = f.metadata.id;
    name = f.metadata.name;
    description = f.metadata.description;
  };
  spec = record {
    runtime_type = f.spec.runtime_type;
    source = "v2";
    agents = map lift_ref f.spec.agents;
    skills = map (λ s. s.skill_ref) f.spec.skills;
    project_root = f.spec.project_root;
  };
  source_id = source_id;
  snapshot_id = snapshot_id;
  resolved = resolved;
  resolved_skills = resolved_skills;
}

unfoldable pub compose_v1 : ℕ → ℕ → List Agent → SystemFile → CoreResult System
compose_v1 source_id snapshot_id agents f =
    check_file_v1 f >> resolve_agents agents f.metadata.id f.spec.agents >>= λ resolved.
    ok (system_v1 source_id snapshot_id f resolved)

unfoldable pub compose_v2 : ℕ → ℕ → List Agent → List Skill → SystemFileV2 → CoreResult System
compose_v2 source_id snapshot_id agents skills f =
    check_file_v2 f
    >> resolve_agents agents f.metadata.id (map lift_ref f.spec.agents)
    >>= λ resolved. resolve_skills skills f.metadata.id f.spec.skills >>= λ resolved_skills.
        ok (system_v2 source_id snapshot_id f resolved resolved_skills)

unfoldable pub compose : ℕ → ℕ → List Agent → List Skill → ParsedSystemFile → CoreResult System
compose source_id snapshot_id agents skills (v1 f) = compose_v1 source_id snapshot_id agents f
compose source_id snapshot_id agents skills (v2 f) =
    compose_v2 source_id snapshot_id agents skills f
