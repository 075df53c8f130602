-- ===== src/Systems/Catalog.antt =====
-- The types of crates/core/src/domain that the composition reads and makes: version/mod.rs,
-- agent/mod.rs, skill/mod.rs and system/mod.rs. Ids of sources and snapshots are numbers.
use Prim.Native.String.{◌++◌}
use agent_dep_platform.Base.{
  ℕ, String, Bool, true, ◌&&◌, Option, List, ◌≡◌, ◌↔◌, eqb, eqb_iff, string_eq, arith,
}
use agent_dep_platform.Base.{decimal}

pub record Version : Type 0 where
  pub major : ℕ
  pub minor : ℕ
  pub patch : ℕ

abbrev pub same_version : Version → Version → Bool
same_version v w = eqb v.major w.major && eqb v.minor w.minor && eqb v.patch w.patch

abbrev pub version_as_string : Version → String
version_as_string v = decimal v.major ++ "." ++ decimal v.minor ++ "." ++ decimal v.patch

pub record Agent : Type 0 where
  pub snapshot_id : ℕ
  pub id : String
  pub division : String
  pub name : String
  pub display_name : Option String
  pub role : String
  pub description : String
  pub version : Version
  pub sensitive : Bool
  pub tools : List String
  pub activation_phrases : List String
  pub body : String
  pub body_hash : String

pub data SkillPermission : Type 0 where
  read_env spawn_process network filesystem : SkillPermission

pub record SkillDependency : Type 0 where
  pub id : String
  pub version : Version

pub record Skill : Type 0 where
  pub snapshot_id : ℕ
  pub id : String
  pub name : String
  pub version : Version
  pub description : String
  pub tags : List String
  pub body : String
  pub body_hash : String
  pub dependencies : List SkillDependency
  pub permissions : List SkillPermission

pub record AgentRef : Type 0 where
  pub id : String
  pub version : Version

pub record SkillRef : Type 0 where
  pub id : String
  pub version : Version

-- `to_string` of a reference, from its fields.
abbrev pub show_ref : String → Version → String
show_ref id version = id ++ "@" ++ version_as_string version

pub record AgentOverride : Type 0 where
  pub display_name : Option String
  pub role : Option String
  pub description : Option String

pub record SystemAgentRef : Type 0 where
  pub agent_ref : AgentRef
  pub agent_override : Option AgentOverride

pub record SystemMetadata : Type 0 where
  pub id : String
  pub name : String
  pub description : Option String

pub record SystemSpecV1 : Type 0 where
  pub source : String
  pub agents : List SystemAgentRef

pub record SystemFile : Type 0 where
  pub api_version : String
  pub kind : String
  pub metadata : SystemMetadata
  pub spec : SystemSpecV1

pub record SystemAgentRefV2 : Type 0 where
  pub agent_ref : AgentRef
  pub agent_override : Option AgentOverride

pub record SystemSkillRefV2 : Type 0 where
  pub skill_ref : SkillRef

pub record SystemMetadataV2 : Type 0 where
  pub id : String
  pub name : String
  pub version : Option String
  pub description : Option String

pub record SystemSpecV2 : Type 0 where
  pub runtime_type : String
  pub agents : List SystemAgentRefV2
  pub skills : List SystemSkillRefV2
  pub project_root : Option String

pub record SystemFileV2 : Type 0 where
  pub schema_url : String
  pub api_version : String
  pub kind : String
  pub metadata : SystemMetadataV2
  pub spec : SystemSpecV2

pub data ParsedSystemFile : Type 0 where
  v1 : SystemFile → ParsedSystemFile
  v2 : SystemFileV2 → ParsedSystemFile

pub record ResolvedAgent : Type 0 where
  pub agent : Agent
  pub from_ref : AgentRef
  pub applied_override : Option AgentOverride

pub record ResolvedSkill : Type 0 where
  pub skill : Skill
  pub from_ref : SkillRef

pub record SystemSpec : Type 0 where
  pub runtime_type : String
  pub source : String
  pub agents : List SystemAgentRef
  pub skills : List SkillRef
  pub project_root : Option String

pub record System : Type 0 where
  pub metadata : SystemMetadata
  pub spec : SystemSpec
  pub source_id : ℕ
  pub snapshot_id : ℕ
  pub resolved : List ResolvedAgent
  pub resolved_skills : List ResolvedSkill

pub same_version_iff : (v w : Version) → (same_version v w ≡ true) ↔ (v ≡ w)
same_version_iff v w =
    ground (arith, eqb_iff v.major w.major, eqb_iff v.minor w.minor, eqb_iff v.patch w.patch)
