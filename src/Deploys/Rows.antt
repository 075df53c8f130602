-- ===== src/Deploys/Rows.antt =====
-- crates/core/src/infrastructure/repository/pending_deploys_repository.rs: the enums and the row.
use agent_dep_platform.Base.{
  ℕ, ◌≡◌, refl, String, Bool, true, false, Option, CoreResult, ok, err, err_schema_invalid, eqb,
  ◌==◌, string_eq, if◌then◌else◌,
}

pub data Environment : Type 0 where
  dev staging production : Environment

pub data Status : Type 0 where
  pending approved rejected applied : Status

unfoldable pub environment_as_str : Environment → String
environment_as_str dev = "dev"
environment_as_str staging = "staging"
environment_as_str production = "production"

unfoldable pub parse_environment : String → CoreResult Environment
parse_environment s =
    if s == "dev"
    then ok dev
    else if s == "staging"
    then ok staging
    else if s == "production"
    then ok production
    else err (err_schema_invalid "environment")

unfoldable pub status_as_str : Status → String
status_as_str pending = "pending"
status_as_str approved = "approved"
status_as_str rejected = "rejected"
status_as_str applied = "applied"

unfoldable pub parse_status : String → CoreResult Status
parse_status s =
    if s == "pending"
    then ok pending
    else if s == "approved"
    then ok approved
    else if s == "rejected"
    then ok rejected
    else if s == "applied"
    then ok applied
    else err (err_schema_invalid "pending_deploys.status")

pub parse_environment-as_str : (e : Environment) → parse_environment (environment_as_str e) ≡ ok e
unfolding parse_environment environment_as_str
parse_environment-as_str dev = refl
parse_environment-as_str staging = refl
parse_environment-as_str production = refl

pub parse_status-as_str : (s : Status) → parse_status (status_as_str s) ≡ ok s
unfolding parse_status status_as_str
parse_status-as_str pending = refl
parse_status-as_str approved = refl
parse_status-as_str rejected = refl
parse_status-as_str applied = refl

abbrev pub is_pending : Status → Bool
is_pending pending = true
is_pending _ = false

abbrev pub is_approved : Status → Bool
is_approved approved = true
is_approved _ = false

-- `status IN ('pending', 'approved')`
abbrev pub is_active : Status → Bool
is_active pending = true
is_active approved = true
is_active _ = false

-- Times are milliseconds; the names of enums are the enums.
pub record PendingDeployRow : Type 0 where
  pub id : ℕ
  pub system_id : String
  pub plan_summary : String
  pub requested_by : ℕ
  pub requested_at : ℕ
  pub status : Status
  pub environment : Environment
  pub target_id : Option ℕ
  pub target_config_version : Option ℕ
  pub source_snapshot_id : Option String
  pub commit_sha : Option String
  pub plan_hash : Option String
  pub policy_set_version : Option String
  pub artifact_manifest_hash : Option String
  pub fence_token : Option ℕ
  pub applied_deployment_version : Option ℕ
  pub approved_by : Option ℕ
  pub approved_at : Option ℕ
  pub rejection_reason : Option String
  pub applied_at : Option ℕ

abbrev pub has_id : ℕ → PendingDeployRow → Bool
has_id k r = eqb r.id k
