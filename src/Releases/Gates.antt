-- ===== src/Releases/Gates.antt =====
-- The security and deployment gates of crates/core/src/application/policy/mod.rs. The parser of
-- YAML is a parameter: it returns the fields and sections that the text has.
use Prim.Native.Char.{code}
use Prim.Native.String.{[] as text_nil, ◌∷◌ as text_cons}
use agent_dep_platform.Base.{
  ℕ, String, Bool, true, false, ◌&&◌, ◌||◌, Option, none, some, CoreResult, ok, err,
  err_schema_invalid, eqb, ◌==◌, string_eq, if◌then◌else◌,
}

pub data PolicyDecision : Type 0 where
  allow warn block : PolicyDecision

pub record SecurityPolicy : Type 0 where
  pub unknown_external_urls : PolicyDecision
  pub plaintext_secrets : PolicyDecision
  pub executable_files : PolicyDecision

pub record Policy : Type 0 where
  pub policy_version : ℕ
  pub security : SecurityPolicy
  pub modified_files : PolicyDecision

-- A `security` section, and a `deployment` section with its only field, as the text has them.
pub record SecuritySection : Type 0 where
  pub unknown_external_urls : Option PolicyDecision
  pub plaintext_secrets : Option PolicyDecision
  pub executable_files : Option PolicyDecision

pub record PolicyText : Type 0 where
  pub policy_version : ℕ
  pub security : Option SecuritySection
  pub deployment : Option (Option PolicyDecision)

-- `#[serde(default = "default_block")]` of a field.
abbrev pub or_block : Option PolicyDecision → PolicyDecision
or_block none = block
or_block (some d) = d

-- `#[serde(default)]` of a section: the derived `Default`, whose decisions are the default of
-- `PolicyDecision`.
abbrev pub security_of : Option SecuritySection → SecurityPolicy
security_of none = record {
  unknown_external_urls = allow;
  plaintext_secrets = allow;
  executable_files = allow;
}
security_of (some s) = record {
  unknown_external_urls = or_block s.unknown_external_urls;
  plaintext_secrets = or_block s.plaintext_secrets;
  executable_files = or_block s.executable_files;
}

abbrev pub deployment_of : Option (Option PolicyDecision) → PolicyDecision
deployment_of none = allow
deployment_of (some d) = or_block d

abbrev pub policy_file_version : ℕ
policy_file_version = 1

abbrev from_text : Option PolicyText → CoreResult Policy
from_text none = err (err_schema_invalid "policy")
from_text (some t) =
    if eqb t.policy_version policy_file_version
    then ok (record {
      policy_version = t.policy_version;
      security = security_of t.security;
      modified_files = deployment_of t.deployment;
    })
    else err (err_schema_invalid "policyVersion")

module _ (parse_yaml : String → Option PolicyText) where
  unfoldable pub from_yaml : String → CoreResult Policy
  from_yaml text = from_text (parse_yaml text)

abbrev starts_with : String → String → Bool
starts_with text_nil s = true
starts_with (text_cons c p) text_nil = false
starts_with (text_cons c p) (text_cons d s) = eqb (code c) (code d) && starts_with p s

unfoldable pub security_floor : Policy → String → PolicyDecision
security_floor p rule_id =
    if (rule_id == "url.unknown-download-endpoint")
      || (rule_id == "url.suspicious-download-endpoint")
    then p.security.unknown_external_urls
    else if starts_with "secret." rule_id
    then p.security.plaintext_secrets
    else if rule_id == "executable.unexpected-extension"
    then p.security.executable_files
    else allow

abbrev pub modified_file_decision : Policy → PolicyDecision
modified_file_decision p = p.modified_files
