-- ===== src/Releases/Tests.antt =====
-- The gates and the classifier at concrete inputs.
use agent_dep_platform.Base.{String, true, Option, none, some, ◌≡◌, ◌↔◌, refl, ok}
use agent_dep_platform.Releases.Gates.{
  allow, block, Policy, PolicyText, SecuritySection, from_yaml, security_floor,
  modified_file_decision, deployment_of, security_of,
}
use agent_dep_platform.Releases.Drift.{current, classify, classify_current}

abbrev bare : PolicyText
bare = record { policy_version = 1; security = none; deployment = none }

abbrev empty_section : SecuritySection
empty_section = record {
  unknown_external_urls = none;
  plaintext_secrets = none;
  executable_files = none;
}

abbrev parse : String → Option PolicyText
parse s = some bare

abbrev strict : Policy
strict = record {
  policy_version = 1;
  security = record {
    unknown_external_urls = block;
    plaintext_secrets = block;
    executable_files = block;
  };
  modified_files = allow;
}

-- A section without fields blocks, where a missing section allows.
empty_section_blocks :
    from_yaml (λ s. some (record bare { security = some empty_section })) "" ≡ ok strict
unfolding from_yaml
empty_section_blocks = refl

strict_blocks : security_floor strict "secret.aws-key" ≡ block
unfolding security_floor
strict_blocks = refl

-- A policy without sections allows what it would block with empty ones.
bare_allows :
    (p : Policy) × (from_yaml parse "policyVersion: 1" ≡ ok p)
    × (security_floor p "SECRET_IN_CONTENT" ≡ allow)
    × (modified_file_decision p ≡ allow)
unfolding from_yaml security_floor
bare_allows = (
  record { policy_version = 1; security = security_of none; modified_files = deployment_of none },
  refl,
  refl,
  refl,
)

classify_current_example :
    ((classify (some "a") (some "a") true).0 ≡ current)
    ↔ ((d : String) × (some "a" ≡ some d) × (some "a" ≡ some d))
classify_current_example = classify_current (some "a") (some "a") true
