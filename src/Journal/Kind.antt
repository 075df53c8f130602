-- ===== src/Journal/Kind.antt =====
-- crates/core/src/application/journal/mod.rs: `OperationType` and its names in the table.
use agent_dep_platform.Base.{
  String, ◌≡◌, refl, arith, eq_iff, CoreResult, ok, err, err_schema_invalid, ◌==◌, string_eq,
  if◌then◌else◌,
}

pub data OperationType : Type 0 where
  deploy rollback plan audit : OperationType

unfoldable pub as_str : OperationType → String
as_str deploy = "deploy"
as_str rollback = "rollback"
as_str plan = "plan"
as_str audit = "audit"

unfoldable pub parse : String → CoreResult OperationType
parse s =
    if s == "deploy"
    then ok deploy
    else if s == "rollback"
    then ok rollback
    else if s == "plan"
    then ok plan
    else if s == "audit"
    then ok audit
    else err (err_schema_invalid "operations.type")

-- What is stored is read back.
pub parse-as_str : (k : OperationType) → parse (as_str k) ≡ ok k
unfolding parse as_str
parse-as_str deploy = refl
parse-as_str rollback = refl
parse-as_str plan = refl
parse-as_str audit = refl

-- Only the stored form of a value is read as that value.
pub parse_inv : (s : String) (k : OperationType) → parse s ≡ ok k → s ≡ as_str k
unfolding parse as_str
parse_inv s k h =
    ground (arith, eq_iff s "deploy", eq_iff s "rollback", eq_iff s "plan", eq_iff s "audit")
