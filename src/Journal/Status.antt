-- ===== src/Journal/Status.antt =====
-- crates/core/src/application/journal/mod.rs: `OperationStatus`, its names in the table, and the
-- table of legal transitions.
use agent_dep_platform.Base.{
  String, Bool, true, false, not, ◌≡◌, refl, arith, eq_iff, CoreResult, ok, err, err_schema_invalid,
  ◌==◌, string_eq, if◌then◌else◌,
}

pub data OperationStatus : Type 0 where
  prepared writing committing committed rolled_back failed : OperationStatus

unfoldable pub as_str : OperationStatus → String
as_str prepared = "prepared"
as_str writing = "writing"
as_str committing = "committing"
as_str committed = "committed"
as_str rolled_back = "rolled_back"
as_str failed = "failed"

unfoldable pub parse : String → CoreResult OperationStatus
parse s =
    if s == "prepared"
    then ok prepared
    else if s == "writing"
    then ok writing
    else if s == "committing"
    then ok committing
    else if s == "committed"
    then ok committed
    else if s == "rolled_back"
    then ok rolled_back
    else if s == "failed"
    then ok failed
    else err (err_schema_invalid "operations.status")

-- What is stored is read back.
pub parse-as_str : (k : OperationStatus) → parse (as_str k) ≡ ok k
unfolding parse as_str
parse-as_str prepared = refl
parse-as_str writing = refl
parse-as_str committing = refl
parse-as_str committed = refl
parse-as_str rolled_back = refl
parse-as_str failed = refl

-- Only the stored form of a value is read as that value.
pub parse_inv : (s : String) (k : OperationStatus) → parse s ≡ ok k → s ≡ as_str k
unfolding parse as_str
parse_inv s k h = ground (
  arith,
  eq_iff s "prepared",
  eq_iff s "writing",
  eq_iff s "committing",
  eq_iff s "committed",
  eq_iff s "rolled_back",
  eq_iff s "failed",
)

-- `matches!(self, Prepared | Writing | Committing)`; the SQL of the service spells the same test
-- as `status IN ('prepared','writing','committing')`.
unfoldable pub is_non_terminal : OperationStatus → Bool
is_non_terminal prepared = true
is_non_terminal writing = true
is_non_terminal committing = true
is_non_terminal _ = false

unfoldable pub is_terminal : OperationStatus → Bool
unfolding is_non_terminal
is_terminal s = not (is_non_terminal s)

unfoldable pub is_failed : OperationStatus → Bool
is_failed failed = true
is_failed _ = false

unfoldable pub is_valid_transition : OperationStatus → OperationStatus → Bool
is_valid_transition prepared writing = true
is_valid_transition writing committing = true
is_valid_transition committing committed = true
is_valid_transition committed rolled_back = true
is_valid_transition prepared rolled_back = true
is_valid_transition writing rolled_back = true
is_valid_transition prepared failed = true
is_valid_transition writing failed = true
is_valid_transition committing failed = true
is_valid_transition _ _ = false
