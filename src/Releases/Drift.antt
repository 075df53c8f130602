-- ===== src/Releases/Drift.antt =====
-- `classify` of crates/core/src/application/reconcile/mod.rs.
use agent_dep_platform.Base.{
  String, Bool, Option, none, some, ◌≡◌, ◌↔◌, refl, sym, ap, ◌==◌, string_eq, eq_iff, arith,
  if◌then◌else◌,
}

pub data ReconcileState : Type 0 where
  current outdated modified foreign missing incompatible error unknown : ReconcileState

pub data DriftReason : Type 0 where
  source_changed renderer_changed user_modified target_moved target_missing version_incompatible
        policy_violation no_reason :
      DriftReason

unfoldable pub classify : Option String → Option String → Bool → ReconcileState × DriftReason
classify none none flag = (unknown, no_reason)
classify none (some a) flag = (foreign, no_reason)
classify (some d) none flag = (missing, target_missing)
classify (some d) (some a) flag =
    if d == a
    then (current, no_reason)
    else if flag
    then (modified, user_modified)
    else (outdated, source_changed)

-- A file is current exactly when it is both desired and there, with the same digest.
pub classify_current :
    (desired actual : Option String) (flag : Bool)
    → ((classify desired actual flag).0 ≡ current)
      ↔ ((d : String) × (desired ≡ some d) × (actual ≡ some d))
unfolding classify
classify_current none none flag = (λ h. cc, λ h. cc h.1)
classify_current none (some a) flag = (λ h. cc, λ h. cc h.1)
classify_current (some d) none flag = (λ h. cc, λ h. cc h.2)
classify_current (some d) (some a) flag = (
  λ h. (d, refl, ap some (sym ((eq_iff d a).0 (ground (arith, h))))),
  λ h. ground (arith, eq_iff d a, h.1, h.2),
)
