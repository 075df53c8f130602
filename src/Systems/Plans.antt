-- ===== src/Systems/Plans.antt =====
-- What a plan of crates/core/src/application/plan/mod.rs does, and when it does nothing.
use agent_dep_platform.Base.{
  String, true, not, Option, none, some, List, [], ◌∷◌, ◌≡◌, ◌⊎◌, inl, inr, refl, map, select,
  contains, All, All-append, arith, eq_iff, string_eq, Bool-cases,
}
use agent_dep_platform.Systems.Catalog.{ResolvedAgent, System}
use agent_dep_platform.Systems.Planning.{
  noop, DeployedObservation, get_actual, agent_ref_of, agent_operation, delete_operations,
  drift_operations, observed_operations, planned_targets, plan_for,
}

-- The file of the agent is on the target with the content that is desired.
unfoldable pub IsInPlace : Option (List (String × String)) → ResolvedAgent → Type 0
IsInPlace actuals r = get_actual actuals (agent_ref_of r) ≡ some r.agent.body_hash

-- The file belongs to the system, or is as it was deployed and has a backup.
unfoldable pub IsQuiet : List String → String × DeployedObservation → Type 0
IsQuiet planned (target, o) =
    (contains planned target ≡ true)
    ⊎ ((o.observed_sha256 ≡ some o.expected_sha256) × (o.backup_present ≡ true))

abbrev pub given : {A : Type 0} → Option (List A) → List A
given none = []
given (some xs) = xs

agent_operation_noop :
    (actuals : Option (List (String × String))) (r : ResolvedAgent)
    → IsInPlace actuals r
    → (agent_operation actuals r).kind ≡ noop
unfolding IsInPlace
agent_operation_noop actuals r h =
    ground (arith, h, (eq_iff r.agent.body_hash r.agent.body_hash).1 refl)

agent_operations_noop :
    (actuals : Option (List (String × String))) (rs : List ResolvedAgent)
    → All (IsInPlace actuals) rs
    → All (λ o. o.kind ≡ noop) (map (agent_operation actuals) rs)
agent_operations_noop actuals [] h = tt
agent_operations_noop actuals (r ∷ rs) h =
    (agent_operation_noop actuals r h.0, agent_operations_noop actuals rs h.1)

no_deletes :
    (planned prev : List String)
    → All (λ t. contains planned t ≡ true) prev
    → select (λ old. not (contains planned old)) prev ≡ []
no_deletes planned [] h = refl
no_deletes planned (t ∷ prev) h = ground (arith, h.0, no_deletes planned prev h.1)

no_drift :
    (planned : List String) (observations : List (String × DeployedObservation))
    → All (IsQuiet planned) observations
    → drift_operations planned observations ≡ []
unfolding IsQuiet
no_drift planned [] h = refl
no_drift planned ((t, o) ∷ rest) h =
    let later = no_drift planned rest h.1 in
    elim h.0 [
      | inl mine ↦ ground (arith, mine, later)
      | inr (intact, kept) ↦ elim (Bool-cases (contains planned t)) [
        | inl mine ↦ ground (arith, mine, later)
        | inr other ↦
            ground (
              arith,
              other,
              intact,
              kept,
              later,
              (eq_iff o.expected_sha256 o.expected_sha256).1 refl,
            )
      ]
    ]

-- On a target that is as the system wants it (every agent's file has the desired content, every
-- file deployed before belongs to the system, and the others are intact with a backup) the plan
-- has nothing to do: each operation is a Noop.
pub plan_for_converged :
    (s : System) (actuals : Option (List (String × String))) (prev : Option (List String))
    (observations : Option (List (String × DeployedObservation)))
    → All (IsInPlace actuals) s.resolved
    → All (λ t. contains (planned_targets s) t ≡ true) (given prev)
    → All (IsQuiet (planned_targets s)) (given observations)
    → All (λ o. o.kind ≡ noop) (plan_for s actuals prev observations).operations
unfolding plan_for
plan_for_converged s actuals prev observations here mine quiet =
    All-append (λ o. o.kind ≡ noop) (map (agent_operation actuals) s.resolved) _
      (agent_operations_noop actuals s.resolved here)
      (All-append (λ o. o.kind ≡ noop) (delete_operations (planned_targets s) prev) _
        (deletes prev mine) (drifts observations quiet))
  where
    deletes :
        (prev : Option (List String))
        → All (λ t. contains (planned_targets s) t ≡ true) (given prev)
        → All (λ o. o.kind ≡ noop) (delete_operations (planned_targets s) prev)
    deletes none mine = tt
    deletes (some old) mine = rw (no_deletes (planned_targets s) old mine) tt

    drifts :
        (observations : Option (List (String × DeployedObservation)))
        → All (IsQuiet (planned_targets s)) (given observations)
        → All (λ o. o.kind ≡ noop) (observed_operations (planned_targets s) observations)
    drifts none quiet = tt
    drifts (some obs) quiet = rw (no_drift (planned_targets s) obs quiet) tt
