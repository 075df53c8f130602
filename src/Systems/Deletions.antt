-- ===== src/Systems/Deletions.antt =====
-- Which files a plan of crates/core/src/application/plan/mod.rs deletes.
use agent_dep_platform.Base.{
  String, Bool, true, false, not, Option, none, some, List, [], ◌∷◌, ◌++◌, ◌≡◌, ◌⊎◌, inl, inr, sym,
  ap, ◌∙◌, ◌↔◌, map, select, contains, arith, string_eq, Bool-cases, All, All-append, if◌then◌else◌,
}
use mathlib.Core.Path.{subst}
use text.Mathlib.TextLemmas.{append_cancel_left}
use agent_dep_platform.Systems.Catalog.{ResolvedAgent, System}
use agent_dep_platform.Systems.Planning.{
  PlanOperation, PlanOperationKind, delete, DeployedObservation, agent_operation, path_operation,
  delete_operations, verify_operations, backup_operations, drift_operations, observed_operations,
  planned_targets, plan_for,
}
use agent_dep_platform.Systems.Composition.{IsIn}
use agent_dep_platform.Systems.Plans.{given}

abbrev is_delete : PlanOperationKind → Bool
is_delete delete = true
is_delete _ = false

abbrev IsKept : PlanOperation → Type 0
IsKept o = is_delete o.kind ≡ false

module _ {A : Type 0} where
  IsIn-append_left : (a : A) (xs ys : List A) → IsIn a xs → IsIn a (xs ++ ys)
  IsIn-append_left a [] ys h = absurd h
  IsIn-append_left a (x ∷ xs) ys (inl e) = inl e
  IsIn-append_left a (x ∷ xs) ys (inr h) = inr (IsIn-append_left a xs ys h)

  IsIn-append_right : (a : A) (xs ys : List A) → IsIn a ys → IsIn a (xs ++ ys)
  IsIn-append_right a [] ys h = h
  IsIn-append_right a (x ∷ xs) ys h = inr (IsIn-append_right a xs ys h)

  IsIn-append : (a : A) (xs ys : List A) → IsIn a (xs ++ ys) → IsIn a xs ⊎ IsIn a ys
  IsIn-append a [] ys h = inr h
  IsIn-append a (x ∷ xs) ys (inl e) = inl (inl e)
  IsIn-append a (x ∷ xs) ys (inr h) = elim (IsIn-append a xs ys h) [
    | inl here ↦ inl (inr here)
    | inr there ↦ inr there
  ]

  All-IsIn : (P : A → Type 0) (a : A) (xs : List A) → All P xs → IsIn a xs → P a
  All-IsIn P a [] h i = absurd i
  All-IsIn P a (x ∷ xs) h (inl e) = subst P (sym e) h.0
  All-IsIn P a (x ∷ xs) h (inr i) = All-IsIn P a xs h.1 i

  pub IsIn-select :
      (p : A → Bool) (a : A) (xs : List A) → IsIn a (select p xs) → IsIn a xs × (p a ≡ true)
  IsIn-select p a [] h = absurd h
  IsIn-select p a (x ∷ xs) h =
      let later = λ (i : IsIn a (select p xs)). IsIn-select p a xs i in
      elim (Bool-cases (p x)) [
        | inl holds ↦
            elim (subst (λ b. IsIn a (if b then x ∷ select p xs else select p xs)) holds h) [
              | inl e ↦ (inl e, ap p e ∙ holds)
              | inr i ↦ (inr (later i).0, (later i).1)
            ]
        | inr fails ↦
            let i = subst (λ b. IsIn a (if b then x ∷ select p xs else select p xs)) fails h in
            (inr (later i).0, (later i).1)
      ]

  select-IsIn : (p : A → Bool) (a : A) (xs : List A) → IsIn a xs → p a ≡ true → IsIn a (select p xs)
  select-IsIn p a [] h e = absurd h
  select-IsIn p a (x ∷ xs) (inl same) e = rw (sym (ap p same) ∙ e) (inl same)
  select-IsIn p a (x ∷ xs) (inr i) e =
      let later = select-IsIn p a xs i e in
      elim (Bool-cases (p x)) [ inl holds ↦ rw holds (inr later) | inr fails ↦ rw fails later ]

paths :
    (t : String) (ts : List String)
    → IsIn (path_operation delete t) (map (path_operation delete) ts)
    → IsIn t ts
paths t [] h = absurd h
paths t (u ∷ ts) (inl e) =
    inl (append_cancel_left "path:" t u (ap (λ (o : PlanOperation). o.target) e))
paths t (u ∷ ts) (inr h) = inr (paths t ts h)

paths_of :
    (t : String) (ts : List String)
    → IsIn t ts
    → IsIn (path_operation delete t) (map (path_operation delete) ts)
paths_of t [] h = absurd h
paths_of t (u ∷ ts) (inl e) = inl (ap (path_operation delete) e)
paths_of t (u ∷ ts) (inr h) = inr (paths_of t ts h)

agents_stay :
    (actuals : Option (List (String × String))) (rs : List ResolvedAgent)
    → All IsKept (map (agent_operation actuals) rs)
agents_stay actuals [] = tt
agents_stay actuals (r ∷ rs) = (ground arith, agents_stay actuals rs)

verified_stay : (t : String) (o : DeployedObservation) → All IsKept (verify_operations t o)
verified_stay t o = ground arith

backups_stay : (t : String) (o : DeployedObservation) → All IsKept (backup_operations t o)
backups_stay t o = ground arith

drift_stays :
    (planned : List String) (observations : List (String × DeployedObservation))
    → All IsKept (drift_operations planned observations)
drift_stays planned [] = tt
drift_stays planned ((t, o) ∷ rest) =
    let later = drift_stays planned rest in
    elim (Bool-cases (contains planned t)) [
      | inl mine ↦ ground (arith, mine, later)
      | inr other ↦ ground (
        arith,
        other,
        All-append IsKept (verify_operations t o) _ (verified_stay t o)
            (All-append IsKept (backup_operations t o) _ (backups_stay t o) later),
      )
    ]

delete_operations-IsIn :
    (planned : List String) (prev : Option (List String)) (t : String)
    → IsIn (path_operation delete t) (delete_operations planned prev)
    → IsIn t (given prev) × (contains planned t ≡ false)
delete_operations-IsIn planned none t h = absurd h
delete_operations-IsIn planned (some prev) t h =
    let (old, stale) =
      IsIn-select (λ u. not (contains planned u)) t prev
        (paths t (select (λ u. not (contains planned u)) prev) h) in
    (old, ground (arith, stale))

observed_operations-IsKept :
    (planned : List String) (observations : Option (List (String × DeployedObservation)))
    → All IsKept (observed_operations planned observations)
observed_operations-IsKept planned none = tt
observed_operations-IsKept planned (some observations) = drift_stays planned observations

module _ (s : System) (actuals : Option (List (String × String))) (prev : Option (List String))
    (observations : Option (List (String × DeployedObservation))) where
  -- A plan deletes a file exactly when the file was deployed before and is not a file of the
  -- system.
  pub plan_for_deletes :
      (t : String)
      → IsIn (path_operation delete t) (plan_for s actuals prev observations).operations
        ↔ (IsIn t (given prev) × (contains (planned_targets s) t ≡ false))
  unfolding plan_for
  plan_for_deletes t =
      let planned = planned_targets s in
      let o = path_operation delete t in
      let agents = map (agent_operation actuals) s.resolved in
      let deletes = delete_operations planned prev in
      let drifts = observed_operations planned observations in
      (
        λ h. elim (IsIn-append o agents (deletes ++ drifts) h) [
          | inl i ↦ cc (All-IsIn IsKept o agents (agents_stay actuals s.resolved) i)
          | inr later ↦ elim (IsIn-append o deletes drifts later) [
            | inl i ↦ delete_operations-IsIn planned prev t i
            | inr i ↦
                cc (All-IsIn IsKept o drifts (observed_operations-IsKept planned observations) i)
          ]
        ],
        λ h.
            IsIn-append_right o agents (deletes ++ drifts)
              (IsIn-append_left o deletes drifts (stale_deleted prev h.0 h.1)),
      )
    where
      stale_deleted :
          (prev : Option (List String))
          → IsIn t (given prev)
          → contains (planned_targets s) t ≡ false
          → IsIn (path_operation delete t) (delete_operations (planned_targets s) prev)
      stale_deleted none h e = absurd h
      stale_deleted (some old) h e =
          paths_of t (select (λ u. not (contains (planned_targets s) u)) old)
            (select-IsIn (λ u. not (contains (planned_targets s) u)) t old h (ground (arith, e)))
