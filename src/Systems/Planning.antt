-- ===== src/Systems/Planning.antt =====
-- `PlanService` of crates/core/src/application/plan/mod.rs and the types of
-- crates/core/src/domain/plan/mod.rs. A map or a set is the list of its entries in the order in
-- which the code iterates over it. The text of an operation's `reason` is not modelled.
use Prim.Native.String.{◌++◌ as append_text}
use agent_dep_platform.Base.{
  String, Bool, not, Option, none, some, List, [], ◌∷◌, ◌++◌, map, select, contains, ◌==◌,
  string_eq, if◌then◌else◌,
}
use agent_dep_platform.Systems.Catalog.{ResolvedAgent, System, show_ref}

pub data PlanOperationKind : Type 0 where
  add update delete noop backup verify : PlanOperationKind

pub record PlanOperation : Type 0 where
  pub kind : PlanOperationKind
  pub target : String

pub data PlanRisk : Type 0 where
  low medium high : PlanRisk

pub record Plan : Type 0 where
  pub system_id : String
  pub operations : List PlanOperation
  pub risk : PlanRisk

pub record DeployedObservation : Type 0 where
  pub target : String
  pub expected_sha256 : String
  pub observed_sha256 : Option String
  pub backup_present : Bool

-- `HashMap::get`
abbrev pub get_entry : {A : Type 0} → List (String × A) → String → Option A
get_entry [] key = none
get_entry ((k, a) ∷ entries) key = if k == key then some a else get_entry entries key

abbrev pub get_actual : Option (List (String × String)) → String → Option String
get_actual none ref = none
get_actual (some entries) ref = get_entry entries ref

abbrev pub agent_ref_of : ResolvedAgent → String
agent_ref_of r = show_ref r.agent.id r.agent.version

abbrev pub planned_target : ResolvedAgent → String
planned_target r =
    append_text "agents/"
      (append_text (agent_ref_of r) (append_text "/" (append_text r.agent.id ".md")))

-- Of the content that is there, if any, and the content that is desired.
abbrev pub kind_for : Option String → String → PlanOperationKind
kind_for none desired = add
kind_for (some actual) desired = if actual == desired then noop else update

abbrev pub agent_operation : Option (List (String × String)) → ResolvedAgent → PlanOperation
agent_operation actuals r = record {
  kind = kind_for (get_actual actuals (agent_ref_of r)) r.agent.body_hash;
  target = append_text "agent:" (agent_ref_of r);
}

abbrev pub path_operation : PlanOperationKind → String → PlanOperation
path_operation kind target = record { kind = kind; target = append_text "path:" target }

abbrev pub delete_operations : List String → Option (List String) → List PlanOperation
delete_operations planned none = []
delete_operations planned (some prev) =
    map (path_operation delete) (select (λ old. not (contains planned old)) prev)

abbrev pub verify_operations : String → DeployedObservation → List PlanOperation
verify_operations target o = elim o.observed_sha256 [
  | none ↦ path_operation verify target ∷ []
  | some observed ↦ if observed == o.expected_sha256 then [] else path_operation verify target ∷ []
]

abbrev pub backup_operations : String → DeployedObservation → List PlanOperation
backup_operations target o = if o.backup_present then [] else path_operation backup target ∷ []

abbrev pub drift_operations : List String → List (String × DeployedObservation) → List PlanOperation
drift_operations planned [] = []
drift_operations planned ((target, o) ∷ rest) =
    let later = drift_operations planned rest in
    if contains planned target
    then later
    else verify_operations target o ++ (backup_operations target o ++ later)

abbrev pub observed_operations :
    List String → Option (List (String × DeployedObservation)) → List PlanOperation
observed_operations planned none = []
observed_operations planned (some observations) = drift_operations planned observations

abbrev pub planned_targets : System → List String
planned_targets s = map planned_target s.resolved

unfoldable pub plan_for :
    System
    → Option (List (String × String))
    → Option (List String)
    → Option (List (String × DeployedObservation))
    → Plan
plan_for s actuals prev observations = record {
  system_id = s.metadata.id;
  operations =
      map (agent_operation actuals) s.resolved
      ++ (delete_operations (planned_targets s) prev
          ++ observed_operations (planned_targets s) observations);
  risk = low;
}
