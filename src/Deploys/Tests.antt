-- ===== src/Deploys/Tests.antt =====
-- A concrete fleet (crates/core/src/infrastructure/repository/pending_deploys_repository.rs): a
-- deploy from its request to its application, and the theorems at it.
use agent_dep_platform.Base.{
  ◌≡◌, ◌≢◌, refl, String, true, none, some, [], ◌∷◌, ok, err, err_target_busy, err_sqlx, unique,
  err_stale_deployment, deployment_fence, arith,
}
use agent_dep_platform.Deploys.Rows.{dev, PendingDeployRow, approved, is_approved}
use agent_dep_platform.Deploys.Database.{Db, TargetRow, find_target, compute_artifact_manifest_hash}
use agent_dep_platform.Deploys.Requests.{
  new_row, request, read_intent, read_snapshot, read_target, insert_row, insert_error,
}
use agent_dep_platform.Deploys.Decisions.{approve}
use agent_dep_platform.Deploys.Applying.{
  bump_target, bump_row, mark_applied, check_fresh, check_config, check_snapshot, check_plan,
  check_fence,
}
use agent_dep_platform.Deploys.Active.{OneActive}
use agent_dep_platform.Deploys.Interleaving.{done, step, inserts, Steps-OneActive, lease_used_once}
use agent_dep_platform.Deploys.Freshness.{IsFresh, check_fresh_iff}
use agent_dep_platform.Deploys.Fence.{applied_row, mark_applied_refused, mark_applied_lands}
use agent_dep_platform.Deploys.Capturing.{HasTarget, HasSnapshot, request-Captures}

-- A hash that keeps its text.
abbrev plain : String → String
plain s = s

abbrev target : TargetRow
target = record { id = 7; version = 1; deployment_version = 4 }

abbrev fleet : Db
fleet = record {
  deploys = [];
  next_id = 1;
  targets = target ∷ [];
  users = 10 ∷ 11 ∷ [];
  snapshots = record { id = "s"; commit_sha = "c0ffee" } ∷ [];
  files =
      record { snapshot_id = "s"; relative = "b.md"; sha256 = "22"; size_bytes = 120 }
      ∷ record { snapshot_id = "s"; relative = "a.md"; sha256 = "11"; size_bytes = 7 }
      ∷ [];
}

abbrev row : PendingDeployRow
row = new_row plain 1 1000 "sys" "plan" 10 dev (some 7) (some "s") (record {
  commit_sha = some "c0ffee";
  plan_hash = some "plan";
  artifact_manifest_hash = some "a.md\n11\n7\nb.md\n22\n120\n";
  target_config_version = some 1;
  fence_token = some 4;
})

abbrev requested : Db
requested = record fleet { deploys = row ∷ []; next_id = 2 }

-- The request captures the snapshot's files in the order of their names.
request_runs :
    request plain 1000 "sys" "plan" 10 dev (some 7) (some "s") fleet ≡ (ok row, requested)
unfolding request read_intent read_snapshot read_target insert_row compute_artifact_manifest_hash
request_runs = refl

abbrev granted : PendingDeployRow
granted = record row { status = approved; approved_by = some 11; approved_at = some 1001 }

abbrev ready : Db
ready = record requested { deploys = granted ∷ [] }

approve_runs : approve 1 11 1001 requested ≡ (ok (some granted), ready)
unfolding approve
approve_runs = refl

abbrev moved : Db
moved = record ready { targets = record target { deployment_version = 5 } ∷ [] }

-- After another apply to the target, the deploy is refused.
stale_runs :
    mark_applied plain 1 1002 moved ≡ (err (err_stale_deployment 1 7 (deployment_fence 4 5)), moved)
unfolding mark_applied check_fresh check_config check_snapshot check_plan check_fence
    compute_artifact_manifest_hash
stale_runs = refl

ready-IsFresh : IsFresh plain granted ready
unfolding check_fresh check_config check_snapshot check_plan check_fence
    compute_artifact_manifest_hash
ready-IsFresh = (check_fresh_iff plain granted ready).0 refl

moved-not-IsFresh : ¬ ((is_approved granted.status ≡ true) × IsFresh plain granted moved)
moved-not-IsFresh h = let (r, found, same) = h.1.lease.at_request 4 7 refl refl in ground arith

empty-OneActive : OneActive fleet
empty-OneActive = record { alone = λ a b r s fa fb c. cc fa }

Steps-OneActive_example : OneActive (insert_row row (insert_row row fleet).1).1
Steps-OneActive_example =
    Steps-OneActive {a = fleet} (step (inserts row) (step (inserts row) done)) empty-OneActive

lease_used_once_example : (bump_target 7 4 (bump_target 7 4 ready).1).0 ≡ none
unfolding bump_target
lease_used_once_example = lease_used_once ready (bump_target 7 4 ready).1 7 4 5 (refl, tt) refl done

mark_applied_refused_example :
    ((mark_applied plain 1 1002 moved).1 ≡ moved)
    × ((s : PendingDeployRow) → (mark_applied plain 1 1002 moved).0 ≢ ok (some s))
mark_applied_refused_example =
    mark_applied_refused plain 1 1002 moved granted refl moved-not-IsFresh

mark_applied_lands_example :
    ((mark_applied plain 1 1002 ready).0 ≡ ok (some (applied_row 1002 5 granted)))
    × ((r : TargetRow) × (find_target 7 ready ≡ some r)
        × (find_target 7 (mark_applied plain 1 1002 ready).1 ≡ some (bump_row 4 r)))
mark_applied_lands_example =
    mark_applied_lands plain 1 1002 4 7 ready granted refl refl ready-IsFresh refl refl

request-Captures_example :
    (row.target_id ≡ some 7)
    × (row.source_snapshot_id ≡ some "s")
    × HasTarget (some 7) row (request plain 1000 "sys" "plan" 10 dev (some 7) (some "s") fleet).1
    × HasSnapshot plain
        (some "s")
        "plan"
        row
        (request plain 1000 "sys" "plan" 10 dev (some 7) (some "s") fleet).1
    × IsFresh plain row (request plain 1000 "sys" "plan" 10 dev (some 7) (some "s") fleet).1
unfolding request read_intent read_snapshot read_target insert_row compute_artifact_manifest_hash
request-Captures_example =
    request-Captures plain 1000 "sys" "plan" 10 dev (some 7) (some "s") fleet row refl

-- The second INSERT of a race is no busy target: the message names the column.
race_lost : insert_error (some 7) unique ≡ err_sqlx unique
unfolding insert_error
race_lost = refl

-- The check before the INSERT gives the id of the deploy that holds the target.
busy :
    request plain 1003 "sys" "plan" 10 dev (some 7) none ready
    ≡ (err (err_target_busy 7 (some 1)), ready)
unfolding request read_intent read_snapshot read_target
busy = refl
