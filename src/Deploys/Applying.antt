-- ===== src/Deploys/Applying.antt =====
-- `PendingDeployRepository::mark_applied` of
-- crates/core/src/infrastructure/repository/pending_deploys_repository.rs: its freshness checks, the
-- check of the fence, and its three writes. A failed `expect` is the error `panicked`.
use agent_dep_platform.Base.{
  ℕ, ◌+◌, String, Bool, ◌&&◌, Option, none, some, CoreResult, ok, err, err_stale_deployment,
  panicked, ◌>>◌, StaleKind, target_config_version, deployment_fence, target_row_missing,
  fence_target_missing, snapshot_deleted, commit_sha, artifact_manifest_hash, plan_hash, find,
  update, any, eqb, ◌==◌, string_eq, if◌then◌else◌,
}
use agent_dep_platform.Deploys.Rows.{PendingDeployRow, applied, is_approved, has_id}
use agent_dep_platform.Deploys.Database.{
  Db, TargetRow, SnapshotRow, target_at, find_target, find_snapshot, compute_artifact_manifest_hash,
}

-- `target_id.expect(…)`, inside an error
abbrev stale : PendingDeployRow → StaleKind → CoreResult (Unit {0})
stale r kind = elim r.target_id [
  | none ↦ err panicked
  | some t ↦ err (err_stale_deployment r.id t kind)
]

abbrev find_optional : Option ℕ → Db → Option TargetRow
find_optional none db = none
find_optional (some t) db = find_target t db

-- The target's configuration is that of the request.
unfoldable pub check_config : PendingDeployRow → Db → CoreResult (Unit {0})
check_config r db = elim r.target_config_version [
  | none ↦ ok tt
  | some captured ↦ elim (find_optional r.target_id db) [
    | none ↦ stale r (target_row_missing captured)
    | some t ↦
        if eqb t.version captured then ok tt else stale r (target_config_version captured t.version)
  ]
]

-- The snapshot's commit is that of the request.
unfoldable pub check_commit : PendingDeployRow → SnapshotRow → CoreResult (Unit {0})
check_commit r s = elim r.commit_sha [
  | none ↦ ok tt
  | some captured ↦
      if s.commit_sha == captured then ok tt else stale r (commit_sha captured s.commit_sha)
]

module _ (sha256_hex : String → String) where
  -- The snapshot's files are those of the request.
  unfoldable pub check_manifest : PendingDeployRow → String → Db → CoreResult (Unit {0})
  check_manifest r s db = elim r.artifact_manifest_hash [
    | none ↦ ok tt
    | some captured ↦
        if compute_artifact_manifest_hash sha256_hex s db == captured
        then ok tt
        else stale r artifact_manifest_hash
  ]

  -- The snapshot still exists, with its commit and its files.
  unfoldable pub check_snapshot : PendingDeployRow → Db → CoreResult (Unit {0})
  unfolding check_commit check_manifest
  check_snapshot r db = elim r.source_snapshot_id [
    | none ↦ ok tt
    | some s ↦ elim (find_snapshot s db) [
      | none ↦ stale r snapshot_deleted
      | some row ↦ check_commit r row >> check_manifest r s db
    ]
  ]

  -- The plan is the text that was requested.
  unfoldable pub check_plan : PendingDeployRow → CoreResult (Unit {0})
  check_plan r = elim r.plan_hash [
    | none ↦ ok tt
    | some captured ↦ if sha256_hex r.plan_summary == captured then ok tt else stale r plan_hash
  ]

-- No other deploy has been applied to the target since the request.
unfoldable pub check_fence : PendingDeployRow → Db → CoreResult (Unit {0})
check_fence r db = elim r.fence_token [
  | none ↦ ok tt
  | some captured ↦ elim r.target_id [
    | none ↦ ok tt
    | some t ↦ elim (find_target t db) [
      | none ↦ err (err_stale_deployment r.id t (fence_target_missing captured))
      | some row ↦
          if eqb row.deployment_version captured
          then ok tt
          else err (err_stale_deployment r.id t (deployment_fence captured row.deployment_version))
    ]
  ]
]

abbrev pub approved_at : ℕ → PendingDeployRow → Bool
approved_at id r = has_id id r && is_approved r.status

abbrev pub apply_row : ℕ → PendingDeployRow → PendingDeployRow
apply_row now r = record r { status = applied; applied_at = some now }

-- The first write; the Boolean is whether a row was affected.
unfoldable pub set_applied : ℕ → ℕ → Db → Bool × Db
set_applied id now db = (
  any (approved_at id) db.deploys,
  record db { deploys = update (approved_at id) (apply_row now) db.deploys },
)

abbrev pub fence_at : ℕ → ℕ → TargetRow → Bool
fence_at t captured r = target_at t r && eqb r.deployment_version captured

abbrev pub bump_row : ℕ → TargetRow → TargetRow
bump_row captured r = record r { deployment_version = captured + 1 }

-- The second: the compare-and-swap of the target's counter, and the new value if it was made.
unfoldable pub bump_target : ℕ → ℕ → Db → Option ℕ × Db
bump_target t captured db = (
  if any (fence_at t captured) db.targets then some (captured + 1) else none,
  record db { targets = update (fence_at t captured) (bump_row captured) db.targets },
)

-- The third.
unfoldable pub set_applied_version : ℕ → ℕ → Db → Db
set_applied_version id v db = record db {
  deploys = update (has_id id) (λ r. record r { applied_deployment_version = some v }) db.deploys;
}

-- The counter moves only for a row with a lease.
unfoldable pub commit_fence : PendingDeployRow → ℕ → Db → Db
unfolding bump_target set_applied_version
commit_fence r id db = elim r.fence_token [
  | none ↦ db
  | some captured ↦ elim r.target_id [
    | none ↦ db
    | some t ↦
        let (v, db') = bump_target t captured db in
        elim v [ none ↦ db' | some n ↦ set_applied_version id n db' ]
  ]
]

module _ (sha256_hex : String → String) where
  unfoldable pub check_fresh : PendingDeployRow → Db → CoreResult (Unit {0})
  check_fresh r db =
      check_config r db
      >> check_snapshot sha256_hex r db
      >> check_plan sha256_hex r
      >> check_fence r db

  abbrev pub apply_found :
      ℕ
      → ℕ
      → PendingDeployRow
      → Db
      → CoreResult (Unit {0})
      → CoreResult (Option PendingDeployRow) × Db
  apply_found id now r db (err e) = (err e, db)
  apply_found id now r db (ok _) =
      let db' = commit_fence r id (set_applied id now db).1 in
      (ok (find (has_id id) db'.deploys), db')

  unfoldable pub mark_applied : ℕ → ℕ → Db → CoreResult (Option PendingDeployRow) × Db
  unfolding set_applied commit_fence
  mark_applied id now db = elim (find (has_id id) db.deploys) [
    | none ↦ (ok none, db)
    | some r ↦
        if is_approved r.status then apply_found id now r db (check_fresh r db) else (ok none, db)
  ]
