-- ===== src/Deploys/Freshness.antt =====
-- When `mark_applied` accepts a deploy
-- (crates/core/src/infrastructure/repository/pending_deploys_repository.rs).
use agent_dep_platform.Base.{
  ℕ, ◌≡◌, ◌≢◌, ◌↔◌, inl, inr, sym, ◌∙◌, String, none, some, arith, ok, ◌>>◌, >>=-eq-ok, >>-eq-ok,
  eq_iff, string_eq, Option-cases,
}
use agent_dep_platform.Deploys.Rows.{PendingDeployRow}
use agent_dep_platform.Deploys.Database.{
  Db, TargetRow, SnapshotRow, find_target, find_snapshot, compute_artifact_manifest_hash,
}
use agent_dep_platform.Deploys.Applying.{
  check_config, check_commit, check_manifest, check_snapshot, check_plan, check_fence, check_fresh,
  mark_applied,
}

-- The target has the configuration that was captured.
pub record IsConfigured (r : PendingDeployRow) (db : Db) : Type 0 where
  pub at_request :
      (c : ℕ)
      → r.target_config_version ≡ some c
      → (t : ℕ) × (row : TargetRow) × (r.target_id ≡ some t)
        × (find_target t db ≡ some row)
        × (row.version ≡ c)

-- No deploy has moved the target's counter since it was captured.
pub record HasLease (r : PendingDeployRow) (db : Db) : Type 0 where
  pub at_request :
      (c t : ℕ)
      → r.fence_token ≡ some c
      → r.target_id ≡ some t
      → (row : TargetRow) × (find_target t db ≡ some row) × (row.deployment_version ≡ c)

check_config_lem : (r : PendingDeployRow) (db : Db) → check_config r db ≡ ok tt → IsConfigured r db
unfolding check_config
check_config_lem r db h = record { at_request = λ c e. ground (arith, e) }

check_fence_lem : (r : PendingDeployRow) (db : Db) → check_fence r db ≡ ok tt → HasLease r db
unfolding check_fence
check_fence_lem r db h = record { at_request = λ c t e f. ground (arith, e, f) }

check_config_of : (r : PendingDeployRow) (db : Db) → IsConfigured r db → check_config r db ≡ ok tt
unfolding check_config
check_config_of r db h = elim (Option-cases r.target_config_version) [
  | inl unset ↦ ground arith
  | inr (c, e) ↦
      let (t, row, at_t, found, same) = h.at_request c e in ground (arith, e, at_t, found, same)
]

check_fence_of : (r : PendingDeployRow) (db : Db) → HasLease r db → check_fence r db ≡ ok tt
unfolding check_fence
check_fence_of r db h = elim (Option-cases r.fence_token) [
  | inl unset ↦ ground arith
  | inr (c, e) ↦ elim (Option-cases r.target_id) [
    | inl nowhere ↦ ground arith
    | inr (t, f) ↦
        let (row, found, same) = h.at_request c t e f in ground (arith, e, f, found, same)
  ]
]

module _ (sha256_hex : String → String) where
  -- The snapshot is there, at the commit and with the files that were captured.
  pub record HasSnapshot (r : PendingDeployRow) (db : Db) : Type 0 where
    pub at_request :
        (s : String)
        → r.source_snapshot_id ≡ some s
        → (row : SnapshotRow) × (find_snapshot s db ≡ some row)
          × ((c : String) → r.commit_sha ≡ some c → row.commit_sha ≡ c)
          × ((m : String)
              → r.artifact_manifest_hash ≡ some m
              → compute_artifact_manifest_hash sha256_hex s db ≡ m)

  -- The plan hashes to the value that was captured.
  pub record HasPlan (r : PendingDeployRow) : Type 0 where
    pub at_request : (p : String) → r.plan_hash ≡ some p → sha256_hex r.plan_summary ≡ p

  check_commit_lem :
      (r : PendingDeployRow) (row : SnapshotRow)
      → check_commit r row ≡ ok tt
      → (c : String) → r.commit_sha ≡ some c
      → row.commit_sha ≡ c
  unfolding check_commit
  check_commit_lem r row h c e = ground (arith, e, eq_iff row.commit_sha c)

  check_manifest_lem :
      (r : PendingDeployRow) (s : String) (db : Db)
      → check_manifest sha256_hex r s db ≡ ok tt
      → (m : String) → r.artifact_manifest_hash ≡ some m
      → compute_artifact_manifest_hash sha256_hex s db ≡ m
  unfolding check_manifest
  check_manifest_lem r s db h m e =
      ground (arith, e, eq_iff (compute_artifact_manifest_hash sha256_hex s db) m)

  check_commit_of :
      (r : PendingDeployRow) (row : SnapshotRow)
      → ((c : String) → r.commit_sha ≡ some c → row.commit_sha ≡ c)
      → check_commit r row ≡ ok tt
  unfolding check_commit
  check_commit_of r row h = elim (Option-cases r.commit_sha) [
    | inl unset ↦ ground arith
    | inr (c, e) ↦ ground (arith, e, h c e, eq_iff row.commit_sha c)
  ]

  check_manifest_of :
      (r : PendingDeployRow) (s : String) (db : Db)
      → ((m : String)
          → r.artifact_manifest_hash ≡ some m
          → compute_artifact_manifest_hash sha256_hex s db ≡ m)
      → check_manifest sha256_hex r s db ≡ ok tt
  unfolding check_manifest
  check_manifest_of r s db h = elim (Option-cases r.artifact_manifest_hash) [
    | inl unset ↦ ground arith
    | inr (m, e) ↦
        ground (arith, e, h m e, eq_iff (compute_artifact_manifest_hash sha256_hex s db) m)
  ]

  check_plan_iff : (r : PendingDeployRow) → (check_plan sha256_hex r ≡ ok tt) ↔ HasPlan r
  unfolding check_plan
  check_plan_iff r = (
    λ h. record { at_request = λ p e. ground (arith, e, eq_iff (sha256_hex r.plan_summary) p) },
    λ h. elim (Option-cases r.plan_hash) [
      | inl unset ↦ ground arith
      | inr (p, e) ↦ ground (arith, e, h.at_request p e, eq_iff (sha256_hex r.plan_summary) p)
    ],
  )

  check_snapshot_gone :
      (r : PendingDeployRow) (s : String) (db : Db)
      → r.source_snapshot_id ≡ some s
      → find_snapshot s db ≡ none
      → check_snapshot sha256_hex r db ≢ ok tt
  unfolding check_snapshot
  check_snapshot_gone r s db e gone = ground arith

  check_snapshot_parts :
      (r : PendingDeployRow) (s : String) (db : Db) (row : SnapshotRow)
      → r.source_snapshot_id ≡ some s
      → find_snapshot s db ≡ some row
      → check_snapshot sha256_hex r db ≡ (check_commit r row >> check_manifest sha256_hex r s db)
  unfolding check_snapshot
  check_snapshot_parts r s db row e found = ground arith

  check_snapshot_lem :
      (r : PendingDeployRow) (db : Db) → check_snapshot sha256_hex r db ≡ ok tt → HasSnapshot r db
  check_snapshot_lem r db h = record {
    at_request = λ s e. elim (Option-cases (find_snapshot s db)) [
      | inl gone ↦ absurd (check_snapshot_gone r s db e gone h)
      | inr (row, found) ↦
          let (u, commit, files) =
            >>=-eq-ok (check_commit r row) (λ _. check_manifest sha256_hex r s db)
              (sym (check_snapshot_parts r s db row e found) ∙ h) in
          (row, found, check_commit_lem r row commit, check_manifest_lem r s db files)
    ];
  }

  check_snapshot_of :
      (r : PendingDeployRow) (db : Db) → HasSnapshot r db → check_snapshot sha256_hex r db ≡ ok tt
  check_snapshot_of r db h = elim (Option-cases r.source_snapshot_id) [
    | inl unset ↦ unfold check_snapshot in ground arith
    | inr (s, e) ↦
        let (row, found, commit, files) = h.at_request s e in
        unfold check_snapshot in
        ground (arith, e, found, check_commit_of r row commit, check_manifest_of r s db files)
  ]

  -- Nothing that the request relied on has changed.
  pub record IsFresh (r : PendingDeployRow) (db : Db) : Type 0 where
    pub config : IsConfigured r db
    pub snapshot : HasSnapshot r db
    pub plan : HasPlan r
    pub lease : HasLease r db

  pub check_fresh_iff :
      (r : PendingDeployRow) (db : Db) → (check_fresh sha256_hex r db ≡ ok tt) ↔ IsFresh r db
  unfolding check_fresh
  check_fresh_iff r db =
      let both =
        >>-eq-ok (check_config r db >> check_snapshot sha256_hex r db >> check_plan sha256_hex r)
          (check_fence r db) in
      let three =
        >>-eq-ok (check_config r db >> check_snapshot sha256_hex r db) (check_plan sha256_hex r) in
      let two = >>-eq-ok (check_config r db) (check_snapshot sha256_hex r db) in
      (
        λ h.
            let (c, fence) = both.0 h in
            let (b, plan) = three.0 c in
            let (config, snapshot) = two.0 b in
            record {
              config = check_config_lem r db config;
              snapshot = check_snapshot_lem r db snapshot;
              plan = (check_plan_iff r).0 plan;
              lease = check_fence_lem r db fence;
            },
        λ f. both.1 (
          three.1 (
            two.1 (check_config_of r db f.config, check_snapshot_of r db f.snapshot),
            (check_plan_iff r).1 f.plan,
          ),
          check_fence_of r db f.lease,
        ),
      )

  -- The result of `mark_applied` is a row.
  abbrev pub Succeeds : ℕ → ℕ → Db → Type 0
  Succeeds id now db =
      (r : PendingDeployRow) × ((mark_applied sha256_hex id now db).0 ≡ ok (some r))
