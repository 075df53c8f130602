-- ===== src/Deploys/Capturing.antt =====
-- Which fields a deploy has from the target and the snapshot that it was requested for
-- (`PendingDeployRepository::request` of
-- crates/core/src/infrastructure/repository/pending_deploys_repository.rs).
use mathlib.Core.Option
use agent_dep_platform.Base.{
  ℕ, ◌≡◌, ◌≢◌, inl, inr, refl, sym, ◌∙◌, ap, String, Bool, true, Option, none, some, List, [], ◌∷◌,
  arith, ok, >>=-eq-ok, any, find, Option-cases, Bool-cases, ◌==◌, string_eq,
}
use agent_dep_platform.Deploys.Rows.{Environment, PendingDeployRow}
use agent_dep_platform.Deploys.Database.{
  Db, TargetRow, SnapshotRow, find_target, find_snapshot, target_at, insert_refusal,
  compute_artifact_manifest_hash,
}
use agent_dep_platform.Deploys.Requests.{
  Intent, read_snapshot, read_target, read_intent, new_row, request,
}
use agent_dep_platform.Deploys.Freshness.{IsFresh}
use agent_dep_platform.Deploys.Requesting.{
  Inserted, read_snapshot-source, read_target-rest, read_target-none, hash_of_files,
  request-Inserted, request-IsFresh,
}

any-finds {ℓ} :
    {A : Type ℓ} (p : A → Bool) (xs : List A) → any p xs ≡ true → (x : A) × (find p xs ≡ some x)
any-finds p [] h = cc
any-finds p (x ∷ xs) h = elim (Bool-cases (p x)) [
  | inl yes_ ↦ (x, ground (arith, yes_))
  | inr no_ ↦ let (y, there) = any-finds p xs (ground (arith, no_, h)) in (y, ground (arith, no_))
]

-- The foreign key of a row that is inserted.
target_there :
    (t : ℕ) (row : PendingDeployRow) (db : Db)
    → insert_refusal row db ≡ none
    → row.target_id ≡ some t
    → (r : TargetRow) × (find_target t db ≡ some r)
unfolding insert_refusal
target_there t row db free named =
    any-finds (target_at t) db.targets (elim (Bool-cases (any (target_at t) db.targets)) [
      | inl yes_ ↦ yes_
      | inr no_ ↦ ground (arith, no_, named, free)
    ])

-- The column of the target is NOT NULL.
no_target : (row : PendingDeployRow) (db : Db) → insert_refusal row db ≡ none → row.target_id ≢ none
unfolding insert_refusal
no_target row db free named = ground (arith, named, free)

-- The deploy has a target, and the versions that the target has.
abbrev pub HasTarget : Option ℕ → PendingDeployRow → Db → Type 0
HasTarget none row db = ⊥
HasTarget (some t) row db =
    (r : TargetRow) × (find_target t db ≡ some r)
    × (row.target_config_version ≡ some r.version)
    × (row.fence_token ≡ some r.deployment_version)

module _ (sha256_hex : String → String) where
  -- The deploy has the commit and the digests of its snapshot, and without a snapshot none.
  abbrev pub HasSnapshot : Option String → String → PendingDeployRow → Db → Type 0
  HasSnapshot none plan row db =
      (row.commit_sha ≡ none) × (row.artifact_manifest_hash ≡ none) × (row.plan_hash ≡ none)
  HasSnapshot (some s) plan row db =
      (r : SnapshotRow) × (find_snapshot s db ≡ some r)
      × (row.commit_sha ≡ some r.commit_sha)
      × (row.artifact_manifest_hash ≡ some (compute_artifact_manifest_hash sha256_hex s db))
      × (row.plan_hash ≡ some (sha256_hex plan))

  -- What of an intent comes from the snapshot.
  same_source :
      (target : Option ℕ) (db : Db) (i j : Intent)
      → read_target sha256_hex target db i ≡ ok j
      → (j.commit_sha ≡ i.commit_sha)
        × (j.artifact_manifest_hash ≡ i.artifact_manifest_hash)
        × (j.plan_hash ≡ i.plan_hash)
  same_source none db i j h =
      let e = read_target-none sha256_hex db i j h in
      (
        ap (λ (x : Intent). x.commit_sha) e,
        ap (λ (x : Intent). x.artifact_manifest_hash) e,
        ap (λ (x : Intent). x.plan_hash) e,
      )
  same_source (some t) db i j h =
      let e = read_target-rest sha256_hex t db i j h in
      (
        ap (λ (x : Intent). x.commit_sha) e,
        ap (λ (x : Intent). x.artifact_manifest_hash) e,
        ap (λ (x : Intent). x.plan_hash) e,
      )

  no_snapshot :
      (plan : String) (db : Db) (i : Intent)
      → read_snapshot sha256_hex none plan db ≡ ok i
      → (i.commit_sha ≡ none) × (i.artifact_manifest_hash ≡ none) × (i.plan_hash ≡ none)
  unfolding read_snapshot
  no_snapshot plan db i h = (ground arith, ground arith, ground arith)

  snapshot_plan :
      (s plan : String) (db : Db) (i : Intent)
      → read_snapshot sha256_hex (some s) plan db ≡ ok i
      → i.plan_hash ≡ some (sha256_hex plan)
  unfolding read_snapshot
  snapshot_plan s plan db i h = elim (Option-cases (find_snapshot s db)) [
    | inl gone ↦ ground (arith, gone)
    | inr (row, found) ↦ ground (arith, found)
  ]

  module _ (id now : ℕ) (system_id plan : String) (by : ℕ) (environment : Environment)
      (db later : Db) (i : Intent) (got : PendingDeployRow) where
    target-HasTarget :
        (target : Option ℕ) (snapshot : Option String) (i0 : Intent)
        → read_snapshot sha256_hex snapshot plan db ≡ ok i0
        → read_target sha256_hex target db i0 ≡ ok i
        → Inserted
            (new_row sha256_hex id now system_id plan by environment target snapshot i)
            got
            db
            later
        → HasTarget target got later
    target-HasTarget none snapshot i0 first second n = absurd (
        no_target (new_row sha256_hex id now system_id plan by environment none snapshot i) db
          n.free refl)
    target-HasTarget (some t) snapshot i0 first second n =
        let new = new_row sha256_hex id now system_id plan by environment (some t) snapshot i in
        let (r, there) = target_there t new db n.free refl in
        let e = read_target-rest sha256_hex t db i0 i second in
        rw n.same_row (
          r,
          ap (find (target_at t)) n.targets ∙ there,
          ap (λ (x : Intent). x.target_config_version) e
              ∙ ap (Option.map (λ (x : TargetRow). x.version)) there,
          ap (λ (x : Intent). x.fence_token) e
              ∙ ap (Option.map (λ (x : TargetRow). x.deployment_version)) there,
        )

    snapshot-HasSnapshot :
        (target : Option ℕ) (snapshot : Option String) (i0 : Intent)
        → read_snapshot sha256_hex snapshot plan db ≡ ok i0
        → read_target sha256_hex target db i0 ≡ ok i
        → Inserted
            (new_row sha256_hex id now system_id plan by environment target snapshot i)
            got
            db
            later
        → HasSnapshot snapshot plan got later
    snapshot-HasSnapshot target none i0 first second n =
        let (commit, files, text) = same_source target db i0 i second in
        let (c, f, p) = no_snapshot plan db i0 first in
        rw n.same_row (commit ∙ c, files ∙ f, text ∙ p)
    snapshot-HasSnapshot target (some s) i0 first second n =
        let (commit, files, text) = same_source target db i0 i second in
        let (r, there, c, f) = read_snapshot-source sha256_hex (some s) plan db i0 first s refl in
        rw n.same_row (
          r,
          ap (find (λ (x : SnapshotRow). x.id == s)) n.snapshots ∙ there,
          commit ∙ c,
          files ∙ (f ∙ ap some (hash_of_files sha256_hex s db later (sym n.files))),
          text ∙ snapshot_plan s plan db i0 first,
        )

  -- A deploy that the database accepts has captured all that `mark_applied` checks, as it is in the
  -- database that the request leaves: of its target, which it has and which exists, the version of
  -- the configuration and the deployment version; of the snapshot that it was requested for, which
  -- exists, the commit, the digest of the files and that of the plan, and without a snapshot none of
  -- these three. So `mark_applied` finds it fresh.
  pub request-Captures :
      (now : ℕ) (system_id plan : String) (by : ℕ) (environment : Environment) (target : Option ℕ)
      (snapshot : Option String) (db : Db) (row : PendingDeployRow)
      → (request sha256_hex now system_id plan by environment target snapshot db).0 ≡ ok row
      → (row.target_id ≡ target)
        × (row.source_snapshot_id ≡ snapshot)
        × HasTarget target row
            (request sha256_hex now system_id plan by environment target snapshot db).1
        × HasSnapshot snapshot plan row
            (request sha256_hex now system_id plan by environment target snapshot db).1
        × IsFresh sha256_hex row
            (request sha256_hex now system_id plan by environment target snapshot db).1
  unfolding read_intent
  request-Captures now system_id plan by environment target snapshot db row h =
      let (i, read, n) =
        request-Inserted sha256_hex now system_id plan by environment target snapshot db row h in
      let (i0, first, second) = >>=-eq-ok (read_snapshot sha256_hex snapshot plan db) _ read in
      (
        ap (λ (r : PendingDeployRow). r.target_id) n.same_row,
        ap (λ (r : PendingDeployRow). r.source_snapshot_id) n.same_row,
        target-HasTarget db.next_id now system_id plan by environment db _ i row target snapshot i0
            first second n,
        snapshot-HasSnapshot db.next_id now system_id plan by environment db _ i row target snapshot
            i0 first second n,
        request-IsFresh sha256_hex now system_id plan by environment target snapshot db row h,
      )
