-- ===== src/Deploys/Requesting.antt =====
-- That what `request` captures is fresh
-- (crates/core/src/infrastructure/repository/pending_deploys_repository.rs).
use mathlib.Core.Option
use mathlib.Core.Option.{some-injective}
use agent_dep_platform.Base.{
  ℕ, ◌≡◌, ◌≢◌, inl, inr, refl, sym, ◌∙◌, ap, String, Option, none, some, [], ◌∷◌, ◌++◌, arith,
  SqlError, map-eq-some, CoreError, CoreResult-cases, ◌==◌, string_eq, ok, err, >>=-eq-ok, find,
  Option-cases,
}
use agent_dep_platform.Deploys.Rows.{Environment, PendingDeployRow}
use agent_dep_platform.Deploys.Database.{
  Db, TargetRow, SnapshotRow, find_target, find_snapshot, target_at, insert_refusal,
  compute_artifact_manifest_hash,
}
use agent_dep_platform.Deploys.Requests.{
  Intent, read_snapshot, read_target, read_intent, new_row, insert_row, request,
}
use agent_dep_platform.Deploys.Freshness.{IsFresh}

-- An accepted INSERT leaves the tables that a request reads as they were.
pub record Inserted (row got : PendingDeployRow) (db later : Db) : Type 0 where
  pub same_row : got ≡ row
  pub free : insert_refusal row db ≡ none
  pub targets : later.targets ≡ db.targets
  pub snapshots : later.snapshots ≡ db.snapshots
  pub files : later.files ≡ db.files
  pub deploys : later.deploys ≡ db.deploys ++ row ∷ []

insert_row_refused :
    (row got : PendingDeployRow) (db : Db) (e : SqlError)
    → insert_refusal row db ≡ some e
    → (insert_row row db).0 ≢ ok got
unfolding insert_row
insert_row_refused row got db e refused h = ground arith

insert_row_ok :
    (row got : PendingDeployRow) (db : Db)
    → (insert_row row db).0 ≡ ok got
    → Inserted row got db (insert_row row db).1
unfolding insert_row
insert_row_ok row got db h = elim (Option-cases (insert_refusal row db)) [
  | inl free ↦ record {
    same_row = ground arith;
    free = free;
    targets = ground arith;
    snapshots = ground arith;
    files = ground arith;
    deploys = ground arith;
  }
  | inr (e, refused) ↦ absurd (insert_row_refused row got db e refused h)
]

module _ (sha256_hex : String → String) where
  -- What was read still describes the database.
  record Describes (snapshot : Option String) (plan : String) (target : Option ℕ) (i : Intent)
      (db : Db) : Type 0 where
    config :
        (c : ℕ)
        → i.target_config_version ≡ some c
        → (t : ℕ) × (row : TargetRow) × (target ≡ some t)
          × (find_target t db ≡ some row)
          × (row.version ≡ c)
    lease :
        (c t : ℕ)
        → i.fence_token ≡ some c
        → target ≡ some t
        → (row : TargetRow) × (find_target t db ≡ some row) × (row.deployment_version ≡ c)
    source :
        (s : String)
        → snapshot ≡ some s
        → (row : SnapshotRow) × (find_snapshot s db ≡ some row)
          × (i.commit_sha ≡ some row.commit_sha)
          × (i.artifact_manifest_hash ≡ some (compute_artifact_manifest_hash sha256_hex s db))
    text : (p : String) → i.plan_hash ≡ some p → sha256_hex plan ≡ p

  pub read_snapshot-source :
      (snapshot : Option String) (plan : String) (db : Db) (i : Intent)
      → read_snapshot sha256_hex snapshot plan db ≡ ok i
      → (s : String) → snapshot ≡ some s
      → (row : SnapshotRow) × (find_snapshot s db ≡ some row)
        × (i.commit_sha ≡ some row.commit_sha)
        × (i.artifact_manifest_hash ≡ some (compute_artifact_manifest_hash sha256_hex s db))
  unfolding read_snapshot
  read_snapshot-source snapshot plan db i h s e = elim (Option-cases (find_snapshot s db)) [
    | inl gone ↦ ground (arith, e, gone)
    | inr (row, found) ↦ (row, found, ground (arith, e, found), ground (arith, e, found))
  ]

  -- Without a target a snapshot's intent has no lease and no configuration.
  pub read_snapshot-rest :
      (snapshot : Option String) (plan : String) (db : Db) (i : Intent)
      → read_snapshot sha256_hex snapshot plan db ≡ ok i
      → (i.target_config_version ≡ none)
        × (i.fence_token ≡ none)
        × ((p : String) → i.plan_hash ≡ some p → sha256_hex plan ≡ p)
  unfolding read_snapshot
  read_snapshot-rest none plan db i h = (ground arith, ground arith, λ p e. ground (arith, e))
  read_snapshot-rest (some s) plan db i h = elim (Option-cases (find_snapshot s db)) [
    | inl gone ↦ ground (arith, gone)
    | inr (row, found) ↦
        (ground (arith, found), ground (arith, found), λ p e. ground (arith, e, found))
  ]

  pub read_target-rest :
      (t : ℕ) (db : Db) (i j : Intent)
      → read_target sha256_hex (some t) db i ≡ ok j
      → j ≡ record i {
        target_config_version = Option.map (λ (r : TargetRow). r.version) (find_target t db);
        fence_token = Option.map (λ (r : TargetRow). r.deployment_version) (find_target t db);
      }
  unfolding read_target
  read_target-rest t db i j h = ground arith

  pub read_target-none : (db : Db) (i j : Intent) → read_target sha256_hex none db i ≡ ok j → j ≡ i
  unfolding read_target
  read_target-none db i j h = ground arith

  read_intent-Describes :
      (snapshot : Option String) (plan : String) (target : Option ℕ) (db : Db) (i : Intent)
      → read_intent sha256_hex snapshot plan target db ≡ ok i
      → Describes snapshot plan target i db
  unfolding read_intent
  read_intent-Describes snapshot plan none db i h =
      let (i0, first, second) = >>=-eq-ok (read_snapshot sha256_hex snapshot plan db) _ h in
      let (config, lease, text) = read_snapshot-rest snapshot plan db i0 first in
      let j = read_target-none db i0 i second in
      record {
        config = λ c e. cc (config, ap (λ (x : Intent). x.target_config_version) j, e);
        lease = λ c u e f. cc f;
        source = λ s e.
            let (row, found, commit, files) = read_snapshot-source snapshot plan db i0 first s e in
            (
              row,
              found,
              ap (λ (x : Intent). x.commit_sha) j ∙ commit,
              ap (λ (x : Intent). x.artifact_manifest_hash) j ∙ files,
            );
        text = λ p e. text p (ap (λ (x : Intent). x.plan_hash) (sym j) ∙ e);
      }
  read_intent-Describes snapshot plan (some t) db i h =
      let (i0, first, second) = >>=-eq-ok (read_snapshot sha256_hex snapshot plan db) _ h in
      let (config, lease, text) = read_snapshot-rest snapshot plan db i0 first in
      let j = read_target-rest t db i0 i second in
      record {
        config = λ c e.
            let (row, found, same) =
              map-eq-some (λ (r : TargetRow). r.version) (find_target t db) c
                (ap (λ (x : Intent). x.target_config_version) (sym j) ∙ e) in
            (t, row, refl, found, same);
        lease = λ c u e f.
            let (row, found, same) =
              map-eq-some (λ (r : TargetRow). r.deployment_version) (find_target t db) c
                (ap (λ (x : Intent). x.fence_token) (sym j) ∙ e) in
            (row, rw (← some-injective t u f) found, same);
        source = λ s e.
            let (row, found, commit, files) = read_snapshot-source snapshot plan db i0 first s e in
            (
              row,
              found,
              ap (λ (x : Intent). x.commit_sha) j ∙ commit,
              ap (λ (x : Intent). x.artifact_manifest_hash) j ∙ files,
            );
        text = λ p e. text p (ap (λ (x : Intent). x.plan_hash) (sym j) ∙ e);
      }

  pub hash_of_files :
      (s : String) (a b : Db)
      → a.files ≡ b.files
      → compute_artifact_manifest_hash sha256_hex s a
        ≡ compute_artifact_manifest_hash sha256_hex s b
  unfolding compute_artifact_manifest_hash
  hash_of_files s a b h = rw h

  Inserted-IsFresh :
      (id now : ℕ) (system_id plan : String) (by : ℕ) (environment : Environment)
      (target : Option ℕ) (snapshot : Option String) (db later : Db) (i : Intent)
      (got : PendingDeployRow)
      → Describes snapshot plan target i db
      → Inserted
          (new_row sha256_hex id now system_id plan by environment target snapshot i)
          got
          db
          later
      → IsFresh sha256_hex got later
  Inserted-IsFresh id now system_id plan by environment target snapshot db later i got d n =
      rw n.same_row (record {
        config = record {
          at_request = λ c e.
              let (t, row, at_t, found, same) = d.config c e in
              (t, row, at_t, ap (find (target_at t)) n.targets ∙ found, same);
        };
        snapshot = record {
          at_request = λ s e.
              let (row, found, commit, files) = d.source s e in
              (
                row,
                ap (find (λ (r : SnapshotRow). r.id == s)) n.snapshots ∙ found,
                λ c f. some-injective row.commit_sha c (sym commit ∙ f),
                λ m f. hash_of_files s later db n.files ∙ some-injective _ m (sym files ∙ f),
              );
        };
        plan = record { at_request = d.text };
        lease = record {
          at_request = λ c t e f.
              let (row, found, same) = d.lease c t e f in
              (row, ap (find (target_at t)) n.targets ∙ found, same);
        };
      })

  request_insert :
      (now : ℕ) (system_id plan : String) (by : ℕ) (environment : Environment) (target : Option ℕ)
      (snapshot : Option String) (db : Db) (i : Intent)
      → read_intent sha256_hex snapshot plan target db ≡ ok i
      → request sha256_hex now system_id plan by environment target snapshot db
        ≡ insert_row
            (new_row sha256_hex db.next_id now system_id plan by environment target snapshot i)
            db
  unfolding request
  request_insert now system_id plan by environment target snapshot db i read = rw (read, request)

  request_stuck :
      (now : ℕ) (system_id plan : String) (by : ℕ) (environment : Environment) (target : Option ℕ)
      (snapshot : Option String) (db : Db) (e : CoreError)
      → read_intent sha256_hex snapshot plan target db ≡ err e
      → (row : PendingDeployRow)
      → (request sha256_hex now system_id plan by environment target snapshot db).0 ≢ ok row
  unfolding request
  request_stuck now system_id plan by environment target snapshot db e stuck row h =
      cc (rw (stuck, request) at h)

  pub request-Inserted :
      (now : ℕ) (system_id plan : String) (by : ℕ) (environment : Environment) (target : Option ℕ)
      (snapshot : Option String) (db : Db) (row : PendingDeployRow)
      → (request sha256_hex now system_id plan by environment target snapshot db).0 ≡ ok row
      → (i : Intent) × (read_intent sha256_hex snapshot plan target db ≡ ok i)
        × Inserted
            (new_row sha256_hex db.next_id now system_id plan by environment target snapshot i)
            row
            db
            (request sha256_hex now system_id plan by environment target snapshot db).1
  request-Inserted now system_id plan by environment target snapshot db row h =
      elim (CoreResult-cases (read_intent sha256_hex snapshot plan target db)) [
        | inl (i, read) ↦
            let new =
              new_row sha256_hex db.next_id now system_id plan by environment target snapshot i in
            let e = request_insert now system_id plan by environment target snapshot db i read in
            (i, read, rw e (insert_row_ok new row db (rw e at h)))
        | inr (e, stuck) ↦
            absurd
              (request_stuck now system_id plan by environment target snapshot db e stuck row h)
      ]

  -- What a request captures is fresh.
  pub request-IsFresh :
      (now : ℕ) (system_id plan : String) (by : ℕ) (environment : Environment) (target : Option ℕ)
      (snapshot : Option String) (db : Db) (row : PendingDeployRow)
      → (request sha256_hex now system_id plan by environment target snapshot db).0 ≡ ok row
      → IsFresh sha256_hex row
          (request sha256_hex now system_id plan by environment target snapshot db).1
  request-IsFresh now system_id plan by environment target snapshot db row h =
      let (i, read, inserted) =
        request-Inserted now system_id plan by environment target snapshot db row h in
      Inserted-IsFresh db.next_id now system_id plan by environment target snapshot db _ i row
        (read_intent-Describes snapshot plan target db i read) inserted
