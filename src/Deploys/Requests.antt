-- ===== src/Deploys/Requests.antt =====
-- `PendingDeployRepository::request` of
-- crates/core/src/infrastructure/repository/pending_deploys_repository.rs. It is not one
-- transaction: `read_intent` is what it reads, `insert_intent` its INSERT, and other calls may run
-- between the two. `request` is both with nothing between.
use Prim.Native.Char.{code}
use Prim.Native.String.{[] as text_nil, ◌∷◌ as text_cons}
use agent_dep_platform.Base.{
  ℕ, ◌+◌, String, Bool, ◌&&◌, Option, none, some, [], ◌∷◌, ◌++◌, CoreResult, ok, err,
  err_schema_invalid, err_sqlx, err_target_busy, ◌>>=◌, SqlError, unique, foreign_key, not_null,
  find, CoreError, eqb, true, false, ◌||◌, if◌then◌else◌,
}
use mathlib.Core.Option
use agent_dep_platform.Deploys.Rows.{Environment, pending, PendingDeployRow, is_active}
use agent_dep_platform.Deploys.Database.{
  Db, TargetRow, find_target, find_snapshot, same_target, insert_refusal,
  compute_artifact_manifest_hash,
}

abbrev pub default_policy_set_version : String
default_policy_set_version = "1.0.0"

-- The fields that `request` reads from the snapshot and the target.
pub record Intent : Type 0 where
  pub commit_sha : Option String
  pub plan_hash : Option String
  pub artifact_manifest_hash : Option String
  pub target_config_version : Option ℕ
  pub fence_token : Option ℕ

abbrev pub holds : ℕ → PendingDeployRow → Bool
holds t r = same_target r.target_id (some t) && is_active r.status

module _ (sha256_hex : String → String) where
  unfoldable pub read_snapshot : Option String → String → Db → CoreResult Intent
  read_snapshot none plan_summary db = ok (record {
    commit_sha = none;
    plan_hash = none;
    artifact_manifest_hash = none;
    target_config_version = none;
    fence_token = none;
  })
  read_snapshot (some s) plan_summary db = elim (find_snapshot s db) [
    | none ↦ err (err_schema_invalid "pending_deploys.source_snapshot_id")
    | some row ↦ ok (record {
      commit_sha = some row.commit_sha;
      plan_hash = some (sha256_hex plan_summary);
      artifact_manifest_hash = some (compute_artifact_manifest_hash sha256_hex s db);
      target_config_version = none;
      fence_token = none;
    })
  ]

  -- The two versions of the target, unless an active deploy holds it. The first active row in the
  -- order of the ids is the first in the table.
  unfoldable pub read_target : Option ℕ → Db → Intent → CoreResult Intent
  read_target none db i = ok i
  read_target (some t) db i = elim (find (holds t) db.deploys) [
    | some busy ↦ err (err_target_busy t (some busy.id))
    | none ↦ ok (record i {
      target_config_version = Option.map (λ (r : TargetRow). r.version) (find_target t db);
      fence_token = Option.map (λ (r : TargetRow). r.deployment_version) (find_target t db);
    })
  ]

  unfoldable pub read_intent : Option String → String → Option ℕ → Db → CoreResult Intent
  read_intent source_snapshot_id plan_summary target_id db =
      read_snapshot source_snapshot_id plan_summary db >>= λ i. read_target target_id db i

  abbrev pub new_row :
      ℕ
      → ℕ
      → String
      → String
      → ℕ
      → Environment
      → Option ℕ
      → Option String
      → Intent
      → PendingDeployRow
  new_row id now system_id plan_summary requested_by environment target_id snapshot i = record {
    id = id;
    system_id = system_id;
    plan_summary = plan_summary;
    requested_by = requested_by;
    requested_at = now;
    status = pending;
    environment = environment;
    target_id = target_id;
    target_config_version = i.target_config_version;
    source_snapshot_id = snapshot;
    commit_sha = i.commit_sha;
    plan_hash = i.plan_hash;
    policy_set_version = some default_policy_set_version;
    artifact_manifest_hash = i.artifact_manifest_hash;
    fence_token = i.fence_token;
    applied_deployment_version = none;
    approved_by = none;
    approved_at = none;
    rejection_reason = none;
    applied_at = none;
  }

abbrev starts_text : String → String → Bool
starts_text text_nil s = true
starts_text (text_cons c p) text_nil = false
starts_text (text_cons c p) (text_cons d s) = eqb (code c) (code d) && starts_text p s

-- `str::contains`
abbrev has_text : String → String → Bool
has_text p text_nil = starts_text p text_nil
has_text p (text_cons c s) = starts_text p (text_cons c s) || has_text p s

-- The text that SQLite gives to a violation. That of a UNIQUE index over a column names the column.
abbrev message : SqlError → String
message unique = "UNIQUE constraint failed: pending_deploys.target_id"
message foreign_key = "FOREIGN KEY constraint failed"
message not_null = "NOT NULL constraint failed"

-- What a refused INSERT becomes: a busy target if the message has the name of the partial unique
-- index, which no row without a target violates.
unfoldable pub insert_error : Option ℕ → SqlError → CoreError
insert_error none e = err_sqlx e
insert_error (some t) e =
    if has_text "idx_pending_deploys_one_active_per_target" (message e)
    then err_target_busy t none
    else err_sqlx e

unfoldable pub insert_row : PendingDeployRow → Db → CoreResult PendingDeployRow × Db
unfolding insert_refusal
insert_row row db = elim (insert_refusal row db) [
  | some e ↦ (err (insert_error row.target_id e), db)
  | none ↦ (ok row, record db { deploys = db.deploys ++ row ∷ []; next_id = db.next_id + 1 })
]

module _ (sha256_hex : String → String) where
  unfoldable pub request :
      ℕ
      → String
      → String
      → ℕ
      → Environment
      → Option ℕ
      → Option String
      → Db
      → CoreResult PendingDeployRow × Db
  request now system_id plan_summary requested_by environment target_id snapshot db =
      elim (read_intent sha256_hex snapshot plan_summary target_id db) [
        | err e ↦ (err e, db)
        | ok i ↦
            insert_row
              (new_row sha256_hex db.next_id now system_id plan_summary requested_by environment
                target_id snapshot i)
              db
      ]
