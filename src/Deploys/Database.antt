-- ===== src/Deploys/Database.antt =====
-- The tables that crates/core/src/infrastructure/repository/pending_deploys_repository.rs reads and
-- writes, with the constraints of crates/core/migrations (NOT NULL of `target_id`, the foreign
-- keys, which crates/core/src/infrastructure/sqlite/mod.rs turns on, and the partial unique index
-- `idx_pending_deploys_one_active_per_target`), and the hash of a snapshot's files.
use Prim.Native.String
use Prim.Native.String.{compare}
use text.Mathlib.Text.{is_le}
use agent_dep_platform.Base.{
  ℕ, zero, suc, ◌/◌, ◌%◌, String, Bool, false, ◌&&◌, Option, none, some, List, [], ◌∷◌, any, find,
  select, eqb, ltb, ◌==◌, string_eq, if◌then◌else◌, SqlError, not_null, foreign_key, unique,
  contains, nat_eq,
}
use agent_dep_platform.Deploys.Rows.{PendingDeployRow, is_active}

-- The columns of `targets` that a deploy reads or writes.
pub record TargetRow : Type 0 where
  pub id : ℕ
  pub version : ℕ
  pub deployment_version : ℕ

pub record SnapshotRow : Type 0 where
  pub id : String
  pub commit_sha : String

pub record SnapshotFile : Type 0 where
  pub snapshot_id : String
  pub relative : String
  pub sha256 : String
  pub size_bytes : ℕ

pub record Db : Type 0 where
  pub deploys : List PendingDeployRow
  -- the next id of `INTEGER PRIMARY KEY AUTOINCREMENT`
  pub next_id : ℕ
  pub targets : List TargetRow
  pub users : List ℕ
  pub snapshots : List SnapshotRow
  pub files : List SnapshotFile

abbrev pub target_at : ℕ → TargetRow → Bool
target_at t r = eqb r.id t

abbrev pub find_target : ℕ → Db → Option TargetRow
find_target t db = find (target_at t) db.targets

abbrev pub find_snapshot : String → Db → Option SnapshotRow
find_snapshot s db = find (λ (r : SnapshotRow). r.id == s) db.snapshots

abbrev pub same_target : Option ℕ → Option ℕ → Bool
same_target (some a) (some b) = eqb a b
same_target _ _ = false

-- Two rows that the partial unique index does not admit together.
abbrev pub clashes : PendingDeployRow → PendingDeployRow → Bool
clashes r s = is_active r.status && is_active s.status && same_target r.target_id s.target_id

abbrev known_target : Option ℕ → Db → Option SqlError
known_target none db = some not_null
known_target (some t) db = if any (target_at t) db.targets then none else some foreign_key

-- What the database says to a new row.
unfoldable pub insert_refusal : PendingDeployRow → Db → Option SqlError
insert_refusal r db =
    if any (clashes r) db.deploys
    then some unique
    else if contains db.users r.requested_by
    then known_target r.target_id db
    else some foreign_key

-- `ORDER BY relative ASC`
insert_file : SnapshotFile → List SnapshotFile → List SnapshotFile
insert_file f [] = f ∷ []
insert_file f (g ∷ fs) =
    let rest = insert_file f fs in
    if is_le (compare f.relative g.relative) then f ∷ g ∷ fs else g ∷ rest

sort_files : List SnapshotFile → List SnapshotFile
unfolding insert_file
sort_files [] = []
sort_files (f ∷ fs) = insert_file f (sort_files fs)

digit : ℕ → String
digit zero = "0"
digit (suc zero) = "1"
digit (suc (suc zero)) = "2"
digit (suc (suc (suc zero))) = "3"
digit (suc (suc (suc (suc zero)))) = "4"
digit (suc (suc (suc (suc (suc zero))))) = "5"
digit (suc (suc (suc (suc (suc (suc zero)))))) = "6"
digit (suc (suc (suc (suc (suc (suc (suc zero))))))) = "7"
digit (suc (suc (suc (suc (suc (suc (suc (suc zero)))))))) = "8"
digit _ = "9"

-- A number in decimal. The fuel is the number itself, which has fewer digits than that.
decimal_from : ℕ → ℕ → String
unfolding digit
decimal_from zero n = digit n
decimal_from (suc f) n =
    let more = String.◌++◌ (decimal_from f (n / 10)) (digit (n % 10)) in
    if ltb n 10 then digit n else more

decimal : ℕ → String
unfolding decimal_from
decimal n = decimal_from n n

manifest : List SnapshotFile → String
unfolding decimal
manifest [] = ""
manifest (f ∷ fs) = String.◌++◌ f.relative (
    String.◌++◌ "\n" (
      String.◌++◌ f.sha256
        (String.◌++◌ "\n" (String.◌++◌ (decimal f.size_bytes) (String.◌++◌ "\n" (manifest fs))))))

-- `sha2` is the parameter `sha256_hex`, from the text whose bytes are hashed to the digest's hex.
unfoldable pub compute_artifact_manifest_hash : (String → String) → String → Db → String
unfolding manifest sort_files
compute_artifact_manifest_hash sha256_hex snapshot_id db =
    sha256_hex
      (manifest (sort_files (select (λ (f : SnapshotFile). f.snapshot_id == snapshot_id) db.files)))
