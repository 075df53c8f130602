-- ===== src/Audit/Verifying.antt =====
-- `verify_chain` of crates/core/src/infrastructure/repository/audit_log_repository.rs.
use agent_dep_platform.Base.{
  ℕ, Bool, true, false, not, ◌&&◌, Option, none, some, List, [], ◌∷◌, CoreResult, ok, err,
  err_schema_invalid, if◌then◌else◌,
}
use agent_dep_platform.Audit.Rows.{
  Bytes, AuditLogRowFull, is_empty, same_bytes, genesis_prev_hash, row_preimage,
}
use agent_dep_platform.Audit.Recording.{AuditLog, AuditLogRepository}

pub data ChainError : Type 0 where
  legacy_row_skipped : ℕ → ChainError
  broken_chain : ℕ → Bytes → Bytes → ChainError
  bad_record_hash : ℕ → Bytes → Bytes → ChainError
  bad_hmac : ℕ → Bytes → Bytes → ChainError
  bad_genesis : ℕ → Bytes → ChainError

-- The variables of the loop.
pub record Walk : Type 0 where
  pub prev_hash : Bytes
  pub first_non_legacy_seen : Bool

abbrev pub start : Walk
start = record { prev_hash = genesis_prev_hash; first_non_legacy_seen = false }

-- The variables after a row that passed.
abbrev pub passed : AuditLogRowFull → Walk
passed r = record { prev_hash = r.record_hash; first_non_legacy_seen = true }

module _ (sha256_hex : Bytes → Bytes) (hmac_hex : Bytes → Bytes → Bytes) where
  abbrev pub verify_hmac : Option Bytes → AuditLogRowFull → Option ChainError
  verify_hmac none r = none
  verify_hmac (some key) r =
      let expected = hmac_hex key r.record_hash in
      if same_bytes expected r.hmac then none else some (bad_hmac r.id r.hmac expected)

  abbrev pub verify_digest : Option Bytes → AuditLogRowFull → Option ChainError
  verify_digest key r =
      let expected = sha256_hex (row_preimage r) in
      if same_bytes expected r.record_hash
      then verify_hmac key r
      else some (bad_record_hash r.id r.record_hash expected)

  unfoldable pub verify_row : Option Bytes → Walk → AuditLogRowFull → Option ChainError
  verify_row key w r =
      if is_empty r.prev_hash && is_empty r.record_hash
      then (if w.first_non_legacy_seen
          then some (broken_chain r.id r.prev_hash w.prev_hash)
          else some (legacy_row_skipped r.id))
      else if not w.first_non_legacy_seen
      then (if same_bytes r.prev_hash genesis_prev_hash
          then verify_digest key r
          else some (bad_genesis r.id r.prev_hash))
      else if same_bytes r.prev_hash w.prev_hash
      then verify_digest key r
      else some (broken_chain r.id r.prev_hash w.prev_hash)

  unfoldable pub verify_rows : Option Bytes → Walk → List AuditLogRowFull → Option ChainError
  verify_rows key w [] = none
  verify_rows key w (r ∷ rows) =
      let rest = verify_rows key (passed r) rows in
      elim (verify_row key w r) [ none ↦ rest | some e ↦ some e ]

  unfoldable pub verify_chain : AuditLogRepository → AuditLog → CoreResult (Unit {0})
  unfolding verify_rows
  verify_chain repo log = elim (verify_rows repo.hmac_key start log.rows) [
    | none ↦ ok tt
    | some e ↦ err (err_schema_invalid "audit_log")
  ]
