-- ===== src/Audit/Growth.antt =====
-- What a sequence of calls of `record`
-- (crates/core/src/infrastructure/repository/audit_log_repository.rs) makes of a log.
use agent_dep_platform.Base.{
  ◌+◌, ◌≡◌, refl, sym, ap, ◌∙◌, Option, some, List, [], ◌∷◌, ◌++◌, ok, err, length, arith,
  append_assoc, append-nil, err_schema_invalid,
}
use agent_dep_platform.Audit.Rows.{Bytes, AuditLogRowFull, genesis_prev_hash}
use agent_dep_platform.Audit.Recording.{
  AuditLog, AuditLogRepository, Entry, newest, predicted_id, sign, recorded_row, record_entry,
  record_all,
}
use agent_dep_platform.Audit.Verifying.{verify_row, verify_chain}
use agent_dep_platform.Audit.Chain.{IsChain, IsChain-append, previous_hash_lem, verify_chain_iff}

-- The counter of the AUTOINCREMENT column is the newest id, so that the id that `record` predicts
-- is the one that the database assigns.
unfoldable pub IsCounted : AuditLog → Type 0
IsCounted log = predicted_id log.rows ≡ log.sequence + 1

newest-append :
    (rows : List AuditLogRowFull) (r : AuditLogRowFull) → newest (rows ++ r ∷ []) ≡ some r
newest-append [] r = refl
newest-append (s ∷ rows) r = ground (arith, newest-append rows r)

module _ (sha256_hex : Bytes → Bytes) (hmac_hex : Bytes → Bytes → Bytes) where
  pub record_entry-IsCounted :
      (repo : AuditLogRepository) (e : Entry) (log : AuditLog)
      → IsCounted (record_entry sha256_hex hmac_hex repo e log).1
  unfolding record_entry IsCounted
  record_entry-IsCounted repo e log =
      ground (arith, newest-append log.rows (recorded_row sha256_hex hmac_hex repo e log))

  signed_lem :
      (key : Option Bytes) (h k : Bytes)
      → key ≡ some k
      → sign sha256_hex hmac_hex key h ≡ hmac_hex k h
  signed_lem key h k e = ground (arith, e)

  module _ (digest_length : (x : Bytes) → length (sha256_hex x) ≡ 64) where
    record_entry-IsChain :
        (repo : AuditLogRepository) (e : Entry) (log : AuditLog)
        → IsCounted log
        → IsChain sha256_hex hmac_hex repo.hmac_key genesis_prev_hash log.rows
        → IsChain sha256_hex hmac_hex repo.hmac_key genesis_prev_hash
            (record_entry sha256_hex hmac_hex repo e log).1.rows
    unfolding record_entry IsCounted
    record_entry-IsChain repo e log counted chain =
        IsChain-append sha256_hex hmac_hex repo.hmac_key genesis_prev_hash log.rows
          (recorded_row sha256_hex hmac_hex repo e log) chain
          (record {
            linked =
                previous_hash_lem sha256_hex hmac_hex digest_length repo.hmac_key log.rows chain;
            digest = rw counted refl;
            signed = λ k key. signed_lem repo.hmac_key _ k key;
          })

    record_all-IsChain :
        (repo : AuditLogRepository) (es : List Entry) (log : AuditLog)
        → IsCounted log
        → IsChain sha256_hex hmac_hex repo.hmac_key genesis_prev_hash log.rows
        → IsChain sha256_hex hmac_hex repo.hmac_key genesis_prev_hash
            (record_all sha256_hex hmac_hex repo es log).rows
    unfolding record_all
    record_all-IsChain repo [] log counted chain = chain
    record_all-IsChain repo (e ∷ es) log counted chain =
        record_all-IsChain repo es (record_entry sha256_hex hmac_hex repo e log).1
          (record_entry-IsCounted repo e log) (record_entry-IsChain repo e log counted chain)

    -- Where digests have 64 characters, every sequence of calls of record leaves a log that
    -- verify_chain accepts, if it accepted the log before and the newest id was the counter's.
    pub record_all_verifies :
        (repo : AuditLogRepository) (es : List Entry) (log : AuditLog)
        → IsCounted log
        → verify_chain sha256_hex hmac_hex repo log ≡ ok tt
        → verify_chain sha256_hex hmac_hex repo (record_all sha256_hex hmac_hex repo es log) ≡ ok tt
    record_all_verifies repo es log counted h =
        (verify_chain_iff sha256_hex hmac_hex digest_length repo
            (record_all sha256_hex hmac_hex repo es log)).1
          (record_all-IsChain repo es log counted
            ((verify_chain_iff sha256_hex hmac_hex digest_length repo log).0 h))

  record_all-append :
      (repo : AuditLogRepository) (es : List Entry) (log : AuditLog)
      → (added : List AuditLogRowFull) × ((record_all sha256_hex hmac_hex repo es log).rows
          ≡ log.rows ++ added)
  unfolding record_all record_entry
  record_all-append repo [] log = ([], sym (append-nil log.rows))
  record_all-append repo (e ∷ es) log =
      let r = recorded_row sha256_hex hmac_hex repo e log in
      let (added, grown) =
        record_all-append repo es (record_entry sha256_hex hmac_hex repo e log).1 in
      (r ∷ added, grown ∙ append_assoc log.rows (r ∷ []) added)

  -- A log whose oldest row is a legacy row, with empty chain columns, is never verified again,
  -- whatever is recorded after it.
  pub legacy_row_stays :
      (repo : AuditLogRepository) (es : List Entry) (log : AuditLog) (r : AuditLogRowFull)
      (rows : List AuditLogRowFull)
      → log.rows ≡ r ∷ rows
      → r.prev_hash ≡ []
      → r.record_hash ≡ []
      → verify_chain sha256_hex hmac_hex repo (record_all sha256_hex hmac_hex repo es log)
        ≡ err (err_schema_invalid "audit_log")
  unfolding verify_chain verify_row
  legacy_row_stays repo es log r rows first prev hash =
      let (added, grown) = record_all-append repo es log in
      ground (arith, grown ∙ ap (λ z. z ++ added) first, prev, hash)
