-- ===== src/Audit/Tests.antt =====
-- The audit log at concrete inputs.
use agent_dep_platform.Base.{
  ℕ, ◌≡◌, refl, ◌⊎◌, none, some, [], ◌∷◌, ◌++◌, ok, err, err_schema_invalid, length, map, arith,
}
use agent_dep_platform.Audit.Rows.{
  Bytes, AuditLogRowFull, succeeded, error, repeat, colon, genesis_prev_hash, ok_text, preimage,
  row_preimage, compute_record_hash,
}
use agent_dep_platform.Audit.Recording.{
  AuditLog, AuditLogRepository, Entry, with_hmac_key, record_all,
}
use agent_dep_platform.Audit.Verifying.{verify_row, verify_chain}
use agent_dep_platform.Audit.Chain.{head_hash}
use agent_dep_platform.Audit.Growth.{IsCounted, record_all_verifies, legacy_row_stays}
use agent_dep_platform.Audit.Commitment.{Collides, separator_moves, newest_digest_commits}
use agent_dep_platform.Audit.Paging.{list_page, IsAscending, read_rows, list_page_resumes}

-- A digest of 64 characters and a keyed one.
abbrev digest : Bytes → Bytes
digest x = repeat 64 (length x)

abbrev keyed : Bytes → Bytes → Bytes
keyed key x = key ++ x

abbrev login : Entry
login = record {
  now = 49 ∷ [];
  actor = 117 ∷ [];
  action = 108 ∷ [];
  target = none;
  outcome = succeeded;
  details = none;
}

abbrev denied : Entry
denied = record login { outcome = error; target = some (116 ∷ []) }

abbrev empty_log : AuditLog
empty_log = record { rows = []; sequence = 0 }

abbrev repo : AuditLogRepository
repo = record { hmac_key = some (repeat 32 7) }

abbrev keyless : AuditLogRepository
keyless = record { hmac_key = none }

abbrev two_rows : AuditLog
two_rows = record_all digest keyed repo (login ∷ denied ∷ []) empty_log

abbrev two_unsigned : AuditLog
two_unsigned = record_all digest keyed keyless (login ∷ denied ∷ []) empty_log

empty_log-IsCounted : IsCounted empty_log
unfolding IsCounted
empty_log-IsCounted = refl

short_key : with_hmac_key (repeat 31 7) ≡ err (err_schema_invalid "audit_log.hmac_key")
unfolding with_hmac_key
short_key = refl

two_rows_verify : verify_chain digest keyed repo two_rows ≡ ok tt
unfolding verify_chain verify_row record_all preimage
two_rows_verify = refl

two_unsigned_verify : verify_chain digest keyed keyless two_unsigned ≡ ok tt
unfolding verify_chain verify_row record_all preimage
two_unsigned_verify = refl

-- Rows without a key have no tag, which a verifier with a key does not accept.
unsigned_is_refused :
    verify_chain digest keyed repo two_unsigned ≡ err (err_schema_invalid "audit_log")
unfolding verify_chain verify_row record_all preimage
unsigned_is_refused = refl

same_head :
    head_hash genesis_prev_hash two_rows.rows ≡ head_hash genesis_prev_hash two_unsigned.rows
unfolding record_all
same_head = refl

same_length : length two_rows.rows ≡ length two_unsigned.rows
unfolding record_all
same_length = refl

empty_log_verifies : verify_chain digest keyed repo empty_log ≡ ok tt
unfolding verify_chain
empty_log_verifies = refl

record_all_verifies_example : verify_chain digest keyed repo two_rows ≡ ok tt
record_all_verifies_example =
    record_all_verifies digest keyed (λ x. refl) repo (login ∷ denied ∷ []) empty_log
      empty_log-IsCounted empty_log_verifies

newest_digest_commits_example :
    (map row_preimage two_rows.rows ≡ map row_preimage two_unsigned.rows)
    ⊎ Collides digest two_rows.rows two_unsigned.rows
newest_digest_commits_example =
    newest_digest_commits digest keyed (λ x. refl) repo keyless two_rows two_unsigned same_length
      two_rows_verify two_unsigned_verify same_head

separator_moves_example :
    compute_record_hash digest 1 genesis_prev_hash []
      (colon (97 ∷ []) (98 ∷ []))
      (99 ∷ [])
      none
      ok_text
      none
    ≡ compute_record_hash digest 1 genesis_prev_hash []
        (97 ∷ [])
        (colon (98 ∷ []) (99 ∷ []))
        none
        ok_text
        none
separator_moves_example =
    separator_moves digest 1 genesis_prev_hash [] (97 ∷ []) (98 ∷ []) (99 ∷ []) none ok_text none

abbrev row : ℕ → AuditLogRowFull
row n = record {
  id = n;
  occurred_at = [];
  actor = [];
  action = [];
  target = none;
  outcome = ok_text;
  details = none;
  prev_hash = [];
  record_hash = [];
  hmac = [];
}

abbrev legacy_log : AuditLog
legacy_log = record { rows = row 1 ∷ []; sequence = 1 }

legacy_row_stays_example :
    verify_chain digest keyed repo (record_all digest keyed repo (login ∷ []) legacy_log)
    ≡ err (err_schema_invalid "audit_log")
legacy_row_stays_example =
    legacy_row_stays digest keyed repo (login ∷ []) legacy_log (row 1) [] refl refl refl

ascending : IsAscending (row 1 ∷ row 2 ∷ row 5 ∷ row 6 ∷ [])
ascending = ground arith

list_page_resumes_example :
    list_page (some 2) 1 (record { rows = row 1 ∷ row 2 ∷ row 5 ∷ row 6 ∷ []; sequence = 6 })
    ≡ read_rows (row 5 ∷ [])
list_page_resumes_example =
    list_page_resumes (row 1 ∷ []) (row 2) (row 5 ∷ row 6 ∷ []) 6 1 ascending
