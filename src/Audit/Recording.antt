-- ===== src/Audit/Recording.antt =====
-- `with_hmac_key`, `has_hmac_key` and `record` of
-- crates/core/src/infrastructure/repository/audit_log_repository.rs. The table holds its rows in
-- the order of their ids, with the counter of its AUTOINCREMENT column; the clock's reading is an
-- argument.
use agent_dep_platform.Base.{
  ℕ, ◌+◌, Bool, Option, none, some, List, [], ◌∷◌, ◌++◌, CoreResult, ok, err, err_schema_invalid,
  ltb, length, is_some, if◌then◌else◌,
}
use agent_dep_platform.Audit.Rows.{
  Bytes, AuditOutcome, AuditLogRowFull, outcome_as_str, is_empty, genesis_prev_hash,
  compute_record_hash,
}

pub record AuditLog : Type 0 where
  pub rows : List AuditLogRowFull
  pub sequence : ℕ

pub record AuditLogRepository : Type 0 where
  pub hmac_key : Option Bytes

unfoldable pub with_hmac_key : Bytes → CoreResult AuditLogRepository
with_hmac_key key =
    if ltb (length key) 32
    then err (err_schema_invalid "audit_log.hmac_key")
    else ok (record { hmac_key = some key })

abbrev pub has_hmac_key : AuditLogRepository → Bool
has_hmac_key repo = is_some repo.hmac_key

-- `ORDER BY id DESC LIMIT 1`
abbrev pub newest : List AuditLogRowFull → Option AuditLogRowFull
newest [] = none
newest (r ∷ rows) = elim (newest rows) [ none ↦ some r | some s ↦ some s ]

-- `IFNULL(MAX(id), 0) + 1`
abbrev pub predicted_id : List AuditLogRowFull → ℕ
predicted_id rows = elim (newest rows) [ none ↦ 1 | some r ↦ r.id + 1 ]

abbrev pub previous_hash : List AuditLogRowFull → Bytes
previous_hash rows = elim (newest rows) [
  | none ↦ genesis_prev_hash
  | some r ↦ if is_empty r.record_hash then genesis_prev_hash else r.record_hash
]

-- What a caller records, with the time of the call.
pub record Entry : Type 0 where
  pub now : Bytes
  pub actor : Bytes
  pub action : Bytes
  pub target : Option Bytes
  pub outcome : AuditOutcome
  pub details : Option Bytes

module _ (sha256_hex : Bytes → Bytes) (hmac_hex : Bytes → Bytes → Bytes) where
  abbrev pub sign : Option Bytes → Bytes → Bytes
  sign none record_hash = []
  sign (some key) record_hash = hmac_hex key record_hash

  -- The inserted row: its id is the one that the database assigns, its digest has the predicted
  -- one.
  abbrev pub recorded_row : AuditLogRepository → Entry → AuditLog → AuditLogRowFull
  recorded_row repo e log =
      let prev = previous_hash log.rows in
      let hash =
        compute_record_hash sha256_hex (predicted_id log.rows) prev e.now e.actor e.action e.target
          (outcome_as_str e.outcome) e.details in
      record {
        id = log.sequence + 1;
        occurred_at = e.now;
        actor = e.actor;
        action = e.action;
        target = e.target;
        outcome = outcome_as_str e.outcome;
        details = e.details;
        prev_hash = prev;
        record_hash = hash;
        hmac = sign repo.hmac_key hash;
      }

  unfoldable pub record_entry : AuditLogRepository → Entry → AuditLog → CoreResult ℕ × AuditLog
  record_entry repo e log = (
    ok (log.sequence + 1),
    record { rows = log.rows ++ recorded_row repo e log ∷ []; sequence = log.sequence + 1 },
  )

  -- A sequence of calls, each of which commits before the next.
  unfoldable pub record_all : AuditLogRepository → List Entry → AuditLog → AuditLog
  unfolding record_entry
  record_all repo [] log = log
  record_all repo (e ∷ es) log = record_all repo es (record_entry repo e log).1
