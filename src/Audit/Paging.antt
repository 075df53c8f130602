-- ===== src/Audit/Paging.antt =====
-- `list` of crates/core/src/infrastructure/repository/audit_log_repository.rs: pages of the log,
-- oldest first.
use agent_dep_platform.Base.{
  ℕ, ◌<◌, ◌≡◌, refl, ap, Bool, true, Option, none, some, List, [], ◌∷◌, ◌++◌, CoreResult, ok, ◌>>=◌,
  take, select, All, ltb, if◌then◌else◌, arith,
}
use agent_dep_platform.Audit.Rows.{Bytes, AuditOutcome, AuditLogRowFull, parse_outcome}
use agent_dep_platform.Audit.Recording.{AuditLog}

pub record AuditLogRow : Type 0 where
  pub id : ℕ
  pub occurred_at : Bytes
  pub actor : Bytes
  pub action : Bytes
  pub target : Option Bytes
  pub outcome : AuditOutcome
  pub details : Option Bytes

abbrev pub read_row : AuditLogRowFull → CoreResult AuditLogRow
read_row r = parse_outcome r.outcome >>= λ outcome. ok (record {
  id = r.id;
  occurred_at = r.occurred_at;
  actor = r.actor;
  action = r.action;
  target = r.target;
  outcome = outcome;
  details = r.details;
})

abbrev pub read_rows : List AuditLogRowFull → CoreResult (List AuditLogRow)
read_rows [] = ok []
read_rows (r ∷ rows) =
    let rest = read_rows rows in read_row r >>= λ row. rest >>= λ read. ok (row ∷ read)

abbrev pub after : Option ℕ → AuditLogRowFull → Bool
after none r = true
after (some c) r = ltb c r.id

-- `limit.clamp(1, 500)`
abbrev pub page_size : ℕ → ℕ
page_size n = if ltb n 1 then 1 else if ltb 500 n then 500 else n

unfoldable pub list_page : Option ℕ → ℕ → AuditLog → CoreResult (List AuditLogRow)
list_page cursor limit log = read_rows (take (page_size limit) (select (after cursor) log.rows))

-- Every id is less than those of the later rows.
abbrev pub IsAscending : List AuditLogRowFull → Type 0
IsAscending [] = Unit
IsAscending (r ∷ rows) = All (λ s. r.id < s.id) rows × IsAscending rows

select-later :
    (c : ℕ) (rows : List AuditLogRowFull)
    → All (λ s. c < s.id) rows
    → select (after (some c)) rows ≡ rows
select-later c [] later = refl
select-later c (r ∷ rows) later = ground (arith, later.0, select-later c rows later.1)

All-middle :
    (c : ℕ) (older : List AuditLogRowFull) (r : AuditLogRowFull) (newer : List AuditLogRowFull)
    → All (λ s. c < s.id) (older ++ r ∷ newer)
    → c < r.id
All-middle c [] r newer h = h.0
All-middle c (s ∷ older) r newer h = All-middle c older r newer h.1

select-after :
    (older : List AuditLogRowFull) (r : AuditLogRowFull) (newer : List AuditLogRowFull)
    → IsAscending (older ++ r ∷ newer)
    → select (after (some r.id)) (older ++ r ∷ newer) ≡ newer
select-after [] r newer h = ground (arith, select-later r.id newer h.0)
select-after (s ∷ older) r newer h =
    ground (arith, All-middle s.id older r newer h.0, select-after older r newer h.1)

-- In a log with ascending ids, the page after the id of a row starts with the next row: paging by
-- the last id seen neither repeats nor skips a row.
pub list_page_resumes :
    (older : List AuditLogRowFull) (r : AuditLogRowFull) (newer : List AuditLogRowFull)
    (sequence limit : ℕ)
    → IsAscending (older ++ r ∷ newer)
    → list_page (some r.id) limit (record { rows = older ++ r ∷ newer; sequence = sequence })
      ≡ read_rows (take (page_size limit) newer)
unfolding list_page
list_page_resumes older r newer sequence limit h =
    ap (λ rows. read_rows (take (page_size limit) rows)) (select-after older r newer h)
