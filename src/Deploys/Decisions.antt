-- ===== src/Deploys/Decisions.antt =====
-- `get`, `list`, `approve`, `reject`, `list_orphans` and `set_target_id` of
-- crates/core/src/infrastructure/repository/pending_deploys_repository.rs.
use agent_dep_platform.Base.{
  ℕ, String, Bool, true, false, not, ◌&&◌, Option, none, some, List, CoreResult, ok, err, err_sqlx,
  foreign_key, unique, find, select, update, any, take, sort_by, ltb, contains, nat_eq,
  if◌then◌else◌,
}
use agent_dep_platform.Deploys.Rows.{
  Environment, dev, staging, production, Status, pending, approved, rejected, applied,
  PendingDeployRow, is_pending, has_id,
}
use agent_dep_platform.Deploys.Database.{Db, target_at, clashes}

unfoldable pub get : ℕ → Db → Option PendingDeployRow
get id db = find (has_id id) db.deploys

abbrev pub pending_at : ℕ → PendingDeployRow → Bool
pending_at id r = has_id id r && is_pending r.status

abbrev pub same_status : Status → Status → Bool
same_status pending pending = true
same_status approved approved = true
same_status rejected rejected = true
same_status applied applied = true
same_status _ _ = false

abbrev pub same_environment : Environment → Environment → Bool
same_environment dev dev = true
same_environment staging staging = true
same_environment production production = true
same_environment _ _ = false

-- An absent filter admits every row.
abbrev pub admits : Option Status → Option Environment → PendingDeployRow → Bool
admits none none r = true
admits (some s) none r = same_status r.status s
admits none (some e) r = same_environment r.environment e
admits (some s) (some e) r = same_status r.status s && same_environment r.environment e

-- `limit.clamp(1, 500)`
abbrev pub clamp_limit : ℕ → ℕ
clamp_limit n = if ltb n 1 then 1 else if ltb 500 n then 500 else n

unfoldable pub list : Option Status → Option Environment → ℕ → Db → List PendingDeployRow
list status environment limit db =
    take (clamp_limit limit) (sort_by (λ r. r.id) (select (admits status environment) db.deploys))

-- A row that the user `by` decides on.
abbrev pub approve_row : ℕ → ℕ → PendingDeployRow → PendingDeployRow
approve_row by now r = record r {
  status = approved;
  approved_by = some by;
  approved_at = some now;
  rejection_reason = none;
}

abbrev pub reject_row : ℕ → ℕ → Option String → PendingDeployRow → PendingDeployRow
reject_row by now reason r = record r {
  status = rejected;
  approved_by = some by;
  approved_at = some now;
  rejection_reason = reason;
}

-- `UPDATE … WHERE id = ? AND status = 'pending'`, and the row read back if one was written. The
-- deciding user is a foreign key.
abbrev pub decide :
    ℕ → ℕ → (PendingDeployRow → PendingDeployRow) → Db → CoreResult (Option PendingDeployRow) × Db
decide id by f db =
    if any (pending_at id) db.deploys
    then (if contains db.users by
        then (let rows = update (pending_at id) f db.deploys in
            (ok (find (has_id id) rows), record db { deploys = rows }))
        else (err (err_sqlx foreign_key), db))
    else (ok none, db)

unfoldable pub approve : ℕ → ℕ → ℕ → Db → CoreResult (Option PendingDeployRow) × Db
approve id by now db = decide id by (approve_row by now) db

unfoldable pub reject : ℕ → ℕ → Option String → ℕ → Db → CoreResult (Option PendingDeployRow) × Db
reject id by reason now db = decide id by (reject_row by now reason) db

abbrev orphan : Option Environment → PendingDeployRow → Bool
orphan environment r = elim r.target_id [ none ↦ admits none environment r | some t ↦ false ]

-- Oldest first.
unfoldable pub list_orphans : Option Environment → Db → List PendingDeployRow
list_orphans environment db = sort_by (λ r. r.requested_at) (select (orphan environment) db.deploys)

abbrev pub retarget : ℕ → PendingDeployRow → PendingDeployRow
retarget t r = record r { target_id = some t }

-- Whether the row with this id would clash with another one, bound to `t`.
abbrev pub retarget_clashes : ℕ → ℕ → PendingDeployRow → Db → Bool
retarget_clashes id t r db = any (λ s. not (has_id id s) && clashes (retarget t r) s) db.deploys

unfoldable pub set_target_id : ℕ → ℕ → Db → CoreResult (Option PendingDeployRow) × Db
set_target_id id t db = elim (find (has_id id) db.deploys) [
  | none ↦ (ok none, db)
  | some r ↦
      if retarget_clashes id t r db
      then (err (err_sqlx unique), db)
      else if any (target_at t) db.targets
      then (let rows = update (has_id id) (retarget t) db.deploys in
          (ok (find (has_id id) rows), record db { deploys = rows }))
      else (err (err_sqlx foreign_key), db)
]
