-- ===== src/Deploys/Fence.antt =====
-- What an accepted `mark_applied` writes, and what a refused one leaves alone
-- (crates/core/src/infrastructure/repository/pending_deploys_repository.rs).
use agent_dep_platform.Base.{
  ℕ, ◌+◌, ◌≡◌, ◌≢◌, inl, inr, refl, ◌∙◌, ap, String, Bool, true, false, none, some, List, arith, ok,
  find, any, [], ◌∷◌, check-cases, Bool-cases, find-update, key-find,
}
use agent_dep_platform.Deploys.Rows.{PendingDeployRow, applied, has_id, is_approved}
use agent_dep_platform.Deploys.Database.{Db, TargetRow, find_target, target_at}
use agent_dep_platform.Deploys.Applying.{
  approved_at, apply_row, set_applied, bump_target, bump_row, fence_at, set_applied_version,
  commit_fence, check_fresh, apply_found, mark_applied,
}
use agent_dep_platform.Deploys.Freshness.{IsFresh, check_fresh_iff}

abbrev pub applied_row : ℕ → ℕ → PendingDeployRow → PendingDeployRow
applied_row now v r = record r {
  status = applied;
  applied_at = some now;
  applied_deployment_version = some v;
}

-- A row that a test admits makes the test pass somewhere.
any-find {ℓ} :
    {A : Type ℓ} (p q : A → Bool) (xs : List A) (a : A)
    → find q xs ≡ some a
    → p a ≡ true
    → any p xs ≡ true
any-find p q [] a f h = cc
any-find p q (x ∷ xs) a f h = ground (arith, any-find p q xs a)

-- What the first write leaves of the row that was found.
find-set_applied :
    (id now : ℕ) (db : Db) (r : PendingDeployRow)
    → find (has_id id) db.deploys ≡ some r
    → is_approved r.status ≡ true
    → find (has_id id) (set_applied id now db).1.deploys ≡ some (apply_row now r)
unfolding set_applied
find-set_applied id now db r found ok_status =
    find-update (λ x. x.id) (approved_at id) (apply_row now) id db.deploys r (λ _. refl) found
    ∙ ground (arith, key-find (λ (x : PendingDeployRow). x.id) id db.deploys r found)

find_target-set_applied :
    (id now t : ℕ) (db : Db) → find_target t (set_applied id now db).1 ≡ find_target t db
unfolding set_applied
find_target-set_applied id now t db = refl

module _ (sha256_hex : String → String) (id now : ℕ) (db : Db) (r : PendingDeployRow)
    (found : find (has_id id) db.deploys ≡ some r) where
  by_check :
      is_approved r.status ≡ true
      → mark_applied sha256_hex id now db
        ≡ apply_found sha256_hex id now r db (check_fresh sha256_hex r db)
  unfolding mark_applied
  by_check h = ground arith

  not_approved : is_approved r.status ≡ false → mark_applied sha256_hex id now db ≡ (ok none, db)
  unfolding mark_applied
  not_approved h = ground arith

  refused :
      ¬ ((is_approved r.status ≡ true) × IsFresh sha256_hex r db)
      → ((mark_applied sha256_hex id now db).1 ≡ db)
        × ((s : PendingDeployRow) → (mark_applied sha256_hex id now db).0 ≢ ok (some s))
  refused h = elim (Bool-cases (is_approved r.status)) [
    | inr other ↦ rw (not_approved other) (refl, λ s e. cc)
    | inl yes_status ↦ elim (check-cases (check_fresh sha256_hex r db)) [
      | inl fresh ↦ absurd (h (yes_status, (check_fresh_iff sha256_hex r db).0 fresh))
      | inr (e, stale) ↦ rw (by_check yes_status, stale) (refl, λ s e. cc)
    ]
  ]

  accepted :
      is_approved r.status ≡ true
      → IsFresh sha256_hex r db
      → mark_applied sha256_hex id now db ≡ apply_found sha256_hex id now r db (ok tt)
  accepted h fresh =
      by_check h
      ∙ ap (apply_found sha256_hex id now r db) ((check_fresh_iff sha256_hex r db).1 fresh)

-- The two writes behind the first, for a row with a lease whose target has the captured counter.
module _ (id c t : ℕ) (db : Db) (r : PendingDeployRow) (row : TargetRow)
    (leased : r.fence_token ≡ some c) (bound : r.target_id ≡ some t)
    (found_target : find_target t db ≡ some row) (counter : row.deployment_version ≡ c) where
  swap_succeeds : any (fence_at t c) db.targets ≡ true
  swap_succeeds =
      any-find (fence_at t c) (target_at t) db.targets row found_target
        (ground (arith, key-find (λ (x : TargetRow). x.id) t db.targets row found_target))

  commit_fence_lem : commit_fence r id db ≡ set_applied_version id (c + 1) (bump_target t c db).1
  unfolding commit_fence
  commit_fence_lem = ground (arith, swap_succeeds)

  target-commit_fence : find_target t (commit_fence r id db) ≡ some (bump_row c row)
  target-commit_fence = rw commit_fence_lem (
      unfold set_applied_version bump_target in
      find-update (λ (x : TargetRow). x.id) (fence_at t c) (bump_row c) t db.targets row (λ _. refl)
        found_target
      ∙ ground (arith, key-find (λ (x : TargetRow). x.id) t db.targets row found_target))

  row-commit_fence :
      (now : ℕ) (old : PendingDeployRow)
      → find (has_id id) db.deploys ≡ some (apply_row now old)
      → find (has_id id) (commit_fence r id db).deploys ≡ some (applied_row now (c + 1) old)
  row-commit_fence now old found = rw commit_fence_lem (
      unfold set_applied_version bump_target in
      find-update (λ x. x.id) (has_id id)
        (λ x. record x { applied_deployment_version = some (c + 1) }) id db.deploys
        (apply_row now old) (λ _. refl) found
      ∙ ground (arith, key-find (λ (x : PendingDeployRow). x.id) id db.deploys _ found))

module _ (sha256_hex : String → String) where
  -- A deploy that is not approved, or for which something that its request relied on has changed (the
  -- target's configuration, the snapshot with its commit and its files, the plan's text, the
  -- target's fence), is not applied: no table changes, and no row is returned.
  pub mark_applied_refused :
      (id now : ℕ) (db : Db) (r : PendingDeployRow)
      → find (has_id id) db.deploys ≡ some r
      → ¬ ((is_approved r.status ≡ true) × IsFresh sha256_hex r db)
      → ((mark_applied sha256_hex id now db).1 ≡ db)
        × ((s : PendingDeployRow) → (mark_applied sha256_hex id now db).0 ≢ ok (some s))
  mark_applied_refused id now db r found h = refused sha256_hex id now db r found h

  -- An approved deploy with a lease on its target, for which nothing has changed, is applied: the row
  -- comes back as applied with the next deployment version, and that is the target's counter.
  pub mark_applied_lands :
      (id now c t : ℕ) (db : Db) (r : PendingDeployRow)
      → find (has_id id) db.deploys ≡ some r
      → is_approved r.status ≡ true
      → IsFresh sha256_hex r db
      → r.fence_token ≡ some c
      → r.target_id ≡ some t
      → ((mark_applied sha256_hex id now db).0 ≡ ok (some (applied_row now (c + 1) r)))
        × ((row : TargetRow) × (find_target t db ≡ some row)
            × (find_target t (mark_applied sha256_hex id now db).1 ≡ some (bump_row c row)))
  mark_applied_lands id now c t db r found ok_status fresh leased bound =
      let (row, found_target, counter) = fresh.lease.at_request c t leased bound in
      let db1 = (set_applied id now db).1 in
      let there = find_target-set_applied id now t db ∙ found_target in
      rw (accepted sha256_hex id now db r found ok_status fresh) (
        ap ok (
            row-commit_fence id c t db1 r row leased bound there counter now r
              (find-set_applied id now db r found ok_status)),
        (row, found_target, target-commit_fence id c t db1 r row leased bound there counter),
      )
