-- ===== src/Deploys/Retargeting.antt =====
-- `set_target_id` of crates/core/src/infrastructure/repository/pending_deploys_repository.rs keeps
-- one active deploy for each target, because the partial unique index refuses the rest.
use agent_dep_platform.Base.{
  ℕ, ◌≡◌, ◌⊎◌, inl, inr, refl, sym, ◌∙◌, true, false, not, ◌&&◌, some, arith, eqb_iff, find, update,
  any, Bool-cases, Option-cases, find-update_inv, test-find, key-find, if◌then◌else◌,
}
use agent_dep_platform.Deploys.Rows.{PendingDeployRow, has_id}
use agent_dep_platform.Deploys.Database.{Db, clashes, target_at}
use agent_dep_platform.Deploys.Decisions.{set_target_id, retarget, retarget_clashes}
use agent_dep_platform.Deploys.Active.{OneActive, find_row, clashes_comm}

module _ (id t : ℕ) (db : Db) where
  -- The row that is rebound, which clashes with no other.
  record Rebound : Type 0 where
    row : PendingDeployRow
    found : find_row id db ≡ some row
    free : retarget_clashes id t row db ≡ false
    deploys :
        (set_target_id id t db).1
        ≡ record db { deploys = update (has_id id) (retarget t) db.deploys }

  rebound_or_same : Rebound ⊎ ((set_target_id id t db).1 ≡ db)
  unfolding set_target_id
  rebound_or_same = elim (Option-cases (find (has_id id) db.deploys)) [
    | inl missing ↦ inr (ground arith)
    | inr (r, found) ↦ elim (Bool-cases (retarget_clashes id t r db)) [
      | inl clash ↦ inr (ground arith)
      | inr free ↦ elim (Bool-cases (any (target_at t) db.targets)) [
        | inl known ↦ inl (record { row = r; found = found; free = free; deploys = ground arith })
        | inr unknown ↦ inr (ground arith)
      ]
    ]
  ]

  module _ (m : Rebound) (h : OneActive db) where
    -- The rebound row against another one.
    rebound_apart :
        (a b : ℕ) (x y : PendingDeployRow)
        → find_row a db ≡ some x
        → find_row b db ≡ some y
        → has_id id x ≡ true
        → has_id id y ≡ false
        → clashes (retarget t x) y ≡ false
    rebound_apart a b x y fx fy hx hy =
        let e : a ≡ id = sym (key-find (λ z. z.id) a db.deploys x fx) ∙ (eqb_iff x.id id).0 hx in
        let same : x ≡ m.row = ground (arith, m.found, rw e at fx) in
        ground (
          arith,
          same,
          test-find (λ s. not (has_id id s) && clashes (retarget t m.row) s) (has_id b) db.deploys y
              m.free fy,
        )

    rebound_alone :
        (a b : ℕ) (x y : PendingDeployRow)
        → find_row a db ≡ some x
        → find_row b db ≡ some y
        → clashes
            (if has_id id x then retarget t x else x)
            (if has_id id y then retarget t y else y)
          ≡ true
        → a ≡ b
    rebound_alone a b x y fx fy c =
        let ea : x.id ≡ a = key-find (λ z. z.id) a db.deploys x fx in
        let eb : y.id ≡ b = key-find (λ z. z.id) b db.deploys y fy in
        elim (Bool-cases (has_id id x)) [
          | inl hx ↦ elim (Bool-cases (has_id id y)) [
            | inl hy ↦ omega (arith, (eqb_iff x.id id).0 hx, (eqb_iff y.id id).0 hy)
            | inr hy ↦ cc (c, rebound_apart a b x y fx fy hx hy)
          ]
          | inr hx ↦ elim (Bool-cases (has_id id y)) [
            | inl hy ↦ cc (c, clashes_comm x (retarget t y), rebound_apart b a y x fy fx hy hx)
            | inr hy ↦ h.alone a b x y fx fy (rw (hx, hy) at c)
          ]
        ]

pub set_target_id-OneActive :
    (id t : ℕ) (db : Db) → OneActive db → OneActive (set_target_id id t db).1
set_target_id-OneActive id t db h = elim (rebound_or_same id t db) [
  | inr same ↦ rw same h
  | inl m ↦ rw m.deploys (record {
    alone = λ a b r s fa fb c.
        let (x, fx, ex) =
          find-update_inv (λ y. y.id) (has_id id) (retarget t) a db.deploys r (λ _. refl) fa in
        let (y, fy, ey) =
          find-update_inv (λ y. y.id) (has_id id) (retarget t) b db.deploys s (λ _. refl) fb in
        rebound_alone id t db m h a b x y fx fy (rw (← ex, ← ey) c);
  })
]
