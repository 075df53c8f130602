-- ===== src/Deploys/Active.antt =====
-- One target, one active deploy
-- (crates/core/src/infrastructure/repository/pending_deploys_repository.rs): the invariant, under
-- every SQL statement that the repository runs, in any interleaving of its calls.
use agent_dep_platform.Base.{
  ℕ, ◌≡◌, ◌⊎◌, inl, inr, refl, String, Bool, true, false, Option, none, some, [], ◌∷◌, ◌++◌, arith,
  find, update, any, contains, nat_eq, Bool-cases, Option-cases, find-update_inv, find-append_inv,
  test-find, if◌then◌else◌,
}
use agent_dep_platform.Deploys.Rows.{PendingDeployRow, is_active, has_id}
use agent_dep_platform.Deploys.Database.{Db, clashes, same_target, insert_refusal}
use agent_dep_platform.Deploys.Requests.{insert_row}
use agent_dep_platform.Deploys.Decisions.{approve, reject, approve_row, reject_row, pending_at}
use agent_dep_platform.Deploys.Applying.{
  set_applied, bump_target, set_applied_version, approved_at, apply_row,
}

abbrev pub find_row : ℕ → Db → Option PendingDeployRow
find_row k db = find (has_id k) db.deploys

-- Of the deploys that a reader finds by id, no two are active for one target.
pub record OneActive (db : Db) : Type 0 where
  pub alone :
      (a b : ℕ) (r s : PendingDeployRow)
      → find_row a db ≡ some r
      → find_row b db ≡ some s
      → clashes r s ≡ true
      → a ≡ b

-- A change of a row that activates nothing and moves nothing to another target.
pub record Settles (f : PendingDeployRow → PendingDeployRow) : Type 0 where
  pub keeps_id : (r : PendingDeployRow) → (f r).id ≡ r.id
  pub keeps_target : (r : PendingDeployRow) → (f r).target_id ≡ r.target_id

clashes-Settles :
    (p : PendingDeployRow → Bool) (f : PendingDeployRow → PendingDeployRow) (r s : PendingDeployRow)
    → Settles f
    → ((x : PendingDeployRow)
        → p x ≡ true
        → is_active (f x).status ≡ true
        → is_active x.status ≡ true)
    → clashes (if p r then f r else r) (if p s then f s else s) ≡ true
    → clashes r s ≡ true
clashes-Settles p f r s k a h = ground (arith, k.keeps_target r, k.keeps_target s, a r, a s)

update-OneActive :
    (p : PendingDeployRow → Bool) (f : PendingDeployRow → PendingDeployRow) (db : Db)
    → Settles f
    → ((x : PendingDeployRow)
        → p x ≡ true
        → is_active (f x).status ≡ true
        → is_active x.status ≡ true)
    → OneActive db
    → OneActive (record db { deploys = update p f db.deploys })
update-OneActive p f db k act h = record {
  alone = λ a b r s fa fb c.
      let (x, fx, ex) = find-update_inv (λ y. y.id) p f a db.deploys r k.keeps_id fa in
      let (y, fy, ey) = find-update_inv (λ y. y.id) p f b db.deploys s k.keeps_id fb in
      h.alone a b x y fx fy (clashes-Settles p f x y k act (ground arith));
}

same_target_comm : (a b : Option ℕ) → same_target a b ≡ same_target b a
same_target_comm none none = refl
same_target_comm none (some b) = refl
same_target_comm (some a) none = refl
same_target_comm (some a) (some b) = ground arith

pub clashes_comm : (r s : PendingDeployRow) → clashes r s ≡ clashes s r
clashes_comm r s = ground (arith, same_target_comm r.target_id s.target_id)

-- An INSERT leaves the tables alone, or its row clashes with none and is put behind the others.
insert_row_outcome :
    (row : PendingDeployRow) (db : Db)
    → ((insert_row row db).1 ≡ db)
      ⊎ ((any (clashes row) db.deploys ≡ false)
          × ((insert_row row db).1.deploys ≡ db.deploys ++ row ∷ []))
unfolding insert_row
insert_row_outcome row db = elim (Option-cases (insert_refusal row db)) [
  | inl free ↦ inr (ground arith, ground arith)
  | inr (e, refused) ↦ inl (ground arith)
]

module _ (row : PendingDeployRow) (db : Db) (h : OneActive db)
    (free : any (clashes row) db.deploys ≡ false) where
  inserted_alone :
      (a b : ℕ) (r s : PendingDeployRow)
      → find (has_id a) (db.deploys ++ row ∷ []) ≡ some r
      → find (has_id b) (db.deploys ++ row ∷ []) ≡ some s
      → clashes r s ≡ true
      → a ≡ b
  inserted_alone a b r s fa fb c = elim (find-append_inv (λ y. y.id) a db.deploys row r fa) [
    | inl old_a ↦ elim (find-append_inv (λ y. y.id) b db.deploys row s fb) [
      | inl old_b ↦ h.alone a b r s old_a old_b c
      | inr (is_row, _) ↦
          cc (
            c,
            clashes_comm r s,
            is_row,
            test-find (clashes row) (has_id a) db.deploys r free old_a,
          )
    ]
    | inr (is_row, at_a) ↦ elim (find-append_inv (λ y. y.id) b db.deploys row s fb) [
      | inl old_b ↦ cc (c, is_row, test-find (clashes row) (has_id b) db.deploys s free old_b)
      | inr (_, at_b) ↦ cc
    ]
  ]

pub insert_row-OneActive :
    (row : PendingDeployRow) (db : Db) → OneActive db → OneActive (insert_row row db).1
insert_row-OneActive row db h = elim (insert_row_outcome row db) [
  | inl same ↦ rw same h
  | inr (free, deploys) ↦ record {
    alone = λ a b r s fa fb c.
        inserted_alone row db h free a b r s (rw deploys at fa) (rw deploys at fb) c;
  }
]

pub approve-OneActive :
    (id by now : ℕ) (db : Db) → OneActive db → OneActive (approve id by now db).1
unfolding approve
approve-OneActive id by now db h =
    let written =
      update-OneActive (pending_at id) (approve_row by now) db
        (record { keeps_id = λ r. refl; keeps_target = λ r. refl }) (λ x p _. ground arith) h in
    elim (Bool-cases (any (pending_at id) db.deploys)) [
      | inl some_row ↦ elim (Bool-cases (contains db.users by)) [
        | inl known ↦ rw (some_row, known) written
        | inr unknown ↦ rw (some_row, unknown) h
      ]
      | inr no_row ↦ rw no_row h
    ]

pub reject-OneActive :
    (id by : ℕ) (reason : Option String) (now : ℕ) (db : Db)
    → OneActive db
    → OneActive (reject id by reason now db).1
unfolding reject
reject-OneActive id by reason now db h =
    let written =
      update-OneActive (pending_at id) (reject_row by now reason) db
        (record { keeps_id = λ r. refl; keeps_target = λ r. refl }) (λ x p a. cc) h in
    elim (Bool-cases (any (pending_at id) db.deploys)) [
      | inl some_row ↦ elim (Bool-cases (contains db.users by)) [
        | inl known ↦ rw (some_row, known) written
        | inr unknown ↦ rw (some_row, unknown) h
      ]
      | inr no_row ↦ rw no_row h
    ]

pub set_applied-OneActive :
    (id now : ℕ) (db : Db) → OneActive db → OneActive (set_applied id now db).1
unfolding set_applied
set_applied-OneActive id now db h =
    update-OneActive (approved_at id) (apply_row now) db
      (record { keeps_id = λ r. refl; keeps_target = λ r. refl }) (λ x p a. cc) h

pub set_applied_version-OneActive :
    (id v : ℕ) (db : Db) → OneActive db → OneActive (set_applied_version id v db)
unfolding set_applied_version
set_applied_version-OneActive id v db h =
    update-OneActive (has_id id) (λ r. record r { applied_deployment_version = some v }) db
      (record { keeps_id = λ r. refl; keeps_target = λ r. refl }) (λ x p a. a) h

pub bump_target-OneActive :
    (t captured : ℕ) (db : Db) → OneActive db → OneActive (bump_target t captured db).1
unfolding bump_target
bump_target-OneActive t captured db h = record { alone = h.alone }
