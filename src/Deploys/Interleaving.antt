-- ===== src/Deploys/Interleaving.antt =====
-- The writes of PendingDeployRepository
-- (crates/core/src/infrastructure/repository/pending_deploys_repository.rs) in any order. No method
-- is one transaction, so a run of concurrent calls is a sequence of their single statements.
use agent_dep_platform.Base.{
  ℕ, ◌+◌, ◌≤◌, ◌≡◌, inl, inr, refl, ◌∙◌, String, true, false, Option, none, some, List, arith, find,
  update, any, nat_eq, Bool-cases, Option-cases, All, All-update, IsKeyed, any-has_key-update,
  eqb_iff, [], ◌∷◌,
}
use agent_dep_platform.Deploys.Rows.{PendingDeployRow, has_id}
use agent_dep_platform.Deploys.Database.{Db, TargetRow, target_at, insert_refusal}
use agent_dep_platform.Deploys.Requests.{insert_row}
use agent_dep_platform.Deploys.Decisions.{approve, reject, set_target_id}
use agent_dep_platform.Deploys.Applying.{
  set_applied, bump_target, set_applied_version, fence_at, bump_row,
}
use agent_dep_platform.Deploys.Active.{
  OneActive, insert_row-OneActive, approve-OneActive, reject-OneActive, set_applied-OneActive,
  set_applied_version-OneActive, bump_target-OneActive,
}
use agent_dep_platform.Deploys.Retargeting.{set_target_id-OneActive}

-- One statement of some call, with any arguments: what a call read before may be out of date.
pub data Step (db : Db) : Db → Type 0 where
  inserts : (row : PendingDeployRow) → Step db (insert_row row db).1
  approves : (id by now : ℕ) → Step db (approve id by now db).1
  rejects : (id by : ℕ) (reason : Option String) (now : ℕ) → Step db (reject id by reason now db).1
  retargets : (id t : ℕ) → Step db (set_target_id id t db).1
  applies : (id now : ℕ) → Step db (set_applied id now db).1
  bumps : (t captured : ℕ) → Step db (bump_target t captured db).1
  versions : (id v : ℕ) → Step db (set_applied_version id v db)

pub data Steps : Db → Db → Type 0 where
  done : {db : Db} → Steps db db
  step : {a b c : Db} → Step a b → Steps b c → Steps a c

Step-OneActive : {a b : Db} → Step a b → OneActive a → OneActive b
Step-OneActive {a} (inserts row) h = insert_row-OneActive row a h
Step-OneActive {a} (approves id by now) h = approve-OneActive id by now a h
Step-OneActive {a} (rejects id by reason now) h = reject-OneActive id by reason now a h
Step-OneActive {a} (retargets id t) h = set_target_id-OneActive id t a h
Step-OneActive {a} (applies id now) h = set_applied-OneActive id now a h
Step-OneActive {a} (bumps t captured) h = bump_target-OneActive t captured a h
Step-OneActive {a} (versions id v) h = set_applied_version-OneActive id v a h

-- However the statements of concurrent calls interleave, two deploys with different ids are never
-- both pending or approved for one target, if none were at the start.
pub Steps-OneActive : {a b : Db} → Steps a b → OneActive a → OneActive b
Steps-OneActive done h = h
Steps-OneActive (step s r) h = Steps-OneActive r (Step-OneActive s h)

-- The counter of the target `t` is at least `v`.
abbrev pub AtLeast : ℕ → ℕ → List TargetRow → Type 0
AtLeast t v = All (λ (r : TargetRow). target_at t r ≡ true → v ≤ r.deployment_version)

bump_target-AtLeast :
    (t v u captured : ℕ) (db : Db)
    → AtLeast t v db.targets
    → AtLeast t v (bump_target u captured db).1.targets
unfolding bump_target
bump_target-AtLeast t v u captured db h =
    All-update (λ (r : TargetRow). target_at t r ≡ true → v ≤ r.deployment_version)
      (fence_at u captured) (bump_row captured) db.targets
      (λ x hit le at_t. ground (arith, le at_t)) h

absent-AtLeast :
    (t v : ℕ) (rows : List TargetRow) → any (target_at t) rows ≡ false → AtLeast t v rows
absent-AtLeast t v [] h = tt
absent-AtLeast t v (r ∷ rows) h = (λ at_t. ground arith, absent-AtLeast t v rows (ground arith))

absent-fence_at :
    (t captured : ℕ) (rows : List TargetRow)
    → any (target_at t) rows ≡ false
    → any (fence_at t captured) rows ≡ false
absent-fence_at t captured [] h = refl
absent-fence_at t captured (r ∷ rows) h = ground (arith, absent-fence_at t captured rows)

bumped-AtLeast :
    (t captured : ℕ) (rows : List TargetRow)
    → IsKeyed (λ (r : TargetRow). r.id) rows
    → any (fence_at t captured) rows ≡ true
    → AtLeast t (captured + 1) (update (fence_at t captured) (bump_row captured) rows)
bumped-AtLeast t captured [] k h = tt
bumped-AtLeast t captured (r ∷ rows) k h = elim (Bool-cases (target_at t r)) [
  | inl here ↦
      let none_left : any (target_at t) rows ≡ false = rw (← (eqb_iff r.id t).0 here) k.0 in
      (
        λ at_t. ground (arith, absent-fence_at t captured rows none_left),
        absent-AtLeast t (captured + 1) (update (fence_at t captured) (bump_row captured) rows) (
            any-has_key-update (λ (x : TargetRow). x.id) (fence_at t captured) (bump_row captured) t
              rows (λ _. refl)
            ∙ none_left),
      )
  | inr there ↦ (λ at_t. ground arith, bumped-AtLeast t captured rows k.1 (ground arith))
]

spent_lease :
    (t captured : ℕ) (rows : List TargetRow)
    → AtLeast t (captured + 1) rows
    → any (fence_at t captured) rows ≡ false
spent_lease t captured [] h = refl
spent_lease t captured (r ∷ rows) h = ground (arith, h.0, spent_lease t captured rows h.1)

targets-insert_row : (row : PendingDeployRow) (db : Db) → (insert_row row db).1.targets ≡ db.targets
unfolding insert_row
targets-insert_row row db = elim (Option-cases (insert_refusal row db)) [
  | inl free ↦ ground arith
  | inr (e, refused) ↦ ground arith
]

targets-set_target_id : (id t : ℕ) (db : Db) → (set_target_id id t db).1.targets ≡ db.targets
unfolding set_target_id
targets-set_target_id id t db = elim (Option-cases (find (has_id id) db.deploys)) [
  | inl missing ↦ ground arith
  | inr (r, found) ↦ ground (arith, found)
]

targets-approve : (id by now : ℕ) (db : Db) → (approve id by now db).1.targets ≡ db.targets
unfolding approve
targets-approve id by now db = ground arith

targets-reject :
    (id by : ℕ) (reason : Option String) (now : ℕ) (db : Db)
    → (reject id by reason now db).1.targets ≡ db.targets
unfolding reject
targets-reject id by reason now db = ground arith

Step-AtLeast : {a b : Db} (t v : ℕ) → Step a b → AtLeast t v a.targets → AtLeast t v b.targets
Step-AtLeast {a} t v (inserts row) h = rw (targets-insert_row row a) h
Step-AtLeast {a} t v (approves id by now) h = rw (targets-approve id by now a) h
Step-AtLeast {a} t v (rejects id by reason now) h = rw (targets-reject id by reason now a) h
Step-AtLeast {a} t v (retargets id u) h = rw (targets-set_target_id id u a) h
Step-AtLeast {a} t v (applies id now) h = unfold set_applied in h
Step-AtLeast {a} t v (bumps u captured) h = bump_target-AtLeast t v u captured a h
Step-AtLeast {a} t v (versions id n) h = unfold set_applied_version in h

Steps-AtLeast : {a b : Db} (t v : ℕ) → Steps a b → AtLeast t v a.targets → AtLeast t v b.targets
Steps-AtLeast t v done h = h
Steps-AtLeast t v (step s r) h = Steps-AtLeast t v r (Step-AtLeast t v s h)

-- A lease is used once: where target ids are distinct, after a compare-and-swap from the captured counter has succeeded, no later
-- one from the same value does, whatever statements run between them.
pub lease_used_once :
    (db later : Db) (t captured n : ℕ)
    → IsKeyed (λ (r : TargetRow). r.id) db.targets
    → (bump_target t captured db).0 ≡ some n
    → Steps (bump_target t captured db).1 later
    → (bump_target t captured later).0 ≡ none
lease_used_once db later t captured n k won steps =
    let swapped : any (fence_at t captured) db.targets ≡ true =
      unfold bump_target in ground (arith, won) in
    let counter =
      Steps-AtLeast t (captured + 1) steps
        (unfold bump_target in bumped-AtLeast t captured db.targets k swapped) in
    unfold bump_target in rw (spent_lease t captured later.targets counter)
