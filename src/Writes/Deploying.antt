-- ===== src/Writes/Deploying.antt =====
-- crates/core/src/application/deploy/mod.rs: `DeploymentService::apply` as a whole, with the journal
-- of crates/core/src/application/journal/mod.rs around the writes.
use Prim.Native.String.{◌++◌}
use Prim.Native.String as Text
use Prim.Native.Nat.{Ordering}
use agent_dep_platform.Base.{
  ℕ, ◌≡◌, ◌∙◌, ap, String, Bool, true, not, Option, none, some, List, [], ◌∷◌, arith, CoreResult,
  ok, err, err_path_outside_root, err_schema_invalid, err_verification_failed, find, update, map,
  is_some, All, find-update, key-find, eqb_iff, if◌then◌else◌,
}
use agent_dep_platform.Journal.Kind.{deploy}
use agent_dep_platform.Journal.Status.{OperationStatus}
use agent_dep_platform.Journal.Service.{
  JsonCodec, OpRow, has_id, stamp, prepare, begin_writing, begin_committing, complete, fail,
}
use agent_dep_platform.Journal.Rows.{id-stamp}
use agent_dep_platform.Systems.Catalog.{System}
use agent_dep_platform.Writes.Disk.{Disk, Os, content, exists, create_dir_all}
use agent_dep_platform.Writes.Placing.{Draws, Tools, join}
use agent_dep_platform.Writes.Applying.{
  DeployWrite, DeployedArtifactRow, Tally, no_tally, ref_of, writes_of, write_agents, with_draws,
}

-- What the service works on.
pub record Workspace : Type 0 where
  pub journal : List OpRow
  pub disk : Disk
  pub artifacts : List DeployedArtifactRow

pub record DeployOutcome : Type 0 where
  pub operation_id : ℕ
  pub tally : Tally

pub record DeployEffect : Type 0 where
  pub target : String
  pub writes : List DeployWrite

-- The operator `?` on a call of the journal.
unfoldable pub journaled :
    {T U : Type 0}
    → CoreResult T × List OpRow
    → Workspace
    → (T → Workspace → Workspace × CoreResult U)
    → Workspace × CoreResult U
journaled (err e, rows) st next = (record st { journal = rows }, err e)
journaled (ok t, rows) st next = next t (record st { journal = rows })

abbrev pub is_missing : String → Disk → DeployWrite → Bool
is_missing target d w = not (exists (join target w.relative) d)

-- `refs.sort()`, by code points, which is the order of the bytes of UTF-8.
abbrev insert_text : String → List String → List String
insert_text s [] = s ∷ []
insert_text s (t ∷ ts) =
    let rest = insert_text s ts in
    elim (Text.compare s t) [ Ordering.gt ↦ t ∷ rest | _ ↦ s ∷ t ∷ ts ]

abbrev sort_texts : List String → List String
sort_texts [] = []
sort_texts (s ∷ ts) = insert_text s (sort_texts ts)

abbrev lines : List String → String
lines [] = ""
lines (s ∷ ts) = s ++ ("\n" ++ lines ts)

unfoldable pub compute_plan_hash : Tools → System → String
compute_plan_hash tools system =
    tools.sha256_hex
      (tools.as_bytes (lines (system.metadata.id ∷ sort_texts (map ref_of system.resolved))))

unfoldable pub entered :
    {U : Type 0}
    → Disk × CoreResult (Unit {0})
    → Workspace
    → (Workspace → Workspace × CoreResult U)
    → Workspace × CoreResult U
entered (d, err e) st next = (record st { disk = d }, err e)
entered (d, ok u) st next = next (record st { disk = d })

-- The target directory, made if it is not there.
unfoldable pub open_target :
    {U : Type 0}
    → Os
    → String
    → Workspace
    → (Workspace → Workspace × CoreResult U)
    → Workspace × CoreResult U
open_target os target st next =
    if exists target st.disk
    then if is_some (content target st.disk.files)
      then (st, err (err_path_outside_root target))
      else next st
    else entered (create_dir_all os target st.disk) st next

module _ (json : JsonCodec) where
  -- The check of the files, and the end of the operation.
  unfoldable pub finish :
      ℕ → ℕ → String → List DeployWrite → Tally → Workspace → Workspace × CoreResult DeployOutcome
  finish op_id now target writes tally st = elim (find (is_missing target st.disk) writes) [
    | some w ↦
        journaled (fail json op_id ("verification: " ++ (w.relative ++ " missing")) now st.journal)
          st (λ _ st1. (st1, err (err_verification_failed w.relative)))
    | none ↦
        journaled (complete json op_id now st.journal) st
          (λ _ st1. (st1, ok (record { operation_id = op_id; tally = tally })))
  ]

module _ (json : JsonCodec) (tools : Tools) where
  -- The part under the operation `op`.
  unfoldable pub execute :
      ℕ
      → String
      → Bool
      → System
      → (ℕ → Draws)
      → ℕ
      → Workspace
      → Workspace × CoreResult DeployOutcome
  execute now target with_store system draws op_id st =
      journaled (begin_writing json op_id now st.journal) st (λ _ st1.
        let p =
          write_agents tools now target with_store system
            (with_draws draws 0 (writes_of tools system))
            (record { disk = st1.disk; artifacts = st1.artifacts; tally = no_tally }) in
        journaled (begin_committing json op_id now st1.journal)
          (record { journal = st1.journal; disk = p.disk; artifacts = p.artifacts })
          (λ _ st2. finish json op_id now target (writes_of tools system) p.tally st2))

  -- `serde_json::to_value` of the effect is `to_value`. `started` is the clock's reading in
  -- nanoseconds, `now` that in milliseconds.
  unfoldable pub deploy_system :
      (DeployEffect → Option json.Json)
      → ℕ
      → ℕ
      → ℕ
      → String
      → Bool
      → System
      → Os
      → (ℕ → Draws)
      → Workspace
      → Workspace × CoreResult DeployOutcome
  deploy_system to_value id started now target with_store system os draws st =
      open_target os target st (λ st1.
        elim (to_value (record { target = target; writes = writes_of tools system })) [
          | none ↦ (st1, err (err_schema_invalid "operations.effect_json"))
          | some effect ↦
              journaled
                (prepare json id started deploy (compute_plan_hash tools system) effect st1.journal)
                st1 (λ op st2. execute now target with_store system draws op.id st2)
        ])

-- The journal's row of the operation, and its status.
abbrev pub Ends : ℕ → OperationStatus → Workspace → Type 0
Ends op_id status st =
    (row : OpRow) × (find (has_id op_id) st.journal ≡ some row) × (row.status ≡ status)

pub All-there :
    (target : String) (d : Disk) (writes : List DeployWrite)
    → find (is_missing target d) writes ≡ none
    → All (λ w. exists (join target w.relative) d ≡ true) writes
All-there target d [] h = tt
All-there target d (w ∷ ws) h = (ground (arith, h), All-there target d ws (ground (arith, h)))

module _ (json : JsonCodec) where
  pub stamped_Ends :
      (op_id now : ℕ) (to : OperationStatus) (error : Option String) (st : Workspace) (row : OpRow)
      → find (has_id op_id) st.journal ≡ some row
      → Ends op_id to
          (record st { journal = update (has_id op_id) (stamp to error now) st.journal })
  stamped_Ends op_id now to error st row found = (
    stamp to error now row,
    find-update (λ x. x.id) (has_id op_id) (stamp to error now) op_id st.journal row
          (id-stamp to error now) found
        ∙ ap (λ b. some (if b then stamp to error now row else row))
            ((eqb_iff row.id op_id).1 (key-find (λ x. x.id) op_id st.journal row found)),
    (unfold stamp in ground arith),
  )
