-- ===== src/Writes/Finishing.antt =====
-- The steps of `DeploymentService::apply` (crates/core/src/application/deploy/mod.rs) that succeed: the
-- calls of the journal, the target directory, and the check of the files at the end.
use Prim.Native.String.{◌++◌}
use agent_dep_platform.Base.{
  string_eq, ℕ, ◌≡◌, inl, inr, refl, ◌∙◌, ap, String, true, none, some, List, arith, CoreResult,
  CoreError, ok, err, err_verification_failed, find, update, sym, ◌≢◌, ok-injective, All,
  Option-cases, Bool-cases, is_some,
}
use agent_dep_platform.Journal.Status.{committed}
use agent_dep_platform.Journal.Service.{JsonCodec, OpRow, complete, fail, has_id, stamp}
use agent_dep_platform.Journal.Steps.{transition_outcome}
use agent_dep_platform.Writes.Disk.{Disk, Os, content, exists, create_dir_all}
use agent_dep_platform.Writes.Placing.{join}
use agent_dep_platform.Writes.Applying.{DeployWrite, Tally}
use agent_dep_platform.Writes.Deploying.{
  Workspace, DeployOutcome, journaled, entered, open_target, is_missing, finish, Ends, All-there,
  stamped_Ends,
}

-- A success that goes through the journal.
pub journaled_ok :
    {T U : Type 0} (r : CoreResult T × List OpRow) (st : Workspace)
    (next : T → Workspace → Workspace × CoreResult U) (u : U)
    → (journaled r st next).1 ≡ ok u
    → (t : T) × (r.0 ≡ ok t) × (journaled r st next ≡ next t (record st { journal = r.1 }))
unfolding journaled
journaled_ok (err e, rows) st next u h = cc
journaled_ok (ok t, rows) st next u h = (t, refl, refl)

entered_ok :
    {U : Type 0} (r : Disk × CoreResult (Unit {0})) (st : Workspace)
    (next : Workspace → Workspace × CoreResult U) (u : U)
    → (entered r st next).1 ≡ ok u
    → (st1 : Workspace) × (entered r st next ≡ next st1)
unfolding entered
entered_ok (d, err e) st next u h = cc
entered_ok (d, ok v) st next u h = (record st { disk = d }, refl)

-- The workspace that is gone on with.
pub opened_ok :
    {U : Type 0} (os : Os) (target : String) (st : Workspace)
    (next : Workspace → Workspace × CoreResult U) (u : U)
    → (open_target os target st next).1 ≡ ok u
    → (st1 : Workspace) × (open_target os target st next ≡ next st1)
unfolding open_target
opened_ok os target st next u h = elim (Bool-cases (exists target st.disk)) [
  | inl there ↦ elim (Bool-cases (is_some (content target st.disk.files))) [
    | inl file ↦ ground (arith, there, file, h)
    | inr dir ↦ (st, ground (arith, there, dir))
  ]
  | inr absent ↦
      let go : (entered (create_dir_all os target st.disk) st next).1 ≡ ok u =
        ground (arith, absent, h) in
      let (st1, e) = entered_ok (create_dir_all os target st.disk) st next u go in
      (st1, ground (arith, absent, e))
]

module _ (json : JsonCodec) where
  abbrev commits : ℕ → ℕ → Workspace → Workspace
  commits op_id now st = record st {
    journal = update (has_id op_id) (stamp committed none now) st.journal;
  }

  missing_fails :
      (op_id now : ℕ) (target : String) (writes : List DeployWrite) (tally : Tally) (st : Workspace)
      (w : DeployWrite) (o : DeployOutcome)
      → find (is_missing target st.disk) writes ≡ some w
      → (finish json op_id now target writes tally st).1 ≢ ok o
  unfolding finish
  missing_fails op_id now target writes tally st w o missing h =
      let (t, won, e) =
        journaled_ok
          (fail json op_id ("verification: " ++ (w.relative ++ " missing")) now st.journal) st
          (λ _ st1. (st1, err (err_verification_failed w.relative))) o
          (rw (missing, finish) at h) in
      let lost : (err (err_verification_failed w.relative)) ≡ ok o =
        sym (ap (λ x. x.1) e) ∙ (rw (missing, finish) at h) in
      cc lost

  complete_fails :
      (op_id now : ℕ) (st : Workspace) (e : CoreError) (o outcome : DeployOutcome)
      → complete json op_id now st.journal ≡ (err e, st.journal)
      → (journaled (complete json op_id now st.journal) st (λ _ st1. (st1, ok outcome))).1 ≢ ok o
  unfolding journaled
  complete_fails op_id now st e o outcome lost h = cc (rw lost at h)

  nothing_missing :
      (op_id now : ℕ) (target : String) (writes : List DeployWrite) (tally : Tally) (st : Workspace)
      → find (is_missing target st.disk) writes ≡ none
      → finish json op_id now target writes tally st
        ≡ journaled {U = DeployOutcome}
            (complete json op_id now st.journal)
            st
            (λ _ st1. (st1, ok (record { operation_id = op_id; tally = tally })))
  unfolding finish
  nothing_missing op_id now target writes tally st there = rw (finish, there) refl

  completed :
      (op_id now : ℕ) (st : Workspace) (outcome : DeployOutcome)
      → complete json op_id now st.journal
        ≡ (ok tt, update (has_id op_id) (stamp committed none now) st.journal)
      → journaled (complete json op_id now st.journal) st (λ _ st1. (st1, ok outcome))
        ≡ (commits op_id now st, ok outcome)
  unfolding journaled
  completed op_id now st outcome won = rw won refl

  -- What a check that succeeds has found, and what it leaves.
  pub record Finished (op_id : ℕ) (target : String) (writes : List DeployWrite) (tally : Tally)
      (st after : Workspace) (o : DeployOutcome) : Type 0 where
    pub there : All (λ w. exists (join target w.relative) st.disk ≡ true) writes
    pub same : record { operation_id = op_id; tally = tally } ≡ o
    pub disk : after.disk ≡ st.disk
    pub ends : Ends op_id committed after

  pub finish_ok :
      (op_id now : ℕ) (target : String) (writes : List DeployWrite) (tally : Tally) (st : Workspace)
      (o : DeployOutcome)
      → (finish json op_id now target writes tally st).1 ≡ ok o
      → Finished op_id target writes tally st (finish json op_id now target writes tally st).0 o
  unfolding complete
  finish_ok op_id now target writes tally st o h =
      let outcome : DeployOutcome = record { operation_id = op_id; tally = tally } in
      elim (Option-cases (find (is_missing target st.disk) writes)) [
        | inr (w, missing) ↦ absurd (missing_fails op_id now target writes tally st w o missing h)
        | inl none_missing ↦
            let e = nothing_missing op_id now target writes tally st none_missing in
            elim (transition_outcome json op_id committed none now st.journal) [
              | inr lost ↦
                  absurd (complete_fails op_id now st lost.reason o outcome lost.effect (rw e at h))
              | inl won ↦
                  let all_ = e ∙ completed op_id now st outcome won.effect in
                  record {
                    there = All-there target st.disk writes none_missing;
                    same = ok-injective (ap (λ x. x.1) (sym all_) ∙ h);
                    disk = ap (λ x. x.0.disk) all_;
                    ends =
                        rw all_ (stamped_Ends json op_id now committed none st won.row won.found);
                  }
            ]
      ]
