-- ===== src/Journal/Rows.antt =====
-- What every row of the table `operations` satisfies, and that each call of `JournalService`
-- (crates/core/src/application/journal/mod.rs) keeps it.
use agent_dep_platform.Base.{
  ◌/◌, ℕ, ◌≡◌, refl, String, true, ◌&&◌, Option, List, [], ◌∷◌, arith, is_some, All, All-append,
  All-update, All-find, inl, inr, IsKeyed, update-IsKeyed, append-IsKeyed, All-update_found,
  string_eq,
}
use agent_dep_platform.Journal.Kind.{OperationType}
use agent_dep_platform.Journal.Status.{
  OperationStatus, is_failed, is_terminal, is_non_terminal, is_valid_transition,
}
use agent_dep_platform.Journal.Steps.{transition_outcome, prepare_outcome}
use agent_dep_platform.Journal.Service.{
  nanos_per_milli, JsonCodec, OpRow, has_id, is_open, stamp, abort, prepare, prepared_row,
  transition, abort_each, gc_stale, stale_rows,
}

-- `finished_at` is set on exactly the terminal rows, `error` on exactly the failed ones.
pub record IsStamped (r : OpRow) : Type 0 where
  pub finished : is_some r.finished_at ≡ is_terminal r.status
  pub explained : is_some r.error ≡ is_failed r.status

-- A legal transition starts at a row that has no error yet.
stamp-IsStamped :
    (to : OperationStatus) (error : Option String) (now : ℕ) (r : OpRow)
    → is_valid_transition r.status to ≡ true
    → IsStamped r
    → IsStamped (stamp to error now r)
unfolding stamp is_valid_transition
stamp-IsStamped to error now r v h = ground arith

pub id-stamp :
    (to : OperationStatus) (error : Option String) (now : ℕ) (r : OpRow)
    → (stamp to error now r).id ≡ r.id
unfolding stamp
id-stamp to error now r = ground arith

abort-IsStamped : (now : ℕ) (r : OpRow) → IsStamped (abort now r)
unfolding abort is_terminal is_failed is_non_terminal
abort-IsStamped now r = record { finished = refl; explained = refl }

prepared-IsStamped :
    (id now : ℕ) (op_type : OperationType) (plan_hash text : String)
    → IsStamped (prepared_row id now op_type plan_hash text)
unfolding is_terminal is_failed is_non_terminal
prepared-IsStamped id now op_type plan_hash text = record { finished = refl; explained = refl }

-- The rows of a journal: distinct ids, and every row stamped.
pub record IsJournal (rows : List OpRow) : Type 0 where
  pub keyed : IsKeyed (λ (r : OpRow). r.id) rows
  pub stamped : All IsStamped rows

abort_each-IsJournal :
    (now : ℕ) (stale : List OpRow) (n : ℕ) (rows : List OpRow)
    → IsJournal rows
    → IsJournal (abort_each now stale n rows).1
unfolding abort_each
abort_each-IsJournal now [] n rows h = h
abort_each-IsJournal now (s ∷ stale) n rows h = abort_each-IsJournal now stale _ _ (record {
  keyed =
      update-IsKeyed (λ r. r.id) (λ r. has_id s.id r && is_open r) (abort now) rows
        (λ x. unfold abort in refl) h.keyed;
  stamped =
      All-update IsStamped (λ r. has_id s.id r && is_open r) (abort now) rows
        (λ x _ _. abort-IsStamped now x) h.stamped;
})

pub gc_stale-IsJournal :
    (keep now : ℕ) (rows : List OpRow) → IsJournal rows → IsJournal (gc_stale keep now rows).1
unfolding gc_stale
gc_stale-IsJournal keep now rows h = abort_each-IsJournal now (stale_rows keep rows) 0 rows h

module _ (json : JsonCodec) where
  open json use {Json}

  pub transition-IsJournal :
      (op_id : ℕ) (to : OperationStatus) (error : Option String) (now : ℕ) (rows : List OpRow)
      → IsJournal rows
      → IsJournal (transition json op_id to error now rows).1
  transition-IsJournal op_id to error now rows h =
      elim (transition_outcome json op_id to error now rows) [
        | inl a ↦ rw a.effect (record {
          keyed =
              update-IsKeyed (λ r. r.id) (has_id op_id) (stamp to error now) rows
                (id-stamp to error now) h.keyed;
          stamped =
              All-update_found (λ r. r.id) IsStamped op_id (stamp to error now) rows a.row h.keyed
                a.found
                (stamp-IsStamped to error now a.row a.legal
                  (All-find IsStamped (has_id op_id) rows a.row h.stamped a.found))
                h.stamped;
        })
        | inr r ↦ rw r.effect h
      ]

  pub prepare-IsJournal :
      (id now : ℕ) (op_type : OperationType) (plan_hash : String) (effect : Json)
      (rows : List OpRow)
      → IsJournal rows
      → IsJournal (prepare json id now op_type plan_hash effect rows).1
  unfolding prepare
  prepare-IsJournal id now op_type plan_hash effect rows h =
      elim (prepare_outcome json id now op_type plan_hash effect rows) [
        | inl p ↦ rw p.rows_after (record {
          keyed = append-IsKeyed (λ r. r.id) rows _ p.fresh h.keyed;
          stamped =
              All-append IsStamped rows _ h.stamped
                (prepared-IsStamped id (now / nanos_per_milli) op_type plan_hash p.text, tt);
        })
        | inr same ↦ rw same h
      ]
