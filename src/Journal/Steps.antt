-- ===== src/Journal/Steps.antt =====
-- The two outcomes of `JournalService::transition` (crates/core/src/application/journal/mod.rs).
use Prim.Native.String.{len}
use agent_dep_platform.Journal.Kind.{OperationType}
use agent_dep_platform.Base.{
  ℕ, ◌*◌, ◌/◌, ◌≡◌, ◌⊎◌, inl, inr, String, true, false, Option, some, List, [], ◌∷◌, ◌++◌, arith,
  CoreError, ok, err, err_schema_invalid, find, update, Option-cases, Bool-cases, if◌then◌else◌,
  ◌==◌, string_eq, leb, any, find-append_fresh,
}
use agent_dep_platform.Journal.Status.{OperationStatus, is_valid_transition}
use agent_dep_platform.Journal.Service.{
  JsonCodec, OpRow, Operation, has_id, stamp, get, row_to_op, transition, prepare, prepared_row,
  max_effect_bytes, nanos_per_milli,
}

module _ (json : JsonCodec) where
  open json use {Json, to_string, from_str}

  -- A row can be read back when its effect is well-formed JSON.
  abbrev pub Readable : OpRow → Type 0
  Readable r = (j : Json) × (from_str r.effect_json ≡ some j)

  -- An accepted transition: the row that it found, the table's verdict, and the write.
  pub record Accepted (op_id : ℕ) (to : OperationStatus) (error : Option String) (now : ℕ)
      (rows : List OpRow) : Type 0 where
    pub row : OpRow
    pub found : find (has_id op_id) rows ≡ some row
    pub legal : is_valid_transition row.status to ≡ true
    pub effect :
        transition json op_id to error now rows
        ≡ (ok tt, update (has_id op_id) (stamp to error now) rows)

  -- A refused one: an error, and no row has changed.
  pub record Refused (op_id : ℕ) (to : OperationStatus) (error : Option String) (now : ℕ)
      (rows : List OpRow) : Type 0 where
    pub reason : CoreError
    pub effect : transition json op_id to error now rows ≡ (err reason, rows)

  pub transition_outcome :
      (op_id : ℕ) (to : OperationStatus) (error : Option String) (now : ℕ) (rows : List OpRow)
      → Accepted op_id to error now rows ⊎ Refused op_id to error now rows
  unfolding transition
  transition_outcome op_id to error now rows = elim (Option-cases (find (has_id op_id) rows)) [
    | inl missing ↦
        inr
          (record { reason = err_schema_invalid "operations.operation_id"; effect = ground arith })
    | inr (r, found) ↦ elim (Option-cases (from_str r.effect_json)) [
      | inl bad ↦
          inr
            (record { reason = err_schema_invalid "operations.effect_json"; effect = ground arith })
      | inr (j, good) ↦ elim (Bool-cases (is_valid_transition r.status to)) [
        | inl legal ↦ inl (record { row = r; found = found; legal = legal; effect = ground arith })
        | inr illegal ↦
            inr (record { reason = err_schema_invalid "operations.status"; effect = ground arith })
      ]
    ]
  ]

  -- An accepted `prepare`: the effect's text, and the row that is put behind the others.
  pub record Prepared (id now : ℕ) (op_type : OperationType) (plan_hash : String) (effect : Json)
      (rows : List OpRow) : Type 0 where
    pub text : String
    pub written : to_string effect ≡ some text
    pub fresh : any (has_id id) rows ≡ false
    pub rows_after :
        (prepare json id now op_type plan_hash effect rows).1
        ≡ rows ++ prepared_row id (now / nanos_per_milli) op_type plan_hash text ∷ []

  pub prepare_outcome :
      (id now : ℕ) (op_type : OperationType) (plan_hash : String) (effect : Json)
      (rows : List OpRow)
      → Prepared id now op_type plan_hash effect rows
        ⊎ ((prepare json id now op_type plan_hash effect rows).1 ≡ rows)
  unfolding prepare
  prepare_outcome id now op_type plan_hash effect rows = elim (Option-cases (to_string effect)) [
    | inl bad ↦ inr (ground arith)
    | inr (text, written) ↦ elim (Bool-cases (any (has_id id) rows)) [
      | inl taken ↦ inr (ground arith)
      | inr fresh ↦ elim (Bool-cases (plan_hash == "")) [
        | inl empty ↦ inr (ground arith)
        | inr named ↦ elim (Bool-cases (leb (len text) max_effect_bytes)) [
          | inl small ↦
              inl (record {
                text = text;
                written = written;
                fresh = fresh;
                rows_after = ground arith;
              })
          | inr large ↦ inr (ground arith)
        ]
      ]
    ]
  ]

  -- On a readable row a transition is accepted exactly when the table of transitions allows it, and
  -- then it stamps the row; otherwise it returns an error and leaves every row as it was.
  pub transition_lem :
      (op_id : ℕ) (to : OperationStatus) (error : Option String) (now : ℕ) (rows : List OpRow)
      (r : OpRow)
      → find (has_id op_id) rows ≡ some r
      → Readable r
      → transition json op_id to error now rows ≡ (
          if is_valid_transition r.status to
          then (ok tt, update (has_id op_id) (stamp to error now) rows)
          else (err (err_schema_invalid "operations.status"), rows))
  unfolding transition
  transition_lem op_id to error now rows r found readable = ground (arith, readable.1)

  -- The operation that `prepare` returns is read back by `get` from the rows that it leaves, with
  -- the time at which it started cut to its milliseconds.
  pub get-prepare :
      (id now : ℕ) (op_type : OperationType) (plan_hash : String) (effect : Json)
      (rows : List OpRow) (op : Operation Json)
      → (prepare json id now op_type plan_hash effect rows).0 ≡ ok op
      → get json id (prepare json id now op_type plan_hash effect rows).1
        ≡ ok (some (record op { started_at = (op.started_at / nanos_per_milli) * nanos_per_milli }))
  unfolding prepare get row_to_op
  get-prepare id now op_type plan_hash effect rows op h = elim (Option-cases (to_string effect)) [
    | inl bad ↦ ground (arith, bad)
    | inr (text, written) ↦
        let row = prepared_row id (now / nanos_per_milli) op_type plan_hash text in
        ground (
          arith,
          written,
          json.round_trip effect text,
          find-append_fresh (λ (r : OpRow). r.id) rows row,
        )
  ]
