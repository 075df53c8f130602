-- ===== src/Journal/Service.antt =====
-- crates/core/src/application/journal/mod.rs: `JournalService` over the rows of the table
-- `operations`. A call takes the clock's reading and what the service draws from outside (a fresh
-- id), and returns its result with the rows that it leaves. The times of the rows are milliseconds, as
-- `iso8601` writes them, and those of an `Operation` are nanoseconds; a column that
-- holds the name of an enum's value holds the value, which `parse-as_str` of `Kind` and `Status`
-- allows. `serde_json` is the parameter `json`.
use Prim.Native.String.{len}
use Prim.Native.String
use mathlib.Core.List.{reverse}
use mathlib.Core.Option
use agent_dep_platform.Base.{
  ℕ, ◌+◌, ◌*◌, ◌/◌, ◌%◌, ◌^◌, ◌≡◌, String, Bool, ◌&&◌, Option, none, some, List, [], ◌∷◌, ◌++◌,
  CoreResult, ok, err, err_schema_invalid, err_sqlx, unique, ◌>>=◌, ◌==◌, eqb, leb, string_eq,
  nat_eq, any, find, select, update, count, drop, take, sort_by, if◌then◌else◌,
}
use agent_dep_platform.Journal.Kind.{OperationType}
use agent_dep_platform.Journal.Status.{
  OperationStatus, prepared, writing, committing, committed, rolled_back, failed, is_non_terminal,
  is_terminal, is_failed, is_valid_transition,
}

pub record JsonCodec : Type 1 where
  pub Json : Type 0
  pub to_string : Json → Option String
  pub from_str : String → Option Json
  pub round_trip : (j : Json) (s : String) → to_string j ≡ some s → from_str s ≡ some j

-- A row of the table, `OpRow`.
pub record OpRow : Type 0 where
  pub id : ℕ
  pub op_type : OperationType
  pub status : OperationStatus
  pub plan_hash : String
  pub started_at : ℕ
  pub finished_at : Option ℕ
  pub effect_json : String
  pub error : Option String

-- The clock's nanoseconds in a millisecond: `iso8601` keeps the milliseconds.
abbrev pub nanos_per_milli : ℕ
nanos_per_milli = 1000000

pub record Operation (Json : Type 0) : Type 0 where
  pub id : ℕ
  pub op_type : OperationType
  pub status : OperationStatus
  pub plan_hash : String
  pub started_at : ℕ
  pub finished_at : Option ℕ
  pub effect : Json
  pub error : Option String

abbrev pub max_effect_bytes : ℕ
max_effect_bytes = 1048576

abbrev pub has_id : ℕ → OpRow → Bool
has_id op_id r = eqb r.id op_id

abbrev pub is_open : OpRow → Bool
is_open r = is_non_terminal r.status

-- `finished_at` is bound only for a terminal status, `error` only for `failed`.
unfoldable pub stamp : OperationStatus → Option String → ℕ → OpRow → OpRow
unfolding is_failed is_terminal
stamp to error now r =
    if is_failed to
    then record r {
      status = to;
      finished_at = some now;
      error = some (elim error [ none ↦ "" | some e ↦ e ]);
    }
    else record r { status = to; finished_at = if is_terminal to then some now else none }

-- The row that `prepare` inserts.
abbrev pub prepared_row : ℕ → ℕ → OperationType → String → String → OpRow
prepared_row id now op_type plan_hash text = record {
  id = id;
  op_type = op_type;
  status = prepared;
  plan_hash = plan_hash;
  started_at = now;
  finished_at = none;
  effect_json = text;
  error = none;
}

module _ (json : JsonCodec) where
  open json use {Json, to_string, from_str}

  unfoldable pub serialize_effect : Json → CoreResult String
  serialize_effect effect = elim (to_string effect) [
    | none ↦ err (err_schema_invalid "operations.effect_json")
    | some text ↦
        if leb (len text) max_effect_bytes
        then ok text
        else err (err_schema_invalid "operations.effect_json")
  ]

  unfoldable pub row_to_op : OpRow → CoreResult (Operation Json)
  row_to_op r = elim (from_str r.effect_json) [
    | none ↦ err (err_schema_invalid "operations.effect_json")
    | some effect ↦ ok (record {
      id = r.id;
      op_type = r.op_type;
      status = r.status;
      plan_hash = r.plan_hash;
      started_at = r.started_at * nanos_per_milli;
      finished_at = Option.map (λ t. t * nanos_per_milli) r.finished_at;
      effect = effect;
      error = r.error;
    })
  ]

  abbrev insert_prepared :
      ℕ
      → ℕ
      → OperationType
      → String
      → Json
      → String
      → List OpRow
      → CoreResult (Operation Json) × List OpRow
  insert_prepared id now op_type plan_hash effect text rows =
      if any (has_id id) rows then (err (err_sqlx unique), rows) else (
        ok (record {
          id = id;
          op_type = op_type;
          status = prepared;
          plan_hash = plan_hash;
          started_at = now;
          finished_at = none;
          effect = effect;
          error = none;
        }),
        rows ++ prepared_row id (now / nanos_per_milli) op_type plan_hash text ∷ [],
      )

  -- The clock's reading is in nanoseconds: the operation has it, and the row its milliseconds.
  unfoldable pub prepare :
      ℕ → ℕ → OperationType → String → Json → List OpRow → CoreResult (Operation Json) × List OpRow
  unfolding serialize_effect
  prepare id now op_type plan_hash effect rows =
      if plan_hash == ""
      then (err (err_schema_invalid "operations.plan_hash"), rows)
      else elim (serialize_effect effect) [
        | err e ↦ (err e, rows)
        | ok text ↦ insert_prepared id now op_type plan_hash effect text rows
      ]

  unfoldable pub get : ℕ → List OpRow → CoreResult (Option (Operation Json))
  unfolding row_to_op
  get op_id rows = elim (find (has_id op_id) rows) [
    | none ↦ ok none
    | some r ↦ row_to_op r >>= λ op. ok (some op)
  ]

  unfoldable pub collect : List OpRow → CoreResult (List (Operation Json))
  unfolding row_to_op
  collect [] = ok []
  collect (r ∷ rows) = row_to_op r >>= λ op. collect rows >>= λ ops. ok (op ∷ ops)

  -- Oldest first.
  unfoldable pub list_non_terminal : List OpRow → CoreResult (List (Operation Json))
  unfolding collect is_non_terminal
  list_non_terminal rows = collect (sort_by (λ r. r.started_at) (select is_open rows))

  -- Newest first.
  unfoldable pub list_recent : ℕ → List OpRow → CoreResult (List (Operation Json))
  unfolding collect
  list_recent limit rows = collect (take limit (reverse (sort_by (λ r. r.started_at) rows)))

  abbrev commit_transition :
      ℕ
      → OperationStatus
      → Option String
      → ℕ
      → List OpRow
      → Option (Operation Json)
      → CoreResult (Unit {0}) × List OpRow
  commit_transition op_id to error now rows none =
      (err (err_schema_invalid "operations.operation_id"), rows)
  commit_transition op_id to error now rows (some current) =
      if is_valid_transition current.status to
      then (ok tt, update (has_id op_id) (stamp to error now) rows)
      else (err (err_schema_invalid "operations.status"), rows)

  unfoldable pub transition :
      ℕ → OperationStatus → Option String → ℕ → List OpRow → CoreResult (Unit {0}) × List OpRow
  unfolding get stamp is_valid_transition
  transition op_id to error now rows = elim (get op_id rows) [
    | err e ↦ (err e, rows)
    | ok found ↦ commit_transition op_id to error now rows found
  ]

  unfoldable pub begin_writing : ℕ → ℕ → List OpRow → CoreResult (Unit {0}) × List OpRow
  unfolding transition
  begin_writing op_id now rows = transition op_id writing none now rows

  unfoldable pub begin_committing : ℕ → ℕ → List OpRow → CoreResult (Unit {0}) × List OpRow
  unfolding transition
  begin_committing op_id now rows = transition op_id committing none now rows

  unfoldable pub complete : ℕ → ℕ → List OpRow → CoreResult (Unit {0}) × List OpRow
  unfolding transition
  complete op_id now rows = transition op_id committed none now rows

  unfoldable pub rollback : ℕ → ℕ → List OpRow → CoreResult (Unit {0}) × List OpRow
  unfolding transition
  rollback op_id now rows = transition op_id rolled_back none now rows

  unfoldable pub fail : ℕ → String → ℕ → List OpRow → CoreResult (Unit {0}) × List OpRow
  unfolding transition
  fail op_id error now rows = transition op_id failed (some error) now rows

-- What `gc_stale` writes: the message is put behind an error that the row already has.
unfoldable pub abort : ℕ → OpRow → OpRow
abort now r = record r {
  status = failed;
  finished_at = some now;
  error =
      some (
        String.◌++◌ (elim r.error [ none ↦ "" | some e ↦ e ]) "stale operation aborted at startup");
}

-- `ORDER BY started_at DESC LIMIT -1 OFFSET keep`. Rows with equal times come in an order that
-- SQLite leaves open; here the later row is first.
unfoldable pub stale_rows : ℕ → List OpRow → List OpRow
unfolding is_non_terminal
stale_rows keep rows = drop keep (reverse (sort_by (λ r. r.started_at) (select is_open rows)))

unfoldable pub abort_each : ℕ → List OpRow → ℕ → List OpRow → ℕ × List OpRow
unfolding abort is_non_terminal
abort_each now [] n rows = (n, rows)
abort_each now (s ∷ stale) n rows =
    abort_each now stale ((n + count (λ r. has_id s.id r && is_open r) rows) % 2 ^ 32)
      (update (λ r. has_id s.id r && is_open r) (abort now) rows)

unfoldable pub gc_stale : ℕ → ℕ → List OpRow → ℕ × List OpRow
unfolding stale_rows abort_each
gc_stale keep now rows = abort_each now (stale_rows keep rows) 0 rows
