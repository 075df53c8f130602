-- ===== src/Journal/Tests.antt =====
-- Concrete journals (crates/core/src/application/journal/mod.rs): runs of the service, and the
-- theorems at them.
use agent_dep_platform.Base.{
  ◌≡◌, ◌≤◌, refl, sym, inr, String, none, some, List, [], ◌∷◌, ok, err, err_schema_invalid, find,
  length,
}
use agent_dep_platform.Journal.Kind.{deploy}
use agent_dep_platform.Journal.Status.{
  OperationStatus, prepared, committed, failed, is_terminal, is_failed,
}
use agent_dep_platform.Journal.Machine.{Life}
use agent_dep_platform.Journal.Service.{
  JsonCodec, OpRow, Operation, has_id, prepared_row, prepare, begin_writing, begin_committing,
  complete, rollback, gc_stale, get,
}
use agent_dep_platform.Journal.Steps.{get-prepare}
use agent_dep_platform.Journal.Rows.{IsJournal}
use agent_dep_platform.Journal.History.{
  Call, begins_writing, begins_committing, completes, rolls_back, collects, run, apply,
  run-IsJournal, run-Life, run_final,
}

-- Effects that are their own text.
abbrev plain : JsonCodec
plain = record {
  Json = String;
  to_string = λ s. some s;
  from_str = λ s. some s;
  round_trip = λ j s h. sym h;
}

abbrev started : OpRow
started = prepared_row 1 1000 deploy "abc" "{}"

abbrev gone : OpRow
gone = record started { id = 2; status = failed; finished_at = some 1500; error = some "disk" }

abbrev rows : List OpRow
rows = started ∷ gone ∷ []

abbrev script : List (Call plain)
script =
    begins_writing 1 1001
    ∷ begins_committing 1 1002
    ∷ completes 1 1003
    ∷ rolls_back 2 1004
    ∷ collects 0 1005
    ∷ []

-- The first deploy is committed, and the failed one is not rolled back.
script_runs :
    run plain script rows
    ≡ record started { status = committed; finished_at = some 1003 } ∷ gone ∷ []
unfolding run apply begin_writing begin_committing complete rollback gc_stale
script_runs = refl

refused_rollback : (rollback plain 2 1004 rows).0 ≡ err (err_schema_invalid "operations.status")
unfolding rollback
refused_rollback = refl

no_hash :
    (prepare plain 3 1000 deploy "" "{}" rows).0 ≡ err (err_schema_invalid "operations.plan_hash")
unfolding prepare
no_hash = refl

rows-IsJournal : IsJournal rows
unfolding is_terminal is_failed
rows-IsJournal = record {
  keyed = (refl, (refl, tt));
  stamped = (
    record { finished = refl; explained = refl },
    (record { finished = refl; explained = refl }, tt),
  );
}

run-IsJournal_example : IsJournal (run plain script rows)
run-IsJournal_example = run-IsJournal plain script rows rows-IsJournal

run-Life_example :
    (s : OpRow) × (path : List OperationStatus) × (find (has_id 1) (run plain script rows) ≡ some s)
    × Life prepared path s.status
    × (length path ≤ 4)
run-Life_example = run-Life plain script 1 rows started refl

run_final_example : find (has_id 2) (run plain script rows) ≡ some gone
run_final_example = run_final plain script 2 rows gone refl (inr refl)

abbrev third : Operation String
third = record {
  id = 3;
  op_type = deploy;
  status = prepared;
  plan_hash = "abc";
  started_at = 1000000000;
  finished_at = none;
  effect = "{}";
  error = none;
}

get-prepare_example :
    get plain 3 (prepare plain 3 1000000123 deploy "abc" "{}" rows).1 ≡ ok (some third)
unfolding prepare
get-prepare_example =
    get-prepare plain 3 1000000123 deploy "abc" "{}" rows (record third { started_at = 1000000123 })
      refl
