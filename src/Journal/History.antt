-- ===== src/Journal/History.antt =====
-- What happens to one row of the journal while the service is called in any order
-- (crates/core/src/application/journal/mod.rs).
use agent_dep_platform.Base.{
  ℕ, ◌≤◌, ◌≡◌, ◌⊎◌, inl, inr, refl, sym, ◌∙◌, ap, String, Bool, true, false, ◌&&◌, Option, none,
  some, List, [], ◌∷◌, arith, find, length, find-update, key-find, find-append, eqb_iff, Bool-cases,
  if◌then◌else◌,
}
use agent_dep_platform.Journal.Kind.{OperationType}
use agent_dep_platform.Journal.Status.{
  OperationStatus, writing, committing, committed, rolled_back, failed, is_valid_transition,
  is_non_terminal,
}
use agent_dep_platform.Journal.Machine.{Life, still, move, Life-length}
use agent_dep_platform.Journal.Service.{
  JsonCodec, OpRow, has_id, is_open, stamp, abort, prepare, transition, begin_writing,
  begin_committing, complete, rollback, fail, stale_rows, abort_each, gc_stale,
}
use agent_dep_platform.Journal.Steps.{transition_outcome, prepare_outcome}
use agent_dep_platform.Journal.Rows.{
  IsJournal, id-stamp, transition-IsJournal, prepare-IsJournal, gc_stale-IsJournal,
}

-- A row changes only by legal transitions.
pub data Moves : OpRow → OpRow → Type 0 where
  same : {r : OpRow} → Moves r r
  next : {r s t : OpRow} → is_valid_transition r.status s.status ≡ true → Moves s t → Moves r t

Moves-trans : {r s t : OpRow} → Moves r s → Moves s t → Moves r t
Moves-trans same n = n
Moves-trans (next h m) n = next h (Moves-trans m n)

status-stamp :
    (to : OperationStatus) (error : Option String) (now : ℕ) (r : OpRow)
    → (stamp to error now r).status ≡ to
unfolding stamp
status-stamp to error now r = ground arith

-- What a reader of the id `k` finds afterwards.
pub record Found (k : ℕ) (rows : List OpRow) (r : OpRow) : Type 0 where
  pub row : OpRow
  pub found : find (has_id k) rows ≡ some row
  pub moves : Moves r row

abort-legal :
    (now : ℕ) (r : OpRow)
    → is_open r ≡ true
    → is_valid_transition r.status (abort now r).status ≡ true
unfolding abort is_non_terminal is_valid_transition
abort-legal now r h = ground arith

abort_each-Found :
    (now : ℕ) (stale : List OpRow) (n k : ℕ) (rows : List OpRow) (r : OpRow)
    → find (has_id k) rows ≡ some r
    → Found k (abort_each now stale n rows).1 r
unfolding abort_each
abort_each-Found now [] n k rows r h = record { row = r; found = h; moves = same }
abort_each-Found now (s ∷ stale) n k rows r h =
    let p : OpRow → Bool = λ x. has_id s.id x && is_open x in
    let later = find-update (λ x. x.id) p (abort now) k rows r (λ x. unfold abort in refl) h in
    elim (Bool-cases (p r)) [
      | inl hit ↦
          let rest =
            abort_each-Found now stale _ k _ (abort now r)
              (later ∙ ap (λ b. some (if b then abort now r else r)) hit) in
          record {
            row = rest.row;
            found = rest.found;
            moves = next (abort-legal now r (ground arith)) rest.moves;
          }
      | inr miss ↦
          abort_each-Found now stale _ k _ r
            (later ∙ ap (λ b. some (if b then abort now r else r)) miss)
    ]

-- The row of the id `k` is the row that the transition looked at.
stamped_legal :
    (op_id k : ℕ) (to : OperationStatus) (rows : List OpRow) (r a : OpRow)
    → find (has_id k) rows ≡ some r
    → has_id op_id r ≡ true
    → find (has_id op_id) rows ≡ some a
    → is_valid_transition a.status to ≡ true
    → is_valid_transition r.status to ≡ true
stamped_legal op_id k to rows r a h hit found legal =
    let e : op_id ≡ k = sym ((eqb_iff r.id op_id).0 hit) ∙ key-find (λ x. x.id) k rows r h in
    let same_row : a ≡ r = ground (arith, rw e at found) in rw (← same_row) legal

module _ (json : JsonCodec) where
  open json use {Json}

  pub data Call : Type 0 where
    prepares : ℕ → ℕ → OperationType → String → Json → Call
    begins_writing begins_committing completes rolls_back : ℕ → ℕ → Call
    fails : ℕ → String → ℕ → Call
    collects : ℕ → ℕ → Call

  -- The rows that a call leaves, whether it succeeds or not.
  unfoldable pub apply : Call → List OpRow → List OpRow
  apply (prepares id now ty hash effect) rows = (prepare json id now ty hash effect rows).1
  apply (begins_writing op_id now) rows = (begin_writing json op_id now rows).1
  apply (begins_committing op_id now) rows = (begin_committing json op_id now rows).1
  apply (completes op_id now) rows = (complete json op_id now rows).1
  apply (rolls_back op_id now) rows = (rollback json op_id now rows).1
  apply (fails op_id e now) rows = (fail json op_id e now rows).1
  apply (collects keep now) rows = (gc_stale keep now rows).1

  unfoldable pub run : List Call → List OpRow → List OpRow
  run [] rows = rows
  run (c ∷ calls) rows = run calls (apply c rows)

  apply-IsJournal : (c : Call) (rows : List OpRow) → IsJournal rows → IsJournal (apply c rows)
  unfolding apply begin_writing begin_committing complete rollback fail
  apply-IsJournal (prepares id now ty hash effect) rows h =
      prepare-IsJournal json id now ty hash effect rows h
  apply-IsJournal (begins_writing op_id now) rows h =
      transition-IsJournal json op_id writing none now rows h
  apply-IsJournal (begins_committing op_id now) rows h =
      transition-IsJournal json op_id committing none now rows h
  apply-IsJournal (completes op_id now) rows h =
      transition-IsJournal json op_id committed none now rows h
  apply-IsJournal (rolls_back op_id now) rows h =
      transition-IsJournal json op_id rolled_back none now rows h
  apply-IsJournal (fails op_id e now) rows h =
      transition-IsJournal json op_id failed (some e) now rows h
  apply-IsJournal (collects keep now) rows h = gc_stale-IsJournal keep now rows h

  -- From a journal with distinct ids, in which finished_at is set on exactly the terminal rows
  -- and error on exactly the failed ones, every sequence of calls leaves such a journal.
  pub run-IsJournal :
      (calls : List Call) (rows : List OpRow) → IsJournal rows → IsJournal (run calls rows)
  unfolding run
  run-IsJournal [] rows h = h
  run-IsJournal (c ∷ calls) rows h = run-IsJournal calls (apply c rows) (apply-IsJournal c rows h)

  transition-Found :
      (op_id : ℕ) (to : OperationStatus) (error : Option String) (now k : ℕ) (rows : List OpRow)
      (r : OpRow)
      → find (has_id k) rows ≡ some r
      → Found k (transition json op_id to error now rows).1 r
  transition-Found op_id to error now k rows r h =
      elim (transition_outcome json op_id to error now rows) [
        | inr refused ↦ rw refused.effect (record { row = r; found = h; moves = same })
        | inl a ↦
            let f = stamp to error now in
            let later =
              find-update (λ x. x.id) (has_id op_id) f k rows r (id-stamp to error now) h in
            rw a.effect (elim (Bool-cases (has_id op_id r)) [
              | inr other ↦ record {
                row = r;
                found = later ∙ ap (λ b. some (if b then f r else r)) other;
                moves = same;
              }
              | inl hit ↦ record {
                row = f r;
                found = later ∙ ap (λ b. some (if b then f r else r)) hit;
                moves =
                    next
                      (rw (status-stamp to error now r)
                        (stamped_legal op_id k to rows r a.row h hit a.found a.legal))
                      same;
              }
            ])
      ]

  prepare-Found :
      (id now : ℕ) (ty : OperationType) (hash : String) (effect : Json) (k : ℕ) (rows : List OpRow)
      (r : OpRow)
      → find (has_id k) rows ≡ some r
      → Found k (prepare json id now ty hash effect rows).1 r
  prepare-Found id now ty hash effect k rows r h =
      elim (prepare_outcome json id now ty hash effect rows) [
        | inl p ↦
            rw p.rows_after
              (record { row = r; found = find-append (λ x. x.id) k rows _ r h; moves = same })
        | inr unchanged ↦ rw unchanged (record { row = r; found = h; moves = same })
      ]

  apply-Found :
      (c : Call) (k : ℕ) (rows : List OpRow) (r : OpRow)
      → find (has_id k) rows ≡ some r
      → Found k (apply c rows) r
  unfolding apply begin_writing begin_committing complete rollback fail
  apply-Found (prepares id now ty hash effect) k rows r h =
      prepare-Found id now ty hash effect k rows r h
  apply-Found (begins_writing op_id now) k rows r h =
      transition-Found op_id writing none now k rows r h
  apply-Found (begins_committing op_id now) k rows r h =
      transition-Found op_id committing none now k rows r h
  apply-Found (completes op_id now) k rows r h =
      transition-Found op_id committed none now k rows r h
  apply-Found (rolls_back op_id now) k rows r h =
      transition-Found op_id rolled_back none now k rows r h
  apply-Found (fails op_id e now) k rows r h = transition-Found op_id failed (some e) now k rows r h
  apply-Found (collects keep now) k rows r h =
      unfold gc_stale in abort_each-Found now (stale_rows keep rows) 0 k rows r h

  pub run-Found :
      (calls : List Call) (k : ℕ) (rows : List OpRow) (r : OpRow)
      → find (has_id k) rows ≡ some r
      → Found k (run calls rows) r
  unfolding run
  run-Found [] k rows r h = record { row = r; found = h; moves = same }
  run-Found (c ∷ calls) k rows r h =
      let f = apply-Found c k rows r h in
      let g = run-Found calls k (apply c rows) f.row f.found in
      record { row = g.row; found = g.found; moves = Moves-trans f.moves g.moves }

pub Moves-Life :
    {r s : OpRow} → Moves r s → (path : List OperationStatus) × Life r.status path s.status
Moves-Life same = ([], still)
Moves-Life (next {s = s} h m) = let (path, l) = Moves-Life m in (s.status ∷ path, move h l)

no_way_out :
    (s t : OperationStatus) → (s ≡ rolled_back) ⊎ (s ≡ failed) → is_valid_transition s t ≡ false
unfolding is_valid_transition
no_way_out s t h = ground arith

Moves-final : {r s : OpRow} → (r.status ≡ rolled_back) ⊎ (r.status ≡ failed) → Moves r s → s ≡ r
Moves-final h same = refl
Moves-final {r} h (next {s = t} e m) = ground (arith, no_way_out r.status t.status h)

module _ (json : JsonCodec) where
  -- Whatever is called on the service, in any order, the row of an operation stays in the journal
  -- and its status follows a path of legal transitions, of which there are at most four.
  pub run-Life :
      (calls : List (Call json)) (k : ℕ) (rows : List OpRow) (r : OpRow)
      → find (has_id k) rows ≡ some r
      → (s : OpRow) × (path : List OperationStatus) × (find (has_id k) (run json calls rows)
          ≡ some s)
        × Life r.status path s.status
        × (length path ≤ 4)
  run-Life calls k rows r h =
      let f = run-Found json calls k rows r h in
      let (path, l) = Moves-Life f.moves in
      (f.row, path, f.found, l, ground (arith, Life-length l, f.row.status))

  -- The row of an operation that is rolled back or failed is never written again: no sequence of
  -- calls changes any field of it.
  pub run_final :
      (calls : List (Call json)) (k : ℕ) (rows : List OpRow) (r : OpRow)
      → find (has_id k) rows ≡ some r
      → (r.status ≡ rolled_back) ⊎ (r.status ≡ failed)
      → find (has_id k) (run json calls rows) ≡ some r
  run_final calls k rows r h final =
      let f = run-Found json calls k rows r h in f.found ∙ ap some (Moves-final final f.moves)
