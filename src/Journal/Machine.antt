-- ===== src/Journal/Machine.antt =====
-- The state machine of `is_valid_transition` (crates/core/src/application/journal/mod.rs).
use agent_dep_platform.Base.{ℕ, ◌+◌, ◌≤◌, ◌<◌, ◌≡◌, true, List, [], ◌∷◌, length, arith}
use agent_dep_platform.Journal.Status.{
  OperationStatus, prepared, writing, committing, committed, rolled_back, failed,
  is_valid_transition,
}

-- How far a status is along the life of an operation.
abbrev pub rank : OperationStatus → ℕ
rank prepared = 0
rank writing = 1
rank committing = 2
rank committed = 3
rank rolled_back = 4
rank failed = 4

pub rank-lt : (s t : OperationStatus) → is_valid_transition s t ≡ true → rank s < rank t
unfolding is_valid_transition
rank-lt s t h = ground arith

-- A life: the statuses that an operation goes through, each by a legal transition.
pub data Life : OperationStatus → List OperationStatus → OperationStatus → Type 0 where
  still : {s : OperationStatus} → Life s [] s
  move :
      {s t u : OperationStatus} {path : List OperationStatus}
      → is_valid_transition s t ≡ true
      → Life t path u
      → Life s (t ∷ path) u

-- Every life ends: an operation makes at most four transitions, and fewer the further it is.
pub Life-length :
    {s t : OperationStatus} {path : List OperationStatus}
    → Life s path t
    → rank s + length path ≤ rank t
Life-length still = omega arith
Life-length (move {s = s} {t = t} h l) = omega (arith, rank-lt s t h, Life-length l)

pub committing-leaves :
    (s : OperationStatus) → is_valid_transition s committed ≡ true → s ≡ committing
unfolding is_valid_transition
committing-leaves s h = ground arith
