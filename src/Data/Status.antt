-- ===== src/Data/Status.antt =====
-- The enumerations of src/lib.rs. Constructors are written behind their type where two types
-- share one.
use roze_dtm.Common.{ℕ, ◌≡◌, ◌↔◌, Bool, true, false, List, arith, any, ◌=?◌}

pub data TransactionKind : Type 0 where
  saga workflow message xa tcc : TransactionKind

pub data TransactionStatus : Type 0 where
  submitted trying prepared succeeding succeeded aborting aborted failed : TransactionStatus

-- `TransactionStatus::is_terminal`
abbrev pub is_terminal : TransactionStatus → Bool
is_terminal TransactionStatus.succeeded = true
is_terminal TransactionStatus.aborted = true
is_terminal TransactionStatus.failed = true
is_terminal _ = false

pub data BranchKind : Type 0 where
  saga_action saga_compensate tcc_try tcc_confirm tcc_cancel workflow_action : BranchKind
  message_action xa_action : BranchKind

pub data BranchStatus : Type 0 where
  pending running compensating succeeded failed skipped : BranchStatus

pub data WorkflowProgressStatus : Type 0 where
  succeeded failed : WorkflowProgressStatus

-- The derived `==` of each enumeration compares discriminants.
abbrev kind_tag : TransactionKind → ℕ
kind_tag TransactionKind.saga = 0
kind_tag TransactionKind.workflow = 1
kind_tag TransactionKind.message = 2
kind_tag TransactionKind.xa = 3
kind_tag TransactionKind.tcc = 4

abbrev status_tag : TransactionStatus → ℕ
status_tag TransactionStatus.submitted = 0
status_tag TransactionStatus.trying = 1
status_tag TransactionStatus.prepared = 2
status_tag TransactionStatus.succeeding = 3
status_tag TransactionStatus.succeeded = 4
status_tag TransactionStatus.aborting = 5
status_tag TransactionStatus.aborted = 6
status_tag TransactionStatus.failed = 7

abbrev branch_tag : BranchStatus → ℕ
branch_tag BranchStatus.pending = 0
branch_tag BranchStatus.running = 1
branch_tag BranchStatus.compensating = 2
branch_tag BranchStatus.succeeded = 3
branch_tag BranchStatus.failed = 4
branch_tag BranchStatus.skipped = 5

abbrev pub kind_is : TransactionKind → TransactionKind → Bool
kind_is a b = kind_tag a =? kind_tag b

abbrev pub status_is : TransactionStatus → TransactionStatus → Bool
status_is a b = status_tag a =? status_tag b

abbrev pub branch_is : BranchStatus → BranchStatus → Bool
branch_is a b = branch_tag a =? branch_tag b

-- `matches!(status, a | b | …)` and `allowed.contains(&status)`
abbrev pub status_in : TransactionStatus → List TransactionStatus → Bool
status_in s = any (status_is s)

abbrev pub branch_in : BranchStatus → List BranchStatus → Bool
branch_in s = any (branch_is s)

pub kind_is_iff : (a b : TransactionKind) → (kind_is a b ≡ true) ↔ (a ≡ b)
kind_is_iff a b = ground arith

pub status_is_iff : (a b : TransactionStatus) → (status_is a b ≡ true) ↔ (a ≡ b)
status_is_iff a b = ground arith

pub branch_is_iff : (a b : BranchStatus) → (branch_is a b ≡ true) ↔ (a ≡ b)
branch_is_iff a b = ground arith
