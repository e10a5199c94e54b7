-- ===== src/Schedule.antt =====
-- Times: the retry backoff of a branch, when a transaction is due or expired, and when it is next
-- recovered (`record_branch_failure` to `is_expired` of src/lib.rs).
pub mod Backoff
pub mod Due
use roze_dtm.Common.{
  ℕ, ◌+◌, ◌*◌, ◌-◌, ◌^◌, String, Bool, true, false, Option, none, some, List, [], ◌∷◌, ◌&&◌, ◌||◌,
  not, min, max, leb, ltb, if◌then◌else◌, all, filterb, is_none_or, saturating_mul, saturating_add,
  u64_max, ◌=?◌, unwrap_or,
}
use roze_dtm.Data.{
  TransactionKind, TransactionStatus, BranchStatus, Branch, Transaction, RetentionPolicy, kind_is,
  status_is, branch_in, is_terminal,
}
use roze_dtm.Workflow.{is_callback_workflow, number_at, next_retry_key}

-- The delay after a failed call: doubled with each attempt but the first, at most sixteen times.
unfoldable pub backoff_after : ℕ → ℕ → ℕ → ℕ
backoff_after attempts backoff_millis max_backoff_millis =
    min (saturating_mul backoff_millis (2 ^ min (attempts - 1) 16))
      (max max_backoff_millis backoff_millis)

-- `record_branch_failure`
unfoldable pub record_branch_failure : ℕ → Branch → String → ℕ → ℕ → Branch
unfolding backoff_after
record_branch_failure now branch error backoff_millis max_backoff_millis = record branch {
  last_error = some error;
  next_retry_millis =
      some (saturating_add now (backoff_after branch.attempts backoff_millis max_backoff_millis));
}

unfoldable pub message_dispatch_at_millis : Transaction → Option ℕ
message_dispatch_at_millis tx = elim tx.options.delay_millis [
  | none ↦ none
  | some delay ↦ some (saturating_add tx.created_at_millis delay)
]

unfoldable pub message_dispatch_due : Transaction → ℕ → Bool
unfolding message_dispatch_at_millis
message_dispatch_due tx now = is_none_or (λ at. leb at now) (message_dispatch_at_millis tx)

unfoldable pub is_expired : Transaction → ℕ → Bool
is_expired tx now = elim tx.timeout_millis [
  | none ↦ false
  | some timeout ↦ leb timeout (now - tx.created_at_millis)
]

-- A branch that was called and has neither succeeded nor been skipped.
abbrev pub is_unsettled : Branch → Bool
is_unsettled b =
    branch_in b.status (BranchStatus.failed ∷ BranchStatus.running ∷ BranchStatus.compensating ∷ [])

-- A Message whose delivery is decided and must wait for its delay.
abbrev pub is_delayed : Transaction → ℕ → Bool
is_delayed tx now =
    kind_is tx.kind TransactionKind.message
    && status_is tx.status TransactionStatus.succeeding
    && not (message_dispatch_due tx now)

unfoldable pub transaction_due : Transaction → ℕ → Bool
unfolding message_dispatch_due
transaction_due tx now =
    if is_delayed tx now
    then false
    else all (λ b. is_none_or (λ next. leb next now) b.next_retry_millis)
        (filterb is_unsettled tx.branches)

-- The loop of `transaction_next_recovery_millis`: a branch with no time of its own ends it with none.
unfoldable pub earliest_retry : Option ℕ → List Branch → Option ℕ
earliest_retry next [] = next
earliest_retry next (b ∷ bs) = elim b.next_retry_millis [
  | none ↦ none
  | some t ↦ earliest_retry (some (elim next [ none ↦ t | some current ↦ min current t ])) bs
]

-- The delivery time of a Message none of whose branches was tried yet.
abbrev pub first_delivery : Transaction → Option ℕ
first_delivery tx =
    if kind_is tx.kind TransactionKind.message
      && status_is tx.status TransactionStatus.succeeding
      && all (λ b. b.attempts =? 0) tx.branches
    then message_dispatch_at_millis tx
    else none

unfoldable pub transaction_next_recovery_millis : Transaction → Option ℕ
unfolding earliest_retry message_dispatch_at_millis number_at is_callback_workflow
transaction_next_recovery_millis tx =
    if is_terminal tx.status
    then none
    else if is_callback_workflow tx
    then number_at u64_max next_retry_key tx.metadata
    else earliest_retry (first_delivery tx) (filterb is_unsettled tx.branches)

-- `transaction_expired`, for retention.
unfoldable pub transaction_expired : Transaction → ℕ → RetentionPolicy → Bool
transaction_expired tx now policy =
    let retention =
      if is_terminal tx.status
      then policy.finished_data_expire_millis
      else policy.data_expire_millis in
    leb tx.updated_at_millis (now - retention)

unfoldable pub transaction_status_name : TransactionStatus → String
transaction_status_name TransactionStatus.submitted = "submitted"
transaction_status_name TransactionStatus.trying = "trying"
transaction_status_name TransactionStatus.prepared = "prepared"
transaction_status_name TransactionStatus.succeeding = "submitted"
transaction_status_name TransactionStatus.succeeded = "succeed"
transaction_status_name TransactionStatus.aborting = "aborting"
transaction_status_name TransactionStatus.aborted = "failed"
transaction_status_name TransactionStatus.failed = "failed"
