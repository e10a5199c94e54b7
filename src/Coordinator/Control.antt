-- ===== src/Coordinator/Control.antt =====
-- The operations on a transaction that call no branch: `prepare_message`, `prepare_workflow`, `abort_message`,
-- `schedule_submit`, `schedule_abort`, `force_stop` and `reset_retry` of src/lib.rs.
use roze_dtm.Common.{
  ◌||◌, ℕ, List, [], ◌∷◌, map, String, Option, none, some, not, string_ord, if◌then◌else◌,
}
use roze_dtm.Map.{insert}
use roze_dtm.Decimal.{to_string}
use roze_dtm.Data.{
  status_is, TransactionKind, TransactionStatus, BranchStatus, Branch, Transaction, is_terminal,
  kind_is, branch_in, ensure, already_terminal, callback_workflow,
}
use roze_dtm.Workflow.{is_callback_workflow, next_retry_key}
use roze_dtm.Coordinator.Tcc.{run_unless, guarded_write}
use roze_dtm.Coordinator.Xa.{submitted_only, prepared}
use roze_dtm.Engine.{
  Env, Exec, pure, lift, ◌>>=◌, ◌>>◌, load, current_millis, persist_transaction,
  transaction_of_kind, require_status, settled,
}

-- `branch.next_retry_millis = None`
abbrev pub not_scheduled : Branch → Branch
not_scheduled b = record b { next_retry_millis = none }

-- The states from which `schedule_submit` goes on.
unfoldable pub submit_states : TransactionKind → List TransactionStatus
submit_states TransactionKind.tcc = TransactionStatus.prepared ∷ TransactionStatus.succeeding ∷ []
submit_states TransactionKind.xa = TransactionStatus.prepared ∷ TransactionStatus.succeeding ∷ []
submit_states TransactionKind.saga = TransactionStatus.submitted ∷ TransactionStatus.succeeding ∷ []
submit_states _ =
    TransactionStatus.submitted ∷ TransactionStatus.prepared ∷ TransactionStatus.succeeding ∷ []

-- The states from which `schedule_abort` goes on; a message does not get there.
unfoldable pub abort_states : TransactionKind → List TransactionStatus
abort_states TransactionKind.tcc =
    TransactionStatus.submitted ∷ TransactionStatus.trying ∷ TransactionStatus.prepared
    ∷ TransactionStatus.aborting ∷ []
abort_states TransactionKind.saga =
    TransactionStatus.submitted ∷ TransactionStatus.succeeding ∷ TransactionStatus.aborting ∷ []
abort_states TransactionKind.workflow =
    TransactionStatus.submitted ∷ TransactionStatus.prepared ∷ TransactionStatus.succeeding
    ∷ TransactionStatus.aborting ∷ []
abort_states TransactionKind.xa =
    TransactionStatus.submitted ∷ TransactionStatus.prepared ∷ TransactionStatus.aborting ∷ []
abort_states TransactionKind.message = []

-- The status that `schedule_submit` writes, if it writes one.
unfoldable pub scheduled_status : TransactionKind → TransactionStatus → Option TransactionStatus
scheduled_status TransactionKind.tcc TransactionStatus.prepared = some TransactionStatus.succeeding
scheduled_status TransactionKind.xa TransactionStatus.prepared = some TransactionStatus.succeeding
scheduled_status TransactionKind.message TransactionStatus.submitted =
    some TransactionStatus.succeeding
scheduled_status TransactionKind.message TransactionStatus.prepared =
    some TransactionStatus.succeeding
scheduled_status TransactionKind.workflow TransactionStatus.prepared =
    some TransactionStatus.submitted
scheduled_status _ _ = none

-- `reset_retry` on one branch.
unfoldable pub reset_branch : ℕ → Branch → Branch
reset_branch now b =
    if branch_in b.status
      (BranchStatus.failed ∷ BranchStatus.running ∷ BranchStatus.compensating ∷ [])
    then record b { next_retry_millis = some now }
    else b

-- `reset_retry` on a transaction.
unfoldable pub reset_transaction : ℕ → Transaction → Transaction
unfolding reset_branch is_callback_workflow
reset_transaction now tx = record tx {
  branches = map (reset_branch now) tx.branches;
  metadata =
      if is_callback_workflow tx
      then insert "dtm.callback.last_outcome" "manual_reset"
          (insert next_retry_key (to_string now) tx.metadata)
      else tx.metadata;
}

-- `abort_message` on a transaction.
unfoldable pub abandoned : Transaction → Transaction
abandoned tx = record tx {
  status = TransactionStatus.aborted;
  branches = map (settled BranchStatus.skipped) tx.branches;
}

-- `schedule_abort` on a transaction.
unfoldable pub abort_requested : Transaction → Transaction
abort_requested tx = record tx {
  status = TransactionStatus.aborting;
  branches = map not_scheduled tx.branches;
}

-- `force_stop` on a transaction.
unfoldable pub stopped : Transaction → Transaction
stopped tx = record tx {
  status = TransactionStatus.failed;
  branches = map not_scheduled tx.branches;
}

module _ (env : Env) where
  unfoldable pub prepare_message : String → Exec Transaction
  unfolding transaction_of_kind run_unless guarded_write
  prepare_message gid =
      transaction_of_kind env gid TransactionKind.message
      >>= run_unless env TransactionStatus.prepared (guarded_write env submitted_only prepared)

  unfoldable pub prepare_loaded : Transaction → Exec Transaction
  unfolding guarded_write
  prepare_loaded tx =
      if status_is tx.status TransactionStatus.prepared || is_terminal tx.status
      then pure tx
      else guarded_write env submitted_only prepared tx

  unfoldable pub prepare_workflow : String → Exec Transaction
  unfolding transaction_of_kind prepare_loaded
  prepare_workflow gid = transaction_of_kind env gid TransactionKind.workflow >>= prepare_loaded

  unfoldable pub abort_message : String → Exec Transaction
  unfolding transaction_of_kind run_unless guarded_write abandoned
  abort_message gid =
      transaction_of_kind env gid TransactionKind.message
      >>= run_unless env TransactionStatus.aborted (
          guarded_write env (TransactionStatus.submitted ∷ TransactionStatus.prepared ∷ [])
            abandoned)

  -- The last step of `schedule_submit`.
  unfoldable pub write_status : Transaction → Option TransactionStatus → Exec Transaction
  unfolding persist_transaction
  write_status tx none = pure tx
  write_status tx (some status) = persist_transaction env (record tx { status = status })

  unfoldable pub submit_loaded : Transaction → Exec Transaction
  unfolding is_callback_workflow require_status submit_states write_status scheduled_status
  submit_loaded tx =
      lift (ensure (not (is_callback_workflow tx)) callback_workflow)
      >> (require_status env tx (submit_states tx.kind)
          >> write_status tx (scheduled_status tx.kind tx.status))

  unfoldable pub schedule_submit : String → Exec Transaction
  unfolding load run_unless submit_loaded
  schedule_submit gid = load env gid >>= run_unless env TransactionStatus.succeeded submit_loaded

  unfoldable pub abort_loaded : String → Transaction → Exec Transaction
  unfolding abort_message guarded_write abort_states abort_requested
  abort_loaded gid tx =
      if kind_is tx.kind TransactionKind.message
      then abort_message gid
      else guarded_write env (abort_states tx.kind) abort_requested tx

  unfoldable pub schedule_abort : String → Exec Transaction
  unfolding load run_unless abort_loaded
  schedule_abort gid = load env gid >>= run_unless env TransactionStatus.aborted (abort_loaded gid)

  unfoldable pub stop_loaded : String → Transaction → Exec Transaction
  unfolding persist_transaction stopped
  stop_loaded gid tx =
      lift (ensure (not (is_terminal tx.status)) (already_terminal gid))
      >> persist_transaction env (stopped tx)

  unfoldable pub force_stop : String → Exec Transaction
  unfolding load stop_loaded
  force_stop gid = load env gid >>= stop_loaded gid

  unfoldable pub reset_loaded : String → Transaction → Exec Transaction
  unfolding current_millis persist_transaction reset_transaction
  reset_loaded gid tx =
      lift (ensure (not (is_terminal tx.status)) (already_terminal gid))
      >> (current_millis env >>= λ now. persist_transaction env (reset_transaction now tx))

  unfoldable pub reset_retry : String → Exec Transaction
  unfolding load reset_loaded
  reset_retry gid = load env gid >>= reset_loaded gid
