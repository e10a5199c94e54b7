-- ===== src/Coordinator/Recovery.antt =====
-- `recover`, `tick_recover_once`, `tick_recover_once_with_lease` without its fence, and the batches of
-- `reset_retry` of src/lib.rs.
pub mod Life
use roze_dtm.Common.{
  ℕ, zero, suc, ◌&&◌, not, List, [], ◌∷◌, ◌++◌, map, String, Bool, true, false, Option, none, some,
  length, take, max, leb, ltb, saturating_add, string_ord, if◌then◌else◌,
}
use roze_dtm.Data.{
  TransactionKind, TransactionStatus, Transaction, Result, ok, err, is_terminal, kind_is, status_is,
  non_replayable,
}
use roze_dtm.Memory.Transactions.{list_transactions}
use roze_dtm.Workflow.{is_callback_workflow, callback_workflow_due}
use roze_dtm.Schedule.{
  message_dispatch_due, is_expired, is_delayed, transaction_due, transaction_next_recovery_millis,
}
use roze_dtm.Engine.{World, Env, Exec, pure, lift, ◌>>=◌, ◌>>◌, seen, looked, load, current_millis}
use roze_dtm.Coordinator.Tcc.{prepare_tcc, confirm_tcc, cancel_tcc}
use roze_dtm.Coordinator.Xa.{prepare_xa, commit_xa, rollback_xa}
use roze_dtm.Coordinator.Control.{prepare_message, prepare_workflow, abort_message, reset_retry}
use roze_dtm.Coordinator.Saga.{start_saga, abort_saga}
use roze_dtm.Coordinator.Driven.{start_workflow, abort_workflow}
use roze_dtm.Coordinator.Messages.{dispatch_message}
use roze_dtm.Coordinator.Callbacks.{recover_callback_workflow, expire_callback_workflow}

-- The methods that recovery takes a live transaction through, and which one by its kind and status.
pub data Step : Type 0 where
  step_prepare_tcc step_confirm_tcc step_cancel_tcc step_start_saga step_abort_saga
        step_start_workflow step_abort_workflow step_prepare_message step_dispatch_message
        step_prepare_xa step_commit_xa step_rollback_xa :
      Step

unfoldable pub next_step : TransactionKind → TransactionStatus → Option Step
next_step TransactionKind.tcc TransactionStatus.submitted = some Step.step_prepare_tcc
next_step TransactionKind.tcc TransactionStatus.trying = some Step.step_prepare_tcc
next_step TransactionKind.tcc TransactionStatus.prepared = some Step.step_confirm_tcc
next_step TransactionKind.tcc TransactionStatus.succeeding = some Step.step_confirm_tcc
next_step TransactionKind.tcc TransactionStatus.aborting = some Step.step_cancel_tcc
next_step TransactionKind.saga TransactionStatus.submitted = some Step.step_start_saga
next_step TransactionKind.saga TransactionStatus.succeeding = some Step.step_start_saga
next_step TransactionKind.saga TransactionStatus.aborting = some Step.step_abort_saga
next_step TransactionKind.workflow TransactionStatus.submitted = some Step.step_start_workflow
next_step TransactionKind.workflow TransactionStatus.succeeding = some Step.step_start_workflow
next_step TransactionKind.workflow TransactionStatus.aborting = some Step.step_abort_workflow
next_step TransactionKind.message TransactionStatus.submitted = some Step.step_prepare_message
next_step TransactionKind.message TransactionStatus.prepared = some Step.step_dispatch_message
next_step TransactionKind.message TransactionStatus.succeeding = some Step.step_dispatch_message
next_step TransactionKind.xa TransactionStatus.submitted = some Step.step_prepare_xa
next_step TransactionKind.xa TransactionStatus.prepared = some Step.step_commit_xa
next_step TransactionKind.xa TransactionStatus.succeeding = some Step.step_commit_xa
next_step TransactionKind.xa TransactionStatus.aborting = some Step.step_rollback_xa
next_step kind status = none

module _ (env : Env) where
  -- The method that an expired transaction is taken through.
  unfoldable pub expire : String → Transaction → TransactionKind → Exec Transaction
  unfolding cancel_tcc abort_saga expire_callback_workflow abort_workflow dispatch_message
      abort_message commit_xa rollback_xa is_callback_workflow
  expire gid tx TransactionKind.tcc = cancel_tcc env gid
  expire gid tx TransactionKind.saga = abort_saga env gid
  expire gid tx TransactionKind.workflow =
      if is_callback_workflow tx then expire_callback_workflow env tx else abort_workflow env gid
  expire gid tx TransactionKind.message =
      if status_is tx.status TransactionStatus.succeeding
      then dispatch_message env gid
      else abort_message env gid
  expire gid tx TransactionKind.xa =
      if status_is tx.status TransactionStatus.succeeding
      then commit_xa env gid
      else rollback_xa env gid

  -- `recover` on a callback workflow.
  unfoldable pub recover_callback : String → TransactionStatus → Exec Transaction
  unfolding prepare_workflow recover_callback_workflow
  recover_callback gid TransactionStatus.submitted = prepare_workflow env gid
  recover_callback gid TransactionStatus.prepared = recover_callback_workflow env gid
  recover_callback gid status = lift (err (non_replayable status))

  unfoldable pub take_step : String → Step → Exec Transaction
  unfolding prepare_tcc confirm_tcc cancel_tcc start_saga abort_saga start_workflow abort_workflow
      prepare_message dispatch_message prepare_xa commit_xa rollback_xa
  take_step gid Step.step_prepare_tcc = prepare_tcc env gid
  take_step gid Step.step_confirm_tcc = confirm_tcc env gid
  take_step gid Step.step_cancel_tcc = cancel_tcc env gid
  take_step gid Step.step_start_saga = start_saga env gid
  take_step gid Step.step_abort_saga = abort_saga env gid
  take_step gid Step.step_start_workflow = start_workflow env gid
  take_step gid Step.step_abort_workflow = abort_workflow env gid
  take_step gid Step.step_prepare_message = prepare_message env gid
  take_step gid Step.step_dispatch_message = dispatch_message env gid
  take_step gid Step.step_prepare_xa = prepare_xa env gid
  take_step gid Step.step_commit_xa = commit_xa env gid
  take_step gid Step.step_rollback_xa = rollback_xa env gid

  unfoldable pub advance : String → Transaction → Option Step → Exec Transaction
  unfolding take_step
  advance gid tx none = lift (err (non_replayable tx.status))
  advance gid tx (some step) = take_step gid step

  -- The end of `recover`: the transaction is neither terminal nor waiting for its delivery.
  unfoldable pub recover_live : String → Transaction → ℕ → Exec Transaction
  unfolding is_expired expire is_callback_workflow recover_callback next_step advance
  recover_live gid tx now =
      if is_expired tx now
      then expire gid tx tx.kind
      else if is_callback_workflow tx
      then recover_callback gid tx.status
      else advance gid tx (next_step tx.kind tx.status)

  unfoldable pub recover_loaded : String → Transaction → Exec Transaction
  unfolding current_millis message_dispatch_due recover_live
  recover_loaded gid tx = if is_terminal tx.status then pure tx else do
    checked ← current_millis env
    if is_delayed tx checked then pure tx else current_millis env >>= recover_live gid tx

  unfoldable pub recover : String → Exec Transaction
  unfolding load recover_loaded
  recover gid = load env gid >>= recover_loaded gid

  -- A transaction that a round of recovery has moved, if it has.
  abbrev pub moved : Transaction → Exec (Option Transaction)
  moved tx = pure (some tx)

  -- A round of recovery leaves the decision on a prepared TCC, message or XA transaction to its caller.
  abbrev pub waits : Transaction → Bool
  waits tx = status_is tx.status TransactionStatus.prepared

  unfoldable pub tick_step : String → Option Step → Exec (Option Transaction)
  unfolding take_step
  tick_step gid none = pure none
  tick_step gid (some step) = take_step gid step >>= moved

  unfoldable pub tick_callback : Transaction → ℕ → TransactionStatus → Exec (Option Transaction)
  unfolding prepare_workflow recover_callback_workflow callback_workflow_due
  tick_callback tx now TransactionStatus.submitted = prepare_workflow env tx.gid >>= moved
  tick_callback tx now TransactionStatus.prepared =
      if callback_workflow_due tx now
      then recover_callback_workflow env tx.gid >>= moved
      else pure none
  tick_callback tx now status = pure none

  -- The round of recovery on one transaction, at the time at which the round began.
  unfoldable pub tick_one : ℕ → Transaction → Exec (Option Transaction)
  unfolding message_dispatch_due is_expired expire is_callback_workflow tick_callback
      transaction_due next_step tick_step
  tick_one now tx =
      if is_terminal tx.status
      then pure none
      else if is_delayed tx now
      then pure none
      else if is_expired tx now
      then expire tx.gid tx tx.kind >>= moved
      else if is_callback_workflow tx
      then tick_callback tx now tx.status
      else if not (transaction_due tx now)
      then pure none
      else if waits tx
      then pure none
      else tick_step tx.gid (next_step tx.kind tx.status)

  abbrev pub with_moved : Option Transaction → List Transaction → Exec (List Transaction)
  with_moved none changed = pure changed
  with_moved (some tx) changed = pure (tx ∷ changed)

  -- An error ends the round.
  unfoldable pub tick_each : ℕ → List Transaction → Exec (List Transaction)
  unfolding tick_one
  tick_each now [] = pure []
  tick_each now (tx ∷ txs) = tick_one now tx >>= λ next. tick_each now txs >>= with_moved next

  -- `self.store.list_transactions().await?`
  unfoldable pub list_all : Exec (List Transaction)
  unfolding list_transactions
  list_all w = (ok (list_transactions (seen env w)), looked env w)

  unfoldable pub tick_recover_once : Exec (List Transaction)
  unfolding current_millis list_all tick_each
  tick_recover_once = current_millis env >>= λ now. list_all >>= tick_each now

  -- The loop of `reset_retry_batch`, with room for `left` more.
  unfoldable pub reset_first : ℕ → List Transaction → Exec (List Transaction)
  unfolding reset_retry
  reset_first left [] = pure []
  reset_first zero (tx ∷ txs) = pure []
  reset_first (suc left) (tx ∷ txs) =
      if is_terminal tx.status
      then reset_first (suc left) txs
      else reset_retry env tx.gid >>= λ t. reset_first left txs >>= λ ts. pure (t ∷ ts)

  unfoldable pub reset_retry_batch : ℕ → Exec (List Transaction)
  unfolding list_all reset_first
  reset_retry_batch limit = list_all >>= reset_first (max limit 1)
