-- ===== src/Coordinator/Recovery/Life.antt =====
-- How the recovery of src/lib.rs moves the stored transactions.
use roze_dtm.Common.{
  ℕ, zero, suc, not, refl, List, [], ◌∷◌, String, Bool, Option, none, some, max, if◌then◌else◌,
}
use roze_dtm.Data.{TransactionKind, TransactionStatus, Transaction, is_terminal, status_is}
use roze_dtm.Workflow.{is_callback_workflow, callback_workflow_due}
use roze_dtm.Schedule.{is_expired, is_delayed, transaction_due}
use roze_dtm.Engine.{Env, Exec, pure, ◌>>=◌, current_millis}
use roze_dtm.Coordinator.Control.{prepare_workflow, reset_retry, abort_message}
use roze_dtm.Coordinator.Messages.{dispatch_message}
use roze_dtm.Coordinator.Messages.Life.{dispatch_message-Evolving}
use roze_dtm.Coordinator.Xa.{commit_xa, rollback_xa}
use roze_dtm.Coordinator.Saga.Life.{start_saga-Evolving, abort_saga-Evolving}
use roze_dtm.Coordinator.Driven.{abort_workflow}
use roze_dtm.Coordinator.Driven.Life.{start_workflow-Evolving, abort_workflow-Evolving}
use roze_dtm.Coordinator.Callbacks.{recover_callback_workflow, expire_callback_workflow}
use roze_dtm.Coordinator.Callbacks.Life.{
  recover_callback_workflow-Evolving, expire_callback_workflow-Evolving,
}
use roze_dtm.Coordinator.Operations.{
  Operation, op_prepare_tcc, op_confirm_tcc, op_cancel_tcc, op_prepare_xa, op_commit_xa,
  op_rollback_xa, op_prepare_message, op_prepare_workflow, op_abort_message, op_reset_retry, target,
  perform, perform-Moves,
}
use roze_dtm.Coordinator.Recovery.{
  Step, next_step, expire, recover_callback, take_step, advance, recover_live, recover_loaded,
  recover, moved, waits, tick_callback, tick_step, tick_one, with_moved, tick_each, list_all,
  tick_recover_once, reset_first, reset_retry_batch,
}
use roze_dtm.Coordinator.Writes.{alone}
use roze_dtm.Coordinator.Evolution.{Moves-Shifts, Shifts-Evolves, same-Evolves, stay-Evolves}
use roze_dtm.Coordinator.Tracking.{Evolving, bind-Evolving, if-Evolving, load-Evolving}

module _ (env : Env) where
  pub perform-Evolving : (op : Operation) → Evolving (perform (alone env) op)
  perform-Evolving op w =
      Shifts-Evolves (target op) w (perform (alone env) op w).1
        (Moves-Shifts (target op) w (perform (alone env) op w) (perform-Moves env op w))

  expire-Evolving :
      (gid : String) (tx : Transaction) (kind : TransactionKind)
      → Evolving (expire (alone env) gid tx kind)
  unfolding expire perform
  expire-Evolving gid tx TransactionKind.tcc = perform-Evolving (op_cancel_tcc gid)
  expire-Evolving gid tx TransactionKind.saga = abort_saga-Evolving env gid
  expire-Evolving gid tx TransactionKind.workflow =
      if-Evolving (is_callback_workflow tx) (expire_callback_workflow (alone env) tx)
        (abort_workflow (alone env) gid)
        (expire_callback_workflow-Evolving env tx (perform-Evolving (op_prepare_workflow tx.gid)))
        (abort_workflow-Evolving env gid)
  expire-Evolving gid tx TransactionKind.message =
      if-Evolving (status_is tx.status TransactionStatus.succeeding)
        (dispatch_message (alone env) gid) (abort_message (alone env) gid)
        (dispatch_message-Evolving env gid) (perform-Evolving (op_abort_message gid))
  expire-Evolving gid tx TransactionKind.xa =
      if-Evolving (status_is tx.status TransactionStatus.succeeding) (commit_xa (alone env) gid)
        (rollback_xa (alone env) gid) (perform-Evolving (op_commit_xa gid))
        (perform-Evolving (op_rollback_xa gid))

  recover_callback-Evolving :
      (gid : String) (s : TransactionStatus) → Evolving (recover_callback (alone env) gid s)
  unfolding recover_callback perform
  recover_callback-Evolving gid TransactionStatus.submitted =
      perform-Evolving (op_prepare_workflow gid)
  recover_callback-Evolving gid TransactionStatus.prepared =
      recover_callback_workflow-Evolving env gid
  recover_callback-Evolving gid TransactionStatus.trying = stay-Evolves
  recover_callback-Evolving gid TransactionStatus.succeeding = stay-Evolves
  recover_callback-Evolving gid TransactionStatus.succeeded = stay-Evolves
  recover_callback-Evolving gid TransactionStatus.aborting = stay-Evolves
  recover_callback-Evolving gid TransactionStatus.aborted = stay-Evolves
  recover_callback-Evolving gid TransactionStatus.failed = stay-Evolves

  take_step-Evolving : (gid : String) (step : Step) → Evolving (take_step (alone env) gid step)
  unfolding take_step perform
  take_step-Evolving gid Step.step_prepare_tcc = perform-Evolving (op_prepare_tcc gid)
  take_step-Evolving gid Step.step_confirm_tcc = perform-Evolving (op_confirm_tcc gid)
  take_step-Evolving gid Step.step_cancel_tcc = perform-Evolving (op_cancel_tcc gid)
  take_step-Evolving gid Step.step_start_saga = start_saga-Evolving env gid
  take_step-Evolving gid Step.step_abort_saga = abort_saga-Evolving env gid
  take_step-Evolving gid Step.step_start_workflow = start_workflow-Evolving env gid
  take_step-Evolving gid Step.step_abort_workflow = abort_workflow-Evolving env gid
  take_step-Evolving gid Step.step_prepare_message = perform-Evolving (op_prepare_message gid)
  take_step-Evolving gid Step.step_dispatch_message = dispatch_message-Evolving env gid
  take_step-Evolving gid Step.step_prepare_xa = perform-Evolving (op_prepare_xa gid)
  take_step-Evolving gid Step.step_commit_xa = perform-Evolving (op_commit_xa gid)
  take_step-Evolving gid Step.step_rollback_xa = perform-Evolving (op_rollback_xa gid)

  advance-Evolving :
      (gid : String) (tx : Transaction) (step : Option Step)
      → Evolving (advance (alone env) gid tx step)
  unfolding advance
  advance-Evolving gid tx none = stay-Evolves
  advance-Evolving gid tx (some step) = take_step-Evolving gid step

  recover_live-Evolving :
      (gid : String) (tx : Transaction) (now : ℕ) → Evolving (recover_live (alone env) gid tx now)
  unfolding recover_live
  recover_live-Evolving gid tx now =
      let live =
        if is_callback_workflow tx
        then recover_callback (alone env) gid tx.status
        else advance (alone env) gid tx (next_step tx.kind tx.status) in
      if-Evolving (is_expired tx now) (expire (alone env) gid tx tx.kind) live
        (expire-Evolving gid tx tx.kind)
        (if-Evolving (is_callback_workflow tx) (recover_callback (alone env) gid tx.status)
          (advance (alone env) gid tx (next_step tx.kind tx.status))
          (recover_callback-Evolving gid tx.status)
          (advance-Evolving gid tx (next_step tx.kind tx.status)))

  clock-Evolving : Evolving (current_millis (alone env))
  unfolding current_millis
  clock-Evolving w = same-Evolves w (current_millis (alone env) w).1 refl

  recover_loaded-Evolving :
      (gid : String) (tx : Transaction) → Evolving (recover_loaded (alone env) gid tx)
  unfolding recover_loaded
  recover_loaded-Evolving gid tx =
      let rest = current_millis (alone env) >>= recover_live (alone env) gid tx in
      let check = λ (checked : ℕ). if is_delayed tx checked then pure tx else rest in
      if-Evolving (is_terminal tx.status) (pure tx) (current_millis (alone env) >>= check)
        stay-Evolves
        (bind-Evolving (current_millis (alone env)) check clock-Evolving λ checked.
          if-Evolving (is_delayed tx checked) (pure tx) rest stay-Evolves (
            bind-Evolving (current_millis (alone env)) (recover_live (alone env) gid tx)
              clock-Evolving (recover_live-Evolving gid tx)))

  pub recover-Evolving : (gid : String) → Evolving (recover (alone env) gid)
  unfolding recover
  recover-Evolving gid =
      load-Evolving env gid (recover_loaded (alone env) gid)
        (λ tx w tracked. recover_loaded-Evolving gid tx w)

  moved-Evolving : (m : Exec Transaction) → Evolving m → Evolving (m >>= moved (alone env))
  moved-Evolving m evolving = bind-Evolving m (moved (alone env)) evolving (λ tx. stay-Evolves)

  tick_callback-Evolving :
      (tx : Transaction) (now : ℕ) (s : TransactionStatus)
      → Evolving (tick_callback (alone env) tx now s)
  unfolding tick_callback perform
  tick_callback-Evolving tx now TransactionStatus.submitted =
      moved-Evolving (prepare_workflow (alone env) tx.gid)
        (perform-Evolving (op_prepare_workflow tx.gid))
  tick_callback-Evolving tx now TransactionStatus.prepared =
      if-Evolving (callback_workflow_due tx now)
        (recover_callback_workflow (alone env) tx.gid >>= moved (alone env)) (pure none)
        (moved-Evolving (recover_callback_workflow (alone env) tx.gid)
          (recover_callback_workflow-Evolving env tx.gid))
        stay-Evolves
  tick_callback-Evolving tx now TransactionStatus.trying = stay-Evolves
  tick_callback-Evolving tx now TransactionStatus.succeeding = stay-Evolves
  tick_callback-Evolving tx now TransactionStatus.succeeded = stay-Evolves
  tick_callback-Evolving tx now TransactionStatus.aborting = stay-Evolves
  tick_callback-Evolving tx now TransactionStatus.aborted = stay-Evolves
  tick_callback-Evolving tx now TransactionStatus.failed = stay-Evolves

  tick_step-Evolving :
      (gid : String) (step : Option Step) → Evolving (tick_step (alone env) gid step)
  unfolding tick_step
  tick_step-Evolving gid none = stay-Evolves
  tick_step-Evolving gid (some step) =
      moved-Evolving (take_step (alone env) gid step) (take_step-Evolving gid step)

  -- A test under which a round leaves the transaction alone.
  unless_skipped :
      (c : Bool) (m : Exec (Option Transaction))
      → Evolving m
      → Evolving (if c then pure none else m)
  unless_skipped c m evolving = if-Evolving c (pure none) m stay-Evolves evolving

  tick_one-Evolving : (now : ℕ) (tx : Transaction) → Evolving (tick_one (alone env) now tx)
  unfolding tick_one
  tick_one-Evolving now tx =
      let step = tick_step (alone env) tx.gid (next_step tx.kind tx.status) in
      let due =
        if not (transaction_due tx now)
        then pure none
        else if waits (alone env) tx
        then pure none
        else step in
      let live =
        if is_callback_workflow tx then tick_callback (alone env) tx now tx.status else due in
      let expiring = expire (alone env) tx.gid tx tx.kind >>= moved (alone env) in
      unless_skipped (is_terminal tx.status)
        (if is_delayed tx now then pure none else if is_expired tx now then expiring else live)
        (unless_skipped (is_delayed tx now) (if is_expired tx now then expiring else live) (
          if-Evolving (is_expired tx now) expiring live
            (moved-Evolving (expire (alone env) tx.gid tx tx.kind)
              (expire-Evolving tx.gid tx tx.kind))
            (if-Evolving (is_callback_workflow tx) (tick_callback (alone env) tx now tx.status) due
              (tick_callback-Evolving tx now tx.status)
              (unless_skipped (not (transaction_due tx now))
                (if waits (alone env) tx then pure none else step)
                (unless_skipped (waits (alone env) tx) step
                  (tick_step-Evolving tx.gid (next_step tx.kind tx.status)))))))

  with_moved-Evolving :
      (next : Option Transaction) (changed : List Transaction)
      → Evolving (with_moved (alone env) next changed)
  with_moved-Evolving none changed = stay-Evolves
  with_moved-Evolving (some tx) changed = stay-Evolves

  tick_each-Evolving : (now : ℕ) (txs : List Transaction) → Evolving (tick_each (alone env) now txs)
  unfolding tick_each
  tick_each-Evolving now [] = stay-Evolves
  tick_each-Evolving now (tx ∷ txs) =
      bind-Evolving (tick_one (alone env) now tx)
        (λ next. tick_each (alone env) now txs >>= with_moved (alone env) next)
        (tick_one-Evolving now tx)
        λ next.
          bind-Evolving (tick_each (alone env) now txs) (with_moved (alone env) next)
            (tick_each-Evolving now txs) (with_moved-Evolving next)

  list_all-Evolving : Evolving (list_all (alone env))
  unfolding list_all
  list_all-Evolving w = same-Evolves w (list_all (alone env) w).1 refl

  pub tick_recover_once-Evolving : Evolving (tick_recover_once (alone env))
  unfolding tick_recover_once
  tick_recover_once-Evolving =
      bind-Evolving (current_millis (alone env))
        (λ now. list_all (alone env) >>= tick_each (alone env) now) clock-Evolving
        λ now.
          bind-Evolving (list_all (alone env)) (tick_each (alone env) now) list_all-Evolving
            (tick_each-Evolving now)

  reset_first-Evolving :
      (left : ℕ) (txs : List Transaction) → Evolving (reset_first (alone env) left txs)
  unfolding reset_first perform
  reset_first-Evolving left [] = stay-Evolves
  reset_first-Evolving zero (tx ∷ txs) = stay-Evolves
  reset_first-Evolving (suc left) (tx ∷ txs) =
      let rest = λ (t : Transaction). reset_first (alone env) left txs >>= λ ts. pure (t ∷ ts) in
      if-Evolving (is_terminal tx.status) (reset_first (alone env) (suc left) txs)
        (reset_retry (alone env) tx.gid >>= rest) (reset_first-Evolving (suc left) txs)
        (bind-Evolving (reset_retry (alone env) tx.gid) rest
          (perform-Evolving (op_reset_retry tx.gid))
          λ t.
            bind-Evolving (reset_first (alone env) left txs) (λ ts. pure (t ∷ ts))
              (reset_first-Evolving left txs) (λ ts. stay-Evolves))

  pub reset_retry_batch-Evolving : (limit : ℕ) → Evolving (reset_retry_batch (alone env) limit)
  unfolding reset_retry_batch
  reset_retry_batch-Evolving limit =
      bind-Evolving (list_all (alone env)) (reset_first (alone env) (max limit 1)) list_all-Evolving
        (reset_first-Evolving (max limit 1))
