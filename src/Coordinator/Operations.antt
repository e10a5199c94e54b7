-- ===== src/Coordinator/Operations.antt =====
-- The modelled methods of the coordinator as one type, and how they move the stored transactions.
use roze_dtm.Common.{
  ◌||◌, ◌≡◌, refl, arith, List, [], ◌∷◌, String, suc, true, false, not, Option, none, some,
}
use roze_dtm.Data.{
  status_is, TransactionKind, TransactionStatus, Transaction, is_terminal, status_in, kind_is,
  non_replayable, already_terminal, callback_workflow,
}
use roze_dtm.Workflow.{ensure_status, is_callback_workflow}
use roze_dtm.Engine.{
  pure, transaction_of_kind, World, Env, Exec, ◌>>=◌, ◌>>◌, persist_transaction, require_status,
  current_millis,
}
use roze_dtm.Coordinator.Tcc.{
  prepare_states, confirm_states, cancel_states, ended, prepared_status, guarded_write, run_unless,
  try_branch, confirm_branch, cancel_branch, prepare_tcc, confirm_tcc, cancel_tcc,
}
use roze_dtm.Coordinator.Xa.{
  rollback_states, submitted_only, prepared, commit_branch, rollback_branch, prepare_xa, commit_xa,
  rollback_xa,
}
use roze_dtm.Coordinator.Control.{
  prepare_loaded, prepare_workflow, submit_states, abort_states, scheduled_status,
  reset_transaction, abandoned, abort_requested, stopped, prepare_message, abort_message,
  write_status, submit_loaded, schedule_submit, abort_loaded, schedule_abort, stop_loaded,
  force_stop, reset_loaded, reset_retry,
}
use roze_dtm.Coordinator.Lifecycle.{later, futures, later_refl}
use roze_dtm.Coordinator.Writes.{
  alone, try_branch-Keeps, confirm_branch-Keeps, cancel_branch-Keeps, commit_branch-Keeps,
  rollback_branch-Keeps,
}
use roze_dtm.Coordinator.Moves.{
  Moves, Moving, load-Moves, of_kind-Moves, pure-Moving, if-Moving, ensure-Moving, persist-Moving,
  unless-Moving, method-Moves,
}

pub data Operation : Type 0 where
  op_prepare_tcc op_confirm_tcc op_cancel_tcc : String → Operation
  op_prepare_xa op_commit_xa op_rollback_xa : String → Operation
  op_prepare_message op_prepare_workflow op_abort_message op_schedule_submit op_schedule_abort :
      String → Operation
  op_force_stop op_reset_retry : String → Operation

abbrev pub target : Operation → String
target (op_prepare_tcc gid) = gid
target (op_confirm_tcc gid) = gid
target (op_cancel_tcc gid) = gid
target (op_prepare_xa gid) = gid
target (op_commit_xa gid) = gid
target (op_rollback_xa gid) = gid
target (op_prepare_message gid) = gid
target (op_prepare_workflow gid) = gid
target (op_abort_message gid) = gid
target (op_schedule_submit gid) = gid
target (op_schedule_abort gid) = gid
target (op_force_stop gid) = gid
target (op_reset_retry gid) = gid

unfoldable pub perform : Env → Operation → Exec Transaction
unfolding prepare_tcc confirm_tcc cancel_tcc prepare_xa commit_xa rollback_xa prepare_message
    prepare_workflow abort_message schedule_submit schedule_abort force_stop reset_retry
perform env (op_prepare_tcc gid) = prepare_tcc env gid
perform env (op_confirm_tcc gid) = confirm_tcc env gid
perform env (op_cancel_tcc gid) = cancel_tcc env gid
perform env (op_prepare_xa gid) = prepare_xa env gid
perform env (op_commit_xa gid) = commit_xa env gid
perform env (op_rollback_xa gid) = rollback_xa env gid
perform env (op_prepare_message gid) = prepare_message env gid
perform env (op_prepare_workflow gid) = prepare_workflow env gid
perform env (op_abort_message gid) = abort_message env gid
perform env (op_schedule_submit gid) = schedule_submit env gid
perform env (op_schedule_abort gid) = schedule_abort env gid
perform env (op_force_stop gid) = force_stop env gid
perform env (op_reset_retry gid) = reset_retry env gid

module _ (env : Env) (gid : String) where
  prepare_tcc-Moves : (w : World) → Moves gid w (prepare_tcc (alone env) gid w)
  unfolding prepare_tcc later futures prepared_status
  prepare_tcc-Moves =
      method-Moves env gid TransactionKind.tcc TransactionStatus.prepared prepare_states
        prepared_status (λ tx. try_branch (alone env) tx.options tx.gid) (λ s allowed. ground arith)
        (λ s stop allowed. ground arith) (λ tx. try_branch-Keeps env tx.options tx.gid)

  confirm_tcc-Moves : (w : World) → Moves gid w (confirm_tcc (alone env) gid w)
  unfolding confirm_tcc later futures
  confirm_tcc-Moves =
      method-Moves env gid TransactionKind.tcc TransactionStatus.succeeded confirm_states
        (ended TransactionStatus.succeeding TransactionStatus.succeeded)
        (λ tx. confirm_branch (alone env) tx.options tx.gid) (λ s allowed. ground arith)
        (λ s stop allowed. ground arith) (λ tx. confirm_branch-Keeps env tx.options tx.gid)

  cancel_tcc-Moves : (w : World) → Moves gid w (cancel_tcc (alone env) gid w)
  unfolding cancel_tcc later futures
  cancel_tcc-Moves =
      method-Moves env gid TransactionKind.tcc TransactionStatus.aborted cancel_states
        (ended TransactionStatus.aborting TransactionStatus.aborted)
        (λ tx. cancel_branch (alone env) tx.options tx.gid) (λ s allowed. ground arith)
        (λ s stop allowed. ground arith) (λ tx. cancel_branch-Keeps env tx.options tx.gid)

  commit_xa-Moves : (w : World) → Moves gid w (commit_xa (alone env) gid w)
  unfolding commit_xa later futures
  commit_xa-Moves =
      method-Moves env gid TransactionKind.xa TransactionStatus.succeeded confirm_states
        (ended TransactionStatus.succeeding TransactionStatus.succeeded)
        (λ tx. commit_branch (alone env) tx.options tx.gid) (λ s allowed. ground arith)
        (λ s stop allowed. ground arith) (λ tx. commit_branch-Keeps env tx.options tx.gid)

  rollback_xa-Moves : (w : World) → Moves gid w (rollback_xa (alone env) gid w)
  unfolding rollback_xa later futures
  rollback_xa-Moves =
      method-Moves env gid TransactionKind.xa TransactionStatus.aborted rollback_states
        (ended TransactionStatus.aborting TransactionStatus.aborted)
        (λ tx. rollback_branch (alone env) tx.options tx.gid) (λ s allowed. ground arith)
        (λ s stop allowed. ground arith) (λ tx. rollback_branch-Keeps env tx.options tx.gid)

  -- A guarded write of a later state.
  write-Moving :
      (allowed : List TransactionStatus) (change : Transaction → Transaction) (tx : Transaction)
      → (status_in tx.status allowed ≡ true → is_terminal tx.status ≡ false)
      → (change tx).updated_at_millis ≡ tx.updated_at_millis
      → (change tx).gid ≡ tx.gid
      → (change tx).kind ≡ tx.kind
      → (status_in tx.status allowed ≡ true → later tx.kind tx.status (change tx).status ≡ true)
      → Moving env gid tx (guarded_write (alone env) allowed change tx)
  unfolding guarded_write require_status ensure_status
  write-Moving allowed change tx active same_time same_gid same_kind next =
      ensure-Moving env gid tx (status_in tx.status allowed) (non_replayable tx.status)
        (persist_transaction (alone env) (change tx))
        λ in_status.
          persist-Moving env gid tx (change tx) (active in_status) same_time same_gid same_kind
            (next in_status)

  of_kind_write-Moves :
      (kind : TransactionKind) (already : TransactionStatus) (allowed : List TransactionStatus)
      (change : Transaction → Transaction)
      → ((s : TransactionStatus) → status_in s allowed ≡ true → is_terminal s ≡ false)
      → ((tx : Transaction) → (change tx).updated_at_millis ≡ tx.updated_at_millis)
      → ((tx : Transaction) → (change tx).gid ≡ tx.gid)
      → ((tx : Transaction) → (change tx).kind ≡ tx.kind)
      → ((tx : Transaction)
          → tx.kind ≡ kind
          → status_in tx.status allowed ≡ true
          → later tx.kind tx.status (change tx).status ≡ true)
      → (w : World)
      → Moves gid w (
          (transaction_of_kind (alone env) gid kind
              >>= run_unless (alone env) already (guarded_write (alone env) allowed change))
            w)
  of_kind_write-Moves kind already allowed change active same_time same_gid same_kind next =
      of_kind-Moves env gid kind
        (run_unless (alone env) already (guarded_write (alone env) allowed change))
        λ tx same. unless-Moving env gid already (guarded_write (alone env) allowed change) tx (
          write-Moving allowed change tx (active tx.status) (same_time tx) (same_gid tx)
            (same_kind tx) (next tx same))

  prepare_xa-Moves : (w : World) → Moves gid w (prepare_xa (alone env) gid w)
  unfolding prepare_xa later futures
  prepare_xa-Moves =
      of_kind_write-Moves TransactionKind.xa TransactionStatus.prepared submitted_only prepared
        (λ s allowed. ground arith) (λ tx. refl) (λ tx. refl) (λ tx. refl)
        (λ tx same allowed. ground (arith, same, allowed))

  prepare_message-Moves : (w : World) → Moves gid w (prepare_message (alone env) gid w)
  unfolding prepare_message later futures
  prepare_message-Moves =
      of_kind_write-Moves TransactionKind.message TransactionStatus.prepared submitted_only prepared
        (λ s allowed. ground arith) (λ tx. refl) (λ tx. refl) (λ tx. refl)
        (λ tx same allowed. ground (arith, same, allowed))

  prepare_workflow-Moves : (w : World) → Moves gid w (prepare_workflow (alone env) gid w)
  unfolding prepare_workflow prepare_loaded later futures
  prepare_workflow-Moves =
      of_kind-Moves env gid TransactionKind.workflow (prepare_loaded (alone env)) λ tx same.
        if-Moving env gid tx
          (status_is tx.status TransactionStatus.prepared || is_terminal tx.status) (pure tx)
          (guarded_write (alone env) submitted_only prepared tx) (λ _. pure-Moving env gid tx tx)
          λ _.
            write-Moving submitted_only prepared tx (λ allowed. ground (arith, allowed)) refl refl
              refl (λ allowed. ground (arith, same, allowed))

  abort_message-Moves : (w : World) → Moves gid w (abort_message (alone env) gid w)
  unfolding abort_message abandoned later futures
  abort_message-Moves =
      of_kind_write-Moves TransactionKind.message TransactionStatus.aborted
        (TransactionStatus.submitted ∷ TransactionStatus.prepared ∷ []) abandoned
        (λ s allowed. ground arith) (λ tx. refl) (λ tx. refl) (λ tx. refl)
        (λ tx same allowed. ground (arith, same, allowed))

  write_status-Moving :
      (tx : Transaction) (next : Option TransactionStatus)
      → is_terminal tx.status ≡ false
      → ((s : TransactionStatus) → next ≡ some s → later tx.kind tx.status s ≡ true)
      → Moving env gid tx (write_status (alone env) tx next)
  unfolding write_status
  write_status-Moving tx none active allowed = pure-Moving env gid tx tx
  write_status-Moving tx (some s) active allowed =
      persist-Moving env gid tx (record tx { status = s }) active refl refl refl (allowed s refl)

  submit_loaded-Moving : (tx : Transaction) → Moving env gid tx (submit_loaded (alone env) tx)
  unfolding submit_loaded require_status ensure_status submit_states scheduled_status later futures
  submit_loaded-Moving tx =
      ensure-Moving env gid tx (not (is_callback_workflow tx)) callback_workflow
        (require_status (alone env) tx (submit_states tx.kind)
          >> write_status (alone env) tx (scheduled_status tx.kind tx.status))
        λ _.
          ensure-Moving env gid tx (status_in tx.status (submit_states tx.kind))
            (non_replayable tx.status)
            (write_status (alone env) tx (scheduled_status tx.kind tx.status))
            λ allowed.
              write_status-Moving tx (scheduled_status tx.kind tx.status) (ground (arith, allowed))
                (λ s written. ground (arith, allowed, written))

  schedule_submit-Moves : (w : World) → Moves gid w (schedule_submit (alone env) gid w)
  unfolding schedule_submit
  schedule_submit-Moves =
      load-Moves env gid
        (run_unless (alone env) TransactionStatus.succeeded (submit_loaded (alone env)))
        λ tx.
          unless-Moving env gid TransactionStatus.succeeded (submit_loaded (alone env)) tx
            (submit_loaded-Moving tx)

  abort_loaded-Moving : (tx : Transaction) → Moving env gid tx (abort_loaded (alone env) gid tx)
  unfolding abort_loaded abort_requested abort_states later futures
  abort_loaded-Moving tx =
      if-Moving env gid tx (kind_is tx.kind TransactionKind.message) (abort_message (alone env) gid)
        (guarded_write (alone env) (abort_states tx.kind) abort_requested tx)
        (λ _ w stored. abort_message-Moves w)
        λ other.
          write-Moving (abort_states tx.kind) abort_requested tx
            (λ allowed. ground (arith, allowed)) refl refl refl
            (λ allowed. ground (arith, allowed, other))

  schedule_abort-Moves : (w : World) → Moves gid w (schedule_abort (alone env) gid w)
  unfolding schedule_abort
  schedule_abort-Moves =
      load-Moves env gid
        (run_unless (alone env) TransactionStatus.aborted (abort_loaded (alone env) gid))
        λ tx.
          unless-Moving env gid TransactionStatus.aborted (abort_loaded (alone env) gid) tx
            (abort_loaded-Moving tx)

  force_stop-Moves : (w : World) → Moves gid w (force_stop (alone env) gid w)
  unfolding force_stop stop_loaded stopped later futures
  force_stop-Moves = load-Moves env gid (stop_loaded (alone env) gid) λ tx.
      ensure-Moving env gid tx (not (is_terminal tx.status)) (already_terminal gid)
        (persist_transaction (alone env) (stopped tx))
        λ active.
          persist-Moving env gid tx (stopped tx) (ground (arith, active)) refl refl refl
            (ground (arith, active))

  reset_retry-Moves : (w : World) → Moves gid w (reset_retry (alone env) gid w)
  unfolding reset_retry reset_loaded current_millis reset_transaction Moves
  reset_retry-Moves = load-Moves env gid (reset_loaded (alone env) gid) λ tx.
      ensure-Moving env gid tx (not (is_terminal tx.status)) (already_terminal gid)
        (current_millis (alone env) >>= λ now.
          persist_transaction (alone env) (reset_transaction now tx))
        λ active w stored.
          persist-Moving env gid tx (reset_transaction ((alone env).now w.ticks) tx)
            (ground (arith, active)) refl refl refl (later_refl tx.kind tx.status)
            (record w { ticks = suc w.ticks }) stored

-- Each of the thirteen methods of `Operation`, which write a transaction at most once, moves at most the
-- transaction that it is called for, and moves it from a status that is not terminal along the life of its
-- kind. What it then reports is what it stored, but for the time of the last update. No other worker
-- interferes.
pub perform-Moves :
    (env : Env) (op : Operation) (w : World) → Moves (target op) w (perform (alone env) op w)
unfolding perform
perform-Moves env (op_prepare_tcc gid) = prepare_tcc-Moves env gid
perform-Moves env (op_confirm_tcc gid) = confirm_tcc-Moves env gid
perform-Moves env (op_cancel_tcc gid) = cancel_tcc-Moves env gid
perform-Moves env (op_prepare_xa gid) = prepare_xa-Moves env gid
perform-Moves env (op_commit_xa gid) = commit_xa-Moves env gid
perform-Moves env (op_rollback_xa gid) = rollback_xa-Moves env gid
perform-Moves env (op_prepare_message gid) = prepare_message-Moves env gid
perform-Moves env (op_prepare_workflow gid) = prepare_workflow-Moves env gid
perform-Moves env (op_abort_message gid) = abort_message-Moves env gid
perform-Moves env (op_schedule_submit gid) = schedule_submit-Moves env gid
perform-Moves env (op_schedule_abort gid) = schedule_abort-Moves env gid
perform-Moves env (op_force_stop gid) = force_stop-Moves env gid
perform-Moves env (op_reset_retry gid) = reset_retry-Moves env gid
