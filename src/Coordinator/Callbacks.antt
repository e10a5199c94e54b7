-- ===== src/Coordinator/Callbacks.antt =====
-- The callback workflows of src/lib.rs: `recover_callback_workflow`, `defer_callback_workflow`,
-- `terminal_after_conflict`, `expire_callback_workflow`, and the methods that pass on to the store.
pub mod Life
use roze_dtm.Common.{
  ℕ, suc, ◌||◌, List, [], ◌∷◌, String, Bool, true, false, Option, none, some, max, unwrap_or,
  if◌then◌else◌,
}
use roze_dtm.Data.{
  TransactionKind, TransactionStatus, Branch, Transaction, WorkflowProgress, WorkflowRecoveryDelay,
  Error, Result, ok, err, is_terminal, status_is,
}
use roze_dtm.Memory.Transactions.{
  register_branch, record_workflow_progress, finish_workflow, defer_recovery,
}
use roze_dtm.Workflow.{ensure_callback_workflow}
use roze_dtm.Callback.{WorkflowCallbackRequest, CallbackAnswer, workflow_callback_request}
use roze_dtm.Engine.{
  World, Env, Exec, pure, lift, ◌>>=◌, ◌>>◌, access, load, current_millis, transaction_of_kind,
  require_status,
}
use roze_dtm.Coordinator.Xa.{submitted_only}
use roze_dtm.Coordinator.Control.{prepare_workflow}

abbrev pub prepared_only : List TransactionStatus
prepared_only = TransactionStatus.prepared ∷ []

-- The delay that `defer_callback_workflow` asks for.
abbrev pub delay_of : ℕ → ℕ → ℕ → Bool → String → WorkflowRecoveryDelay
delay_of attempted_at interval max_interval backoff outcome = record {
  attempted_at_millis = attempted_at;
  retry_interval_millis = interval;
  max_retry_interval_millis = max max_interval interval;
  backoff = backoff;
  outcome = outcome;
}

module _ (env : Env) where
  -- `register_branch`, `record_workflow_progress` and `finish_callback_workflow` of the coordinator.
  unfoldable pub register_dynamic_branch : String → Branch → Exec Transaction
  unfolding access register_branch
  register_dynamic_branch gid branch = access env λ now s. register_branch now gid branch s

  unfoldable pub record_progress_of : String → WorkflowProgress → Exec Transaction
  unfolding access record_workflow_progress
  record_progress_of gid progress = access env λ now s. record_workflow_progress now gid progress s

  unfoldable pub finish_callback_workflow :
      String → TransactionStatus → Option String → Option String → Exec Transaction
  unfolding access finish_workflow
  finish_callback_workflow gid status reason result =
      access env λ now s. finish_workflow now gid status reason result s

  unfoldable pub terminal_loaded : Error → Transaction → Exec Transaction
  terminal_loaded e latest = if is_terminal latest.status then pure latest else lift (err e)

  unfoldable pub terminal_after_conflict : String → Error → Exec Transaction
  unfolding load terminal_loaded
  terminal_after_conflict gid e = load env gid >>= terminal_loaded e

  abbrev pub settle : String → Result Transaction → Exec Transaction
  unfolding terminal_after_conflict
  settle gid (ok tx) = pure tx
  settle gid (err e) = terminal_after_conflict gid e

  -- `match … { Ok(transaction) => Ok(transaction), Err(error) => self.terminal_after_conflict(gid, error) }`
  unfoldable pub or_terminal : String → Exec Transaction → Exec Transaction
  unfolding terminal_after_conflict
  or_terminal gid m w = settle gid (m w).0 (m w).1

  unfoldable pub defer_callback_workflow : Transaction → ℕ → Bool → String → Exec Transaction
  unfolding or_terminal access defer_recovery
  defer_callback_workflow tx attempted_at backoff outcome =
      let interval =
        max (unwrap_or tx.options.retry_interval_millis env.options.retry_backoff_millis) 1 in
      or_terminal tx.gid (
        access env λ now s.
          defer_recovery now tx.gid
            (delay_of attempted_at interval env.options.max_retry_backoff_millis backoff outcome) s)

  -- What follows the answer of the callback, with the transaction as it then is.
  unfoldable pub answered : String → ℕ → CallbackAnswer → Transaction → Exec Transaction
  unfolding or_terminal finish_callback_workflow defer_callback_workflow
  answered gid attempted_at (CallbackAnswer.failed_with reason) latest = or_terminal gid (
      finish_callback_workflow gid TransactionStatus.failed
        (some (unwrap_or reason "workflow callback reported failure")) none)
  answered gid attempted_at CallbackAnswer.ongoing latest =
      defer_callback_workflow latest attempted_at false "ongoing"
  answered gid attempted_at CallbackAnswer.completed latest =
      defer_callback_workflow latest attempted_at true "completed_without_terminal"
  answered gid attempted_at CallbackAnswer.transport_error latest =
      defer_callback_workflow latest attempted_at true "transport_error"

  -- The handler of the callback may have moved the transaction on.
  unfoldable pub latest_loaded : String → ℕ → CallbackAnswer → Transaction → Exec Transaction
  unfolding ensure_callback_workflow require_status answered
  latest_loaded gid attempted_at answer latest =
      if is_terminal latest.status then pure latest else do
        lift (ensure_callback_workflow latest)
        require_status env latest prepared_only
        answered gid attempted_at answer latest

  unfoldable pub query : WorkflowCallbackRequest → Transaction → Exec CallbackAnswer
  query request tx w =
      (ok (env.query_callback w.ticks request tx.options), record w { ticks = suc w.ticks })

  -- What follows the request, if the transaction gives one.
  unfoldable pub requested :
      String → Transaction → ℕ → Result WorkflowCallbackRequest → Exec Transaction
  unfolding defer_callback_workflow query load latest_loaded
  requested gid tx attempted_at (err e) =
      defer_callback_workflow tx attempted_at true "invalid_callback"
  requested gid tx attempted_at (ok request) =
      query request tx >>= λ answer. load env gid >>= latest_loaded gid attempted_at answer

  unfoldable pub recover_callback_loaded : String → Transaction → Exec Transaction
  unfolding ensure_callback_workflow require_status current_millis workflow_callback_request
      requested
  recover_callback_loaded gid tx = if is_terminal tx.status then pure tx else do
    lift (ensure_callback_workflow tx)
    require_status env tx prepared_only
    current_millis env >>= λ now. requested gid tx now (workflow_callback_request env.external tx)

  unfoldable pub recover_callback_workflow : String → Exec Transaction
  unfolding transaction_of_kind recover_callback_loaded
  recover_callback_workflow gid =
      transaction_of_kind env gid TransactionKind.workflow >>= recover_callback_loaded gid

  -- The end of `expire_callback_workflow`, with the transaction that it has prepared.
  unfoldable pub expired : Transaction → Exec Transaction
  unfolding require_status or_terminal finish_callback_workflow
  expired tx =
      require_status env tx prepared_only
      >> or_terminal tx.gid (
          finish_callback_workflow tx.gid TransactionStatus.failed
            (some "workflow callback timed out") none)

  unfoldable pub expire_callback_workflow : Transaction → Exec Transaction
  unfolding prepare_workflow expired
  expire_callback_workflow tx =
      if status_is tx.status TransactionStatus.submitted
      then prepare_workflow env tx.gid >>= expired
      else expired tx
