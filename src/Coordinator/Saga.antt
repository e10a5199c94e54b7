-- ===== src/Coordinator/Saga.antt =====
-- `start_saga` and `abort_saga` of src/lib.rs.
pub mod Life
pub mod Fuel
pub mod Following
pub mod Compensations
pub mod Winning
pub mod Actions
pub mod Reaching
use roze_dtm.Common.{
  ℕ, zero, suc, List, [], ◌∷◌, ◌++◌, map, reverse, String, Bool, true, false, Option, none, some,
  not, length, leb, ltb, if◌then◌else◌,
}
use roze_dtm.Data.{
  TransactionKind, TransactionStatus, BranchStatus, Branch, Transaction, TransactionOptions, err,
  ensure, branch_is, branch_in, status_is, unreachable, unresolved_dependencies, callback_workflow,
  out_of_fuel,
}
use roze_dtm.Memory.Barriers.{BarrierDecision}
use roze_dtm.Workflow.{is_callback_workflow}
use roze_dtm.Engine.{
  Env, Exec, pure, lift, ◌>>=◌, ◌>>◌, load, persist_transaction, claim, release, invoke_branch,
  transaction_of_kind, require_status, or_missing, settled, attempted, with_status, barrier_of,
  Stop, for_branches,
}
use roze_dtm.Coordinator.Tcc.{left, ended, run_unless}
use roze_dtm.Coordinator.Tasks.{is_execute, put_at}
use roze_dtm.Coordinator.Concurrent.{
  action_attempts, all_succeeded, is_ready, launched, persist_as, start_concurrent_saga,
  abort_concurrent_saga, saga_start_states, saga_abort_states,
}

-- The branches of a saga whose action is out of attempts.
unfoldable pub undone : List Branch → List Branch
undone = map (λ b.
    if branch_is b.status BranchStatus.succeeded
    then with_status BranchStatus.compensating b
    else b)

module _ (env : Env) where
  -- A call of a compensation: a failed one gives the barrier `op` back.
  unfoldable pub roll_back :
      TransactionOptions → String → String → Branch → String → Exec (Branch × Option Stop)
  unfolding invoke_branch release
  roll_back options gid op branch url = do
    (called, success) ←
        invoke_branch env options gid TransactionStatus.aborting (attempted branch) url
    if success then pure (settled BranchStatus.skipped called, none) else do
      release env (barrier_of gid branch op)
      pure (with_status BranchStatus.compensating called, some Stop.call_failed)

  -- A branch may have no compensation.
  unfoldable pub compensate_with :
      TransactionOptions → String → Branch → Option String → Exec (Branch × Option Stop)
  unfolding roll_back
  compensate_with options gid branch none = pure (settled BranchStatus.skipped branch, none)
  compensate_with options gid branch (some url) = roll_back options gid "compensate" branch url

  unfoldable pub compensate_decided :
      TransactionOptions → String → Branch → BarrierDecision → Exec (Branch × Option Stop)
  unfolding compensate_with
  compensate_decided options gid branch BarrierDecision.execute =
      compensate_with options gid branch branch.compensate
  compensate_decided options gid branch BarrierDecision.skip_duplicate =
      pure (branch, some Stop.claimed_elsewhere)
  compensate_decided options gid branch _ = lift (err unreachable)

  -- The body of the loop of `abort_saga`.
  unfoldable pub compensate_branch :
      TransactionOptions → String → Branch → Exec (Branch × Option Stop)
  unfolding claim compensate_decided
  compensate_branch options gid branch =
      if branch_is branch.status BranchStatus.pending
      then pure (with_status BranchStatus.skipped branch, none)
      else if not
          (branch_in branch.status (BranchStatus.succeeded ∷ BranchStatus.compensating ∷ []))
      then pure (branch, none)
      else claim env (barrier_of gid branch "compensate")
        >>= compensate_decided options gid (with_status BranchStatus.compensating branch)

  -- The end of a loop that goes over the branches from the last to the first.
  unfoldable pub write_reversed : Transaction → List Branch × Option Stop → Exec Transaction
  unfolding persist_as
  write_reversed tx (branches, stop) =
      persist_as env tx (ended TransactionStatus.aborting TransactionStatus.aborted stop)
        (reverse branches)

  -- `for branch in tx.branches.iter_mut().rev()`, and the write of the transaction.
  unfoldable pub abort_loop :
      (Branch → Exec (Branch × Option Stop)) → Transaction → Exec Transaction
  unfolding for_branches write_reversed
  abort_loop body tx = for_branches body (reverse tx.branches) >>= write_reversed tx

  unfoldable pub abort_saga_loaded : Transaction → Exec Transaction
  unfolding require_status abort_concurrent_saga abort_loop compensate_branch
  abort_saga_loaded tx = do
    require_status env tx saga_abort_states
    if tx.options.concurrent
        then abort_concurrent_saga env tx
        else abort_loop (compensate_branch tx.options tx.gid) tx

  unfoldable pub abort_saga : String → Exec Transaction
  unfolding transaction_of_kind run_unless abort_saga_loaded
  abort_saga gid =
      transaction_of_kind env gid TransactionKind.saga
      >>= run_unless env TransactionStatus.aborted abort_saga_loaded

  -- `gid` is the argument of `start_saga`.
  module _ (gid : String) where
    -- A failed action: with attempts left the saga waits for a retry, and else it is undone.
    unfoldable pub action_failed :
        ℕ → Transaction → List Branch → Branch → List Branch → Exec Transaction
    unfolding release persist_as undone abort_saga
    action_failed limit tx before branch after =
        if ltb branch.attempts limit
        then release env (barrier_of tx.gid branch "action")
          >> persist_as env tx TransactionStatus.succeeding
              (before ++ with_status BranchStatus.failed branch ∷ after)
        else persist_as env tx TransactionStatus.aborting
            (undone (before ++ with_status BranchStatus.compensating branch ∷ after))
          >>= λ tx'. abort_saga gid

    -- The end of a call: `next` goes on with the branches `after`.
    unfoldable pub action_called :
        (Transaction → Branch → Exec Transaction)
        → ℕ
        → Transaction
        → List Branch
        → List Branch
        → Branch × Bool
        → Exec Transaction
    unfolding persist_as action_failed
    action_called next limit tx before after (branch, true) =
        persist_as env tx TransactionStatus.succeeding
          (before ++ settled BranchStatus.succeeded branch ∷ after)
        >>= λ tx'. next tx' (settled BranchStatus.succeeded branch)
    action_called next limit tx before after (branch, false) =
        action_failed limit tx before branch after

    unfoldable pub action_decided :
        (Transaction → Branch → Exec Transaction)
        → ℕ
        → Transaction
        → List Branch
        → Branch
        → List Branch
        → Bool
        → Exec Transaction
    unfolding invoke_branch action_called load
    action_decided next limit tx before branch after true =
        invoke_branch env tx.options tx.gid TransactionStatus.succeeding (launched branch)
          branch.action
        >>= action_called next limit tx before after
    action_decided next limit tx before branch after false = load env gid

    -- One round of the loop of `start_saga`, at a branch between those `before` and `after` it.
    unfoldable pub saga_action :
        (Transaction → Branch → Exec Transaction)
        → ℕ
        → Transaction
        → List Branch
        → Branch
        → List Branch
        → Exec Transaction
    unfolding claim action_decided
    saga_action next limit tx before branch after =
        if branch_is branch.status BranchStatus.succeeded
        then next tx branch
        else claim env (barrier_of tx.gid branch "action") >>= λ d.
            action_decided next limit tx before branch after (is_execute d)

    -- The loop of `start_saga`: `before` are the branches that it has passed.
    unfoldable pub saga_actions : ℕ → Transaction → List Branch → List Branch → Exec Transaction
    unfolding persist_as saga_action
    saga_actions limit tx before [] = persist_as env tx TransactionStatus.succeeded before
    saga_actions limit tx before (b ∷ bs) =
        saga_action (λ tx' b'. saga_actions limit tx' (before ++ b' ∷ []) bs) limit tx before b bs

    unfoldable pub start_saga_loaded : Transaction → Exec Transaction
    unfolding require_status start_concurrent_saga persist_as saga_actions
    start_saga_loaded tx = do
      require_status env tx saga_start_states
      if tx.options.concurrent
          then start_concurrent_saga env tx
          else persist_as env tx TransactionStatus.succeeding tx.branches >>= λ tx'.
              saga_actions (action_attempts tx.options) tx' [] tx.branches

  unfoldable pub start_saga : String → Exec Transaction
  unfolding transaction_of_kind run_unless start_saga_loaded
  start_saga gid =
      transaction_of_kind env gid TransactionKind.saga
      >>= run_unless env TransactionStatus.succeeded (start_saga_loaded gid)
