-- ===== src/Coordinator/Driven.antt =====
-- The workflows that the coordinator drives itself: `start_workflow` and `abort_workflow` of src/lib.rs.
-- The loop of `start_workflow` runs on fuel, one unit for each branch that it calls.
pub mod Life
pub mod Fuel
use roze_dtm.Common.{
  ℕ, zero, suc, List, [], ◌∷◌, String, Bool, true, false, Option, none, some, not, length, find,
  if◌then◌else◌, reverse,
}
use roze_dtm.Data.{
  TransactionKind, TransactionStatus, BranchStatus, Branch, Transaction, TransactionOptions, err,
  ensure, branch_is, unresolved_dependencies, callback_workflow, out_of_fuel,
}
use roze_dtm.Workflow.{is_callback_workflow}
use roze_dtm.Engine.{
  Env, Exec, pure, lift, ◌>>=◌, ◌>>◌, load, claim, release, invoke_branch, transaction_of_kind,
  require_status, or_missing, settled, with_status, barrier_of, Stop,
}
use roze_dtm.Coordinator.Tcc.{left, run_unless}
use roze_dtm.Coordinator.Tasks.{is_execute, enumerated, put_at}
use roze_dtm.Coordinator.Concurrent.{all_succeeded, is_ready, launched, persist_as}
use roze_dtm.Coordinator.Saga.{roll_back, abort_loop}

-- The states from which `start_workflow` and `abort_workflow` go on.
abbrev pub workflow_start_states : List TransactionStatus
workflow_start_states =
    TransactionStatus.submitted ∷ TransactionStatus.prepared ∷ TransactionStatus.succeeding ∷ []

abbrev pub workflow_abort_states : List TransactionStatus
workflow_abort_states =
    TransactionStatus.submitted ∷ TransactionStatus.prepared ∷ TransactionStatus.succeeding
    ∷ TransactionStatus.aborting ∷ []

-- The first branch that can be called, with its place.
unfoldable pub next_ready : List Branch → Option (ℕ × Branch)
unfolding is_ready
next_ready bs = find (λ t. is_ready bs t.1) (enumerated bs)

module _ (env : Env) where
  unfoldable pub workflow_rollback_decided :
      TransactionOptions → String → Branch → Bool → Exec (Branch × Option Stop)
  unfolding roll_back
  workflow_rollback_decided options gid branch true =
      lift (or_missing branch.id branch.compensate)
      >>= roll_back env options gid "workflow_rollback" branch
  workflow_rollback_decided options gid branch false =
      pure (settled BranchStatus.skipped branch, none)

  -- The body of the loop of `abort_workflow`.
  unfoldable pub rollback_step : TransactionOptions → String → Branch → Exec (Branch × Option Stop)
  unfolding claim workflow_rollback_decided
  rollback_step options gid branch =
      if not (branch_is branch.status BranchStatus.succeeded)
      then pure (
        if branch_is branch.status BranchStatus.pending
            then with_status BranchStatus.skipped branch
            else branch,
        none,
      )
      else claim env (barrier_of gid branch "workflow_rollback") >>= λ d.
          workflow_rollback_decided options gid branch (is_execute d)

  unfoldable pub abort_workflow_loaded : Transaction → Exec Transaction
  unfolding require_status abort_loop rollback_step
  abort_workflow_loaded tx =
      require_status env tx workflow_abort_states
      >> abort_loop env (rollback_step tx.options tx.gid) tx

  unfoldable pub abort_workflow : String → Exec Transaction
  unfolding transaction_of_kind run_unless abort_workflow_loaded
  abort_workflow gid =
      transaction_of_kind env gid TransactionKind.workflow
      >>= run_unless env TransactionStatus.aborted abort_workflow_loaded

  -- The end of the loop of `start_workflow`, where no branch can be called.
  unfoldable pub workflow_end : Transaction → Exec Transaction
  unfolding persist_as
  workflow_end tx =
      if all_succeeded tx.branches
      then persist_as env tx TransactionStatus.succeeded tx.branches
      else lift (err unresolved_dependencies)

  -- `gid` is the argument of `start_workflow`.
  module _ (gid : String) where
    -- The end of the call of the branch at a place.
    unfoldable pub step_called :
        (Transaction → Exec Transaction) → Transaction → ℕ → Branch × Bool → Exec Transaction
    unfolding persist_as put_at release abort_workflow
    step_called next tx index (branch, true) =
        persist_as env tx TransactionStatus.succeeding
          (put_at index (settled BranchStatus.succeeded branch) tx.branches)
        >>= next
    step_called next tx index (branch, false) =
        release env (barrier_of tx.gid branch "workflow")
        >> (persist_as env tx TransactionStatus.aborting
              (put_at index (with_status BranchStatus.failed branch) tx.branches)
            >>= λ tx'. abort_workflow gid)

    unfoldable pub step_decided :
        (Transaction → Exec Transaction) → Transaction → ℕ × Branch → Bool → Exec Transaction
    unfolding invoke_branch step_called load
    step_decided next tx (index, branch) true =
        invoke_branch env tx.options tx.gid TransactionStatus.succeeding (launched branch)
          branch.action
        >>= step_called next tx index
    step_decided next tx (index, branch) false = load env gid

    unfoldable pub workflow_step :
        (Transaction → Exec Transaction) → Transaction → Option (ℕ × Branch) → Exec Transaction
    unfolding claim step_decided workflow_end
    workflow_step next tx none = workflow_end tx
    workflow_step next tx (some (index, branch)) =
        claim env (barrier_of tx.gid branch "workflow") >>= λ d.
        step_decided next tx (index, branch) (is_execute d)

    unfoldable pub workflow_steps : ℕ → Transaction → Exec Transaction
    unfolding workflow_step next_ready
    workflow_steps zero tx = lift (err out_of_fuel)
    workflow_steps (suc fuel) tx = workflow_step (workflow_steps fuel) tx (next_ready tx.branches)

    unfoldable pub start_workflow_loaded : Transaction → Exec Transaction
    unfolding is_callback_workflow require_status workflow_steps
    start_workflow_loaded tx =
        lift (ensure (not (is_callback_workflow tx)) callback_workflow)
        >> (require_status env tx workflow_start_states
            >> workflow_steps (suc (length tx.branches)) tx)

  unfoldable pub start_workflow : String → Exec Transaction
  unfolding transaction_of_kind run_unless start_workflow_loaded
  start_workflow gid =
      transaction_of_kind env gid TransactionKind.workflow
      >>= run_unless env TransactionStatus.succeeded (start_workflow_loaded gid)
