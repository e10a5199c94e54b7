-- ===== src/Coordinator/Driven/Life.antt =====
-- How the workflows that the coordinator drives move the stored transactions.
use roze_dtm.Common.{
  ℕ, zero, suc, ◌≡◌, refl, arith, String, Bool, true, false, Option, none, some, not, length,
  if◌then◌else◌,
}
use roze_dtm.Data.{
  TransactionKind, TransactionStatus, BranchStatus, Branch, Transaction, TransactionOptions, err,
  status_in, branch_is, callback_workflow, non_replayable, unresolved_dependencies,
}
use roze_dtm.Workflow.{is_callback_workflow, ensure_status}
use roze_dtm.Engine.{
  Env, Exec, pure, lift, ◌>>=◌, ◌>>◌, claim, release, invoke_branch, require_status, or_missing,
  settled, with_status, barrier_of,
}
use roze_dtm.Memory.Barriers.{BarrierDecision}
use roze_dtm.Coordinator.Tcc.{left, run_unless}
use roze_dtm.Coordinator.Tasks.{is_execute, put_at}
use roze_dtm.Coordinator.Tasks.Quietness.{
  bind-Quiet, if-Quiet, claim-Quiet, release-Quiet, invoke_branch-Quiet,
}
use roze_dtm.Coordinator.Concurrent.{all_succeeded, launched, persist_as}
use roze_dtm.Coordinator.Saga.{roll_back, abort_loop}
use roze_dtm.Coordinator.Saga.Life.{lift-Quiet, roll_back-Quiet, abort_loop-EvolvingFrom}
use roze_dtm.Coordinator.Driven.{
  workflow_start_states, workflow_abort_states, next_ready, workflow_rollback_decided,
  rollback_step, abort_workflow_loaded, abort_workflow, workflow_end, step_called, step_decided,
  workflow_step, workflow_steps, start_workflow_loaded, start_workflow,
}
use roze_dtm.Coordinator.Lifecycle.{later, futures}
use roze_dtm.Coordinator.Writes.{alone}
use roze_dtm.Coordinator.Evolution.{stay-Evolves}
use roze_dtm.Coordinator.Tracking.{
  Evolving, EvolvingFrom, Quiet, bind-EvolvingFrom, if-EvolvingFrom, ensure-EvolvingFrom,
  next_revision, persist_as-EvolvingFrom, last_as-EvolvingFrom, reload-Evolving, of_kind-Evolving,
  unless-EvolvingFrom,
}

module _ (env : Env) where
  workflow_rollback_decided-Quiet :
      (options : TransactionOptions) (gid : String) (b : Branch) (c : Bool)
      → Quiet (workflow_rollback_decided (alone env) options gid b c)
  unfolding workflow_rollback_decided
  workflow_rollback_decided-Quiet options gid b true =
      lift-Quiet (or_missing b.id b.compensate)
        (roll_back (alone env) options gid "workflow_rollback" b)
        (roll_back-Quiet env options gid "workflow_rollback" b)
  workflow_rollback_decided-Quiet options gid b false = λ w. refl

  rollback_step-Quiet :
      (options : TransactionOptions) (gid : String) (b : Branch)
      → Quiet (rollback_step (alone env) options gid b)
  unfolding rollback_step
  rollback_step-Quiet options gid b =
      let barrier = barrier_of gid b "workflow_rollback" in
      let decided = λ (d : BarrierDecision).
        workflow_rollback_decided (alone env) options gid b (is_execute d) in
      if-Quiet (not (branch_is b.status BranchStatus.succeeded))
        (pure (
          if branch_is b.status BranchStatus.pending then with_status BranchStatus.skipped b else b,
          none,
        ))
        (claim (alone env) barrier >>= decided) (λ w. refl)
        (bind-Quiet (claim (alone env) barrier) decided (claim-Quiet env barrier)
          (λ d. workflow_rollback_decided-Quiet options gid b (is_execute d)))

  abort_workflow_loaded-EvolvingFrom :
      (tx : Transaction)
      → tx.kind ≡ TransactionKind.workflow
      → EvolvingFrom tx (abort_workflow_loaded (alone env) tx)
  unfolding abort_workflow_loaded require_status ensure_status later futures
  abort_workflow_loaded-EvolvingFrom tx kind =
      ensure-EvolvingFrom tx (status_in tx.status workflow_abort_states) (non_replayable tx.status)
        (abort_loop (alone env) (rollback_step (alone env) tx.options tx.gid) tx)
        λ allowed.
          abort_loop-EvolvingFrom env (rollback_step (alone env) tx.options tx.gid) tx
            (rollback_step-Quiet tx.options tx.gid) (ground (arith, allowed))
            (λ stop. ground (arith, kind, allowed))

  pub abort_workflow-Evolving : (gid : String) → Evolving (abort_workflow (alone env) gid)
  unfolding abort_workflow
  abort_workflow-Evolving gid =
      of_kind-Evolving env gid TransactionKind.workflow
        (run_unless (alone env) TransactionStatus.aborted (abort_workflow_loaded (alone env)))
        λ tx kind.
          unless-EvolvingFrom env TransactionStatus.aborted (abort_workflow_loaded (alone env)) tx
            (abort_workflow_loaded-EvolvingFrom tx kind)

  -- The loop of `start_workflow` may go on with a transaction that it has not written yet.
  module _ (gid : String) where
    module _ (next : Transaction → Exec Transaction)
        (next_evolving : (tx : Transaction)
          → tx.kind ≡ TransactionKind.workflow
          → status_in tx.status workflow_start_states ≡ true
          → EvolvingFrom tx (next tx)) where
      step_called-EvolvingFrom :
          (tx : Transaction) (i : ℕ) (run : Branch × Bool)
          → tx.kind ≡ TransactionKind.workflow
          → status_in tx.status workflow_start_states ≡ true
          → EvolvingFrom tx (step_called (alone env) gid next tx i run)
      unfolding step_called later futures
      step_called-EvolvingFrom tx i (b, true) kind allowed =
          let bs = put_at i (settled BranchStatus.succeeded b) tx.branches in
          persist_as-EvolvingFrom env tx TransactionStatus.succeeding bs next
            (ground (arith, allowed)) (ground (arith, kind, allowed))
            (next_evolving (next_revision (left tx TransactionStatus.succeeding bs)) kind refl)
      step_called-EvolvingFrom tx i (b, false) kind allowed =
          let bs = put_at i (with_status BranchStatus.failed b) tx.branches in
          let barrier = barrier_of tx.gid b "workflow" in
          bind-EvolvingFrom tx (release (alone env) barrier)
            (λ _. persist_as (alone env) tx TransactionStatus.aborting bs >>= λ tx'.
              abort_workflow (alone env) gid)
            (release-Quiet env barrier)
            (λ _.
              persist_as-EvolvingFrom env tx TransactionStatus.aborting bs
                (λ tx'. abort_workflow (alone env) gid) (ground (arith, allowed))
                (ground (arith, kind, allowed)) (λ w tracked. abort_workflow-Evolving gid w))

      step_decided-EvolvingFrom :
          (tx : Transaction) (place : ℕ × Branch) (c : Bool)
          → tx.kind ≡ TransactionKind.workflow
          → status_in tx.status workflow_start_states ≡ true
          → EvolvingFrom tx (step_decided (alone env) gid next tx place c)
      unfolding step_decided
      step_decided-EvolvingFrom tx (i, b) true kind allowed =
          bind-EvolvingFrom tx
            (invoke_branch (alone env) tx.options tx.gid TransactionStatus.succeeding (launched b)
              b.action)
            (step_called (alone env) gid next tx i)
            (invoke_branch-Quiet env tx.options tx.gid TransactionStatus.succeeding (launched b)
              b.action)
            (λ run. step_called-EvolvingFrom tx i run kind allowed)
      step_decided-EvolvingFrom tx (i, b) false kind allowed =
          λ w tracked. reload-Evolving env gid w

      workflow_step-EvolvingFrom :
          (tx : Transaction) (place : Option (ℕ × Branch))
          → tx.kind ≡ TransactionKind.workflow
          → status_in tx.status workflow_start_states ≡ true
          → EvolvingFrom tx (workflow_step (alone env) gid next tx place)
      unfolding workflow_step workflow_end later futures
      workflow_step-EvolvingFrom tx none kind allowed =
          if-EvolvingFrom tx (all_succeeded tx.branches)
            (persist_as (alone env) tx TransactionStatus.succeeded tx.branches)
            (lift (err unresolved_dependencies))
            (λ _.
              last_as-EvolvingFrom env tx TransactionStatus.succeeded tx.branches
                (ground (arith, allowed)) (ground (arith, kind, allowed)))
            (λ _ w tracked. stay-Evolves w)
      workflow_step-EvolvingFrom tx (some (i, b)) kind allowed =
          let barrier = barrier_of tx.gid b "workflow" in
          bind-EvolvingFrom tx (claim (alone env) barrier)
            (λ d. step_decided (alone env) gid next tx (i, b) (is_execute d))
            (claim-Quiet env barrier)
            (λ d. step_decided-EvolvingFrom tx (i, b) (is_execute d) kind allowed)

    workflow_steps-EvolvingFrom :
        (fuel : ℕ) (tx : Transaction)
        → tx.kind ≡ TransactionKind.workflow
        → status_in tx.status workflow_start_states ≡ true
        → EvolvingFrom tx (workflow_steps (alone env) gid fuel tx)
    unfolding workflow_steps
    workflow_steps-EvolvingFrom zero tx kind allowed = λ w tracked. stay-Evolves w
    workflow_steps-EvolvingFrom (suc fuel) tx kind allowed =
        workflow_step-EvolvingFrom (workflow_steps (alone env) gid fuel)
          (workflow_steps-EvolvingFrom fuel) tx (next_ready tx.branches) kind allowed

    start_workflow_loaded-EvolvingFrom :
        (tx : Transaction)
        → tx.kind ≡ TransactionKind.workflow
        → EvolvingFrom tx (start_workflow_loaded (alone env) gid tx)
    unfolding start_workflow_loaded require_status ensure_status
    start_workflow_loaded-EvolvingFrom tx kind =
        let steps = workflow_steps (alone env) gid (suc (length tx.branches)) tx in
        ensure-EvolvingFrom tx (not (is_callback_workflow tx)) callback_workflow
          (require_status (alone env) tx workflow_start_states >> steps)
          λ _.
            ensure-EvolvingFrom tx (status_in tx.status workflow_start_states)
              (non_replayable tx.status) steps
              λ allowed. workflow_steps-EvolvingFrom (suc (length tx.branches)) tx kind allowed

  pub start_workflow-Evolving : (gid : String) → Evolving (start_workflow (alone env) gid)
  unfolding start_workflow
  start_workflow-Evolving gid =
      of_kind-Evolving env gid TransactionKind.workflow
        (run_unless (alone env) TransactionStatus.succeeded (start_workflow_loaded (alone env) gid))
        λ tx kind.
          unless-EvolvingFrom env TransactionStatus.succeeded
            (start_workflow_loaded (alone env) gid) tx
            (start_workflow_loaded-EvolvingFrom gid tx kind)
