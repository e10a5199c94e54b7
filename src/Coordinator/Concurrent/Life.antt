-- ===== src/Coordinator/Concurrent/Life.antt =====
-- How the concurrent sagas of src/lib.rs move the stored transactions.
use roze_dtm.Common.{
  ℕ, zero, suc, ◌≡◌, refl, arith, List, [], map, Bool, true, false, not, length, filterb,
  if◌then◌else◌,
}
use roze_dtm.Data.{
  TransactionKind, TransactionStatus, BranchStatus, Branch, Transaction, ensure, status_in,
  unresolved_dependencies,
}
use roze_dtm.Graph.{validate_transaction_dependencies}
use roze_dtm.Engine.{Env, Exec, pure, lift, ◌>>=◌, ◌>>◌, attempted, barrier_of}
use roze_dtm.Coordinator.Tcc.{left}
use roze_dtm.Coordinator.Tasks.{
  on_ready, selected, Task, Outcome, action_tasks, compensation_tasks, put_all, claim_all, batch,
}
use roze_dtm.Coordinator.Concurrent.{
  saga_start_states, saga_abort_states, action_attempts, all_succeeded, is_ready, is_compensable,
  launched, given_up, to_compensate, some_retryable, some_exhausted, some_failed, none_compensating,
  is_empty_list, persist_as, compensated, compensate_round, compensate_claimed, abort_round,
  abort_rounds, abort_concurrent_saga, called, action_round, action_claimed, start_round,
  start_rounds, start_concurrent_saga,
}
use roze_dtm.Coordinator.Tasks.Quietness.{claim_all-Quiet, batch-Quiet}
use roze_dtm.Coordinator.Lifecycle.{later, futures}
use roze_dtm.Coordinator.Writes.{alone}
use roze_dtm.Coordinator.Evolution.{stay-Evolves}
use roze_dtm.Coordinator.Tracking.{
  EvolvingFrom, bind-EvolvingFrom, if-EvolvingFrom, lift-EvolvingFrom, ensure-EvolvingFrom,
  next_revision, persist_as-EvolvingFrom, last_as-EvolvingFrom, reload-Evolving,
}

module _ (env : Env) where
  module _ (next : Transaction → Exec Transaction)
      (next_evolving : (tx : Transaction)
        → tx.kind ≡ TransactionKind.saga
        → tx.status ≡ TransactionStatus.aborting
        → EvolvingFrom tx (next tx)) where
    compensated-EvolvingFrom :
        (tx : Transaction) (os : List Outcome)
        → tx.kind ≡ TransactionKind.saga
        → tx.status ≡ TransactionStatus.aborting
        → EvolvingFrom tx (compensated (alone env) next tx os)
    unfolding compensated later futures
    compensated-EvolvingFrom tx os kind status =
        let tx' = next_revision (left tx TransactionStatus.aborting (put_all os tx.branches)) in
        persist_as-EvolvingFrom env tx TransactionStatus.aborting (put_all os tx.branches)
          (λ t. if some_failed os then pure t else next t) (ground (arith, status))
          (ground (arith, kind, status))
          (if-EvolvingFrom tx' (some_failed os) (pure tx') (next tx')
            (λ _ w tracked. stay-Evolves w) (λ _. next_evolving tx' kind refl))

    compensate_round-EvolvingFrom :
        (tx : Transaction) (before : List Branch)
        → tx.kind ≡ TransactionKind.saga
        → tx.status ≡ TransactionStatus.aborting
        → EvolvingFrom tx (compensate_round (alone env) next tx before)
    unfolding compensate_round later futures
    compensate_round-EvolvingFrom tx before kind status =
        let bs = on_ready (is_compensable before) attempted before in
        let tx' = next_revision (left tx TransactionStatus.aborting bs) in
        let run = λ (tasks : List Task).
          batch (alone env) tx.options tx.gid TransactionStatus.aborting BranchStatus.skipped
            BranchStatus.compensating "compensate" tasks in
        let tasks = compensation_tasks (selected (is_compensable before) attempted before) in
        persist_as-EvolvingFrom env tx TransactionStatus.aborting bs
          (λ t. lift tasks >>= λ ts. run ts >>= compensated (alone env) next t)
          (ground (arith, status)) (ground (arith, kind, status))
          (lift-EvolvingFrom tx' tasks (λ ts. run ts >>= compensated (alone env) next tx')
            λ ts.
              bind-EvolvingFrom tx' (run ts) (compensated (alone env) next tx')
                (batch-Quiet env tx.options tx.gid TransactionStatus.aborting BranchStatus.skipped
                  BranchStatus.compensating "compensate" ts)
                (λ os. compensated-EvolvingFrom tx' os kind refl))

    compensate_claimed-EvolvingFrom :
        (tx : Transaction) (claimed : Bool)
        → tx.kind ≡ TransactionKind.saga
        → tx.status ≡ TransactionStatus.aborting
        → EvolvingFrom tx (compensate_claimed (alone env) next tx claimed)
    unfolding compensate_claimed
    compensate_claimed-EvolvingFrom tx true kind status =
        compensate_round-EvolvingFrom tx tx.branches kind status
    compensate_claimed-EvolvingFrom tx false kind status = λ w tracked. reload-Evolving env tx.gid w

    abort_round-EvolvingFrom :
        (tx : Transaction)
        → tx.kind ≡ TransactionKind.saga
        → tx.status ≡ TransactionStatus.aborting
        → EvolvingFrom tx (abort_round (alone env) next tx)
    unfolding abort_round later futures
    abort_round-EvolvingFrom tx kind status =
        let ready = filterb (is_compensable tx.branches) tx.branches in
        let barriers = map (λ b. barrier_of tx.gid b "compensate") ready in
        let claim_then =
          claim_all (alone env) [] barriers >>= compensate_claimed (alone env) next tx in
        if-EvolvingFrom tx (none_compensating tx.branches)
          (persist_as (alone env) tx TransactionStatus.aborted tx.branches)
          (lift (ensure (not (is_empty_list ready)) unresolved_dependencies) >> claim_then)
          (λ _.
            last_as-EvolvingFrom env tx TransactionStatus.aborted tx.branches
              (ground (arith, status)) (ground (arith, kind, status)))
          λ _.
            ensure-EvolvingFrom tx (not (is_empty_list ready)) unresolved_dependencies claim_then
              λ _.
                bind-EvolvingFrom tx (claim_all (alone env) [] barriers)
                  (compensate_claimed (alone env) next tx) (claim_all-Quiet env [] barriers)
                  (λ c. compensate_claimed-EvolvingFrom tx c kind status)

  abort_rounds-EvolvingFrom :
      (fuel : ℕ) (tx : Transaction)
      → tx.kind ≡ TransactionKind.saga
      → tx.status ≡ TransactionStatus.aborting
      → EvolvingFrom tx (abort_rounds (alone env) fuel tx)
  unfolding abort_rounds
  abort_rounds-EvolvingFrom zero tx kind status = λ w tracked. stay-Evolves w
  abort_rounds-EvolvingFrom (suc fuel) tx kind status =
      abort_round-EvolvingFrom (abort_rounds (alone env) fuel) (abort_rounds-EvolvingFrom fuel) tx
        kind status

  pub abort_concurrent_saga-EvolvingFrom :
      (tx : Transaction)
      → tx.kind ≡ TransactionKind.saga
      → status_in tx.status saga_abort_states ≡ true
      → EvolvingFrom tx (abort_concurrent_saga (alone env) tx)
  unfolding abort_concurrent_saga later futures
  abort_concurrent_saga-EvolvingFrom tx kind allowed =
      let bs = map to_compensate tx.branches in
      let rounds = abort_rounds (alone env) (suc (length tx.branches)) in
      lift-EvolvingFrom tx (validate_transaction_dependencies tx)
        (λ _. persist_as (alone env) tx TransactionStatus.aborting bs >>= rounds)
        λ _.
          persist_as-EvolvingFrom env tx TransactionStatus.aborting bs rounds
            (ground (arith, allowed)) (ground (arith, kind, allowed))
            (abort_rounds-EvolvingFrom (suc (length tx.branches))
              (next_revision (left tx TransactionStatus.aborting bs)) kind refl)

  module _ (next : Transaction → Exec Transaction)
      (next_evolving : (tx : Transaction)
        → tx.kind ≡ TransactionKind.saga
        → tx.status ≡ TransactionStatus.succeeding
        → EvolvingFrom tx (next tx))
      (limit : ℕ) where
    called-EvolvingFrom :
        (tx : Transaction) (os : List Outcome)
        → tx.kind ≡ TransactionKind.saga
        → tx.status ≡ TransactionStatus.succeeding
        → EvolvingFrom tx (called (alone env) next limit tx os)
    unfolding called later futures
    called-EvolvingFrom tx os kind status =
        let bs = put_all os tx.branches in
        let undone = map given_up bs in
        let failing =
          persist_as (alone env) tx TransactionStatus.aborting undone
          >>= abort_concurrent_saga (alone env) in
        let rest = λ (t : Transaction). if some_retryable limit os then pure t else next t in
        let tx' = next_revision (left tx TransactionStatus.succeeding bs) in
        if-EvolvingFrom tx (some_exhausted limit os) failing
          (persist_as (alone env) tx TransactionStatus.succeeding bs >>= rest)
          (λ _.
            persist_as-EvolvingFrom env tx TransactionStatus.aborting undone
              (abort_concurrent_saga (alone env)) (ground (arith, status))
              (ground (arith, kind, status))
              (abort_concurrent_saga-EvolvingFrom
                (next_revision (left tx TransactionStatus.aborting undone)) kind refl))
          λ _.
            persist_as-EvolvingFrom env tx TransactionStatus.succeeding bs rest
              (ground (arith, status)) (ground (arith, kind, status))
              (if-EvolvingFrom tx' (some_retryable limit os) (pure tx') (next tx')
                (λ _ w tracked. stay-Evolves w) (λ _. next_evolving tx' kind refl))

    action_round-EvolvingFrom :
        (tx : Transaction) (before : List Branch)
        → tx.kind ≡ TransactionKind.saga
        → tx.status ≡ TransactionStatus.succeeding
        → EvolvingFrom tx (action_round (alone env) next limit tx before)
    unfolding action_round later futures
    action_round-EvolvingFrom tx before kind status =
        let bs = on_ready (is_ready before) launched before in
        let tx' = next_revision (left tx TransactionStatus.succeeding bs) in
        let tasks = action_tasks (selected (is_ready before) launched before) in
        let run =
          batch (alone env) tx.options tx.gid TransactionStatus.succeeding BranchStatus.succeeded
            BranchStatus.failed "action" tasks in
        persist_as-EvolvingFrom env tx TransactionStatus.succeeding bs
          (λ t. run >>= called (alone env) next limit t) (ground (arith, status))
          (ground (arith, kind, status))
          (bind-EvolvingFrom tx' run (called (alone env) next limit tx')
            (batch-Quiet env tx.options tx.gid TransactionStatus.succeeding BranchStatus.succeeded
              BranchStatus.failed "action" tasks)
            (λ os. called-EvolvingFrom tx' os kind refl))

    action_claimed-EvolvingFrom :
        (tx : Transaction) (claimed : Bool)
        → tx.kind ≡ TransactionKind.saga
        → tx.status ≡ TransactionStatus.succeeding
        → EvolvingFrom tx (action_claimed (alone env) next limit tx claimed)
    unfolding action_claimed
    action_claimed-EvolvingFrom tx true kind status =
        action_round-EvolvingFrom tx tx.branches kind status
    action_claimed-EvolvingFrom tx false kind status = λ w tracked. reload-Evolving env tx.gid w

    start_round-EvolvingFrom :
        (tx : Transaction)
        → tx.kind ≡ TransactionKind.saga
        → tx.status ≡ TransactionStatus.succeeding
        → EvolvingFrom tx (start_round (alone env) next limit tx)
    unfolding start_round later futures
    start_round-EvolvingFrom tx kind status =
        let ready = filterb (is_ready tx.branches) tx.branches in
        let barriers = map (λ b. barrier_of tx.gid b "action") ready in
        let claim_then =
          claim_all (alone env) [] barriers >>= action_claimed (alone env) next limit tx in
        if-EvolvingFrom tx (all_succeeded tx.branches)
          (persist_as (alone env) tx TransactionStatus.succeeded tx.branches)
          (if is_empty_list ready then pure tx else claim_then)
          (λ _.
            last_as-EvolvingFrom env tx TransactionStatus.succeeded tx.branches
              (ground (arith, status)) (ground (arith, kind, status)))
          λ _.
            if-EvolvingFrom tx (is_empty_list ready) (pure tx) claim_then
              (λ _ w tracked. stay-Evolves w)
              λ _.
                bind-EvolvingFrom tx (claim_all (alone env) [] barriers)
                  (action_claimed (alone env) next limit tx) (claim_all-Quiet env [] barriers)
                  (λ c. action_claimed-EvolvingFrom tx c kind status)

  start_rounds-EvolvingFrom :
      (fuel limit : ℕ) (tx : Transaction)
      → tx.kind ≡ TransactionKind.saga
      → tx.status ≡ TransactionStatus.succeeding
      → EvolvingFrom tx (start_rounds (alone env) fuel limit tx)
  unfolding start_rounds
  start_rounds-EvolvingFrom zero limit tx kind status = λ w tracked. stay-Evolves w
  start_rounds-EvolvingFrom (suc fuel) limit tx kind status =
      start_round-EvolvingFrom (start_rounds (alone env) fuel limit)
        (start_rounds-EvolvingFrom fuel limit) limit tx kind status

  pub start_concurrent_saga-EvolvingFrom :
      (tx : Transaction)
      → tx.kind ≡ TransactionKind.saga
      → status_in tx.status saga_start_states ≡ true
      → EvolvingFrom tx (start_concurrent_saga (alone env) tx)
  unfolding start_concurrent_saga later futures
  start_concurrent_saga-EvolvingFrom tx kind allowed =
      let rounds =
        start_rounds (alone env) (suc (length tx.branches)) (action_attempts tx.options) in
      lift-EvolvingFrom tx (validate_transaction_dependencies tx)
        (λ _. persist_as (alone env) tx TransactionStatus.succeeding tx.branches >>= rounds)
        λ _.
          persist_as-EvolvingFrom env tx TransactionStatus.succeeding tx.branches rounds
            (ground (arith, allowed)) (ground (arith, kind, allowed))
            (start_rounds-EvolvingFrom (suc (length tx.branches)) (action_attempts tx.options)
              (next_revision (left tx TransactionStatus.succeeding tx.branches)) kind refl)
