-- ===== src/Coordinator/Saga/Life.antt =====
-- How the sagas of src/lib.rs move the stored transactions.
use roze_dtm.Common.{
  ℕ, ◌≡◌, refl, arith, List, [], ◌∷◌, ◌++◌, reverse, String, Bool, true, false, Option, none, some,
  not, ltb, if◌then◌else◌,
}
use roze_dtm.Data.{
  TransactionKind, TransactionStatus, BranchStatus, Branch, Transaction, TransactionOptions, Result,
  ok, err, status_in, branch_is, branch_in, is_terminal, non_replayable,
}
use roze_dtm.Memory.Barriers.{BarrierDecision}
use roze_dtm.Workflow.{ensure_status}
use roze_dtm.Engine.{
  Env, Exec, pure, lift, ◌>>=◌, ◌>>◌, access, invoke, current_millis, notify_branch_failure, claim,
  release, invoke_branch, require_status, settled, with_status, barrier_of, Stop, for_branches,
}
use roze_dtm.Coordinator.Tcc.{left, ended, run_unless}
use roze_dtm.Coordinator.Tasks.{is_execute}
use roze_dtm.Coordinator.Tasks.Quietness.{
  bind-Quiet, if-Quiet, claim-Quiet, release-Quiet, invoke_branch-Quiet,
}
use roze_dtm.Coordinator.Concurrent.{
  saga_start_states, saga_abort_states, action_attempts, launched, persist_as,
  start_concurrent_saga, abort_concurrent_saga,
}
use roze_dtm.Coordinator.Concurrent.Life.{
  start_concurrent_saga-EvolvingFrom, abort_concurrent_saga-EvolvingFrom,
}
use roze_dtm.Coordinator.Saga.{
  undone, roll_back, compensate_with, compensate_decided, compensate_branch, write_reversed,
  abort_loop, abort_saga_loaded, abort_saga, action_failed, action_called, action_decided,
  saga_action, saga_actions, start_saga_loaded, start_saga,
}
use roze_dtm.Coordinator.Lifecycle.{later, futures}
use roze_dtm.Coordinator.Writes.{alone, Keeps, for_branches-Keeps}
use roze_dtm.Coordinator.Tracking.{
  Evolving, EvolvingFrom, Quiet, bind-EvolvingFrom, if-EvolvingFrom, ensure-EvolvingFrom,
  next_revision, persist_as-EvolvingFrom, last_as-EvolvingFrom, reload-Evolving, of_kind-Evolving,
  unless-EvolvingFrom,
}

pub for_branches-Quiet :
    (body : Branch → Exec (Branch × Option Stop))
    → ((b : Branch) → Quiet (body b))
    → (bs : List Branch) → Quiet (for_branches body bs)
unfolding Keeps
for_branches-Quiet body quiet bs = for_branches-Keeps body quiet bs

pub lift-Quiet :
    {A B : Type 0} (r : Result A) (k : A → Exec B) → ((a : A) → Quiet (k a)) → Quiet (lift r >>= k)
lift-Quiet (ok a) k quiet = quiet a
lift-Quiet (err e) k quiet = λ w. refl

module _ (env : Env) where
  -- The methods that undo a transaction end with a write of Aborting or Aborted.
  write_reversed-EvolvingFrom :
      (tx : Transaction) (run : List Branch × Option Stop)
      → is_terminal tx.status ≡ false
      → ((stop : Option Stop)
          → later tx.kind tx.status
              (ended TransactionStatus.aborting TransactionStatus.aborted stop)
            ≡ true)
      → EvolvingFrom tx (write_reversed (alone env) tx run)
  unfolding write_reversed
  write_reversed-EvolvingFrom tx (bs, stop) active next =
      last_as-EvolvingFrom env tx (ended TransactionStatus.aborting TransactionStatus.aborted stop)
        (reverse bs) active (next stop)

  pub abort_loop-EvolvingFrom :
      (body : Branch → Exec (Branch × Option Stop)) (tx : Transaction)
      → ((b : Branch) → Quiet (body b))
      → is_terminal tx.status ≡ false
      → ((stop : Option Stop)
          → later tx.kind tx.status
              (ended TransactionStatus.aborting TransactionStatus.aborted stop)
            ≡ true)
      → EvolvingFrom tx (abort_loop (alone env) body tx)
  unfolding abort_loop
  abort_loop-EvolvingFrom body tx quiet active next =
      bind-EvolvingFrom tx (for_branches body (reverse tx.branches)) (write_reversed (alone env) tx)
        (for_branches-Quiet body quiet (reverse tx.branches))
        (λ run. write_reversed-EvolvingFrom tx run active next)

  pub roll_back-Quiet :
      (options : TransactionOptions) (gid op : String) (b : Branch) (url : String)
      → Quiet (roll_back (alone env) options gid op b url)
  unfolding roll_back invoke_branch invoke current_millis notify_branch_failure release access
  roll_back-Quiet options gid op b url w = ground arith

  compensate_with-Quiet :
      (options : TransactionOptions) (gid : String) (b : Branch) (compensate : Option String)
      → Quiet (compensate_with (alone env) options gid b compensate)
  unfolding compensate_with
  compensate_with-Quiet options gid b none w = refl
  compensate_with-Quiet options gid b (some url) w =
      roll_back-Quiet options gid "compensate" b url w

  compensate_decided-Quiet :
      (options : TransactionOptions) (gid : String) (b : Branch) (d : BarrierDecision)
      → Quiet (compensate_decided (alone env) options gid b d)
  unfolding compensate_decided
  compensate_decided-Quiet options gid b BarrierDecision.execute w =
      compensate_with-Quiet options gid b b.compensate w
  compensate_decided-Quiet options gid b BarrierDecision.skip_duplicate w = refl
  compensate_decided-Quiet options gid b BarrierDecision.skip_null_compensation w = refl
  compensate_decided-Quiet options gid b BarrierDecision.skip_cancelled_try w = refl

  compensate_branch-Quiet :
      (options : TransactionOptions) (gid : String) (b : Branch)
      → Quiet (compensate_branch (alone env) options gid b)
  unfolding compensate_branch
  compensate_branch-Quiet options gid b =
      let c = with_status BranchStatus.compensating b in
      let claimed =
        claim (alone env) (barrier_of gid b "compensate")
        >>= compensate_decided (alone env) options gid c in
      let called = branch_in b.status (BranchStatus.succeeded ∷ BranchStatus.compensating ∷ []) in
      if-Quiet (branch_is b.status BranchStatus.pending)
        (pure (with_status BranchStatus.skipped b, none))
        (if not called then pure (b, none) else claimed) (λ w. refl)
        (if-Quiet (not called) (pure (b, none)) claimed (λ w. refl)
          (bind-Quiet (claim (alone env) (barrier_of gid b "compensate"))
            (compensate_decided (alone env) options gid c)
            (claim-Quiet env (barrier_of gid b "compensate"))
            (compensate_decided-Quiet options gid c)))

  abort_saga_loaded-EvolvingFrom :
      (tx : Transaction)
      → tx.kind ≡ TransactionKind.saga
      → EvolvingFrom tx (abort_saga_loaded (alone env) tx)
  unfolding abort_saga_loaded require_status ensure_status later futures
  abort_saga_loaded-EvolvingFrom tx kind =
      let in_turn = abort_loop (alone env) (compensate_branch (alone env) tx.options tx.gid) tx in
      ensure-EvolvingFrom tx (status_in tx.status saga_abort_states) (non_replayable tx.status)
        (if tx.options.concurrent then abort_concurrent_saga (alone env) tx else in_turn)
        λ allowed.
          if-EvolvingFrom tx tx.options.concurrent (abort_concurrent_saga (alone env) tx) in_turn
            (λ _. abort_concurrent_saga-EvolvingFrom env tx kind allowed)
            (λ _.
              abort_loop-EvolvingFrom (compensate_branch (alone env) tx.options tx.gid) tx
                (compensate_branch-Quiet tx.options tx.gid) (ground (arith, allowed))
                (λ stop. ground (arith, kind, allowed)))

  pub abort_saga-Evolving : (gid : String) → Evolving (abort_saga (alone env) gid)
  unfolding abort_saga
  abort_saga-Evolving gid =
      of_kind-Evolving env gid TransactionKind.saga
        (run_unless (alone env) TransactionStatus.aborted (abort_saga_loaded (alone env)))
        λ tx kind.
          unless-EvolvingFrom env TransactionStatus.aborted (abort_saga_loaded (alone env)) tx
            (abort_saga_loaded-EvolvingFrom tx kind)

  module _ (gid : String) (limit : ℕ) where
    action_failed-EvolvingFrom :
        (tx : Transaction) (before : List Branch) (b : Branch) (after : List Branch)
        → tx.kind ≡ TransactionKind.saga
        → tx.status ≡ TransactionStatus.succeeding
        → EvolvingFrom tx (action_failed (alone env) gid limit tx before b after)
    unfolding action_failed later futures
    action_failed-EvolvingFrom tx before b after kind status =
        let kept = before ++ with_status BranchStatus.failed b ∷ after in
        let lost = undone (before ++ with_status BranchStatus.compensating b ∷ after) in
        let retry = persist_as (alone env) tx TransactionStatus.succeeding kept in
        if-EvolvingFrom tx (ltb b.attempts limit)
          (release (alone env) (barrier_of tx.gid b "action") >> retry)
          (persist_as (alone env) tx TransactionStatus.aborting lost >>= λ tx'.
            abort_saga (alone env) gid)
          (λ _.
            bind-EvolvingFrom tx (release (alone env) (barrier_of tx.gid b "action")) (λ _. retry)
              (release-Quiet env (barrier_of tx.gid b "action"))
              (λ _.
                last_as-EvolvingFrom env tx TransactionStatus.succeeding kept
                  (ground (arith, status)) (ground (arith, kind, status))))
          (λ _.
            persist_as-EvolvingFrom env tx TransactionStatus.aborting lost
              (λ tx'. abort_saga (alone env) gid) (ground (arith, status))
              (ground (arith, kind, status)) (λ w tracked. abort_saga-Evolving gid w))

    module _ (next : Transaction → Branch → Exec Transaction)
        (next_evolving : (tx : Transaction) (b : Branch)
          → tx.kind ≡ TransactionKind.saga
          → tx.status ≡ TransactionStatus.succeeding
          → EvolvingFrom tx (next tx b)) where
      action_called-EvolvingFrom :
          (tx : Transaction) (before after : List Branch) (run : Branch × Bool)
          → tx.kind ≡ TransactionKind.saga
          → tx.status ≡ TransactionStatus.succeeding
          → EvolvingFrom tx (action_called (alone env) gid next limit tx before after run)
      unfolding action_called later futures
      action_called-EvolvingFrom tx before after (b, true) kind status =
          let done = settled BranchStatus.succeeded b in
          let bs = before ++ done ∷ after in
          persist_as-EvolvingFrom env tx TransactionStatus.succeeding bs (λ tx'. next tx' done)
            (ground (arith, status)) (ground (arith, kind, status))
            (next_evolving (next_revision (left tx TransactionStatus.succeeding bs)) done kind refl)
      action_called-EvolvingFrom tx before after (b, false) kind status =
          action_failed-EvolvingFrom tx before b after kind status

      action_decided-EvolvingFrom :
          (tx : Transaction) (before : List Branch) (b : Branch) (after : List Branch) (c : Bool)
          → tx.kind ≡ TransactionKind.saga
          → tx.status ≡ TransactionStatus.succeeding
          → EvolvingFrom tx (action_decided (alone env) gid next limit tx before b after c)
      unfolding action_decided
      action_decided-EvolvingFrom tx before b after true kind status =
          let call =
            invoke_branch (alone env) tx.options tx.gid TransactionStatus.succeeding (launched b)
              b.action in
          bind-EvolvingFrom tx call (action_called (alone env) gid next limit tx before after)
            (invoke_branch-Quiet env tx.options tx.gid TransactionStatus.succeeding (launched b)
              b.action)
            (λ run. action_called-EvolvingFrom tx before after run kind status)
      action_decided-EvolvingFrom tx before b after false kind status =
          λ w tracked. reload-Evolving env gid w

      saga_action-EvolvingFrom :
          (tx : Transaction) (before : List Branch) (b : Branch) (after : List Branch)
          → tx.kind ≡ TransactionKind.saga
          → tx.status ≡ TransactionStatus.succeeding
          → EvolvingFrom tx (saga_action (alone env) gid next limit tx before b after)
      unfolding saga_action
      saga_action-EvolvingFrom tx before b after kind status =
          let decided = λ (d : BarrierDecision).
            action_decided (alone env) gid next limit tx before b after (is_execute d) in
          let barrier = barrier_of tx.gid b "action" in
          if-EvolvingFrom tx (branch_is b.status BranchStatus.succeeded) (next tx b)
            (claim (alone env) barrier >>= decided) (λ _. next_evolving tx b kind status)
            (λ _.
              bind-EvolvingFrom tx (claim (alone env) barrier) decided (claim-Quiet env barrier)
                (λ d. action_decided-EvolvingFrom tx before b after (is_execute d) kind status))

    saga_actions-EvolvingFrom :
        (tx : Transaction) (before bs : List Branch)
        → tx.kind ≡ TransactionKind.saga
        → tx.status ≡ TransactionStatus.succeeding
        → EvolvingFrom tx (saga_actions (alone env) gid limit tx before bs)
    unfolding saga_actions later futures
    saga_actions-EvolvingFrom tx before [] kind status =
        last_as-EvolvingFrom env tx TransactionStatus.succeeded before (ground (arith, status))
          (ground (arith, kind, status))
    saga_actions-EvolvingFrom tx before (b ∷ bs) kind status =
        saga_action-EvolvingFrom
          (λ tx' b'. saga_actions (alone env) gid limit tx' (before ++ b' ∷ []) bs)
          (λ tx' b'. saga_actions-EvolvingFrom tx' (before ++ b' ∷ []) bs) tx before b bs kind
          status

  start_saga_loaded-EvolvingFrom :
      (gid : String) (tx : Transaction)
      → tx.kind ≡ TransactionKind.saga
      → EvolvingFrom tx (start_saga_loaded (alone env) gid tx)
  unfolding start_saga_loaded require_status ensure_status later futures
  start_saga_loaded-EvolvingFrom gid tx kind =
      let limit = action_attempts tx.options in
      let actions = λ (tx' : Transaction). saga_actions (alone env) gid limit tx' [] tx.branches in
      let in_turn =
        persist_as (alone env) tx TransactionStatus.succeeding tx.branches >>= actions in
      ensure-EvolvingFrom tx (status_in tx.status saga_start_states) (non_replayable tx.status)
        (if tx.options.concurrent then start_concurrent_saga (alone env) tx else in_turn)
        λ allowed.
          if-EvolvingFrom tx tx.options.concurrent (start_concurrent_saga (alone env) tx) in_turn
            (λ _. start_concurrent_saga-EvolvingFrom env tx kind allowed)
            (λ _.
              persist_as-EvolvingFrom env tx TransactionStatus.succeeding tx.branches actions
                (ground (arith, allowed)) (ground (arith, kind, allowed))
                (saga_actions-EvolvingFrom gid limit
                  (next_revision (left tx TransactionStatus.succeeding tx.branches)) [] tx.branches
                  kind refl))

  pub start_saga-Evolving : (gid : String) → Evolving (start_saga (alone env) gid)
  unfolding start_saga
  start_saga-Evolving gid =
      of_kind-Evolving env gid TransactionKind.saga
        (run_unless (alone env) TransactionStatus.succeeded (start_saga_loaded (alone env) gid))
        λ tx kind.
          unless-EvolvingFrom env TransactionStatus.succeeded (start_saga_loaded (alone env) gid) tx
            (start_saga_loaded-EvolvingFrom gid tx kind)
