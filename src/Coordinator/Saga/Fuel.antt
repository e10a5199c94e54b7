-- ===== src/Coordinator/Saga/Fuel.antt =====
-- The sagas of src/lib.rs, concurrent or not, never run out of the model's fuel.
use roze_dtm.Common.{
  ℕ, ◌≢◌, refl, arith, List, [], ◌∷◌, ◌++◌, reverse, String, Bool, true, false, Option, none, some,
  not, ltb, if◌then◌else◌,
}
use roze_dtm.Data.{
  TransactionKind, TransactionStatus, BranchStatus, Branch, Transaction, TransactionOptions, Result,
  ok, err, status_in, branch_is, branch_in, non_replayable, out_of_fuel,
}
use roze_dtm.Memory.Barriers.{BarrierDecision}
use roze_dtm.Workflow.{ensure_status}
use roze_dtm.Engine.{
  World, Env, Exec, pure, ◌>>=◌, ◌>>◌, claim, release, access, invoke, invoke_branch,
  current_millis, notify_branch_failure, require_status, settled, with_status, barrier_of, Stop,
  prepended, after_branch, for_branches,
}
use roze_dtm.Coordinator.Tcc.{ended, run_unless}
use roze_dtm.Coordinator.Tasks.{is_execute}
use roze_dtm.Coordinator.Concurrent.{
  saga_start_states, saga_abort_states, action_attempts, launched, persist_as,
  start_concurrent_saga, abort_concurrent_saga,
}
use roze_dtm.Coordinator.Concurrent.Fuel.{start_concurrent_saga-Gives, abort_concurrent_saga-Gives}
use roze_dtm.Coordinator.Saga.{
  undone, roll_back, compensate_with, compensate_decided, compensate_branch, write_reversed,
  abort_loop, abort_saga_loaded, abort_saga, action_failed, action_called, action_decided,
  saga_action, saga_actions, start_saga_loaded, start_saga,
}
use roze_dtm.Coordinator.Giving.{
  Given, Gives, Anything, bind-Gives, pure-Gives, if-Gives, ensure-Gives, load-Gives, of_kind-Gives,
  unless-Gives, persist-Anything, claim-Gives, release-Gives, invoke_branch-Gives,
}

pub Given-fuelled : {A : Type 0} (r : Result A) → Given Anything r → r ≢ err out_of_fuel
unfolding Given
Given-fuelled (ok a) given e = ground (arith, e)
Given-fuelled (err other) given e = ground (arith, given, e)

after_branch-Gives :
    (bs : List Branch) (rest : Exec (List Branch × Option Stop))
    → Gives Anything rest
    → (run : Branch × Option Stop) → Gives Anything (after_branch bs rest run)
unfolding after_branch
after_branch-Gives bs rest gives (b, some reason) = pure-Gives Anything (b ∷ bs, some reason) tt
after_branch-Gives bs rest gives (b, none) =
    bind-Gives Anything Anything rest (prepended b) gives
      (λ run _. pure-Gives Anything (b ∷ run.0, run.1) tt)

-- A loop over the branches, by what its body gives.
pub for_branches-Gives :
    (body : Branch → Exec (Branch × Option Stop))
    → ((b : Branch) → Gives Anything (body b))
    → (bs : List Branch) → Gives Anything (for_branches body bs)
unfolding for_branches
for_branches-Gives body gives [] = pure-Gives Anything ([], none) tt
for_branches-Gives body gives (b ∷ bs) =
    bind-Gives Anything Anything (body b) (after_branch bs (for_branches body bs)) (gives b)
      (λ run _. after_branch-Gives bs (for_branches body bs) (for_branches-Gives body gives bs) run)

module _ (env : Env) where
  write_reversed-Gives :
      (tx : Transaction) (run : List Branch × Option Stop)
      → Gives Anything (write_reversed env tx run)
  unfolding write_reversed
  write_reversed-Gives tx (bs, stop) =
      persist-Anything env tx (ended TransactionStatus.aborting TransactionStatus.aborted stop)
        (reverse bs)

  pub abort_loop-Gives :
      (body : Branch → Exec (Branch × Option Stop)) (tx : Transaction)
      → ((b : Branch) → Gives Anything (body b))
      → Gives Anything (abort_loop env body tx)
  unfolding abort_loop
  abort_loop-Gives body tx gives =
      bind-Gives Anything Anything (for_branches body (reverse tx.branches)) (write_reversed env tx)
        (for_branches-Gives body gives (reverse tx.branches)) (λ run _. write_reversed-Gives tx run)

  pub roll_back-Gives :
      (options : TransactionOptions) (gid op : String) (b : Branch) (url : String)
      → Gives Anything (roll_back env options gid op b url)
  unfolding roll_back invoke_branch invoke current_millis notify_branch_failure release access Given
  roll_back-Gives options gid op b url w = ground arith

  compensate_with-Gives :
      (options : TransactionOptions) (gid : String) (b : Branch) (url : Option String)
      → Gives Anything (compensate_with env options gid b url)
  unfolding compensate_with
  compensate_with-Gives options gid b none = pure-Gives Anything (_, none) tt
  compensate_with-Gives options gid b (some url) = roll_back-Gives options gid "compensate" b url

  compensate_decided-Gives :
      (options : TransactionOptions) (gid : String) (b : Branch) (d : BarrierDecision)
      → Gives Anything (compensate_decided env options gid b d)
  unfolding compensate_decided Given
  compensate_decided-Gives options gid b BarrierDecision.execute =
      compensate_with-Gives options gid b b.compensate
  compensate_decided-Gives options gid b BarrierDecision.skip_duplicate = λ w. tt
  compensate_decided-Gives options gid b BarrierDecision.skip_null_compensation = λ w. refl
  compensate_decided-Gives options gid b BarrierDecision.skip_cancelled_try = λ w. refl

  compensate_branch-Gives :
      (options : TransactionOptions) (gid : String) (b : Branch)
      → Gives Anything (compensate_branch env options gid b)
  unfolding compensate_branch
  compensate_branch-Gives options gid b =
      let c = with_status BranchStatus.compensating b in
      let claimed =
        claim env (barrier_of gid b "compensate") >>= compensate_decided env options gid c in
      let called = branch_in b.status (BranchStatus.succeeded ∷ BranchStatus.compensating ∷ []) in
      if-Gives Anything (branch_is b.status BranchStatus.pending)
        (pure (with_status BranchStatus.skipped b, none))
        (if not called then pure (b, none) else claimed) (λ _. pure-Gives Anything _ tt)
        (λ _.
          if-Gives Anything (not called) (pure (b, none)) claimed (λ _. pure-Gives Anything _ tt)
            (λ _.
              bind-Gives Anything Anything (claim env (barrier_of gid b "compensate"))
                (compensate_decided env options gid c)
                (claim-Gives env (barrier_of gid b "compensate"))
                (λ d _. compensate_decided-Gives options gid c d)))

  abort_saga_loaded-Gives : (tx : Transaction) → Gives Anything (abort_saga_loaded env tx)
  unfolding abort_saga_loaded require_status ensure_status
  abort_saga_loaded-Gives tx =
      let in_turn = abort_loop env (compensate_branch env tx.options tx.gid) tx in
      ensure-Gives Anything (status_in tx.status saga_abort_states) (non_replayable tx.status)
        (if tx.options.concurrent then abort_concurrent_saga env tx else in_turn) refl
        λ _.
          if-Gives Anything tx.options.concurrent (abort_concurrent_saga env tx) in_turn
            (λ _. abort_concurrent_saga-Gives env tx)
            (λ _.
              abort_loop-Gives (compensate_branch env tx.options tx.gid) tx
                (compensate_branch-Gives tx.options tx.gid))

  pub abort_saga-Gives : (gid : String) → Gives Anything (abort_saga env gid)
  unfolding abort_saga
  abort_saga-Gives gid =
      of_kind-Gives env gid TransactionKind.saga
        (run_unless env TransactionStatus.aborted (abort_saga_loaded env))
        λ tx.
          unless-Gives env TransactionStatus.aborted (abort_saga_loaded env) tx
            (abort_saga_loaded-Gives tx)

  module _ (gid : String) (limit : ℕ) where
    action_failed-Gives :
        (tx : Transaction) (before : List Branch) (b : Branch) (after : List Branch)
        → Gives Anything (action_failed env gid limit tx before b after)
    unfolding action_failed
    action_failed-Gives tx before b after =
        let barrier = barrier_of tx.gid b "action" in
        let retry =
          persist_as env tx TransactionStatus.succeeding
            (before ++ with_status BranchStatus.failed b ∷ after) in
        let lost = undone (before ++ with_status BranchStatus.compensating b ∷ after) in
        let undo = persist_as env tx TransactionStatus.aborting lost in
        if-Gives Anything (ltb b.attempts limit) (release env barrier >> retry)
          (undo >>= λ tx'. abort_saga env gid)
          (λ _.
            bind-Gives Anything Anything (release env barrier) (λ _. retry)
              (release-Gives env barrier)
              (λ _ _.
                persist-Anything env tx TransactionStatus.succeeding
                  (before ++ with_status BranchStatus.failed b ∷ after)))
          (λ _.
            bind-Gives Anything Anything undo (λ tx'. abort_saga env gid)
              (persist-Anything env tx TransactionStatus.aborting lost)
              (λ tx' _. abort_saga-Gives gid))

    module _ (next : Transaction → Branch → Exec Transaction)
        (next_gives : (tx : Transaction) (b : Branch) → Gives Anything (next tx b)) where
      action_called-Gives :
          (tx : Transaction) (before after : List Branch) (run : Branch × Bool)
          → Gives Anything (action_called env gid next limit tx before after run)
      unfolding action_called
      action_called-Gives tx before after (b, true) =
          let done = settled BranchStatus.succeeded b in
          bind-Gives Anything Anything
            (persist_as env tx TransactionStatus.succeeding (before ++ done ∷ after))
            (λ tx'. next tx' done)
            (persist-Anything env tx TransactionStatus.succeeding (before ++ done ∷ after))
            (λ tx' _. next_gives tx' done)
      action_called-Gives tx before after (b, false) = action_failed-Gives tx before b after

      action_decided-Gives :
          (tx : Transaction) (before : List Branch) (b : Branch) (after : List Branch) (c : Bool)
          → Gives Anything (action_decided env gid next limit tx before b after c)
      unfolding action_decided
      action_decided-Gives tx before b after true =
          bind-Gives Anything Anything
            (invoke_branch env tx.options tx.gid TransactionStatus.succeeding (launched b) b.action)
            (action_called env gid next limit tx before after)
            (invoke_branch-Gives env tx.options tx.gid TransactionStatus.succeeding (launched b)
              b.action)
            (λ run _. action_called-Gives tx before after run)
      action_decided-Gives tx before b after false = load-Gives env gid

      saga_action-Gives :
          (tx : Transaction) (before : List Branch) (b : Branch) (after : List Branch)
          → Gives Anything (saga_action env gid next limit tx before b after)
      unfolding saga_action
      saga_action-Gives tx before b after =
          let barrier = barrier_of tx.gid b "action" in
          let decided = λ (d : BarrierDecision).
            action_decided env gid next limit tx before b after (is_execute d) in
          if-Gives Anything (branch_is b.status BranchStatus.succeeded) (next tx b)
            (claim env barrier >>= decided) (λ _. next_gives tx b)
            (λ _.
              bind-Gives Anything Anything (claim env barrier) decided (claim-Gives env barrier)
                (λ d _. action_decided-Gives tx before b after (is_execute d)))

    saga_actions-Gives :
        (tx : Transaction) (before bs : List Branch)
        → Gives Anything (saga_actions env gid limit tx before bs)
    unfolding saga_actions
    saga_actions-Gives tx before [] = persist-Anything env tx TransactionStatus.succeeded before
    saga_actions-Gives tx before (b ∷ bs) =
        saga_action-Gives (λ tx' b'. saga_actions env gid limit tx' (before ++ b' ∷ []) bs)
          (λ tx' b'. saga_actions-Gives tx' (before ++ b' ∷ []) bs) tx before b bs

  start_saga_loaded-Gives :
      (gid : String) (tx : Transaction) → Gives Anything (start_saga_loaded env gid tx)
  unfolding start_saga_loaded require_status ensure_status
  start_saga_loaded-Gives gid tx =
      let actions = λ (tx' : Transaction).
        saga_actions env gid (action_attempts tx.options) tx' [] tx.branches in
      let first = persist_as env tx TransactionStatus.succeeding tx.branches in
      ensure-Gives Anything (status_in tx.status saga_start_states) (non_replayable tx.status)
        (if tx.options.concurrent then start_concurrent_saga env tx else (first >>= actions)) refl
        λ _.
          if-Gives Anything tx.options.concurrent (start_concurrent_saga env tx) (first >>= actions)
            (λ _. start_concurrent_saga-Gives env tx)
            (λ _.
              bind-Gives Anything Anything first actions
                (persist-Anything env tx TransactionStatus.succeeding tx.branches)
                (λ tx' _. saga_actions-Gives gid (action_attempts tx.options) tx' [] tx.branches))

  start_saga-Gives : (gid : String) → Gives Anything (start_saga env gid)
  unfolding start_saga
  start_saga-Gives gid =
      of_kind-Gives env gid TransactionKind.saga
        (run_unless env TransactionStatus.succeeded (start_saga_loaded env gid))
        λ tx.
          unless-Gives env TransactionStatus.succeeded (start_saga_loaded env gid) tx
            (start_saga_loaded-Gives gid tx)

  -- A saga that is started or aborted, concurrent or not, never ends for want of the model's fuel, whatever
  -- other workers do.
  pub saga_fuelled :
      (gid : String) (w : World)
      → ((start_saga env gid w).0 ≢ err out_of_fuel) × ((abort_saga env gid w).0 ≢ err out_of_fuel)
  saga_fuelled gid w = (
    Given-fuelled (start_saga env gid w).0 (start_saga-Gives gid w),
    Given-fuelled (abort_saga env gid w).0 (abort_saga-Gives gid w),
  )
