-- ===== src/Coordinator/Messages/Life.antt =====
-- How `dispatch_message` of src/lib.rs moves the stored transactions.
use roze_dtm.Common.{
  ◌≡◌, refl, arith, List, [], map, String, Bool, true, false, Option, none, not, filterb,
  if◌then◌else◌,
}
use roze_dtm.Data.{
  TransactionKind, TransactionStatus, BranchStatus, Branch, Transaction, TransactionOptions,
  status_in, branch_is, status_is, non_replayable,
}
use roze_dtm.Memory.Barriers.{BarrierDecision}
use roze_dtm.Workflow.{ensure_status}
use roze_dtm.Schedule.{message_dispatch_due}
use roze_dtm.Engine.{
  Env, pure, ◌>>=◌, access, invoke, invoke_branch, current_millis, notify_branch_failure, claim,
  release, require_status, barrier_of, Stop, for_branches,
}
use roze_dtm.Coordinator.Tcc.{left, ended, run_unless, deliver, write_loop}
use roze_dtm.Coordinator.Tasks.{
  is_execute, on_ready, selected, Outcome, action_tasks, put_all, claim_all, batch,
}
use roze_dtm.Coordinator.Tasks.Quietness.{
  bind-Quiet, if-Quiet, claim-Quiet, claim_all-Quiet, batch-Quiet,
}
use roze_dtm.Coordinator.Concurrent.{launched, persist_as, some_failed, is_empty_list}
use roze_dtm.Coordinator.Saga.Life.{for_branches-Quiet}
use roze_dtm.Coordinator.Messages.{
  dispatch_states, is_undelivered, message_decided, message_branch, dispatch_in_turn, delivered,
  dispatch_claimed, dispatch_together, dispatch_decided, dispatch_loaded, dispatch_message,
}
use roze_dtm.Coordinator.Lifecycle.{later, futures}
use roze_dtm.Coordinator.Writes.{alone}
use roze_dtm.Coordinator.Evolution.{stay-Evolves}
use roze_dtm.Coordinator.Tracking.{
  Evolving, EvolvingFrom, Quiet, bind-EvolvingFrom, if-EvolvingFrom, ensure-EvolvingFrom,
  next_revision, persist_as-EvolvingFrom, last_as-EvolvingFrom, last-EvolvingFrom, reload-Evolving,
  of_kind-Evolving, unless-EvolvingFrom,
}

module _ (env : Env) where
  message_decided-Quiet :
      (options : TransactionOptions) (gid : String) (b : Branch) (c : Bool)
      → Quiet (message_decided (alone env) options gid b c)
  unfolding message_decided deliver invoke_branch invoke current_millis notify_branch_failure
      release access
  message_decided-Quiet options gid b true w = ground arith
  message_decided-Quiet options gid b false w = refl

  message_branch-Quiet :
      (options : TransactionOptions) (gid : String) (b : Branch)
      → Quiet (message_branch (alone env) options gid b)
  unfolding message_branch
  message_branch-Quiet options gid b =
      let barrier = barrier_of gid b "message" in
      let decided =
        λ (d : BarrierDecision). message_decided (alone env) options gid b (is_execute d) in
      if-Quiet (branch_is b.status BranchStatus.succeeded) (pure (b, none))
        (claim (alone env) barrier >>= decided) (λ w. refl)
        (bind-Quiet (claim (alone env) barrier) decided (claim-Quiet env barrier)
          (λ d. message_decided-Quiet options gid b (is_execute d)))

  module _ (tx : Transaction) (kind : tx.kind ≡ TransactionKind.message)
      (status : tx.status ≡ TransactionStatus.succeeding) where
    write_loop-EvolvingFrom :
        (run : List Branch × Option Stop)
        → EvolvingFrom tx (
            write_loop
              (alone env)
              tx
              (ended TransactionStatus.succeeding TransactionStatus.succeeded)
              run)
    unfolding write_loop later futures
    write_loop-EvolvingFrom (bs, stop) =
        last-EvolvingFrom env tx
          (left tx (ended TransactionStatus.succeeding TransactionStatus.succeeded stop) bs)
          (ground (arith, status)) refl refl (ground (arith, kind, status))

    dispatch_in_turn-EvolvingFrom : EvolvingFrom tx (dispatch_in_turn (alone env) tx)
    unfolding dispatch_in_turn
    dispatch_in_turn-EvolvingFrom =
        let body = message_branch (alone env) tx.options tx.gid in
        bind-EvolvingFrom tx (for_branches body tx.branches)
          (write_loop (alone env) tx
            (ended TransactionStatus.succeeding TransactionStatus.succeeded))
          (for_branches-Quiet body (message_branch-Quiet tx.options tx.gid) tx.branches)
          write_loop-EvolvingFrom

    delivered-EvolvingFrom : (os : List Outcome) → EvolvingFrom tx (delivered (alone env) tx os)
    unfolding delivered later futures
    delivered-EvolvingFrom os =
        last_as-EvolvingFrom env tx
          (if some_failed os then TransactionStatus.succeeding else TransactionStatus.succeeded)
          (put_all os tx.branches) (ground (arith, status)) (ground (arith, kind, status))

  dispatch_claimed-EvolvingFrom :
      (tx : Transaction) (c : Bool)
      → tx.kind ≡ TransactionKind.message
      → tx.status ≡ TransactionStatus.succeeding
      → EvolvingFrom tx (dispatch_claimed (alone env) tx c)
  unfolding dispatch_claimed later futures
  dispatch_claimed-EvolvingFrom tx true kind status =
      let bs = on_ready is_undelivered launched tx.branches in
      let tx' = next_revision (left tx TransactionStatus.succeeding bs) in
      let tasks = action_tasks (selected is_undelivered launched tx.branches) in
      let run =
        batch (alone env) tx.options tx.gid TransactionStatus.succeeding BranchStatus.succeeded
          BranchStatus.failed "message" tasks in
      persist_as-EvolvingFrom env tx TransactionStatus.succeeding bs
        (λ t. run >>= delivered (alone env) t) (ground (arith, status))
        (ground (arith, kind, status))
        (bind-EvolvingFrom tx' run (delivered (alone env) tx')
          (batch-Quiet env tx.options tx.gid TransactionStatus.succeeding BranchStatus.succeeded
            BranchStatus.failed "message" tasks)
          (delivered-EvolvingFrom tx' kind refl))
  dispatch_claimed-EvolvingFrom tx false kind status = λ w tracked. reload-Evolving env tx.gid w

  dispatch_together-EvolvingFrom :
      (tx : Transaction)
      → tx.kind ≡ TransactionKind.message
      → tx.status ≡ TransactionStatus.succeeding
      → EvolvingFrom tx (dispatch_together (alone env) tx)
  unfolding dispatch_together later futures
  dispatch_together-EvolvingFrom tx kind status =
      let ready = filterb is_undelivered tx.branches in
      let claiming = claim_all (alone env) [] (map (λ b. barrier_of tx.gid b "message") ready) in
      if-EvolvingFrom tx (is_empty_list ready)
        (persist_as (alone env) tx TransactionStatus.succeeded tx.branches)
        (claiming >>= dispatch_claimed (alone env) tx)
        (λ _.
          last_as-EvolvingFrom env tx TransactionStatus.succeeded tx.branches
            (ground (arith, status)) (ground (arith, kind, status)))
        (λ _.
          bind-EvolvingFrom tx claiming (dispatch_claimed (alone env) tx)
            (claim_all-Quiet env [] (map (λ b. barrier_of tx.gid b "message") ready))
            (λ c. dispatch_claimed-EvolvingFrom tx c kind status))

  dispatch_decided-EvolvingFrom :
      (tx : Transaction)
      → tx.kind ≡ TransactionKind.message
      → tx.status ≡ TransactionStatus.succeeding
      → EvolvingFrom tx (dispatch_decided (alone env) tx)
  unfolding dispatch_decided current_millis
  dispatch_decided-EvolvingFrom tx kind status =
      let now =
        if tx.options.concurrent
        then dispatch_together (alone env) tx
        else dispatch_in_turn (alone env) tx in
      bind-EvolvingFrom tx (current_millis (alone env))
        (λ t. if not (message_dispatch_due tx t) then pure tx else now) (λ w. refl)
        λ t.
          if-EvolvingFrom tx (not (message_dispatch_due tx t)) (pure tx) now
            (λ _ w tracked. stay-Evolves w)
            λ _.
              if-EvolvingFrom tx tx.options.concurrent (dispatch_together (alone env) tx)
                (dispatch_in_turn (alone env) tx)
                (λ _. dispatch_together-EvolvingFrom tx kind status)
                (λ _. dispatch_in_turn-EvolvingFrom tx kind status)

  dispatch_loaded-EvolvingFrom :
      (tx : Transaction)
      → tx.kind ≡ TransactionKind.message
      → EvolvingFrom tx (dispatch_loaded (alone env) tx)
  unfolding dispatch_loaded require_status ensure_status later futures
  dispatch_loaded-EvolvingFrom tx kind =
      let first =
        persist_as (alone env) tx TransactionStatus.succeeding tx.branches
        >>= dispatch_decided (alone env) in
      ensure-EvolvingFrom tx (status_in tx.status dispatch_states) (non_replayable tx.status)
        (if status_is tx.status TransactionStatus.succeeding
          then dispatch_decided (alone env) tx
          else first)
        λ allowed.
          if-EvolvingFrom tx (status_is tx.status TransactionStatus.succeeding)
            (dispatch_decided (alone env) tx) first
            (λ at. dispatch_decided-EvolvingFrom tx kind (ground (arith, at)))
            (λ _.
              persist_as-EvolvingFrom env tx TransactionStatus.succeeding tx.branches
                (dispatch_decided (alone env)) (ground (arith, allowed))
                (ground (arith, kind, allowed))
                (dispatch_decided-EvolvingFrom
                  (next_revision (left tx TransactionStatus.succeeding tx.branches)) kind refl))

  pub dispatch_message-Evolving : (gid : String) → Evolving (dispatch_message (alone env) gid)
  unfolding dispatch_message
  dispatch_message-Evolving gid =
      of_kind-Evolving env gid TransactionKind.message
        (run_unless (alone env) TransactionStatus.succeeded (dispatch_loaded (alone env)))
        λ tx kind.
          unless-EvolvingFrom env TransactionStatus.succeeded (dispatch_loaded (alone env)) tx
            (dispatch_loaded-EvolvingFrom tx kind)
