-- ===== src/Coordinator/Concurrent/Fuel.antt =====
-- The fuel of the concurrent sagas of src/lib.rs.
use roze_dtm.Common.{
  ℕ, zero, suc, ◌≡◌, ◌<◌, ◌≤◌, refl, arith, ap, subst, sym, List, [], map, Bool, true, false, not,
  length, filterb, if◌then◌else◌, ◌∙◌,
}
use roze_dtm.Data.{
  TransactionStatus, BranchStatus, Branch, Transaction, ensure, unresolved_dependencies,
}
use roze_dtm.Graph.{validate_transaction_dependencies}
use roze_dtm.Engine.{Env, Exec, pure, lift, ◌>>=◌, ◌>>◌, attempted, barrier_of}
use roze_dtm.Coordinator.Tasks.{
  on_ready, selected, Task, Outcome, action_tasks, compensation_tasks, put_all, claim_all, batch,
}
use roze_dtm.Coordinator.Tasks.Progress.{
  count, Listing, OutcomeAt, TaskAt, claim_all-Gives, batch-Gives,
}
use roze_dtm.Coordinator.Tasks.Places.{
  length-map, selected-Listing, action_tasks-Listing, compensation_tasks-Given,
}
use roze_dtm.Coordinator.Concurrent.{
  action_attempts, all_succeeded, is_ready, is_compensable, launched, given_up, to_compensate,
  some_retryable, some_exhausted, some_failed, none_compensating, is_empty_list, persist_as,
  compensated, compensate_round, compensate_claimed, abort_round, abort_rounds,
  abort_concurrent_saga, called, action_round, action_claimed, start_round, start_rounds,
  start_concurrent_saga,
}
use roze_dtm.Coordinator.Giving.{
  Gives, Anything, bind-Gives, pure-Gives, if-Gives, lift-Gives, ensure-Gives, load-Gives,
  persist_as-Gives, persist-Anything,
}
use roze_dtm.Coordinator.Concurrent.Shrinking.{
  count-map, count-le-length, compensating, unfinished, round-lt, not_failed, validated-Given,
  compensable-compensating, ready-unfinished, count-launched, count-attempted,
}

module _ (env : Env) where
  module _ (next : Transaction → Exec Transaction) (n : ℕ)
      (next_gives : (tx : Transaction)
        → count compensating tx.branches < n
        → Gives Anything (next tx)) where
    compensated-Gives :
        (tx : Transaction) (bs : List Branch) (k : ℕ) (os : List Outcome)
        → tx.branches ≡ bs
        → count compensating bs ≤ n
        → 1 ≤ k
        → Listing (OutcomeAt compensating bs) k os
        → Gives Anything (compensated env next tx os)
    unfolding compensated
    compensated-Gives tx bs k os same room some_task listing =
        let bs' = put_all os tx.branches in
        bind-Gives (λ tx'. tx'.branches ≡ bs') Anything
          (persist_as env tx TransactionStatus.aborting bs')
          (λ tx'. if some_failed os then pure tx' else next tx')
          (persist_as-Gives env tx TransactionStatus.aborting bs')
          λ tx' left.
            if-Gives Anything (some_failed os) (pure tx') (next tx')
              (λ _. pure-Gives Anything tx' tt)
              λ fine. next_gives tx' (
                subst (λ cs. count compensating cs < n) (sym (left ∙ ap (put_all os) same))
                  (omega (arith, room, round-lt compensating bs os k some_task listing fine)))

    compensate_round-Gives :
        (tx : Transaction) (before : List Branch)
        → count compensating before ≤ n
        → 1 ≤ length (filterb (is_compensable before) before)
        → Gives Anything (compensate_round env next tx before)
    unfolding compensate_round
    compensate_round-Gives tx before room some_task =
        let ready = is_compensable before in
        let bs = on_ready ready attempted before in
        let places = selected ready attempted before in
        let placed =
          selected-Listing compensating ready attempted before (compensable-compensating before) in
        let run = λ (tasks : List Task).
          batch env tx.options tx.gid TransactionStatus.aborting BranchStatus.skipped
            BranchStatus.compensating "compensate" tasks in
        bind-Gives (λ tx'. tx'.branches ≡ bs) Anything
          (persist_as env tx TransactionStatus.aborting bs)
          (λ tx'.
            lift (compensation_tasks places) >>= λ tasks. run tasks >>= compensated env next tx')
          (persist_as-Gives env tx TransactionStatus.aborting bs)
          λ tx' same.
            lift-Gives (Listing (TaskAt compensating bs) (length places)) Anything
              (compensation_tasks places) (λ tasks. run tasks >>= compensated env next tx')
              (compensation_tasks-Given compensating bs places placed.0)
              λ tasks (at, l).
                bind-Gives (Listing (OutcomeAt compensating bs) (length tasks)) Anything (run tasks)
                  (compensated env next tx')
                  (batch-Gives env compensating bs tx.options tx.gid TransactionStatus.aborting
                    BranchStatus.skipped BranchStatus.compensating (λ b. refl) "compensate" tasks
                    at)
                  λ os listing.
                    compensated-Gives tx' bs (length tasks) os same
                      (subst (λ m. m ≤ n)
                        (sym (
                          count-map compensating (λ b. if ready b then attempted b else b) before
                            (count-attempted before)))
                        room)
                      (omega (arith, l, placed.1, some_task)) listing

    compensate_claimed-Gives :
        (tx : Transaction) (claimed : Bool)
        → count compensating tx.branches ≤ n
        → 1 ≤ length (filterb (is_compensable tx.branches) tx.branches)
        → Gives Anything (compensate_claimed env next tx claimed)
    unfolding compensate_claimed
    compensate_claimed-Gives tx true room some_task =
        compensate_round-Gives tx tx.branches room some_task
    compensate_claimed-Gives tx false room some_task = load-Gives env tx.gid

    abort_round-Gives :
        (tx : Transaction)
        → count compensating tx.branches ≤ n
        → Gives Anything (abort_round env next tx)
    unfolding abort_round
    abort_round-Gives tx room =
        let ready = filterb (is_compensable tx.branches) tx.branches in
        let barriers = map (λ b. barrier_of tx.gid b "compensate") ready in
        let claiming = claim_all env [] barriers >>= compensate_claimed env next tx in
        if-Gives Anything (none_compensating tx.branches)
          (persist_as env tx TransactionStatus.aborted tx.branches)
          (lift (ensure (not (is_empty_list ready)) unresolved_dependencies) >> claiming)
          (λ _. persist-Anything env tx TransactionStatus.aborted tx.branches)
          λ _.
            ensure-Gives Anything (not (is_empty_list ready)) unresolved_dependencies claiming refl
              λ some_ready.
                bind-Gives Anything Anything (claim_all env [] barriers)
                  (compensate_claimed env next tx) (claim_all-Gives env [] barriers)
                  λ claimed _. compensate_claimed-Gives tx claimed room (ground (arith, some_ready))

  abort_rounds-Gives :
      (fuel : ℕ) (tx : Transaction)
      → count compensating tx.branches < fuel
      → Gives Anything (abort_rounds env fuel tx)
  unfolding abort_rounds
  abort_rounds-Gives zero tx room = absurd (omega (arith, room))
  abort_rounds-Gives (suc fuel) tx room =
      abort_round-Gives (abort_rounds env fuel) fuel (abort_rounds-Gives fuel) tx
        (omega (arith, room))

  pub abort_concurrent_saga-Gives :
      (tx : Transaction) → Gives Anything (abort_concurrent_saga env tx)
  unfolding abort_concurrent_saga
  abort_concurrent_saga-Gives tx =
      let bs = map to_compensate tx.branches in
      let rounds = abort_rounds env (suc (length tx.branches)) in
      lift-Gives Anything Anything (validate_transaction_dependencies tx)
        (λ _. persist_as env tx TransactionStatus.aborting bs >>= rounds) (validated-Given tx)
        λ _ _.
          bind-Gives (λ tx'. tx'.branches ≡ bs) Anything
            (persist_as env tx TransactionStatus.aborting bs) rounds
            (persist_as-Gives env tx TransactionStatus.aborting bs)
            λ tx' same. abort_rounds-Gives (suc (length tx.branches)) tx' (
              subst (λ cs. count compensating cs < suc (length tx.branches)) (sym same)
                (omega
                  (arith, count-le-length compensating bs, length-map to_compensate tx.branches)))

  module _ (next : Transaction → Exec Transaction) (n limit : ℕ)
      (next_gives : (tx : Transaction)
        → count unfinished tx.branches < n
        → Gives Anything (next tx)) where
    called-Gives :
        (tx : Transaction) (bs : List Branch) (k : ℕ) (os : List Outcome)
        → tx.branches ≡ bs
        → count unfinished bs ≤ n
        → 1 ≤ k
        → Listing (OutcomeAt unfinished bs) k os
        → Gives Anything (called env next limit tx os)
    unfolding called
    called-Gives tx bs k os same room some_task listing =
        let bs' = put_all os tx.branches in
        let undone = map given_up bs' in
        let rest = λ (tx' : Transaction). if some_retryable limit os then pure tx' else next tx' in
        if-Gives Anything (some_exhausted limit os)
          (persist_as env tx TransactionStatus.aborting undone >>= abort_concurrent_saga env)
          (persist_as env tx TransactionStatus.succeeding bs' >>= rest)
          (λ _.
            bind-Gives Anything Anything (persist_as env tx TransactionStatus.aborting undone)
              (abort_concurrent_saga env)
              (persist-Anything env tx TransactionStatus.aborting undone)
              (λ tx' _. abort_concurrent_saga-Gives tx'))
          λ kept.
            bind-Gives (λ tx'. tx'.branches ≡ bs') Anything
              (persist_as env tx TransactionStatus.succeeding bs') rest
              (persist_as-Gives env tx TransactionStatus.succeeding bs')
              λ tx' left.
                if-Gives Anything (some_retryable limit os) (pure tx') (next tx')
                  (λ _. pure-Gives Anything tx' tt)
                  λ none_left. next_gives tx' (
                    subst (λ cs. count unfinished cs < n) (sym (left ∙ ap (put_all os) same))
                      (omega (
                        arith,
                        room,
                        round-lt unfinished bs os k some_task listing
                            (not_failed limit os kept none_left),
                      )))

    action_round-Gives :
        (tx : Transaction) (before : List Branch)
        → count unfinished before ≤ n
        → 1 ≤ length (filterb (is_ready before) before)
        → Gives Anything (action_round env next limit tx before)
    unfolding action_round
    action_round-Gives tx before room some_task =
        let ready = is_ready before in
        let bs = on_ready ready launched before in
        let places = selected ready launched before in
        let tasks = action_tasks places in
        let (at, l) =
          action_tasks-Listing unfinished bs (length (filterb ready before)) places
            (selected-Listing unfinished ready launched before (λ b _. ready-unfinished b)) in
        let run =
          batch env tx.options tx.gid TransactionStatus.succeeding BranchStatus.succeeded
            BranchStatus.failed "action" tasks in
        bind-Gives (λ tx'. tx'.branches ≡ bs) Anything
          (persist_as env tx TransactionStatus.succeeding bs)
          (λ tx'. run >>= called env next limit tx')
          (persist_as-Gives env tx TransactionStatus.succeeding bs)
          λ tx' same.
            bind-Gives (Listing (OutcomeAt unfinished bs) (length tasks)) Anything run
              (called env next limit tx')
              (batch-Gives env unfinished bs tx.options tx.gid TransactionStatus.succeeding
                BranchStatus.succeeded BranchStatus.failed (λ b. refl) "action" tasks at)
              λ os listing.
                called-Gives tx' bs (length tasks) os same
                  (subst (λ m. m ≤ n)
                    (sym (
                      count-map unfinished (λ b. if ready b then launched b else b) before
                        (count-launched before)))
                    room)
                  (omega (arith, l, some_task)) listing

    action_claimed-Gives :
        (tx : Transaction) (claimed : Bool)
        → count unfinished tx.branches ≤ n
        → 1 ≤ length (filterb (is_ready tx.branches) tx.branches)
        → Gives Anything (action_claimed env next limit tx claimed)
    unfolding action_claimed
    action_claimed-Gives tx true room some_task = action_round-Gives tx tx.branches room some_task
    action_claimed-Gives tx false room some_task = load-Gives env tx.gid

    start_round-Gives :
        (tx : Transaction)
        → count unfinished tx.branches ≤ n
        → Gives Anything (start_round env next limit tx)
    unfolding start_round
    start_round-Gives tx room =
        let ready = filterb (is_ready tx.branches) tx.branches in
        let barriers = map (λ b. barrier_of tx.gid b "action") ready in
        let claiming = claim_all env [] barriers >>= action_claimed env next limit tx in
        if-Gives Anything (all_succeeded tx.branches)
          (persist_as env tx TransactionStatus.succeeded tx.branches)
          (if is_empty_list ready then pure tx else claiming)
          (λ _. persist-Anything env tx TransactionStatus.succeeded tx.branches)
          λ _.
            if-Gives Anything (is_empty_list ready) (pure tx) claiming
              (λ _. pure-Gives Anything tx tt)
              λ some_ready.
                bind-Gives Anything Anything (claim_all env [] barriers)
                  (action_claimed env next limit tx) (claim_all-Gives env [] barriers)
                  λ claimed _. action_claimed-Gives tx claimed room (ground (arith, some_ready))

  start_rounds-Gives :
      (fuel limit : ℕ) (tx : Transaction)
      → count unfinished tx.branches < fuel
      → Gives Anything (start_rounds env fuel limit tx)
  unfolding start_rounds
  start_rounds-Gives zero limit tx room = absurd (omega (arith, room))
  start_rounds-Gives (suc fuel) limit tx room =
      start_round-Gives (start_rounds env fuel limit) fuel limit (start_rounds-Gives fuel limit) tx
        (omega (arith, room))

  pub start_concurrent_saga-Gives :
      (tx : Transaction) → Gives Anything (start_concurrent_saga env tx)
  unfolding start_concurrent_saga
  start_concurrent_saga-Gives tx =
      let rounds = start_rounds env (suc (length tx.branches)) (action_attempts tx.options) in
      lift-Gives Anything Anything (validate_transaction_dependencies tx)
        (λ _. persist_as env tx TransactionStatus.succeeding tx.branches >>= rounds)
        (validated-Given tx)
        λ _ _.
          bind-Gives (λ tx'. tx'.branches ≡ tx.branches) Anything
            (persist_as env tx TransactionStatus.succeeding tx.branches) rounds
            (persist_as-Gives env tx TransactionStatus.succeeding tx.branches)
            λ tx' same.
              start_rounds-Gives (suc (length tx.branches)) (action_attempts tx.options) tx' (
                subst (λ cs. count unfinished cs < suc (length tx.branches)) (sym same)
                  (omega (arith, count-le-length unfinished tx.branches)))
