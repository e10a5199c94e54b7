-- ===== src/Coordinator/Tcc.antt =====
-- `prepare_tcc`, `confirm_tcc` and `cancel_tcc` of src/lib.rs.
use roze_dtm.Common.{List, [], ◌∷◌, String, Option, none, some, leb, if◌then◌else◌}
use roze_dtm.Data.{
  TransactionKind, TransactionStatus, BranchStatus, Branch, Transaction, TransactionOptions, err,
  branch_is, status_is, unreachable,
}
use roze_dtm.Memory.Barriers.{BarrierDecision}
use roze_dtm.Workflow.{is_empty}
use roze_dtm.Engine.{
  Env, Exec, pure, lift, ◌>>=◌, ◌>>◌, persist_transaction, claim, release, invoke_branch,
  transaction_of_kind, require_status, max_attempts, or_missing, attempted, settled, with_status,
  barrier_of, Stop, for_branches,
}

-- `Option::or`
abbrev pub first_of : Option String → Option String → Option String
first_of none b = b
first_of (some a) b = some a

-- The transaction as its loop over the branches leaves it.
abbrev pub left : Transaction → TransactionStatus → List Branch → Transaction
left tx status branches = record tx { status = status; branches = branches }

-- The states from which `prepare_tcc`, `confirm_tcc` (and `commit_xa`) and `cancel_tcc` go on.
abbrev pub prepare_states : List TransactionStatus
prepare_states = TransactionStatus.submitted ∷ TransactionStatus.trying ∷ []

abbrev pub confirm_states : List TransactionStatus
confirm_states = TransactionStatus.prepared ∷ TransactionStatus.succeeding ∷ []

abbrev pub cancel_states : List TransactionStatus
cancel_states =
    TransactionStatus.submitted ∷ TransactionStatus.trying ∷ TransactionStatus.prepared
    ∷ TransactionStatus.aborting ∷ []

-- The status of a transaction whose loop either returned early or ran to its end.
abbrev pub ended : TransactionStatus → TransactionStatus → Option Stop → TransactionStatus
ended early finished none = finished
ended early finished (some _) = early

-- The status that `prepare_tcc` leaves, by the end of its loop.
unfoldable pub prepared_status : Option Stop → TransactionStatus
prepared_status none = TransactionStatus.prepared
prepared_status (some Stop.call_failed) = TransactionStatus.trying
prepared_status (some _) = TransactionStatus.aborting

module _ (env : Env) where
  -- The end of a method: the transaction is written as the loop leaves it.
  unfoldable pub write_loop :
      Transaction → (Option Stop → TransactionStatus) → List Branch × Option Stop → Exec Transaction
  unfolding persist_transaction
  write_loop tx status (branches, stop) = persist_transaction env (left tx (status stop) branches)

  -- The part of the methods below after the transaction is loaded and is not at its goal.
  unfoldable pub run_loop :
      List TransactionStatus
      → (Option Stop → TransactionStatus)
      → (Transaction → Branch → Exec (Branch × Option Stop))
      → Transaction
      → Exec Transaction
  unfolding require_status for_branches write_loop
  run_loop allowed status body tx = do
    require_status env tx allowed
    for_branches (body tx) tx.branches >>= write_loop tx status

  -- The methods that call no branch check the status and write a changed transaction.
  unfoldable pub guarded_write :
      List TransactionStatus → (Transaction → Transaction) → Transaction → Exec Transaction
  unfolding require_status persist_transaction
  guarded_write allowed change tx =
      require_status env tx allowed >> persist_transaction env (change tx)

  -- A transaction that is `already` at the goal is returned as it is.
  unfoldable pub run_unless :
      TransactionStatus → (Transaction → Exec Transaction) → Transaction → Exec Transaction
  run_unless already run tx = if status_is tx.status already then pure tx else run tx

  -- The shape of the methods that call branches: they return a transaction that is `already` at its goal,
  -- check the status, loop over the branches, and write the transaction.
  unfoldable pub guarded_loop :
      String
      → TransactionKind
      → TransactionStatus
      → List TransactionStatus
      → (Option Stop → TransactionStatus)
      → (Transaction → Branch → Exec (Branch × Option Stop))
      → Exec Transaction
  unfolding transaction_of_kind run_unless run_loop
  guarded_loop gid kind already allowed status body =
      transaction_of_kind env gid kind >>= run_unless already (run_loop allowed status body)

  -- One call under a claimed barrier: a failed call gives the barrier back.
  unfoldable pub deliver :
      TransactionOptions
      → String
      → TransactionStatus
      → String
      → BranchStatus
      → Branch
      → String
      → Exec (Branch × Option Stop)
  unfolding release invoke_branch max_attempts
  deliver options gid status op done branch url = do
    (called, success) ← invoke_branch env options gid status (attempted branch) url
    if success then pure (settled done called, none) else do
      release env (barrier_of gid branch op)
      pure (
        with_status BranchStatus.failed called,
        some (
            if leb (max_attempts env options) called.attempts
            then Stop.attempts_exhausted
            else Stop.call_failed),
      )

  unfoldable pub try_decided :
      TransactionOptions → String → Branch → BarrierDecision → Exec (Branch × Option Stop)
  unfolding deliver
  try_decided options gid branch BarrierDecision.execute =
      deliver options gid TransactionStatus.trying "try" BranchStatus.succeeded
        (with_status BranchStatus.running branch) branch.action
  try_decided options gid branch BarrierDecision.skip_cancelled_try =
      pure (settled BranchStatus.skipped branch, some Stop.cancelled_try)
  try_decided options gid branch BarrierDecision.skip_duplicate = pure (branch, none)
  try_decided options gid branch BarrierDecision.skip_null_compensation = lift (err unreachable)

  -- The body of the loop of `prepare_tcc`.
  unfoldable pub try_branch : TransactionOptions → String → Branch → Exec (Branch × Option Stop)
  unfolding claim try_decided
  try_branch options gid branch =
      if branch_is branch.status BranchStatus.succeeded
      then pure (branch, none)
      else claim env (barrier_of gid branch "try") >>= try_decided options gid branch

  unfoldable pub prepare_tcc : String → Exec Transaction
  unfolding guarded_loop try_branch prepared_status
  prepare_tcc gid =
      guarded_loop gid TransactionKind.tcc TransactionStatus.prepared prepare_states
        (prepared_status) (λ tx. try_branch tx.options tx.gid)

  unfoldable pub confirm_decided :
      TransactionOptions → String → Branch → BarrierDecision → Exec (Branch × Option Stop)
  unfolding deliver
  confirm_decided options gid branch BarrierDecision.execute =
      lift (or_missing branch.id branch.confirm)
      >>= deliver options gid TransactionStatus.succeeding "confirm" BranchStatus.succeeded branch
  confirm_decided options gid branch _ = pure (branch, none)

  -- The body of the loop of `confirm_tcc`.
  unfoldable pub confirm_branch : TransactionOptions → String → Branch → Exec (Branch × Option Stop)
  unfolding claim confirm_decided
  confirm_branch options gid branch =
      claim env (barrier_of gid branch "confirm") >>= confirm_decided options gid branch

  unfoldable pub confirm_tcc : String → Exec Transaction
  unfolding guarded_loop confirm_branch
  confirm_tcc gid =
      guarded_loop gid TransactionKind.tcc TransactionStatus.succeeded confirm_states
        (ended TransactionStatus.succeeding TransactionStatus.succeeded)
        (λ tx. confirm_branch tx.options tx.gid)

  -- The call of `cancel_tcc` on one branch.
  unfoldable pub cancel_call : TransactionOptions → String → Branch → Exec (Branch × Option Stop)
  unfolding deliver
  cancel_call options gid branch =
      lift (or_missing branch.id (first_of branch.cancel branch.compensate))
      >>= deliver options gid TransactionStatus.aborting "cancel" BranchStatus.skipped branch

  -- A branch with no action had its try run by the client.
  unfoldable pub cancel_decided :
      TransactionOptions → String → Branch → BarrierDecision → Exec (Branch × Option Stop)
  unfolding cancel_call
  cancel_decided options gid branch BarrierDecision.execute = cancel_call options gid branch
  cancel_decided options gid branch BarrierDecision.skip_null_compensation =
      if is_empty branch.action
      then cancel_call options gid branch
      else pure (settled BranchStatus.skipped branch, none)
  cancel_decided options gid branch BarrierDecision.skip_duplicate = pure (branch, none)
  cancel_decided options gid branch BarrierDecision.skip_cancelled_try = lift (err unreachable)

  -- The body of the loop of `cancel_tcc`.
  unfoldable pub cancel_branch : TransactionOptions → String → Branch → Exec (Branch × Option Stop)
  unfolding claim cancel_decided
  cancel_branch options gid branch =
      claim env (barrier_of gid branch "cancel") >>= cancel_decided options gid branch

  unfoldable pub cancel_tcc : String → Exec Transaction
  unfolding guarded_loop cancel_branch
  cancel_tcc gid =
      guarded_loop gid TransactionKind.tcc TransactionStatus.aborted cancel_states
        (ended TransactionStatus.aborting TransactionStatus.aborted)
        (λ tx. cancel_branch tx.options tx.gid)
