-- ===== src/Coordinator/Concurrent.antt =====
-- `start_concurrent_saga` and `abort_concurrent_saga` of src/lib.rs: the branches that are ready are called
-- together, round by round. The loops run on fuel, one unit for each round.
pub mod Life
pub mod Shrinking
pub mod Fuel
use roze_dtm.Common.{
  ℕ, zero, suc, List, [], ◌∷◌, map, String, Bool, true, false, Option, none, some, not, length, all,
  any, filterb, ◌=?◌, ◌&&◌, leb, ltb, saturating_suc32, if◌then◌else◌,
}
use roze_dtm.Data.{
  TransactionStatus, BranchStatus, Branch, Transaction, TransactionOptions, ok, err, ensure,
  branch_is, branch_in, unresolved_dependencies, out_of_fuel,
}
use roze_dtm.Graph.{validate_transaction_dependencies, text_in}
use roze_dtm.Engine.{
  Env, Exec, pure, lift, ◌>>=◌, ◌>>◌, load, persist_transaction, attempted, settled, with_status,
  barrier_of,
}
use roze_dtm.Coordinator.Tcc.{left}
use roze_dtm.Coordinator.Tasks.{
  on_ready, selected, Outcome, action_tasks, compensation_tasks, put_all, claim_all, batch,
}

-- The states from which `start_saga` and `abort_saga` go on.
abbrev pub saga_start_states : List TransactionStatus
saga_start_states = TransactionStatus.submitted ∷ TransactionStatus.succeeding ∷ []

abbrev pub saga_abort_states : List TransactionStatus
saga_abort_states =
    TransactionStatus.submitted ∷ TransactionStatus.succeeding ∷ TransactionStatus.aborting ∷ []

-- The attempts that `retry_limit` allows for an action of a saga.
abbrev pub action_attempts : TransactionOptions → ℕ
action_attempts options = elim options.retry_limit [
  | none ↦ 1
  | some retries ↦ saturating_suc32 retries
]

abbrev pub all_succeeded : List Branch → Bool
all_succeeded = all (λ b. branch_is b.status BranchStatus.succeeded)

abbrev pub succeeded_ids : List Branch → List String
succeeded_ids bs = map (λ b. b.id) (filterb (λ b. branch_is b.status BranchStatus.succeeded) bs)

-- A branch that can be called: it is Pending or Failed, and what it depends on has succeeded.
unfoldable pub is_ready : List Branch → Branch → Bool
is_ready bs b =
    branch_in b.status (BranchStatus.pending ∷ BranchStatus.failed ∷ [])
    && all (λ d. text_in d (succeeded_ids bs)) b.dependencies

-- A branch that can be compensated: no branch that depends on it is still to be.
unfoldable pub is_compensable : List Branch → Branch → Bool
is_compensable bs b =
    branch_is b.status BranchStatus.compensating
    && not
        (any (λ c. text_in b.id c.dependencies && branch_is c.status BranchStatus.compensating) bs)

-- `branch.status = Running; branch.attempts = branch.attempts.saturating_add(1)`
abbrev pub launched : Branch → Branch
launched b = attempted (with_status BranchStatus.running b)

-- The change of each branch once an action is out of attempts.
unfoldable pub given_up : Branch → Branch
given_up b =
    if branch_is b.status BranchStatus.succeeded
    then with_status BranchStatus.compensating b
    else settled BranchStatus.skipped b

-- The change of each branch at the start of the compensation.
unfoldable pub to_compensate : Branch → Branch
to_compensate b =
    if branch_is b.status BranchStatus.succeeded
    then with_status BranchStatus.compensating b
    else if branch_in b.status
        (BranchStatus.pending ∷ BranchStatus.running ∷ BranchStatus.failed ∷ [])
    then settled BranchStatus.skipped b
    else b

abbrev pub some_retryable : ℕ → List Outcome → Bool
some_retryable limit = any (λ o. not o.success && ltb o.branch.attempts limit)

abbrev pub some_exhausted : ℕ → List Outcome → Bool
some_exhausted limit = any (λ o. not o.success && leb limit o.branch.attempts)

abbrev pub some_failed : List Outcome → Bool
some_failed = any (λ o. not o.success)

-- Nothing is left to compensate.
abbrev pub none_compensating : List Branch → Bool
none_compensating = all (λ b. not (branch_is b.status BranchStatus.compensating))

abbrev pub is_empty_list : List Branch → Bool
is_empty_list bs = length bs =? 0

module _ (env : Env) where
  -- `tx.status = …; self.persist_transaction(&mut tx)`
  unfoldable pub persist_as : Transaction → TransactionStatus → List Branch → Exec Transaction
  unfolding persist_transaction
  persist_as tx status branches = persist_transaction env (left tx status branches)

  -- The end of a round of compensations.
  unfoldable pub compensated :
      (Transaction → Exec Transaction) → Transaction → List Outcome → Exec Transaction
  unfolding persist_as put_all
  compensated next tx outcomes =
      persist_as tx TransactionStatus.aborting (put_all outcomes tx.branches) >>= λ tx'.
      if some_failed outcomes then pure tx' else next tx'

  -- A round of compensations whose barriers are claimed. A task that was spawned before the error of a later
  -- one is aborted with its set; it is taken to be aborted before it starts.
  unfoldable pub compensate_round :
      (Transaction → Exec Transaction) → Transaction → List Branch → Exec Transaction
  unfolding persist_as batch compensation_tasks compensated is_compensable
  compensate_round next tx before =
      persist_as tx TransactionStatus.aborting (on_ready (is_compensable before) attempted before)
      >>= λ tx'.
          lift (compensation_tasks (selected (is_compensable before) attempted before)) >>= λ tasks.
          batch env tx.options tx.gid TransactionStatus.aborting BranchStatus.skipped
            BranchStatus.compensating "compensate" tasks
          >>= compensated next tx'

  unfoldable pub compensate_claimed :
      (Transaction → Exec Transaction) → Transaction → Bool → Exec Transaction
  unfolding compensate_round load
  compensate_claimed next tx true = compensate_round next tx tx.branches
  compensate_claimed next tx false = load env tx.gid

  -- One round of the loop of `abort_concurrent_saga`.
  unfoldable pub abort_round : (Transaction → Exec Transaction) → Transaction → Exec Transaction
  unfolding persist_as claim_all compensate_claimed is_compensable
  abort_round next tx =
      if none_compensating tx.branches
      then persist_as tx TransactionStatus.aborted tx.branches
      else lift (
          ensure (not (is_empty_list (filterb (is_compensable tx.branches) tx.branches)))
            unresolved_dependencies)
        >> (claim_all env [] (
              map (λ b. barrier_of tx.gid b "compensate")
                (filterb (is_compensable tx.branches) tx.branches))
            >>= compensate_claimed next tx)

  unfoldable pub abort_rounds : ℕ → Transaction → Exec Transaction
  unfolding abort_round
  abort_rounds zero tx = lift (err out_of_fuel)
  abort_rounds (suc fuel) tx = abort_round (abort_rounds fuel) tx

  -- Each round but the last compensates a branch.
  unfoldable pub abort_concurrent_saga : Transaction → Exec Transaction
  unfolding validate_transaction_dependencies persist_as to_compensate abort_rounds
  abort_concurrent_saga tx =
      lift (validate_transaction_dependencies tx)
      >> (persist_as tx TransactionStatus.aborting (map to_compensate tx.branches)
          >>= abort_rounds (suc (length tx.branches)))

  -- The end of a round of actions.
  unfoldable pub called :
      (Transaction → Exec Transaction) → ℕ → Transaction → List Outcome → Exec Transaction
  unfolding persist_as put_all given_up abort_concurrent_saga
  called next limit tx outcomes =
      if some_exhausted limit outcomes
      then persist_as tx TransactionStatus.aborting (map given_up (put_all outcomes tx.branches))
        >>= abort_concurrent_saga
      else persist_as tx TransactionStatus.succeeding (put_all outcomes tx.branches) >>= λ tx'.
          if some_retryable limit outcomes then pure tx' else next tx'

  -- A round of actions whose barriers are claimed.
  unfoldable pub action_round :
      (Transaction → Exec Transaction) → ℕ → Transaction → List Branch → Exec Transaction
  unfolding persist_as batch action_tasks called is_ready
  action_round next limit tx before =
      persist_as tx TransactionStatus.succeeding (on_ready (is_ready before) launched before)
      >>= λ tx'.
          batch env tx.options tx.gid TransactionStatus.succeeding BranchStatus.succeeded
            BranchStatus.failed "action" (action_tasks (selected (is_ready before) launched before))
          >>= called next limit tx'

  unfoldable pub action_claimed :
      (Transaction → Exec Transaction) → ℕ → Transaction → Bool → Exec Transaction
  unfolding action_round load
  action_claimed next limit tx true = action_round next limit tx tx.branches
  action_claimed next limit tx false = load env tx.gid

  -- One round of the loop of `start_concurrent_saga`.
  unfoldable pub start_round : (Transaction → Exec Transaction) → ℕ → Transaction → Exec Transaction
  unfolding persist_as claim_all action_claimed is_ready
  start_round next limit tx =
      if all_succeeded tx.branches
      then persist_as tx TransactionStatus.succeeded tx.branches
      else if is_empty_list (filterb (is_ready tx.branches) tx.branches)
      then pure tx
      else claim_all env []
          (map (λ b. barrier_of tx.gid b "action") (filterb (is_ready tx.branches) tx.branches))
        >>= action_claimed next limit tx

  unfoldable pub start_rounds : ℕ → ℕ → Transaction → Exec Transaction
  unfolding start_round
  start_rounds zero limit tx = lift (err out_of_fuel)
  start_rounds (suc fuel) limit tx = start_round (start_rounds fuel limit) limit tx

  -- Each round but the last makes a branch succeed.
  unfoldable pub start_concurrent_saga : Transaction → Exec Transaction
  unfolding validate_transaction_dependencies persist_as start_rounds
  start_concurrent_saga tx =
      lift (validate_transaction_dependencies tx)
      >> (persist_as tx TransactionStatus.succeeding tx.branches
          >>= start_rounds (suc (length tx.branches)) (action_attempts tx.options))
