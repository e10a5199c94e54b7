-- ===== src/Coordinator/Messages.antt =====
-- `dispatch_message` of src/lib.rs.
pub mod Life
use roze_dtm.Common.{
  List, [], ◌∷◌, map, String, Bool, true, false, Option, none, some, not, filterb, if◌then◌else◌,
}
use roze_dtm.Data.{
  TransactionKind, TransactionStatus, BranchStatus, Branch, Transaction, TransactionOptions,
  branch_is, status_is,
}
use roze_dtm.Schedule.{message_dispatch_due}
use roze_dtm.Engine.{
  Env, Exec, pure, lift, ◌>>=◌, ◌>>◌, load, current_millis, claim, transaction_of_kind,
  require_status, with_status, barrier_of, Stop, for_branches,
}
use roze_dtm.Coordinator.Tcc.{left, ended, run_unless, deliver, write_loop}
use roze_dtm.Coordinator.Tasks.{
  is_execute, on_ready, selected, Outcome, action_tasks, put_all, claim_all, batch,
}
use roze_dtm.Coordinator.Concurrent.{launched, persist_as, some_failed, is_empty_list}

-- The states from which `dispatch_message` goes on.
abbrev pub dispatch_states : List TransactionStatus
dispatch_states =
    TransactionStatus.submitted ∷ TransactionStatus.prepared ∷ TransactionStatus.succeeding ∷ []

-- A branch that is not delivered.
abbrev pub is_undelivered : Branch → Bool
is_undelivered b = not (branch_is b.status BranchStatus.succeeded)

module _ (env : Env) where
  unfoldable pub message_decided :
      TransactionOptions → String → Branch → Bool → Exec (Branch × Option Stop)
  unfolding deliver
  message_decided options gid branch true =
      deliver env options gid TransactionStatus.succeeding "message" BranchStatus.succeeded
        (with_status BranchStatus.running branch) branch.action
  message_decided options gid branch false = pure (branch, none)

  -- The body of the sequential loop of `dispatch_message`.
  unfoldable pub message_branch : TransactionOptions → String → Branch → Exec (Branch × Option Stop)
  unfolding claim message_decided
  message_branch options gid branch =
      if branch_is branch.status BranchStatus.succeeded
      then pure (branch, none)
      else claim env (barrier_of gid branch "message") >>= λ d.
          message_decided options gid branch (is_execute d)

  unfoldable pub dispatch_in_turn : Transaction → Exec Transaction
  unfolding for_branches message_branch write_loop
  dispatch_in_turn tx =
      for_branches (message_branch tx.options tx.gid) tx.branches
      >>= write_loop env tx (ended TransactionStatus.succeeding TransactionStatus.succeeded)

  -- The end of a concurrent delivery.
  unfoldable pub delivered : Transaction → List Outcome → Exec Transaction
  unfolding persist_as put_all
  delivered tx outcomes =
      persist_as env tx
        (if some_failed outcomes then TransactionStatus.succeeding else TransactionStatus.succeeded)
        (put_all outcomes tx.branches)

  unfoldable pub dispatch_claimed : Transaction → Bool → Exec Transaction
  unfolding persist_as batch action_tasks delivered load
  dispatch_claimed tx true =
      persist_as env tx TransactionStatus.succeeding (on_ready is_undelivered launched tx.branches)
      >>= λ tx'.
          batch env tx.options tx.gid TransactionStatus.succeeding BranchStatus.succeeded
            BranchStatus.failed "message"
            (action_tasks (selected is_undelivered launched tx.branches))
          >>= delivered tx'
  dispatch_claimed tx false = load env tx.gid

  unfoldable pub dispatch_together : Transaction → Exec Transaction
  unfolding persist_as claim_all dispatch_claimed
  dispatch_together tx =
      if is_empty_list (filterb is_undelivered tx.branches)
      then persist_as env tx TransactionStatus.succeeded tx.branches
      else claim_all env []
          (map (λ b. barrier_of tx.gid b "message") (filterb is_undelivered tx.branches))
        >>= dispatch_claimed tx

  unfoldable pub dispatch_decided : Transaction → Exec Transaction
  unfolding current_millis message_dispatch_due dispatch_together dispatch_in_turn
  dispatch_decided tx = current_millis env >>= λ now.
      if not (message_dispatch_due tx now)
      then pure tx
      else if tx.options.concurrent
      then dispatch_together tx
      else dispatch_in_turn tx

  -- The decision to deliver is written before the first call.
  unfoldable pub dispatch_loaded : Transaction → Exec Transaction
  unfolding require_status persist_as dispatch_decided
  dispatch_loaded tx = do
    require_status env tx dispatch_states
    if status_is tx.status TransactionStatus.succeeding
        then dispatch_decided tx
        else persist_as env tx TransactionStatus.succeeding tx.branches >>= dispatch_decided

  unfoldable pub dispatch_message : String → Exec Transaction
  unfolding transaction_of_kind run_unless dispatch_loaded
  dispatch_message gid =
      transaction_of_kind env gid TransactionKind.message
      >>= run_unless env TransactionStatus.succeeded dispatch_loaded
