-- ===== src/Coordinator/Xa.antt =====
-- `prepare_xa`, `commit_xa` and `rollback_xa` of src/lib.rs.
use roze_dtm.Common.{List, [], ◌∷◌, String, Option, none}
use roze_dtm.Data.{
  TransactionKind, TransactionStatus, BranchStatus, Branch, Transaction, TransactionOptions,
}
use roze_dtm.Memory.Barriers.{BarrierDecision}
use roze_dtm.Urls.{xa_phase2_callback_url}
use roze_dtm.Engine.{
  Env, Exec, pure, lift, ◌>>=◌, claim, transaction_of_kind, or_missing, barrier_of, Stop,
}
use roze_dtm.Coordinator.Tcc.{
  confirm_states, deliver, guarded_loop, guarded_write, run_unless, ended,
}

-- The states from which `rollback_xa` goes on.
abbrev pub rollback_states : List TransactionStatus
rollback_states =
    TransactionStatus.submitted ∷ TransactionStatus.prepared ∷ TransactionStatus.aborting ∷ []

abbrev pub submitted_only : List TransactionStatus
submitted_only = TransactionStatus.submitted ∷ []

abbrev pub prepared : Transaction → Transaction
prepared tx = record tx { status = TransactionStatus.prepared }

module _ (env : Env) where
  unfoldable pub prepare_xa : String → Exec Transaction
  unfolding transaction_of_kind run_unless guarded_write
  prepare_xa gid =
      transaction_of_kind env gid TransactionKind.xa
      >>= run_unless env TransactionStatus.prepared (guarded_write env submitted_only prepared)

  unfoldable pub phase_two_decided :
      TransactionStatus
      → String
      → BranchStatus
      → Option String
      → TransactionOptions
      → String
      → Branch
      → BarrierDecision
      → Exec (Branch × Option Stop)
  unfolding deliver xa_phase2_callback_url
  phase_two_decided status op done base options gid branch BarrierDecision.execute =
      lift (or_missing branch.id base) >>= λ url.
      lift (xa_phase2_callback_url env.external url gid branch.id op)
      >>= deliver env options gid status op done branch
  phase_two_decided status op done base options gid branch _ = pure (branch, none)

  -- The second phase on one branch: `op` is "commit" or "rollback", `target` the branch's URL for it.
  unfoldable pub phase_two_branch :
      TransactionStatus
      → String
      → BranchStatus
      → (Branch → Option String)
      → TransactionOptions
      → String
      → Branch
      → Exec (Branch × Option Stop)
  unfolding claim phase_two_decided
  phase_two_branch status op done target options gid branch =
      claim env (barrier_of gid branch op)
      >>= phase_two_decided status op done (target branch) options gid branch

  unfoldable pub commit_branch : TransactionOptions → String → Branch → Exec (Branch × Option Stop)
  unfolding phase_two_branch
  commit_branch =
      phase_two_branch TransactionStatus.succeeding "commit" BranchStatus.succeeded (λ b. b.confirm)

  unfoldable pub commit_xa : String → Exec Transaction
  unfolding guarded_loop commit_branch
  commit_xa gid =
      guarded_loop env gid TransactionKind.xa TransactionStatus.succeeded confirm_states
        (ended TransactionStatus.succeeding TransactionStatus.succeeded)
        (λ tx. commit_branch tx.options tx.gid)

  unfoldable pub rollback_branch :
      TransactionOptions → String → Branch → Exec (Branch × Option Stop)
  unfolding phase_two_branch
  rollback_branch =
      phase_two_branch TransactionStatus.aborting "rollback" BranchStatus.skipped (λ b. b.cancel)

  unfoldable pub rollback_xa : String → Exec Transaction
  unfolding guarded_loop rollback_branch
  rollback_xa gid =
      guarded_loop env gid TransactionKind.xa TransactionStatus.aborted rollback_states
        (ended TransactionStatus.aborting TransactionStatus.aborted)
        (λ tx. rollback_branch tx.options tx.gid)
