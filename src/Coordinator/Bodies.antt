-- ===== src/Coordinator/Bodies.antt =====
-- The bodies of the loops over the branches, for any property of runs that claims, failures and calls have.
use roze_dtm.Common.{Option, none, some, String}
use roze_dtm.Data.{
  TransactionStatus, BranchStatus, Branch, TransactionOptions, Error, Result, ok, err, branch_is,
  unreachable,
}
use roze_dtm.Memory.Barriers.{BarrierDecision, BranchBarrier}
use roze_dtm.Workflow.{is_empty}
use roze_dtm.Urls.{xa_phase2_callback_url}
use roze_dtm.Engine.{
  World, Env, Exec, ◌>>=◌, pure, lift, claim, Stop, or_missing, with_status, barrier_of,
}
use roze_dtm.Engine.Loops.{stop_of, Obeys, claim-Obeys, lift-Obeys, if-Obeys}
use roze_dtm.Coordinator.Tcc.{
  deliver, try_decided, try_branch, confirm_decided, confirm_branch, cancel_call, cancel_decided,
  cancel_branch, first_of,
}
use roze_dtm.Coordinator.Xa.{phase_two_decided, phase_two_branch, commit_branch, rollback_branch}

module _ (env : Env) (P : World → Result (Option Stop) → World → Type 0)
    (nil : (w : World) → P w (ok none) w)
    (step : (w w1 w2 : World) (r : Result (Option Stop)) → P w (ok none) w1 → P w1 r w2 → P w r w2)
    (quiet : (b : BranchBarrier) (w : World) → P w (ok none) (claim env b w).1)
    (fails : (w : World) (e : Error) → P w (err e) w)
    (deliver-obeys : (options : TransactionOptions) (gid : String) (status : TransactionStatus)
        (op : String) (done : BranchStatus) (b : Branch) (url : String)
      → Obeys P (deliver env options gid status op done b url)) where
  stays : (b : Branch) → Obeys P (pure {A = Branch × Option Stop} (b, none))
  unfolding stop_of
  stays b = nil

  panics : (e : Error) → Obeys P (lift {A = Branch × Option Stop} (err e))
  unfolding stop_of
  panics e w = fails w e

  after_claim :
      {A : Type 0} (b : BranchBarrier) (k : BarrierDecision → Exec (A × Option Stop))
      → ((d : BarrierDecision) → Obeys P (k d))
      → Obeys P (claim env b >>= k)
  after_claim b k = claim-Obeys P nil step env b k (quiet b)

  try_decided-Obeys :
      ((w : World) → P w (ok (some Stop.cancelled_try)) w)
      → (options : TransactionOptions) (gid : String) (b : Branch) (d : BarrierDecision)
      → Obeys P (try_decided env options gid b d)
  unfolding try_decided stop_of
  try_decided-Obeys cancelled options gid b BarrierDecision.execute =
      deliver-obeys options gid TransactionStatus.trying "try" BranchStatus.succeeded
        (with_status BranchStatus.running b) b.action
  try_decided-Obeys cancelled options gid b BarrierDecision.skip_cancelled_try = λ w. cancelled w
  try_decided-Obeys cancelled options gid b BarrierDecision.skip_duplicate = stays b
  try_decided-Obeys cancelled options gid b BarrierDecision.skip_null_compensation =
      panics unreachable

  pub try_branch-Obeys :
      ((w : World) → P w (ok (some Stop.cancelled_try)) w)
      → (options : TransactionOptions) (gid : String) (b : Branch)
      → Obeys P (try_branch env options gid b)
  unfolding try_branch
  try_branch-Obeys cancelled options gid b =
      if-Obeys P (branch_is b.status BranchStatus.succeeded) _ _ (stays b)
        (after_claim (barrier_of gid b "try") _ (try_decided-Obeys cancelled options gid b))

  confirm_decided-Obeys :
      (options : TransactionOptions) (gid : String) (b : Branch) (d : BarrierDecision)
      → Obeys P (confirm_decided env options gid b d)
  unfolding confirm_decided
  confirm_decided-Obeys options gid b BarrierDecision.execute =
      lift-Obeys P (or_missing b.id b.confirm) _ fails
        (deliver-obeys options gid TransactionStatus.succeeding "confirm" BranchStatus.succeeded b)
  confirm_decided-Obeys options gid b BarrierDecision.skip_cancelled_try = stays _
  confirm_decided-Obeys options gid b BarrierDecision.skip_duplicate = stays _
  confirm_decided-Obeys options gid b BarrierDecision.skip_null_compensation = stays _

  pub confirm_branch-Obeys :
      (options : TransactionOptions) (gid : String) (b : Branch)
      → Obeys P (confirm_branch env options gid b)
  unfolding confirm_branch
  confirm_branch-Obeys options gid b =
      after_claim (barrier_of gid b "confirm") _ (confirm_decided-Obeys options gid b)

  cancel_call-Obeys :
      (options : TransactionOptions) (gid : String) (b : Branch)
      → Obeys P (cancel_call env options gid b)
  unfolding cancel_call
  cancel_call-Obeys options gid b =
      lift-Obeys P (or_missing b.id (first_of b.cancel b.compensate)) _ fails
        (deliver-obeys options gid TransactionStatus.aborting "cancel" BranchStatus.skipped b)

  cancel_decided-Obeys :
      (options : TransactionOptions) (gid : String) (b : Branch) (d : BarrierDecision)
      → Obeys P (cancel_decided env options gid b d)
  unfolding cancel_decided
  cancel_decided-Obeys options gid b BarrierDecision.execute = cancel_call-Obeys options gid b
  cancel_decided-Obeys options gid b BarrierDecision.skip_null_compensation =
      if-Obeys P (is_empty b.action) _ _ (cancel_call-Obeys options gid b) (stays _)
  cancel_decided-Obeys options gid b BarrierDecision.skip_duplicate = stays _
  cancel_decided-Obeys options gid b BarrierDecision.skip_cancelled_try = panics unreachable

  pub cancel_branch-Obeys :
      (options : TransactionOptions) (gid : String) (b : Branch)
      → Obeys P (cancel_branch env options gid b)
  unfolding cancel_branch
  cancel_branch-Obeys options gid b =
      after_claim (barrier_of gid b "cancel") _ (cancel_decided-Obeys options gid b)

  phase_two_decided-Obeys :
      (status : TransactionStatus) (op : String) (done : BranchStatus) (base : Option String)
      (options : TransactionOptions) (gid : String) (b : Branch) (d : BarrierDecision)
      → Obeys P (phase_two_decided env status op done base options gid b d)
  unfolding phase_two_decided
  phase_two_decided-Obeys status op done base options gid b BarrierDecision.execute =
      lift-Obeys P (or_missing b.id base) _ fails λ url.
        lift-Obeys P (xa_phase2_callback_url env.external url gid b.id op) _ fails
          (deliver-obeys options gid status op done b)
  phase_two_decided-Obeys status op done base options gid b BarrierDecision.skip_cancelled_try =
      stays _
  phase_two_decided-Obeys status op done base options gid b BarrierDecision.skip_duplicate = stays _
  phase_two_decided-Obeys status op done base options gid b BarrierDecision.skip_null_compensation =
      stays _

  pub phase_two_branch-Obeys :
      (status : TransactionStatus) (op : String) (done : BranchStatus)
      (target : Branch → Option String) (options : TransactionOptions) (gid : String) (b : Branch)
      → Obeys P (phase_two_branch env status op done target options gid b)
  unfolding phase_two_branch
  phase_two_branch-Obeys status op done target options gid b =
      after_claim (barrier_of gid b op) _
        (phase_two_decided-Obeys status op done (target b) options gid b)

  pub commit_branch-Obeys :
      (options : TransactionOptions) (gid : String) (b : Branch)
      → Obeys P (commit_branch env options gid b)
  unfolding commit_branch
  commit_branch-Obeys =
      phase_two_branch-Obeys TransactionStatus.succeeding "commit" BranchStatus.succeeded
        (λ b. b.confirm)

  pub rollback_branch-Obeys :
      (options : TransactionOptions) (gid : String) (b : Branch)
      → Obeys P (rollback_branch env options gid b)
  unfolding rollback_branch
  rollback_branch-Obeys =
      phase_two_branch-Obeys TransactionStatus.aborting "rollback" BranchStatus.skipped
        (λ b. b.cancel)
