-- ===== src/Coordinator/Writes.antt =====
-- What the methods of src/lib.rs write to the stored transactions when no other worker interferes.
use roze_dtm.Common.{◌≡◌, refl, ◌∙◌, arith, List, String, Option, none, some}
use roze_dtm.Data.{TransactionOptions, BranchStatus, TransactionStatus, Branch, Result, ok, err}
use roze_dtm.Engine.{
  World, Env, Exec, access, Stop, for_branches, invoke, invoke_branch, release, claim,
  notify_branch_failure, current_millis,
}
use roze_dtm.Engine.Loops.{Obeys, for_branches-Obeys}
use roze_dtm.Memory.Barriers.{BranchBarrier}
use roze_dtm.Coordinator.Tcc.{deliver, try_branch, confirm_branch, cancel_branch}
use roze_dtm.Coordinator.Xa.{commit_branch, rollback_branch}
use roze_dtm.Coordinator.Bodies.{
  try_branch-Obeys, confirm_branch-Obeys, cancel_branch-Obeys, commit_branch-Obeys,
  rollback_branch-Obeys,
}

-- The environment with this worker as the only one.
abbrev pub alone : Env → Env
alone env = record env { others = λ n s. s }

-- A run that leaves the stored transactions as they are.
unfoldable pub Keeps : World → Result (Option Stop) → World → Type 0
Keeps w r w' = w'.store.txs ≡ w.store.txs

Keeps-step :
    (w w1 w2 : World) (r : Result (Option Stop))
    → Keeps w (ok none) w1
    → Keeps w1 r w2
    → Keeps w r w2
unfolding Keeps
Keeps-step w w1 w2 r first more = more ∙ first

same : (w : World) (r : Result (Option Stop)) → Keeps w r w
unfolding Keeps
same w r = refl

pub for_branches-Keeps :
    (body : Branch → Exec (Branch × Option Stop))
    → ((b : Branch) → Obeys Keeps (body b))
    → (bs : List Branch) → Obeys Keeps (for_branches body bs)
for_branches-Keeps = for_branches-Obeys Keeps (λ w. same w (ok none)) Keeps-step

module _ (env : Env) where
  deliver-Keeps :
      (options : TransactionOptions) (gid : String) (status : TransactionStatus) (op : String)
      (done : BranchStatus) (b : Branch) (url : String)
      → Obeys Keeps (deliver (alone env) options gid status op done b url)
  unfolding deliver invoke_branch invoke current_millis notify_branch_failure release access Keeps
  deliver-Keeps options gid status op done b url w = ground arith

  claim-Keeps : (b : BranchBarrier) (w : World) → Keeps w (ok none) (claim (alone env) b w).1
  unfolding claim access Keeps
  claim-Keeps b w = refl

  pub try_branch-Keeps :
      (options : TransactionOptions) (gid : String) (b : Branch)
      → Obeys Keeps (try_branch (alone env) options gid b)
  try_branch-Keeps =
      try_branch-Obeys (alone env) Keeps (λ w. same w (ok none)) Keeps-step claim-Keeps
        (λ w e. same w (err e)) deliver-Keeps (λ w. same w (ok (some Stop.cancelled_try)))

  pub confirm_branch-Keeps :
      (options : TransactionOptions) (gid : String) (b : Branch)
      → Obeys Keeps (confirm_branch (alone env) options gid b)
  confirm_branch-Keeps =
      confirm_branch-Obeys (alone env) Keeps (λ w. same w (ok none)) Keeps-step claim-Keeps
        (λ w e. same w (err e)) deliver-Keeps

  pub cancel_branch-Keeps :
      (options : TransactionOptions) (gid : String) (b : Branch)
      → Obeys Keeps (cancel_branch (alone env) options gid b)
  cancel_branch-Keeps =
      cancel_branch-Obeys (alone env) Keeps (λ w. same w (ok none)) Keeps-step claim-Keeps
        (λ w e. same w (err e)) deliver-Keeps

  pub commit_branch-Keeps :
      (options : TransactionOptions) (gid : String) (b : Branch)
      → Obeys Keeps (commit_branch (alone env) options gid b)
  commit_branch-Keeps =
      commit_branch-Obeys (alone env) Keeps (λ w. same w (ok none)) Keeps-step claim-Keeps
        (λ w e. same w (err e)) deliver-Keeps

  pub rollback_branch-Keeps :
      (options : TransactionOptions) (gid : String) (b : Branch)
      → Obeys Keeps (rollback_branch (alone env) options gid b)
  rollback_branch-Keeps =
      rollback_branch-Obeys (alone env) Keeps (λ w. same w (ok none)) Keeps-step claim-Keeps
        (λ w e. same w (err e)) deliver-Keeps
