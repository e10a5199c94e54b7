-- ===== src/Coordinator/Tasks/Quietness.antt =====
-- The batches of concurrent calls write no transaction.
use roze_dtm.Common.{
  ◌≡◌, refl, ◌∙◌, arith, suc, List, [], ◌∷◌, ◌++◌, String, Bool, true, false, if◌then◌else◌,
}
use roze_dtm.Data.{TransactionStatus, BranchStatus, Branch, TransactionOptions, Result, ok, err}
use roze_dtm.Memory.Barriers.{BranchBarrier}
use roze_dtm.Engine.{
  World, Env, Exec, pure, ◌>>=◌, ◌>>◌, access, claim, release, invoke, invoke_branch,
  current_millis, notify_branch_failure, barrier_of,
}
use roze_dtm.Coordinator.Tasks.{
  is_execute, Task, Outcome, placed, outcome_of, arranged, release_all, claim_all, run_task,
  run_tasks, join_all, batch,
}
use roze_dtm.Coordinator.Writes.{alone}
use roze_dtm.Coordinator.Tracking.{Quiet}

-- Parts that write no transaction, one after the other.
after-Quiet :
    {A B : Type 0} (w : World) (k : A → Exec B) (run : Result A × World)
    → run.1.store.txs ≡ w.store.txs
    → ((a : A) → Quiet (k a))
    → (((λ v. run) >>= k) w).1.store.txs ≡ w.store.txs
after-Quiet w k (err e, w1) same quiet = same
after-Quiet w k (ok a, w1) same quiet = quiet a w1 ∙ same

pub bind-Quiet :
    {A B : Type 0} (m : Exec A) (k : A → Exec B)
    → Quiet m
    → ((a : A) → Quiet (k a))
    → Quiet (m >>= k)
bind-Quiet m k m_quiet k_quiet w = after-Quiet w k (m w) (m_quiet w) k_quiet

pub if-Quiet :
    {A : Type 0} (c : Bool) (m n : Exec A) → Quiet m → Quiet n → Quiet (if c then m else n)
if-Quiet true m n m_quiet n_quiet = m_quiet
if-Quiet false m n m_quiet n_quiet = n_quiet

module _ (env : Env) where
  pub claim-Quiet : (b : BranchBarrier) → Quiet (claim (alone env) b)
  unfolding claim access
  claim-Quiet b w = refl

  pub release-Quiet : (b : BranchBarrier) → Quiet (release (alone env) b)
  unfolding release access
  release-Quiet b w = refl

  pub invoke_branch-Quiet :
      (options : TransactionOptions) (gid : String) (s : TransactionStatus) (b : Branch)
      (url : String)
      → Quiet (invoke_branch (alone env) options gid s b url)
  unfolding invoke_branch invoke current_millis notify_branch_failure
  invoke_branch-Quiet options gid s b url w = ground arith

  arranged-Quiet : {A : Type 0} (xs : List A) → Quiet (arranged (alone env) xs)
  unfolding arranged
  arranged-Quiet [] w = refl
  arranged-Quiet (x ∷ xs) w =
      bind-Quiet (arranged (alone env) xs) (placed (env.arrival w.ticks) x) (arranged-Quiet xs)
        (λ ys w1. refl) (record w { ticks = suc w.ticks })

  release_all-Quiet : (bs : List BranchBarrier) → Quiet (release_all (alone env) bs)
  unfolding release_all
  release_all-Quiet [] = λ w. refl
  release_all-Quiet (b ∷ bs) =
      bind-Quiet (release (alone env) b) (λ _. release_all (alone env) bs) (release-Quiet b)
        (λ _. release_all-Quiet bs)

  pub claim_all-Quiet : (claimed bs : List BranchBarrier) → Quiet (claim_all (alone env) claimed bs)
  unfolding claim_all
  claim_all-Quiet claimed [] = λ w. refl
  claim_all-Quiet claimed (b ∷ bs) =
      bind-Quiet (claim (alone env) b)
        (λ d.
          if is_execute d
          then claim_all (alone env) (claimed ++ b ∷ []) bs
          else release_all (alone env) claimed >> pure false)
        (claim-Quiet b)
        λ d.
          if-Quiet (is_execute d) (claim_all (alone env) (claimed ++ b ∷ []) bs)
            (release_all (alone env) claimed >> pure false) (claim_all-Quiet (claimed ++ b ∷ []) bs)
            (bind-Quiet (release_all (alone env) claimed) (λ _. pure false)
              (release_all-Quiet claimed) (λ _ w. refl))

  join_all-Quiet : (gid op : String) (os : List Outcome) → Quiet (join_all (alone env) gid op os)
  unfolding join_all
  join_all-Quiet gid op [] = λ w. refl
  join_all-Quiet gid op (o ∷ os) =
      if-Quiet o.success (join_all (alone env) gid op os)
        (release (alone env) (barrier_of gid o.branch op) >> join_all (alone env) gid op os)
        (join_all-Quiet gid op os)
        (bind-Quiet (release (alone env) (barrier_of gid o.branch op))
          (λ _. join_all (alone env) gid op os) (release-Quiet (barrier_of gid o.branch op))
          (λ _. join_all-Quiet gid op os))

  module _ (options : TransactionOptions) (gid : String) (s : TransactionStatus)
      (done otherwise : BranchStatus) where
    run_task-Quiet : (t : Task) → Quiet (run_task (alone env) options gid s done otherwise t)
    unfolding run_task
    run_task-Quiet t =
        bind-Quiet (invoke_branch (alone env) options gid s t.branch t.url)
          (outcome_of done otherwise t) (invoke_branch-Quiet options gid s t.branch t.url)
          (λ called w. refl)

    run_tasks-Quiet :
        (ts : List Task) → Quiet (run_tasks (alone env) options gid s done otherwise ts)
    unfolding run_tasks
    run_tasks-Quiet [] = λ w. refl
    run_tasks-Quiet (t ∷ ts) =
        bind-Quiet (run_task (alone env) options gid s done otherwise t)
          (λ o. run_tasks (alone env) options gid s done otherwise ts >>= λ os. pure (o ∷ os))
          (run_task-Quiet t)
          λ o.
            bind-Quiet (run_tasks (alone env) options gid s done otherwise ts) (λ os. pure (o ∷ os))
              (run_tasks-Quiet ts) (λ os w. refl)

    pub batch-Quiet :
        (op : String) (ts : List Task)
        → Quiet (batch (alone env) options gid s done otherwise op ts)
    unfolding batch
    batch-Quiet op ts =
        bind-Quiet (arranged (alone env) ts)
          (λ started. run_tasks (alone env) options gid s done otherwise started >>= λ finished.
            arranged (alone env) finished >>= λ joined.
            join_all (alone env) gid op joined >> pure joined)
          (arranged-Quiet ts)
          λ started.
            bind-Quiet (run_tasks (alone env) options gid s done otherwise started)
              (λ finished. arranged (alone env) finished >>= λ joined.
                join_all (alone env) gid op joined >> pure joined)
              (run_tasks-Quiet started)
              λ finished.
                bind-Quiet (arranged (alone env) finished)
                  (λ joined. join_all (alone env) gid op joined >> pure joined)
                  (arranged-Quiet finished)
                  λ joined.
                    bind-Quiet (join_all (alone env) gid op joined) (λ _. pure joined)
                      (join_all-Quiet gid op joined) (λ _ w. refl)
