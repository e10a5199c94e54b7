-- ===== src/Coordinator/Tasks.antt =====
-- The batches of concurrent branch calls in src/lib.rs: the barriers are claimed all or none, each call is a
-- task of a `JoinSet`, and the results are taken as the tasks finish.
pub mod Quietness
pub mod Progress
pub mod Places
use roze_dtm.Common.{
  ℕ, zero, suc, List, [], ◌∷◌, ◌++◌, map, String, Bool, true, false, Option, not, length, all, any,
  filterb, ◌=?◌, if◌then◌else◌,
}
use roze_dtm.Data.{
  TransactionStatus, BranchStatus, Branch, Transaction, TransactionOptions, Result, ok, err,
  branch_is,
}
use roze_dtm.Memory.Barriers.{BranchBarrier, BarrierDecision}
use roze_dtm.Engine.{
  World, Env, Exec, pure, lift, ◌>>=◌, ◌>>◌, claim, release, invoke_branch, or_missing, attempted,
  settled, with_status, barrier_of,
}

abbrev pub is_execute : BarrierDecision → Bool
is_execute BarrierDecision.execute = true
is_execute _ = false

-- `iter().enumerate()`
abbrev pub enumerated : List Branch → List (ℕ × Branch)
enumerated [] = []
enumerated (b ∷ bs) = (0, b) ∷ map (λ t. (suc t.0, t.1)) (enumerated bs)

-- `branches[index] = branch`
unfoldable pub put_at : ℕ → Branch → List Branch → List Branch
put_at i b [] = []
put_at zero b (c ∷ cs) = b ∷ cs
put_at (suc i) b (c ∷ cs) = c ∷ put_at i b cs

-- A change of each branch that is ready.
abbrev pub on_ready : (Branch → Bool) → (Branch → Branch) → List Branch → List Branch
on_ready ready change = map (λ b. if ready b then change b else b)

-- A task: the branch that it is for, with its place, and the URL that it calls.
pub record Task : Type 0 where
  pub index : ℕ
  pub branch : Branch
  pub url : String

pub record Outcome : Type 0 where
  pub index : ℕ
  pub branch : Branch
  pub success : Bool

-- The ready branches as they are after their change, with their places.
abbrev pub selected : (Branch → Bool) → (Branch → Branch) → List Branch → List (ℕ × Branch)
selected ready change bs = map (λ t. (t.0, change t.1)) (filterb (λ t. ready t.1) (enumerated bs))

-- The tasks that call the actions.
unfoldable pub action_tasks : List (ℕ × Branch) → List Task
action_tasks = map (λ t. record { index = t.0; branch = t.1; url = t.1.action })

abbrev pub with_task : ℕ → Branch → Result String → Result (List Task) → Result (List Task)
with_task i b (err e) rest = err e
with_task i b (ok url) (err e) = err e
with_task i b (ok url) (ok tasks) = ok (record { index = i; branch = b; url = url } ∷ tasks)

-- The tasks that call the compensations, up to a branch that has none.
unfoldable pub compensation_tasks : List (ℕ × Branch) → Result (List Task)
compensation_tasks [] = ok []
compensation_tasks ((i, b) ∷ ts) =
    with_task i b (or_missing b.id b.compensate) (compensation_tasks ts)

abbrev pub insert_at : {A : Type 0} → ℕ → A → List A → List A
insert_at zero x xs = x ∷ xs
insert_at (suc n) x [] = x ∷ []
insert_at (suc n) x (y ∷ ys) = y ∷ insert_at n x ys

abbrev pub placed : {A : Type 0} → ℕ → A → List A → Exec (List A)
placed n x xs = pure (insert_at n x xs)

-- What the task reports at its end.
abbrev pub outcome_of : BranchStatus → BranchStatus → Task → Branch × Bool → Exec Outcome
outcome_of done otherwise t (branch, success) = pure (record {
  index = t.index;
  branch = if success then settled done branch else with_status otherwise branch;
  success = success;
})

-- The branches that a batch leaves.
unfoldable pub put_all : List Outcome → List Branch → List Branch
unfolding put_at
put_all [] bs = bs
put_all (o ∷ os) bs = put_all os (put_at o.index o.branch bs)

module _ (env : Env) where
  -- The tasks in an order that the environment chooses.
  unfoldable pub arranged : {A : Type 0} → List A → Exec (List A)
  arranged [] w = pure [] w
  arranged (x ∷ xs) w =
      (arranged xs >>= placed (env.arrival w.ticks) x) (record w { ticks = suc w.ticks })

  unfoldable pub release_all : List BranchBarrier → Exec (Unit {0})
  unfolding release
  release_all [] = pure tt
  release_all (b ∷ bs) = release env b >> release_all bs

  -- `claimed` are those of the batch that are claimed already: a barrier that is taken gives them back.
  unfoldable pub claim_all : List BranchBarrier → List BranchBarrier → Exec Bool
  unfolding claim release_all
  claim_all claimed [] = pure true
  claim_all claimed (b ∷ bs) = claim env b >>= λ d.
      if is_execute d then claim_all (claimed ++ b ∷ []) bs else release_all claimed >> pure false

  -- One task: a failed call is recorded in the branch, and reported.
  unfoldable pub run_task :
      TransactionOptions
      → String
      → TransactionStatus
      → BranchStatus
      → BranchStatus
      → Task
      → Exec Outcome
  unfolding invoke_branch
  run_task options gid status done otherwise t =
      invoke_branch env options gid status t.branch t.url >>= outcome_of done otherwise t

  unfoldable pub run_tasks :
      TransactionOptions
      → String
      → TransactionStatus
      → BranchStatus
      → BranchStatus
      → List Task
      → Exec (List Outcome)
  unfolding run_task
  run_tasks options gid status done otherwise [] = pure []
  run_tasks options gid status done otherwise (t ∷ ts) =
      run_task options gid status done otherwise t >>= λ o.
      run_tasks options gid status done otherwise ts >>= λ os. pure (o ∷ os)

  -- The barriers of the calls that failed are given back.
  unfoldable pub join_all : String → String → List Outcome → Exec (Unit {0})
  unfolding release
  join_all gid op [] = pure tt
  join_all gid op (o ∷ os) =
      if o.success
      then join_all gid op os
      else release env (barrier_of gid o.branch op) >> join_all gid op os

  -- The tasks run in one order and are joined in another. A failed call gives its barrier back when it is
  -- joined; here that is after the last call, where in the source other tasks may still be calling.
  unfoldable pub batch :
      TransactionOptions
      → String
      → TransactionStatus
      → BranchStatus
      → BranchStatus
      → String
      → List Task
      → Exec (List Outcome)
  unfolding arranged run_tasks join_all
  batch options gid status done otherwise op tasks = do
    started ← arranged tasks
    finished ← run_tasks options gid status done otherwise started
    joined ← arranged finished
    join_all gid op joined
    pure joined
