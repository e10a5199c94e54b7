-- ===== src/Coordinator/Tasks/Progress.antt =====
-- A batch of calls that all succeed leaves fewer branches to be called.
use roze_dtm.Common.{
  ℕ, zero, suc, ◌≡◌, ◌<◌, ◌≤◌, refl, arith, ap, ◌∙◌, List, [], ◌∷◌, ◌++◌, String, Bool, true, false,
  ◌⊎◌, inl, inr, All, length, filterb, if◌then◌else◌,
}
use roze_dtm.Data.{TransactionStatus, BranchStatus, Branch, TransactionOptions}
use roze_dtm.Engine.{Env, pure, ◌>>=◌, ◌>>◌, invoke_branch, release, barrier_of, settled, claim}
use roze_dtm.Memory.Barriers.{BranchBarrier}
use roze_dtm.Coordinator.Tasks.{
  is_execute, put_at, Task, Outcome, insert_at, placed, outcome_of, put_all, arranged, release_all,
  claim_all, run_task, run_tasks, join_all, batch,
}
use roze_dtm.Coordinator.Giving.{
  Given, Gives, Anything, bind-Gives, pure-Gives, if-Gives, claim-Gives, release-Gives,
  invoke_branch-Gives,
}

-- A test that holds of the branch at a place.
unfoldable pub holds_at : (Branch → Bool) → ℕ → List Branch → Bool
holds_at p i [] = false
holds_at p zero (b ∷ bs) = p b
holds_at p (suc i) (b ∷ bs) = holds_at p i bs

abbrev pub count : (Branch → Bool) → List Branch → ℕ
count p bs = length (filterb p bs)

module _ (p : Branch → Bool) where
  put_at-count-le :
      (i : ℕ) (b : Branch) (bs : List Branch) → p b ≡ false → count p (put_at i b bs) ≤ count p bs
  unfolding put_at
  put_at-count-le i b [] off = omega arith
  put_at-count-le zero b (c ∷ cs) off = ground arith
  put_at-count-le (suc i) b (c ∷ cs) off = ground (arith, put_at-count-le i b cs off)

  pub put_at-count-lt :
      (i : ℕ) (b : Branch) (bs : List Branch)
      → p b ≡ false
      → holds_at p i bs ≡ true
      → count p (put_at i b bs) < count p bs
  unfolding put_at holds_at
  put_at-count-lt i b [] off on = ground (arith, on)
  put_at-count-lt zero b (c ∷ cs) off on = ground (arith, on)
  put_at-count-lt (suc i) b (c ∷ cs) off on = ground (arith, put_at-count-lt i b cs off on)

  put_all-count-le :
      (os : List Outcome) (bs : List Branch)
      → All (λ o. p o.branch ≡ false) os
      → count p (put_all os bs) ≤ count p bs
  unfolding put_all
  put_all-count-le [] bs off = omega arith
  put_all-count-le (o ∷ os) bs (off, offs) = omega (
    arith,
    put_all-count-le os (put_at o.index o.branch bs) offs,
    put_at-count-le o.index o.branch bs off,
  )

  pub put_all-count-lt :
      (os : List Outcome) (bs : List Branch)
      → 1 ≤ length os
      → All (λ o. p o.branch ≡ false) os
      → All (λ o. holds_at p o.index bs ≡ true) os
      → count p (put_all os bs) < count p bs
  unfolding put_all
  put_all-count-lt [] bs some_task off on = absurd (omega (arith, some_task))
  put_all-count-lt (o ∷ os) bs some_task (off, offs) (on, ons) = omega (
    arith,
    put_all-count-le os (put_at o.index o.branch bs) offs,
    put_at-count-lt o.index o.branch bs off on,
  )

-- The list that an action gives has the property throughout, and the length.
abbrev pub Listing : {A : Type 0} → (A → Type 0) → ℕ → List A → Type 0
Listing P n xs = All P xs × (length xs ≡ n)

-- The place of a task, and that of its outcome, with what a success leaves.
abbrev pub TaskAt : (Branch → Bool) → List Branch → Task → Type 0
TaskAt p bs t = holds_at p t.index bs ≡ true

abbrev pub OutcomeAt : (Branch → Bool) → List Branch → Outcome → Type 0
OutcomeAt p bs o = (holds_at p o.index bs ≡ true) × ((o.success ≡ false) ⊎ (p o.branch ≡ false))

module _ (env : Env) where
  insert_at-Listing :
      {A : Type 0} (P : A → Type 0) (n m : ℕ) (x : A) (xs : List A)
      → P x
      → Listing P m xs
      → Listing P (suc m) (insert_at n x xs)
  insert_at-Listing P zero m x xs p (ps, l) = ((p, ps), ap suc l)
  insert_at-Listing P (suc n) m x [] p (ps, l) = ((p, tt), ap suc l)
  insert_at-Listing P (suc n) m x (y ∷ ys) p ((q, qs), l) =
      let (ps, k) = insert_at-Listing P n (length ys) x ys p (qs, refl) in
      ((q, ps), ap suc k ∙ ap suc l)

  arranged-Gives :
      {A : Type 0} (P : A → Type 0) (xs : List A)
      → All P xs
      → Gives (Listing P (length xs)) (arranged env xs)
  unfolding arranged
  arranged-Gives P [] ps = pure-Gives (Listing P 0) [] (tt, refl)
  arranged-Gives P (x ∷ xs) (p, ps) = λ w.
      bind-Gives (Listing P (length xs)) (Listing P (suc (length xs))) (arranged env xs)
        (placed (env.arrival w.ticks) x) (arranged-Gives P xs ps)
        (λ ys listing.
          pure-Gives (Listing P (suc (length xs))) (insert_at (env.arrival w.ticks) x ys)
            (insert_at-Listing P (env.arrival w.ticks) (length xs) x ys p listing))
        (record w { ticks = suc w.ticks })

  release_all-Gives : (bs : List BranchBarrier) → Gives Anything (release_all env bs)
  unfolding release_all
  release_all-Gives [] = pure-Gives Anything tt tt
  release_all-Gives (b ∷ bs) =
      bind-Gives Anything Anything (release env b) (λ _. release_all env bs) (release-Gives env b)
        (λ _ _. release_all-Gives bs)

  pub claim_all-Gives :
      (claimed bs : List BranchBarrier) → Gives Anything (claim_all env claimed bs)
  unfolding claim_all
  claim_all-Gives claimed [] = pure-Gives Anything true tt
  claim_all-Gives claimed (b ∷ bs) =
      bind-Gives Anything Anything (claim env b)
        (λ d.
          if is_execute d
          then claim_all env (claimed ++ b ∷ []) bs
          else release_all env claimed >> pure false)
        (claim-Gives env b)
        λ d _.
          if-Gives Anything (is_execute d) (claim_all env (claimed ++ b ∷ []) bs)
            (release_all env claimed >> pure false) (λ _. claim_all-Gives (claimed ++ b ∷ []) bs)
            (λ _.
              bind-Gives Anything Anything (release_all env claimed) (λ _. pure false)
                (release_all-Gives claimed) (λ _ _. pure-Gives Anything false tt))

  join_all-Gives : (gid op : String) (os : List Outcome) → Gives Anything (join_all env gid op os)
  unfolding join_all
  join_all-Gives gid op [] = pure-Gives Anything tt tt
  join_all-Gives gid op (o ∷ os) =
      if-Gives Anything o.success (join_all env gid op os)
        (release env (barrier_of gid o.branch op) >> join_all env gid op os)
        (λ _. join_all-Gives gid op os)
        (λ _.
          bind-Gives Anything Anything (release env (barrier_of gid o.branch op))
            (λ _. join_all env gid op os) (release-Gives env (barrier_of gid o.branch op))
            (λ _ _. join_all-Gives gid op os))

  module _ (p : Branch → Bool) (bs : List Branch) (options : TransactionOptions) (gid : String)
      (s : TransactionStatus) (done otherwise : BranchStatus)
      (settles : (b : Branch) → p (settled done b) ≡ false) where
    outcome-At :
        (t : Task) (called : Branch × Bool)
        → TaskAt p bs t
        → Gives (OutcomeAt p bs) (outcome_of done otherwise t called)
    unfolding Given
    outcome-At t (b, true) at w = (at, inr (settles b))
    outcome-At t (b, false) at w = (at, inl refl)

    run_task-Gives :
        (t : Task)
        → TaskAt p bs t
        → Gives (OutcomeAt p bs) (run_task env options gid s done otherwise t)
    unfolding run_task
    run_task-Gives t at =
        bind-Gives Anything (OutcomeAt p bs) (invoke_branch env options gid s t.branch t.url)
          (outcome_of done otherwise t) (invoke_branch-Gives env options gid s t.branch t.url)
          (λ called _. outcome-At t called at)

    run_tasks-Gives :
        (ts : List Task)
        → All (TaskAt p bs) ts
        → Gives
            (Listing (OutcomeAt p bs) (length ts))
            (run_tasks env options gid s done otherwise ts)
    unfolding run_tasks
    run_tasks-Gives [] at = pure-Gives (Listing (OutcomeAt p bs) 0) [] (tt, refl)
    run_tasks-Gives (t ∷ ts) (at, ats) =
        bind-Gives (OutcomeAt p bs) (Listing (OutcomeAt p bs) (suc (length ts)))
          (run_task env options gid s done otherwise t)
          (λ o. run_tasks env options gid s done otherwise ts >>= λ os. pure (o ∷ os))
          (run_task-Gives t at)
          λ o o_at.
            bind-Gives (Listing (OutcomeAt p bs) (length ts))
              (Listing (OutcomeAt p bs) (suc (length ts)))
              (run_tasks env options gid s done otherwise ts) (λ os. pure (o ∷ os))
              (run_tasks-Gives ts ats)
              λ os listing.
                pure-Gives (Listing (OutcomeAt p bs) (suc (length ts))) (o ∷ os)
                  ((o_at, listing.0), ap suc listing.1)

    pub batch-Gives :
        (op : String) (ts : List Task)
        → All (TaskAt p bs) ts
        → Gives
            (Listing (OutcomeAt p bs) (length ts))
            (batch env options gid s done otherwise op ts)
    unfolding batch
    batch-Gives op ts at =
        bind-Gives (Listing (TaskAt p bs) (length ts)) (Listing (OutcomeAt p bs) (length ts))
          (arranged env ts)
          (λ started. run_tasks env options gid s done otherwise started >>= λ finished.
            arranged env finished >>= λ joined. join_all env gid op joined >> pure joined)
          (arranged-Gives (TaskAt p bs) ts at)
          λ started (ats, n).
            bind-Gives (Listing (OutcomeAt p bs) (length started))
              (Listing (OutcomeAt p bs) (length ts))
              (run_tasks env options gid s done otherwise started)
              (λ finished.
                arranged env finished >>= λ joined. join_all env gid op joined >> pure joined)
              (run_tasks-Gives started ats)
              λ finished (oks, m).
                bind-Gives (Listing (OutcomeAt p bs) (length finished))
                  (Listing (OutcomeAt p bs) (length ts)) (arranged env finished)
                  (λ joined. join_all env gid op joined >> pure joined)
                  (arranged-Gives (OutcomeAt p bs) finished oks)
                  λ joined (all_at, l).
                    bind-Gives Anything (Listing (OutcomeAt p bs) (length ts))
                      (join_all env gid op joined) (λ _. pure joined) (join_all-Gives gid op joined)
                      λ _ _.
                        pure-Gives (Listing (OutcomeAt p bs) (length ts)) joined (all_at, l ∙ m ∙ n)
