-- ===== src/Coordinator/Saga/Compensations.antt =====
-- The calls of `abort_saga` in src/lib.rs: which compensations it makes, in which order, and what it then
-- reports.
use roze_dtm.Common.{
  ◌≡◌, refl, sym, ap, arith, List, [], ◌∷◌, ◌++◌, reverse, String, Bool, true, false, Option, none,
  some, ◌⊎◌, inl, inr, not, ◌||◌, if◌then◌else◌, string_ord, subst,
}
use roze_dtm.Map.{lookup}
use roze_dtm.Data.{
  TransactionKind, TransactionStatus, BranchStatus, Branch, Transaction, TransactionOptions, Error,
  Result, Checked, ensure, non_replayable, ok, err, branch_is, branch_in, status_in, status_is,
  kind_is,
}
use roze_dtm.Memory.Barriers.{BarrierSet, BarrierDecision, barrier}
use roze_dtm.Memory.Transactions.{get_transaction}
use roze_dtm.Workflow.{ensure_status}
use roze_dtm.Engine.{
  Call, World, Env, Exec, pure, lift, ◌>>=◌, ◌>>◌, seen, looked, found_of_kind, claim, release,
  access, invoke, invoke_branch, current_millis, notify_branch_failure, persist_transaction,
  transaction_of_kind, require_status, with_status, barrier_of, Stop, for_branches,
}
use roze_dtm.Engine.Loops.{stop_of}
use roze_dtm.Coordinator.Tcc.{run_unless}
use roze_dtm.Coordinator.Concurrent.{saga_abort_states, persist_as, abort_concurrent_saga}
use roze_dtm.Coordinator.Saga.{
  roll_back, compensate_with, compensate_decided, compensate_branch, write_reversed, abort_loop,
  abort_saga_loaded, abort_saga,
}
use roze_dtm.Coordinator.Traces.{all_succeed, ends_in_failure, fits}
use roze_dtm.Coordinator.Saga.Following.{
  given_url, due, all_own, compensations, urls, failing, finishes, Follows, idle-Follows,
  finished-nil, for_branches-Follows, FollowsAll, if-Follows,
}

abbrev is_due : Branch → Bool
is_due b = branch_in b.status (BranchStatus.succeeded ∷ BranchStatus.compensating ∷ [])

not_due : (b : Branch) → is_due b ≡ false → due b ≡ []
unfolding due
not_due b e = ap (λ c. if c then given_url b.compensate else []) e

due_when : (b : Branch) → is_due b ≡ true → due b ≡ given_url b.compensate
unfolding due
due_when b e = ap (λ c. if c then given_url b.compensate else []) e

module _ (env : Env) where
  -- A barrier that is neither a try nor a cancel is executed or was claimed before.
  plain_barrier :
      (gid : String) (b : Branch) (s : BarrierSet)
      → ((barrier (barrier_of gid b "compensate") s).0 ≡ BarrierDecision.execute)
        ⊎ ((barrier (barrier_of gid b "compensate") s).0 ≡ BarrierDecision.skip_duplicate)
  unfolding barrier
  plain_barrier gid b s = ground arith

  roll_back-Follows :
      (options : TransactionOptions) (gid op : String) (b : Branch) (url : String) (w : World)
      → Follows
          (url ∷ [])
          w
          (stop_of (roll_back env options gid op b url w).0)
          (roll_back env options gid op b url w).1
  unfolding roll_back invoke_branch invoke current_millis notify_branch_failure release access
      Follows stop_of fits all_succeed ends_in_failure finishes failing
  roll_back-Follows options gid op b url w = (
    record { url = url; payload = b.payload; success = env.respond w.ticks url b.payload } ∷ [],
    [],
    ground arith,
    refl,
    ground arith,
    ground arith,
  )

  compensate_with-Follows :
      (options : TransactionOptions) (gid : String) (b : Branch) (url : Option String) (w : World)
      → Follows
          (given_url url)
          w
          (stop_of (compensate_with env options gid b url w).0)
          (compensate_with env options gid b url w).1
  unfolding compensate_with stop_of fits all_succeed finishes
  compensate_with-Follows options gid b none w = idle-Follows w w none [] refl refl refl
  compensate_with-Follows options gid b (some url) w =
      roll_back-Follows options gid "compensate" b url w

  decided-Follows :
      (options : TransactionOptions) (gid : String) (b : Branch) (d : BarrierDecision) (w : World)
      → (d ≡ BarrierDecision.execute) ⊎ (d ≡ BarrierDecision.skip_duplicate)
      → Follows
          (given_url b.compensate)
          w
          (stop_of (compensate_decided env options gid b d w).0)
          (compensate_decided env options gid b d w).1
  unfolding compensate_decided stop_of fits all_succeed finishes failing
  decided-Follows options gid b BarrierDecision.execute w plain =
      compensate_with-Follows options gid b b.compensate w
  decided-Follows options gid b BarrierDecision.skip_duplicate w plain =
      idle-Follows w w (some Stop.claimed_elsewhere) (given_url b.compensate) refl refl refl
  decided-Follows options gid b BarrierDecision.skip_null_compensation w plain =
      absurd (ground (arith, plain))
  decided-Follows options gid b BarrierDecision.skip_cancelled_try w plain =
      absurd (ground (arith, plain))

  claimed-Follows :
      (options : TransactionOptions) (gid : String) (b : Branch) (w : World)
      → Follows
          (given_url b.compensate)
          w
          (stop_of
            ((claim env (barrier_of gid b "compensate") >>= compensate_decided env options gid b)
              w).0)
          ((claim env (barrier_of gid b "compensate") >>= compensate_decided env options gid b) w).1
  unfolding claim access Follows
  claimed-Follows options gid b w =
      decided-Follows options gid b
        (barrier (barrier_of gid b "compensate") (seen env w).barriers).0
        (claim env (barrier_of gid b "compensate") w).1 (plain_barrier gid b (seen env w).barriers)

  compensate_branch-Follows :
      (options : TransactionOptions) (gid : String) (b : Branch)
      → FollowsAll (due b) (compensate_branch env options gid b)
  unfolding compensate_branch due stop_of fits all_succeed finishes
  compensate_branch-Follows options gid b =
      let c = with_status BranchStatus.compensating b in
      let claimed =
        claim env (barrier_of gid b "compensate") >>= compensate_decided env options gid c in
      let called = branch_in b.status (BranchStatus.succeeded ∷ BranchStatus.compensating ∷ []) in
      if-Follows (due b) (branch_is b.status BranchStatus.pending)
        (pure (with_status BranchStatus.skipped b, none))
        (if not called then pure (b, none) else claimed)
        (λ pending w.
          idle-Follows w w none (due b) refl refl
            (ap (finishes (ok none)) (not_due b (ground (arith, pending)))))
        λ _.
          if-Follows (due b) (not called) (pure (b, none)) claimed
            (λ uncalled w.
              idle-Follows w w none (due b) refl refl
                (ap (finishes (ok none)) (not_due b (ground (arith, uncalled)))))
            λ is_called w.
              subst (λ us. Follows us w (stop_of (claimed w).0) (claimed w).1)
                (sym (due_when b (ground (arith, is_called)))) (claimed-Follows options gid c w)

  -- Every branch in turn, from the last to the first.
  loop-Follows :
      (options : TransactionOptions) (gid : String) (bs : List Branch)
      → FollowsAll (all_own due bs) (for_branches (compensate_branch env options gid) bs)
  loop-Follows options gid bs =
      for_branches-Follows (compensate_branch env options gid) due
        (compensate_branch-Follows options gid) bs

-- What a saga that is undone in turn reports, and the calls that it makes: Aborted after all of them, or
-- Aborting after a part of them, because a call failed or another worker has the barrier of the next.
unfoldable pub SagaUndone : List String → World → Result Transaction → World → Type 0
SagaUndone calls w (err e) w' = false ≡ true
SagaUndone calls w (ok tx) w' =
    (new : List Call) × (rest : List String) × (w'.calls ≡ w.calls ++ new)
    × (urls new ++ rest ≡ calls)
    × ((tx.status ≡ TransactionStatus.aborted × (rest ≡ []) × (all_succeed new ≡ true))
        ⊎ (tx.status ≡ TransactionStatus.aborting
            × ((all_succeed new || ends_in_failure new) ≡ true)))

pub when_true :
    {X : Type 0} (P : X → Type 0) (c : Bool) (x y : X) → c ≡ true → P x → P (if c then x else y)
when_true P true x y e p = p
when_true P false x y e p = absurd (ground (arith, e))

pub when_false :
    {X : Type 0} (P : X → Type 0) (c : Bool) (x y : X) → c ≡ false → P y → P (if c then x else y)
when_false P true x y e p = absurd (ground (arith, e))
when_false P false x y e p = p

pub ensured :
    {X : Type 0} (P : X → Type 0) (c : Bool) (e : Error) (f : Checked → X)
    → c ≡ true
    → P (f (ok tt))
    → P (f (ensure c e))
ensured P true e f at p = p
ensured P false e f at p = absurd (ground (arith, at))

module _ (env : Env) where
  write_reversed-Undone :
      (calls : List String) (tx : Transaction) (w : World)
      (run : Result (List Branch × Option Stop) × World)
      → Follows calls w (stop_of run.0) run.1
      → SagaUndone calls w
          (((λ _. run) >>= write_reversed env tx) w).0
          (((λ _. run) >>= write_reversed env tx) w).1
  unfolding write_reversed persist_as persist_transaction access SagaUndone Follows stop_of fits
      finishes failing
  write_reversed-Undone calls tx w (err e, w1) (new, rest, same, order, fit, finish) = finish
  write_reversed-Undone calls tx w (ok (bs, none), w1) (new, rest, same, order, fit, finish) =
      (new, rest, same, order, inl (refl, finished-nil rest finish, fit))
  write_reversed-Undone calls tx w (ok (bs, some s), w1) (new, rest, same, order, fit, finish) =
      (new, rest, same, order, inr (refl, ground (arith, fit)))

  loaded-Undone :
      (tx : Transaction) (w : World)
      → status_in tx.status saga_abort_states ≡ true
      → tx.options.concurrent ≡ false
      → SagaUndone
          (compensations tx.branches)
          w
          (abort_saga_loaded env tx w).0
          (abort_saga_loaded env tx w).1
  unfolding abort_saga_loaded require_status ensure_status abort_loop compensations
  loaded-Undone tx w allowed sequential =
      let body = compensate_branch env tx.options tx.gid in
      let in_turn = abort_loop env body tx in
      let P = λ (m : Exec Transaction). SagaUndone (compensations tx.branches) w (m w).0 (m w).1 in
      let chosen = if tx.options.concurrent then abort_concurrent_saga env tx else in_turn in
      ensured P (status_in tx.status saga_abort_states) (non_replayable tx.status)
        (λ checked. lift checked >> chosen) allowed
        (when_false P tx.options.concurrent (abort_concurrent_saga env tx) in_turn sequential (
          write_reversed-Undone (compensations tx.branches) tx w
            (for_branches body (reverse tx.branches) w)
            (loop-Follows env tx.options tx.gid (reverse tx.branches) w)))

  -- The sequential `abort_saga` of a saga that is Submitted, Succeeding or Aborting gives no error. Its calls
  -- are the first of the compensations of the branches that are Succeeded or Compensating, from the last
  -- branch to the first. It reports Aborted only when it has made all of them with success, and else Aborting.
  pub abort_saga-undoes :
      (gid : String) (tx : Transaction) (w : World)
      → lookup gid (seen env w).txs ≡ some tx
      → tx.kind ≡ TransactionKind.saga
      → status_in tx.status saga_abort_states ≡ true
      → tx.options.concurrent ≡ false
      → SagaUndone (compensations tx.branches) w (abort_saga env gid w).0 (abort_saga env gid w).1
  unfolding abort_saga transaction_of_kind get_transaction run_unless SagaUndone
  abort_saga-undoes gid tx w stored kind allowed sequential =
      let run = run_unless env TransactionStatus.aborted (abort_saga_loaded env) in
      let P = λ (r : Result Transaction).
        SagaUndone (compensations tx.branches) w ((lift r >>= run) (looked env w)).0
          ((lift r >>= run) (looked env w)).1 in
      subst (λ o. P (found_of_kind TransactionKind.saga gid o)) (sym stored)
        (when_true P (kind_is tx.kind TransactionKind.saga) (ok tx) _ (ground (arith, kind)) (
          when_false
            (λ (m : Exec Transaction).
              SagaUndone (compensations tx.branches) w (m (looked env w)).0 (m (looked env w)).1)
            (status_is tx.status TransactionStatus.aborted) (pure tx) (abort_saga_loaded env tx)
            (ground (arith, allowed)) (loaded-Undone tx (looked env w) allowed sequential)))
