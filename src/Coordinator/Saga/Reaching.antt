-- ===== src/Coordinator/Saga/Reaching.antt =====
-- `start_saga` in src/lib.rs where nothing fails.
use roze_dtm.Common.{
  ℕ, ◌≡◌, refl, sym, ap, ◌∙◌, subst, arith, List, [], ◌∷◌, ◌++◌, String, Bool, true, false, some,
  ◌&&◌, ◌||◌, not, any, if◌then◌else◌, ◌==◌, ==_iff, string_ord,
}
use roze_dtm.Map.{lookup}
use roze_dtm.Data.{
  TransactionKind, TransactionStatus, BranchStatus, Branch, Transaction, Result, ok, branch_is,
  status_in, status_is, kind_is, non_replayable,
}
use roze_dtm.Memory.Barriers.{BarrierSet, barrier, contains, same_barrier}
use roze_dtm.Memory.Barriers.Claims.{barrier-contains}
use roze_dtm.Memory.Transactions.{get_transaction, update_transaction}
use roze_dtm.Workflow.{ensure_status}
use roze_dtm.Engine.{
  World, Env, Exec, pure, lift, ◌>>=◌, ◌>>◌, looked, found_of_kind, claim, access, invoke,
  invoke_branch, persist_transaction, transaction_of_kind, require_status, barrier_of,
}
use roze_dtm.Coordinator.Tcc.{run_unless}
use roze_dtm.Coordinator.Tasks.{is_execute}
use roze_dtm.Coordinator.Concurrent.{
  saga_start_states, action_attempts, launched, persist_as, start_concurrent_saga,
}
use roze_dtm.Coordinator.Saga.{
  action_called, action_decided, saga_action, saga_actions, start_saga_loaded, start_saga,
}
use roze_dtm.Coordinator.Saga.Compensations.{when_true, when_false, ensured}
use roze_dtm.Coordinator.Saga.Winning.{not_succeeded, if_both}
use roze_dtm.Coordinator.Writes.{alone}

-- The barriers of the actions that are still to be called are free, and the ids are distinct.
unfoldable pub all_free : String → BarrierSet → List Branch → Bool
all_free gid s [] = true
all_free gid s (b ∷ bs) =
    (branch_is b.status BranchStatus.succeeded || not (contains (barrier_of gid b "action") s))
    && not (any (λ c. c.id == b.id) bs)
    && all_free gid s bs

free_decision :
    (gid : String) (b : Branch) (s : BarrierSet)
    → contains (barrier_of gid b "action") s ≡ false
    → is_execute (barrier (barrier_of gid b "action") s).0 ≡ true
unfolding barrier
free_decision gid b s free = ground (arith, free)

-- A claim takes no barrier of another id.
free_after_claim :
    (gid : String) (b : Branch) (s : BarrierSet) (bs : List Branch)
    → any (λ c. c.id == b.id) bs ≡ false
    → all_free gid s bs ≡ true
    → all_free gid (barrier (barrier_of gid b "action") s).1 bs ≡ true
unfolding all_free same_barrier
free_after_claim gid b s [] other free = refl
free_after_claim gid b s (c ∷ cs) other free = ground (
  arith,
  free,
  other,
  free_after_claim gid b s cs,
  ==_iff c.id b.id,
  ==_iff b.id c.id,
  barrier-contains (barrier_of gid b "action") (barrier_of gid c "action") s,
)

module _ (env : Env) (gid : String)
    (answers : (now : ℕ) (url payload : String) → env.respond now url payload ≡ true) where
  -- A call of an action leads to the rest of the loop.
  decided-Reaches :
      (next : Transaction → Branch → Exec Transaction) (limit : ℕ) (tx : Transaction)
      (before : List Branch) (b : Branch) (after : List Branch) (w : World) (d : Bool)
      → d ≡ true
      → ((tx' : Transaction) (b' : Branch) (w' : World)
          → tx'.gid ≡ tx.gid
          → w'.store.barriers ≡ w.store.barriers
          → not_succeeded (next tx' b' w').0 ≡ false)
      → not_succeeded (action_decided (alone env) gid next limit tx before b after d w).0 ≡ false
  unfolding action_decided action_called invoke_branch invoke persist_as persist_transaction access
      update_transaction
  decided-Reaches next limit tx before b after w false e reaches = absurd (ground (arith, e))
  decided-Reaches next limit tx before b after w true e reaches =
      when_true
        (λ (m : Exec (Branch × Bool)).
          not_succeeded
            ((m >>= action_called (alone env) gid next limit tx before after)
              (invoke (alone env) b.action b.payload w).1).0
          ≡ false)
        (env.respond w.ticks b.action b.payload) (pure (launched b, true)) _
        (answers w.ticks b.action b.payload) (reaches _ _ _ refl refl)

  actions-Reaches :
      (limit : ℕ) (bs : List Branch) (tx : Transaction) (before : List Branch) (w : World)
      → all_free tx.gid w.store.barriers bs ≡ true
      → not_succeeded (saga_actions (alone env) gid limit tx before bs w).0 ≡ false
  unfolding saga_actions saga_action persist_as persist_transaction access claim all_free
      not_succeeded
  actions-Reaches limit [] tx before w free = refl
  actions-Reaches limit (b ∷ bs) tx before w free =
      let next = λ (tx' : Transaction) (b' : Branch).
        saga_actions (alone env) gid limit tx' (before ++ b' ∷ []) bs in
      let key = barrier_of tx.gid b "action" in
      if_both (λ (m : Exec Transaction). not_succeeded (m w).0 ≡ false)
        (branch_is b.status BranchStatus.succeeded) (next tx b)
        (claim (alone env) key >>= λ d.
          action_decided (alone env) gid next limit tx before b bs (is_execute d))
        (λ _. actions-Reaches limit bs tx (before ++ b ∷ []) w (ground (arith, free)))
        λ pending.
          decided-Reaches next limit tx before b bs (claim (alone env) key w).1
            (is_execute (barrier key w.store.barriers).0)
            (free_decision tx.gid b w.store.barriers (ground (arith, free, pending)))
            λ tx' b' w' same_gid same_barriers.
              actions-Reaches limit bs tx' (before ++ b' ∷ []) w' (
                ap (λ g. all_free g w'.store.barriers bs) same_gid
                ∙ ap (λ s. all_free tx.gid s bs) same_barriers
                ∙ free_after_claim tx.gid b w.store.barriers bs (ground (arith, free))
                    (ground (arith, free)))

  loaded-Reaches :
      (tx : Transaction) (w : World)
      → status_in tx.status saga_start_states ≡ true
      → tx.options.concurrent ≡ false
      → all_free tx.gid w.store.barriers tx.branches ≡ true
      → not_succeeded (start_saga_loaded (alone env) gid tx w).0 ≡ false
  unfolding start_saga_loaded require_status ensure_status persist_as persist_transaction access
      update_transaction
  loaded-Reaches tx w allowed sequential free =
      let k = λ (tx' : Transaction).
        saga_actions (alone env) gid (action_attempts tx.options) tx' [] tx.branches in
      let in_turn = persist_as (alone env) tx TransactionStatus.succeeding tx.branches >>= k in
      let P = λ (m : Exec Transaction). not_succeeded (m w).0 ≡ false in
      let chosen =
        if tx.options.concurrent then start_concurrent_saga (alone env) tx else in_turn in
      ensured P (status_in tx.status saga_start_states) (non_replayable tx.status)
        (λ checked. lift checked >> chosen) allowed
        (when_false P tx.options.concurrent (start_concurrent_saga (alone env) tx) in_turn
          sequential
          (actions-Reaches (action_attempts tx.options) tx.branches _ []
            (persist_as (alone env) tx TransactionStatus.succeeding tx.branches w).1 free))

-- A worker that is alone starts a sequential saga that is Submitted or Succeeding, where every call succeeds,
-- the ids of the branches are distinct, and no action that is still to be called has its barrier claimed. Then
-- `start_saga` reports Succeeded.
pub start_saga-reaches_success :
    (env : Env) (gid : String) (tx : Transaction) (w : World)
    → ((now : ℕ) (url payload : String) → env.respond now url payload ≡ true)
    → lookup gid w.store.txs ≡ some tx
    → tx.kind ≡ TransactionKind.saga
    → status_in tx.status saga_start_states ≡ true
    → tx.options.concurrent ≡ false
    → all_free tx.gid w.store.barriers tx.branches ≡ true
    → not_succeeded (start_saga (alone env) gid w).0 ≡ false
unfolding start_saga transaction_of_kind get_transaction run_unless
start_saga-reaches_success env gid tx w answers stored kind allowed sequential free =
    let loaded = start_saga_loaded (alone env) gid in
    let run = run_unless (alone env) TransactionStatus.succeeded loaded in
    let w1 = looked (alone env) w in
    let P = λ (r : Result Transaction). not_succeeded ((lift r >>= run) w1).0 ≡ false in
    subst (λ o. P (found_of_kind TransactionKind.saga gid o)) (sym stored)
      (when_true P (kind_is tx.kind TransactionKind.saga) (ok tx) _ (ground (arith, kind)) (
        when_false (λ (m : Exec Transaction). not_succeeded (m w1).0 ≡ false)
          (status_is tx.status TransactionStatus.succeeded) (pure tx) (loaded tx)
          (ground (arith, allowed)) (loaded-Reaches env gid answers tx w1 allowed sequential free)))
