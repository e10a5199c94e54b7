-- ===== src/Coordinator/Saga/Actions.antt =====
-- The calls of `start_saga` in src/lib.rs: which actions it has called when it reports success.
use mathlib.Core.List.{append-nil}
use roze_dtm.Common.{
  ℕ, ◌≡◌, refl, sym, subst, arith, List, [], ◌∷◌, ◌++◌, String, Bool, true, false, some, inl, inr,
  ltb, if◌then◌else◌, string_ord,
}
use roze_dtm.Map.{lookup}
use roze_dtm.Data.{
  TransactionKind, TransactionStatus, BranchStatus, Branch, Transaction, Result, ok, err, branch_is,
  status_in, status_is, kind_is, non_replayable,
}
use roze_dtm.Memory.Transactions.{get_transaction}
use roze_dtm.Workflow.{ensure_status}
use roze_dtm.Engine.{
  World, Env, Exec, pure, lift, ◌>>=◌, ◌>>◌, looked, found_of_kind, claim, release, access,
  invoke_branch, persist_transaction, transaction_of_kind, require_status, with_status, settled,
  barrier_of,
}
use roze_dtm.Coordinator.Tcc.{run_unless}
use roze_dtm.Coordinator.Tasks.{is_execute}
use roze_dtm.Coordinator.Concurrent.{
  saga_start_states, action_attempts, launched, persist_as, start_concurrent_saga,
}
use roze_dtm.Coordinator.Saga.{
  undone, action_failed, action_called, action_decided, saga_action, saga_actions,
  start_saga_loaded, start_saga,
}
use roze_dtm.Coordinator.Saga.Compensations.{when_true, when_false, ensured}
use roze_dtm.Coordinator.Traces.{all_succeed}
use roze_dtm.Coordinator.Writes.{alone}
use roze_dtm.Coordinator.Saga.Winning.{
  pending_actions, not_succeeded, Wins, if_both, Invoked, invoke_branch-Invoked, Wins-called,
  Stored, WinsFrom, NeverFrom, Stored-same, Wins-same, bind-Wins, claim-Silent, choose-Wins,
  persisted-Stored, abort_saga-Never, reload-Never, Own, persist-Wins,
}

module _ (env : Env) (gid : String) where
  -- A failed action: the saga waits for a retry, or is undone.
  action_failed-Never :
      (limit : ℕ) (tx : Transaction) (before : List Branch) (b : Branch) (after : List Branch)
      → Own env gid tx
      → NeverFrom env gid TransactionStatus.succeeding
          (action_failed (alone env) gid limit tx before b after)
  unfolding action_failed release persist_as persist_transaction access not_succeeded Own
  action_failed-Never limit tx before b after (own, kind, sequential) w stored =
      let bs = undone (before ++ with_status BranchStatus.compensating b ∷ after) in
      if_both (λ (m : Exec Transaction). not_succeeded (m w).0 ≡ true) (ltb b.attempts limit) _ _
        (λ _. refl)
        λ _.
          abort_saga-Never env gid (persist_as (alone env) tx TransactionStatus.aborting bs w).1
            (persisted-Stored env gid tx TransactionStatus.aborting bs w own kind sequential)

  -- A call that succeeded is the next one of the trace.
  called-Wins :
      (url : String) (rest : List String) (k : Branch × Bool → Exec Transaction) (w : World)
      (run : Result (Branch × Bool) × World)
      → Invoked url w run
      → ((b : Branch) → WinsFrom env gid rest (k (b, true)))
      → ((b : Branch) → NeverFrom env gid TransactionStatus.succeeding (k (b, false)))
      → Stored env gid TransactionStatus.succeeding w
      → Wins (url ∷ rest) w (((λ v. run) >>= k) w)
  unfolding Invoked Wins
  called-Wins url rest k w (err e, w1) invoked wins never stored = absurd (ground (arith, invoked))
  called-Wins url rest k w (ok (b, false), w1) same wins never stored =
      inl (never b w1 (Stored-same env gid TransactionStatus.succeeding w w1 same stored))
  called-Wins url rest k w (ok (b, true), w1) (same, (call, at, fine, called)) wins never stored =
      Wins-called url rest w w1 call (k (b, true) w1) at fine called
        (wins b w1 (Stored-same env gid TransactionStatus.succeeding w w1 same stored))

  called_rest-Wins :
      (next : Transaction → Branch → Exec Transaction) (rest : List String) (limit : ℕ)
      (tx : Transaction) (before after : List Branch)
      → Own env gid tx
      → ((tx' : Transaction) (b' : Branch) → Own env gid tx' → WinsFrom env gid rest (next tx' b'))
      → (b : Branch)
      → WinsFrom env gid rest (action_called (alone env) gid next limit tx before after (b, true))
  unfolding action_called
  called_rest-Wins next rest limit tx before after own wins b =
      let b' = settled BranchStatus.succeeded b in
      persist-Wins env gid rest tx (before ++ b' ∷ after) (λ tx'. next tx' b') own
        (λ tx'. wins tx' b')

  decided-Wins :
      (next : Transaction → Branch → Exec Transaction) (rest : List String) (limit : ℕ)
      (tx : Transaction) (before : List Branch) (b : Branch) (after : List Branch)
      → Own env gid tx
      → ((tx' : Transaction) (b' : Branch) → Own env gid tx' → WinsFrom env gid rest (next tx' b'))
      → (d : Bool)
      → WinsFrom env gid
          (b.action ∷ rest)
          (action_decided (alone env) gid next limit tx before b after d)
  unfolding action_decided action_called Wins
  decided-Wins next rest limit tx before b after own wins false w stored =
      inl (reload-Never env gid w stored)
  decided-Wins next rest limit tx before b after own wins true w stored =
      called-Wins b.action rest (action_called (alone env) gid next limit tx before after) w
        (invoke_branch (alone env) tx.options tx.gid TransactionStatus.succeeding (launched b)
          b.action w)
        (invoke_branch-Invoked (alone env) tx.options tx.gid TransactionStatus.succeeding
          (launched b) b.action w)
        (called_rest-Wins next rest limit tx before after own wins)
        (λ b'. action_failed-Never limit tx before b' after own) stored

  actions-Wins :
      (limit : ℕ) (bs : List Branch) (tx : Transaction) (before : List Branch)
      → Own env gid tx
      → WinsFrom env gid (pending_actions bs) (saga_actions (alone env) gid limit tx before bs)
  unfolding saga_actions saga_action pending_actions persist_as persist_transaction access Wins
      all_succeed
  actions-Wins limit [] tx before own = λ w stored. inr ([], sym (append-nil w.calls), refl, refl)
  actions-Wins limit (b ∷ bs) tx before own =
      let next = λ (tx' : Transaction) (b' : Branch).
        saga_actions (alone env) gid limit tx' (before ++ b' ∷ []) bs in
      let rest = pending_actions bs in
      choose-Wins env gid (branch_is b.status BranchStatus.succeeded) rest (b.action ∷ rest)
        (next tx b)
        (claim (alone env) (barrier_of tx.gid b "action") >>= λ d.
          action_decided (alone env) gid next limit tx before b bs (is_execute d))
        (λ _. actions-Wins limit bs tx (before ++ b ∷ []) own)
        λ _.
          bind-Wins env gid (b.action ∷ rest) (claim (alone env) (barrier_of tx.gid b "action"))
            (λ d. action_decided (alone env) gid next limit tx before b bs (is_execute d))
            (claim-Silent env gid (barrier_of tx.gid b "action"))
            λ d.
              decided-Wins next rest limit tx before b bs own
                (λ tx' b'. actions-Wins limit bs tx' (before ++ b' ∷ [])) (is_execute d)

  loaded-Wins :
      (tx : Transaction) (w : World)
      → Own env gid tx
      → status_in tx.status saga_start_states ≡ true
      → Wins (pending_actions tx.branches) w (start_saga_loaded (alone env) gid tx w)
  unfolding start_saga_loaded require_status ensure_status Own persist_as persist_transaction access
  loaded-Wins tx w (own, kind, sequential) allowed =
      let calls = pending_actions tx.branches in
      let k = λ (tx' : Transaction).
        saga_actions (alone env) gid (action_attempts tx.options) tx' [] tx.branches in
      let w1 = (persist_as (alone env) tx TransactionStatus.succeeding tx.branches w).1 in
      let in_turn = persist_as (alone env) tx TransactionStatus.succeeding tx.branches >>= k in
      let P = λ (m : Exec Transaction). Wins calls w (m w) in
      let chosen =
        if tx.options.concurrent then start_concurrent_saga (alone env) tx else in_turn in
      ensured P (status_in tx.status saga_start_states) (non_replayable tx.status)
        (λ checked. lift checked >> chosen) allowed
        (when_false P tx.options.concurrent (start_concurrent_saga (alone env) tx) in_turn
          sequential
          (Wins-same env gid calls w w1 _ refl (
            actions-Wins (action_attempts tx.options) tx.branches _ [] (own, kind, sequential) w1
              (persisted-Stored env gid tx TransactionStatus.succeeding tx.branches w own kind
                sequential))))

-- A worker that is alone starts a sequential saga, stored under its own gid, that is Submitted or Succeeding.
-- When `start_saga` reports Succeeded, it has made, with success and in the order of the branches, exactly one
-- call of the action of each branch that had not succeeded before, and no other call.
pub start_saga-succeeds :
    (env : Env) (gid : String) (tx : Transaction) (w : World)
    → lookup gid w.store.txs ≡ some tx
    → tx.gid ≡ gid
    → tx.kind ≡ TransactionKind.saga
    → status_in tx.status saga_start_states ≡ true
    → tx.options.concurrent ≡ false
    → Wins (pending_actions tx.branches) w (start_saga (alone env) gid w)
unfolding start_saga transaction_of_kind get_transaction run_unless Own
start_saga-succeeds env gid tx w stored own kind allowed sequential =
    let calls = pending_actions tx.branches in
    let loaded = start_saga_loaded (alone env) gid in
    let run = run_unless (alone env) TransactionStatus.succeeded loaded in
    let w1 = looked (alone env) w in
    let P = λ (r : Result Transaction). Wins calls w ((lift r >>= run) w1) in
    subst (λ o. P (found_of_kind TransactionKind.saga gid o)) (sym stored)
      (when_true P (kind_is tx.kind TransactionKind.saga) (ok tx) _ (ground (arith, kind)) (
        when_false (λ (m : Exec Transaction). Wins calls w (m w1))
          (status_is tx.status TransactionStatus.succeeded) (pure tx) (loaded tx)
          (ground (arith, allowed))
          (Wins-same env gid calls w w1 (loaded tx w1) refl
            (loaded-Wins env gid tx w1 (own, kind, sequential) allowed))))
