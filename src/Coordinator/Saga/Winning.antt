-- ===== src/Coordinator/Saga/Winning.antt =====
-- Runs of `start_saga` in src/lib.rs against a list of calls to make: the rules for its steps.
use mathlib.Core.List.{append_assoc}
use roze_dtm.Common.{
  suc, ◌≡◌, refl, ap, ◌∙◌, arith, List, [], ◌∷◌, ◌++◌, String, Bool, true, false, some, ◌⊎◌, inl,
  inr, not, if◌then◌else◌, ==_iff, string_ord,
}
use roze_dtm.Map.{lookup, lookup-insert}
use roze_dtm.Data.{
  TransactionKind, TransactionStatus, BranchStatus, Branch, Transaction, TransactionOptions, Result,
  ok, err, branch_is, status_is,
}
use roze_dtm.Dynamic.{bump_transaction_revision}
use roze_dtm.Memory.Barriers.{BranchBarrier}
use roze_dtm.Memory.Transactions.{get_transaction, update_transaction}
use roze_dtm.Engine.{
  Call, World, Env, Exec, ◌>>=◌, load, claim, access, invoke, invoke_branch, current_millis,
  notify_branch_failure, persist_transaction,
}
use roze_dtm.Coordinator.Tcc.{left}
use roze_dtm.Coordinator.Concurrent.{persist_as}
use roze_dtm.Coordinator.Saga.{abort_saga}
use roze_dtm.Coordinator.Saga.Compensations.{SagaUndone, abort_saga-undoes}
use roze_dtm.Coordinator.Saga.Following.{urls, compensations}
use roze_dtm.Coordinator.Traces.{all_succeed}
use roze_dtm.Coordinator.Writes.{alone}

-- The actions that are still to be called.
unfoldable pub pending_actions : List Branch → List String
pending_actions [] = []
pending_actions (b ∷ bs) =
    if branch_is b.status BranchStatus.succeeded
    then pending_actions bs
    else b.action ∷ pending_actions bs

unfoldable pub not_succeeded : Result Transaction → Bool
not_succeeded (err e) = true
not_succeeded (ok tx) = not (status_is tx.status TransactionStatus.succeeded)

-- A run reports Succeeded only after it has made the calls, all with success.
unfoldable pub Wins : List String → World → Result Transaction × World → Type 0
Wins calls w (r, w') =
    (not_succeeded r ≡ true)
    ⊎ ((new : List Call) × (w'.calls ≡ w.calls ++ new)
        × (urls new ≡ calls)
        × (all_succeed new ≡ true))

undone-never :
    (calls : List String) (w : World) (run : Result Transaction × World)
    → SagaUndone calls w run.0 run.1
    → not_succeeded run.0 ≡ true
unfolding SagaUndone not_succeeded
undone-never calls w (err e, w') reversed = refl
undone-never calls w (ok tx, w') (new, rest, made, order, inl (status, none_left, fine)) =
    ground (arith, status)
undone-never calls w (ok tx, w') (new, rest, made, order, inr (status, more)) =
    ground (arith, status)

pub if_both :
    {X : Type 0} (P : X → Type 0) (c : Bool) (x y : X)
    → (c ≡ true → P x)
    → (c ≡ false → P y)
    → P (if c then x else y)
if_both P true x y px py = px refl
if_both P false x y px py = py refl

-- What a call of an action leaves: it writes no transaction, and a successful one is in the trace.
unfoldable pub Invoked : String → World → Result (Branch × Bool) × World → Type 0
Invoked url w (err e, w') = false ≡ true
Invoked url w (ok (b, false), w') = w'.store.txs ≡ w.store.txs
Invoked url w (ok (b, true), w') =
    (w'.store.txs ≡ w.store.txs)
    × ((c : Call) × (c.url ≡ url) × (c.success ≡ true) × (w'.calls ≡ w.calls ++ c ∷ []))

pub invoke_branch-Invoked :
    (env : Env) (options : TransactionOptions) (gid : String) (status : TransactionStatus)
    (b : Branch) (url : String) (w : World)
    → Invoked url w (invoke_branch env options gid status b url w)
unfolding invoke_branch invoke current_millis notify_branch_failure Invoked
invoke_branch-Invoked env options gid status b url w =
    let call : Call = record {
      url = url;
      payload = b.payload;
      success = env.respond w.ticks url b.payload;
    } in
    if_both
      (λ (m : Exec (Branch × Bool)).
        Invoked url w (m (record w { calls = w.calls ++ call ∷ []; ticks = suc w.ticks })))
      (env.respond w.ticks url b.payload) _ _ (λ fine. (refl, (call, refl, fine, refl))) λ _. refl

pub Wins-called :
    (url : String) (rest : List String) (w w1 : World) (call : Call)
    (run : Result Transaction × World)
    → call.url ≡ url
    → call.success ≡ true
    → w1.calls ≡ w.calls ++ call ∷ []
    → Wins rest w1 run
    → Wins (url ∷ rest) w run
unfolding Wins all_succeed
Wins-called url rest w w1 call (r, w') at fine called (inl lost) = inl lost
Wins-called url rest w w1 call (r, w') at fine called (inr (new, made, order, all_fine)) = inr (
  call ∷ new,
  made ∙ ap (λ cs. cs ++ new) called ∙ append_assoc w.calls (call ∷ []) new,
  ap (λ us. call.url ∷ us) order ∙ ap (λ u. u ∷ rest) at,
  ground (arith, fine, all_fine),
)

module _ (env : Env) (gid : String) where
  -- The saga is stored with a status, and is not concurrent.
  unfoldable pub Stored : TransactionStatus → World → Type 0
  Stored s w =
      (tx : Transaction) × (lookup gid w.store.txs ≡ some tx)
      × (tx.kind ≡ TransactionKind.saga)
      × (tx.status ≡ s)
      × (tx.options.concurrent ≡ false)

  abbrev pub WinsFrom : List String → Exec Transaction → Type 0
  WinsFrom calls m = (w : World) → Stored TransactionStatus.succeeding w → Wins calls w (m w)

  abbrev pub NeverFrom : TransactionStatus → Exec Transaction → Type 0
  NeverFrom s m = (w : World) → Stored s w → not_succeeded (m w).0 ≡ true

  pub Stored-same :
      (s : TransactionStatus) (w w' : World) → w'.store.txs ≡ w.store.txs → Stored s w → Stored s w'
  unfolding Stored
  Stored-same s w w' same (tx, at, kind, status, sequential) =
      (tx, ap (lookup gid) same ∙ at, kind, status, sequential)

  pub Wins-same :
      (calls : List String) (w w1 : World) (run : Result Transaction × World)
      → w1.calls ≡ w.calls
      → Wins calls w1 run
      → Wins calls w run
  unfolding Wins
  Wins-same calls w w1 (r, w') same (inl lost) = inl lost
  Wins-same calls w w1 (r, w') same (inr (new, made, order, fine)) =
      inr (new, made ∙ ap (λ cs. cs ++ new) same, order, fine)

  -- An action that writes no transaction and makes no call.
  abbrev Silent : {A : Type 0} → Exec A → Type 0
  Silent m = (w : World) → ((m w).1.store.txs ≡ w.store.txs) × ((m w).1.calls ≡ w.calls)

  after_silent :
      {A : Type 0} (calls : List String) (k : A → Exec Transaction) (w : World)
      (run : Result A × World)
      → run.1.store.txs ≡ w.store.txs
      → run.1.calls ≡ w.calls
      → ((a : A) → WinsFrom calls (k a))
      → Stored TransactionStatus.succeeding w
      → Wins calls w (((λ v. run) >>= k) w)
  unfolding Wins not_succeeded
  after_silent calls k w (err e, w1) txs same wins stored = inl refl
  after_silent calls k w (ok a, w1) txs same wins stored =
      Wins-same calls w w1 (k a w1) same
        (wins a w1 (Stored-same TransactionStatus.succeeding w w1 txs stored))

  pub bind-Wins :
      {A : Type 0} (calls : List String) (m : Exec A) (k : A → Exec Transaction)
      → Silent m
      → ((a : A) → WinsFrom calls (k a))
      → WinsFrom calls (m >>= k)
  bind-Wins calls m k silent wins w = after_silent calls k w (m w) (silent w).0 (silent w).1 wins

  after_never :
      {A : Type 0} (s : TransactionStatus) (k : A → Exec Transaction) (w : World)
      (run : Result A × World)
      → run.1.store.txs ≡ w.store.txs
      → ((a : A) → NeverFrom s (k a))
      → Stored s w
      → not_succeeded (((λ v. run) >>= k) w).0 ≡ true
  unfolding not_succeeded
  after_never s k w (err e, w1) txs never stored = refl
  after_never s k w (ok a, w1) txs never stored = never a w1 (Stored-same s w w1 txs stored)

  pub claim-Silent : (b : BranchBarrier) → Silent (claim (alone env) b)
  unfolding claim access
  claim-Silent b w = (refl, refl)

  pub choose-Wins :
      (c : Bool) (xs ys : List String) (m n : Exec Transaction)
      → (c ≡ true → WinsFrom xs m)
      → (c ≡ false → WinsFrom ys n)
      → WinsFrom (if c then xs else ys) (if c then m else n)
  choose-Wins true xs ys m n m_wins n_wins = m_wins refl
  choose-Wins false xs ys m n m_wins n_wins = n_wins refl

  pub persisted-Stored :
      (tx : Transaction) (s : TransactionStatus) (bs : List Branch) (w : World)
      → tx.gid ≡ gid
      → tx.kind ≡ TransactionKind.saga
      → tx.options.concurrent ≡ false
      → Stored s (persist_as (alone env) tx s bs w).1
  unfolding Stored persist_as persist_transaction access update_transaction
      bump_transaction_revision
  persisted-Stored tx s bs w own kind sequential =
      let new = bump_transaction_revision (env.now w.ticks) (left tx s bs) in
      (
        new,
        lookup-insert tx.gid gid new w.store.txs
            ∙ ap (λ c. if c then some new else lookup gid w.store.txs) ((==_iff tx.gid gid).1 own),
        kind,
        refl,
        sequential,
      )

  -- A later run of `abort_saga` does not report success.
  pub abort_saga-Never : NeverFrom TransactionStatus.aborting (abort_saga (alone env) gid)
  unfolding Stored
  abort_saga-Never w (tx, at, kind, status, sequential) =
      undone-never (compensations tx.branches) w (abort_saga (alone env) gid w)
        (abort_saga-undoes (alone env) gid tx w at kind (ground (arith, status)) sequential)

  pub reload-Never : NeverFrom TransactionStatus.succeeding (load (alone env) gid)
  unfolding Stored load get_transaction not_succeeded
  reload-Never w (tx, at, kind, status, sequential) = ground (arith, at, status)

  -- The saga as a worker holds it.
  unfoldable pub Own : Transaction → Type 0
  Own tx = (tx.gid ≡ gid) × (tx.kind ≡ TransactionKind.saga) × (tx.options.concurrent ≡ false)

  pub persist-Wins :
      (calls : List String) (tx : Transaction) (bs : List Branch)
      (k : Transaction → Exec Transaction)
      → Own tx
      → ((tx' : Transaction) → Own tx' → WinsFrom calls (k tx'))
      → WinsFrom calls (persist_as (alone env) tx TransactionStatus.succeeding bs >>= k)
  unfolding persist_as persist_transaction access Own
  persist-Wins calls tx bs k (own, kind, sequential) wins w stored =
      let w1 = (persist_as (alone env) tx TransactionStatus.succeeding bs w).1 in
      Wins-same calls w w1 _ refl (
        wins _ (own, kind, sequential) w1
          (persisted-Stored tx TransactionStatus.succeeding bs w own kind sequential))
