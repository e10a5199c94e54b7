-- ===== src/Engine.antt =====
-- The coordinator's run-time: what `Dtm<InMemoryTransactionStore, I>` does to the world. A method is an
-- action that may fail and keeps what was written before the failure. The environment decides
-- what the clock shows, how branch calls end, and what other workers do to the store before each
-- access of this one.
pub mod Loops
use roze_dtm.Common.{
  ℕ, suc, ◌+◌, String, Bool, true, false, Option, none, some, List, [], ◌∷◌, ◌++◌, max, unwrap_or,
  saturating_add, saturating_suc32, if◌then◌else◌,
}
use roze_dtm.Data.{
  TransactionKind, TransactionStatus, BranchStatus, Branch, Transaction, TransactionOptions,
  DtmOptions, kind_is, Error, Result, ok, err, not_found, wrong_kind, missing_url,
}
use roze_dtm.Memory.Transactions.{MemoryStore, get_transaction, update_transaction}
use roze_dtm.Memory.Barriers.{BranchBarrier, BarrierDecision, barrier, release_barrier}
use roze_dtm.Schedule.{record_branch_failure, transaction_status_name}
use roze_dtm.Workflow.{ensure_status}
use roze_dtm.External.{External}
use roze_dtm.Urls.{alert_branch_url}
use roze_dtm.Callback.{WorkflowCallbackRequest, CallbackAnswer}

-- A call of a branch URL, with its outcome.
pub record Call : Type 0 where
  pub url : String
  pub payload : String
  pub success : Bool

pub record BranchFailureAlert : Type 0 where
  pub gid : String
  pub status : String
  pub branch : String
  pub retry_count : ℕ

pub record World : Type 0 where
  pub store : MemoryStore
  pub calls : List Call
  pub alerts : List BranchFailureAlert
  pub ticks : ℕ

-- `ticks` numbers the interactions with the environment. `arrival` places a concurrent task among those that
-- finish before and after it.
pub record Env : Type 0 where
  pub now : ℕ → ℕ
  pub others : ℕ → MemoryStore → MemoryStore
  pub respond : ℕ → String → String → Bool
  pub arrival : ℕ → ℕ
  pub query_callback : ℕ → WorkflowCallbackRequest → TransactionOptions → CallbackAnswer
  pub external : External
  pub options : DtmOptions

abbrev pub Exec : Type 0 → Type 0
Exec A = World → Result A × World

abbrev pub pure : {A : Type 0} → A → Exec A
pure a w = (ok a, w)

abbrev pub lift : {A : Type 0} → Result A → Exec A
lift r w = (r, w)

infixl 5 ◌>>=◌ ◌>>◌
abbrev pub ◌>>=◌ : {A B : Type 0} → Exec A → (A → Exec B) → Exec B
◌>>=◌ m f w = let (r, w') = m w in elim r [ ok a ↦ f a w' | err e ↦ (err e, w') ]

abbrev pub ◌>>◌ : {B : Type 0} → Exec (Unit {0}) → Exec B → Exec B
m >> k = m >>= λ _. k

-- `ok_or_else(|| anyhow!("transaction not found: {gid}"))`
abbrev pub found : String → Option Transaction → Result Transaction
found gid none = err (not_found gid)
found gid (some tx) = ok tx

-- `ensure_kind`
abbrev pub of_kind : TransactionKind → Transaction → Result Transaction
of_kind kind tx = if kind_is tx.kind kind then ok tx else err (wrong_kind tx.kind kind)

abbrev pub found_of_kind : TransactionKind → String → Option Transaction → Result Transaction
found_of_kind kind gid none = err (not_found gid)
found_of_kind kind gid (some tx) = of_kind kind tx

module _ (env : Env) where
  -- The store as this worker finds it at its next access.
  abbrev pub seen : World → MemoryStore
  seen w = env.others w.ticks w.store

  -- `current_millis`
  unfoldable pub current_millis : Exec ℕ
  current_millis w = (ok (env.now w.ticks), record w { ticks = suc w.ticks })

  -- One operation of the store, at the time that it reads.
  unfoldable pub access : {A : Type 0} → (ℕ → MemoryStore → Result A × MemoryStore) → Exec A
  access op w =
      let (r, s) = op (env.now w.ticks) (seen w) in (r, record w { store = s; ticks = suc w.ticks })

  -- The world after a read of the store.
  abbrev pub looked : World → World
  looked w = record w { store = seen w; ticks = suc w.ticks }

  -- `get_transaction(gid).await?.ok_or_else(…)`
  unfoldable pub load : String → Exec Transaction
  unfolding get_transaction
  load gid w = (found gid (get_transaction gid (seen w)), looked w)

  -- `persist_transaction`: the stored copy takes the next revision and the time of the write, and
  -- the local one the next revision.
  unfoldable pub persist_transaction : Transaction → Exec Transaction
  unfolding access update_transaction
  persist_transaction tx = do
    access (λ now s. (ok tt, update_transaction now tx s))
    pure (record tx { revision = saturating_add tx.revision 1 })

  unfoldable pub claim : BranchBarrier → Exec BarrierDecision
  unfolding access barrier
  claim b = access λ now s. let (d, bs) = barrier b s.barriers in (ok d, record s { barriers = bs })

  unfoldable pub release : BranchBarrier → Exec (Unit {0})
  unfolding access release_barrier
  release b = access λ now s. (ok tt, record s { barriers = release_barrier b s.barriers })

  -- `invoke_with_options`
  unfoldable pub invoke : String → String → Exec Bool
  invoke url payload w =
      let success = env.respond w.ticks url payload in
      (
        ok success,
        record w {
          calls = w.calls ++ record { url = url; payload = payload; success = success } ∷ [];
          ticks = suc w.ticks;
        },
      )

  unfoldable pub notify_branch_failure :
      String → TransactionStatus → Branch → String → Exec (Unit {0})
  unfolding transaction_status_name alert_branch_url
  notify_branch_failure gid status branch url w = (
    ok tt,
    record w {
      alerts =
          w.alerts
          ++ record {
            gid = gid;
            status = transaction_status_name status;
            branch = alert_branch_url env.external url;
            retry_count = branch.attempts;
          }
            ∷ [];
    },
  )

  -- `invoke_branch` and `invoke_url`: the branch comes back with its failure recorded, beside the
  -- outcome of the call.
  unfoldable pub invoke_branch :
      TransactionOptions → String → TransactionStatus → Branch → String → Exec (Branch × Bool)
  unfolding invoke current_millis notify_branch_failure record_branch_failure
  invoke_branch options gid status branch url = do
    success ← invoke url branch.payload
    if success then pure (branch, true) else do
      now ← current_millis
      let interval = unwrap_or options.retry_interval_millis env.options.retry_backoff_millis
      let failed =
          record_branch_failure now branch "branch_call_failed" interval
            (max env.options.max_retry_backoff_millis interval)
      notify_branch_failure gid status failed url
      pure (failed, false)

  unfoldable pub require_status : Transaction → List TransactionStatus → Exec (Unit {0})
  unfolding ensure_status
  require_status tx allowed = lift (ensure_status tx allowed)

  -- `transaction_of_kind`
  unfoldable pub transaction_of_kind : String → TransactionKind → Exec Transaction
  unfolding get_transaction
  transaction_of_kind gid kind w = (found_of_kind kind gid (get_transaction gid (seen w)), looked w)

  -- `max_attempts`
  unfoldable pub max_attempts : TransactionOptions → ℕ
  max_attempts options = elim options.retry_limit [
    | none ↦ env.options.max_attempts
    | some retries ↦ saturating_suc32 retries
  ]

-- `ok_or_else(|| anyhow!("missing … for {id}"))`
abbrev pub or_missing : String → Option String → Result String
or_missing id none = err (missing_url id)
or_missing id (some url) = ok url

-- `branch.attempts = branch.attempts.saturating_add(1)`
abbrev pub attempted : Branch → Branch
attempted b = record b { attempts = saturating_suc32 b.attempts }

-- `branch.status = …; branch.next_retry_millis = None`
abbrev pub settled : BranchStatus → Branch → Branch
settled status b = record b { status = status; next_retry_millis = none }

abbrev pub with_status : BranchStatus → Branch → Branch
with_status status b = record b { status = status }

-- The barrier of a branch operation.
abbrev pub barrier_of : String → Branch → String → BranchBarrier
barrier_of gid b op = record { gid = gid; branch_id = b.id; op = op }

-- Why a loop over the branches returned early.
pub data Stop : Type 0 where
  call_failed attempts_exhausted cancelled_try claimed_elsewhere : Stop

abbrev pub prepended : Branch → List Branch × Option Stop → Exec (List Branch × Option Stop)
prepended b (bs, stop) = pure (b ∷ bs, stop)

-- What a loop does after the body of one branch: it stops, or runs the `rest`.
unfoldable pub after_branch :
    List Branch
    → Exec (List Branch × Option Stop)
    → Branch × Option Stop
    → Exec (List Branch × Option Stop)
after_branch bs rest (b, some reason) = pure (b ∷ bs, some reason)
after_branch bs rest (b, none) = rest >>= prepended b

-- `for branch in &mut tx.branches`: the body gives the branch back, and a reason where it returns.
unfoldable pub for_branches :
    (Branch → Exec (Branch × Option Stop)) → List Branch → Exec (List Branch × Option Stop)
unfolding after_branch
for_branches body [] = pure ([], none)
for_branches body (b ∷ bs) = body b >>= after_branch bs (for_branches body bs)
