-- ===== src/Memory/Transactions.antt =====
-- The in-memory store as a whole, and its operations on transactions. Each operation runs under the
-- lock of the transactions, so it is one step on the store; `now` is the time it reads.
pub mod Deletion
use mathlib.Core.Logic.{ite}
use native.Mathlib.Decide.{ℕ_discrete}
use roze_dtm.Common.{
  ℕ, String, Bool, true, false, Option, none, some, List, [], string_ord, String-discrete,
}
use roze_dtm.Map.{Map, lookup, insert, remove, values}
use roze_dtm.Data.{
  TransactionStatus, Branch, Transaction, WorkflowProgress, WorkflowRecoveryDelay, Result, Checked,
  ok, err, not_found, already_exists,
}
use roze_dtm.Dynamic.{bump_transaction_revision, append_dynamic_branch}
use roze_dtm.Workflow.{append_workflow_progress, apply_workflow_completion, defer_workflow_recovery}
use roze_dtm.Memory.Barriers.{BarrierSet, drop_barriers_of}
use roze_dtm.Memory.Leases.{Leases}
use roze_dtm.Memory.Entries.{Entries}

pub record MemoryStore : Type 0 where
  pub txs : Map String Transaction
  pub kv : Entries
  pub barriers : BarrierSet
  pub leases : Leases

abbrev pub empty_store : MemoryStore
empty_store = record { txs = []; kv = []; barriers = []; leases = [] }

-- The derived `==` of a transaction.
pub Transaction-discrete : Discrete Transaction
Transaction-discrete = hlevel (String-discrete, ℕ_discrete)

abbrev pub insert_free : Transaction → MemoryStore → Option Transaction → Checked × MemoryStore
insert_free tx s none = (ok tt, record s { txs = insert tx.gid tx s.txs })
insert_free tx s (some _) = (err (already_exists tx.gid), s)

unfoldable pub insert_transaction : Transaction → MemoryStore → Checked × MemoryStore
insert_transaction tx s = insert_free tx s (lookup tx.gid s.txs)

unfoldable pub get_transaction : String → MemoryStore → Option Transaction
get_transaction gid s = lookup gid s.txs

unfoldable pub update_transaction : ℕ → Transaction → MemoryStore → MemoryStore
unfolding bump_transaction_revision
update_transaction now tx s = record s {
  txs = insert tx.gid (bump_transaction_revision now tx) s.txs;
}

-- `get_mut`, an update in place that may fail, and a copy of the result. A failed update leaves the
-- transaction as it was.
abbrev pub written : MemoryStore → String → Result Transaction → Result Transaction × MemoryStore
written s gid (ok tx) = (ok tx, record s { txs = insert gid tx s.txs })
written s gid (err e) = (err e, s)

abbrev pub modified :
    String
    → (Transaction → Result Transaction)
    → MemoryStore
    → Option Transaction
    → Result Transaction × MemoryStore
modified gid update s none = (err (not_found gid), s)
modified gid update s (some tx) = written s gid (update tx)

unfoldable pub modify :
    String → (Transaction → Result Transaction) → MemoryStore → Result Transaction × MemoryStore
modify gid update s = modified gid update s (lookup gid s.txs)

unfoldable pub register_branch :
    ℕ → String → Branch → MemoryStore → Result Transaction × MemoryStore
unfolding modify append_dynamic_branch
register_branch now gid branch = modify gid (λ tx. append_dynamic_branch now tx branch)

unfoldable pub record_workflow_progress :
    ℕ → String → WorkflowProgress → MemoryStore → Result Transaction × MemoryStore
unfolding modify append_workflow_progress
record_workflow_progress now gid p = modify gid (λ tx. append_workflow_progress now tx p)

unfoldable pub finish_workflow :
    ℕ
    → String
    → TransactionStatus
    → Option String
    → Option String
    → MemoryStore
    → Result Transaction × MemoryStore
unfolding modify apply_workflow_completion
finish_workflow now gid status reason result =
    modify gid (λ tx. apply_workflow_completion now tx status reason result)

unfoldable pub defer_recovery :
    ℕ → String → WorkflowRecoveryDelay → MemoryStore → Result Transaction × MemoryStore
unfolding modify defer_workflow_recovery
defer_recovery now gid delay = modify gid (λ tx. defer_workflow_recovery now tx delay)

unfoldable pub list_transactions : MemoryStore → List Transaction
unfolding values
list_transactions s = values s.txs

-- Compare and delete, with the barriers of the transaction.
unfoldable pub delete_transaction_if_unchanged : Transaction → MemoryStore → Bool × MemoryStore
delete_transaction_if_unchanged tx s = elim (lookup tx.gid s.txs) [
  | none ↦ (false, s)
  | some stored ↦
      ite (Transaction-discrete stored tx)
        (
          true,
          record s { txs = remove tx.gid s.txs; barriers = drop_barriers_of tx.gid s.barriers },
        )
        (false, s)
]
