-- ===== src/Memory/Transactions/Deletion.antt =====
-- `delete_transaction_if_unchanged` of the in-memory store: what it deletes, and what it leaves.
use roze_dtm.Common.{
  ◌≡◌, ◌↔◌, String, true, false, none, some, arith, ◌==◌, string_ord, ◌&&◌, if◌then◌else◌,
}
use roze_dtm.Map.{lookup, lookup-remove}
use roze_dtm.Data.{Transaction}
use roze_dtm.Memory.Barriers.{BranchBarrier, contains}
use roze_dtm.Memory.Barriers.Claims.{contains-drop}
use roze_dtm.Memory.Transactions.{MemoryStore, delete_transaction_if_unchanged}

module _ (tx : Transaction) (s : MemoryStore) where
  -- A transaction is deleted exactly when the store still holds it as it was read.
  pub delete_transaction_if_unchanged-deletes_iff :
      ((delete_transaction_if_unchanged tx s).0 ≡ true) ↔ (lookup tx.gid s.txs ≡ some tx)
  unfolding delete_transaction_if_unchanged
  delete_transaction_if_unchanged-deletes_iff = ground arith

  -- A deletion removes the transaction and the barriers of its gid, and leaves every other transaction,
  -- every other barrier, the entries and the leases; a refused one leaves everything.
  pub delete_transaction_if_unchanged-leaves :
      (gid : String) (b : BranchBarrier)
      → (lookup gid (delete_transaction_if_unchanged tx s).1.txs ≡ (
          if (delete_transaction_if_unchanged tx s).0 && (tx.gid == gid)
          then none
          else lookup gid s.txs))
        × (contains b (delete_transaction_if_unchanged tx s).1.barriers ≡ (
            if (delete_transaction_if_unchanged tx s).0 && (b.gid == tx.gid)
            then false
            else contains b s.barriers))
        × ((delete_transaction_if_unchanged tx s).1.kv ≡ s.kv)
        × ((delete_transaction_if_unchanged tx s).1.leases ≡ s.leases)
  unfolding delete_transaction_if_unchanged
  delete_transaction_if_unchanged-leaves gid b = (
    ground (arith, lookup-remove tx.gid gid s.txs),
    ground (arith, contains-drop tx.gid b s.barriers),
    ground arith,
    ground arith,
  )
