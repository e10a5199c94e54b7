-- ===== src/Retention/Purge.antt =====
-- What `purge_expired_transactions` of src/lib.rs deletes, and what it reports.
use roze_dtm.Common.{
  ℕ, zero, suc, ◌≢◌, ◌≡◌, refl, sym, ap, ◌∙◌, arith, String, Bool, true, false, List, [], ◌∷◌, some,
  All, filterb, take, length, if◌then◌else◌, ==_iff, string_ord,
}
use mathlib.Core.Bool.{false≢true}
use roze_dtm.Map.{lookup, lookup-remove}
use roze_dtm.Data.{Transaction, RetentionPolicy, Result, ok, err}
use roze_dtm.Limits.{validate_policy}
use roze_dtm.Schedule.{transaction_expired}
use roze_dtm.Memory.Transactions.{delete_transaction_if_unchanged, list_transactions}
use roze_dtm.Engine.{World, Env, lift, ◌>>=◌, access, current_millis}
use roze_dtm.Coordinator.Recovery.{list_all}
use roze_dtm.Coordinator.Writes.{alone}
use roze_dtm.Retention.{
  RetentionReport, counted, delete_unchanged, sort_oldest, purge_each, purged, purge_under,
  purge_expired_transactions,
}

All-filterb :
    (r : Transaction → Bool) (txs : List Transaction) → All (λ t. r t ≡ true) (filterb r txs)
All-filterb r [] = tt
All-filterb r (t ∷ ts) = kept (All-filterb r ts) (r t) refl
  where
    kept :
        All (λ u. r u ≡ true) (filterb r ts)
        → (c : Bool) → r t ≡ c
        → All (λ u. r u ≡ true) (if c then t ∷ filterb r ts else filterb r ts)
    kept rest true e = (e, rest)
    kept rest false e = rest

All-take :
    (P : Transaction → Type 0) (n : ℕ) (txs : List Transaction) → All P txs → All P (take n txs)
All-take P zero txs ps = tt
All-take P (suc n) [] ps = tt
All-take P (suc n) (t ∷ ts) (p, ps) = (p, All-take P n ts ps)

All-weaken :
    (P Q : Transaction → Type 0) (txs : List Transaction)
    → ((t : Transaction) → P t → Q t)
    → All P txs
    → All Q txs
All-weaken P Q [] f ps = tt
All-weaken P Q (t ∷ ts) f (p, ps) = (f t p, All-weaken P Q ts f ps)

-- A policy that is accepted is the one that was given.
validated : (policy p : RetentionPolicy) → validate_policy policy ≡ ok p → p ≡ policy
unfolding validate_policy
validated policy p e = ground (arith, e)

module _ (env : Env) where
  -- A deletion of another transaction than the one under `gid` as it is stored.
  delete_unchanged-keeps :
      (t : Transaction) (gid : String) (tx : Transaction) (w : World)
      → lookup gid w.store.txs ≡ some tx
      → t ≢ tx
      → lookup gid (delete_unchanged (alone env) t w).1.store.txs ≡ some tx
  unfolding delete_unchanged access delete_transaction_if_unchanged
  delete_unchanged-keeps t gid tx w stored other =
      ground (arith, stored, other, lookup-remove t.gid gid w.store.txs, ==_iff t.gid gid)

  purge_each-keeps :
      (report : RetentionReport) (txs : List Transaction) (gid : String) (tx : Transaction)
      (w : World)
      → lookup gid w.store.txs ≡ some tx
      → All (λ t. t ≢ tx) txs
      → lookup gid (purge_each (alone env) report txs w).1.store.txs ≡ some tx
  unfolding purge_each delete_unchanged access
  purge_each-keeps report [] gid tx w stored others = stored
  purge_each-keeps report (t ∷ ts) gid tx w stored (other, others) =
      let run = delete_transaction_if_unchanged t w.store in
      purge_each-keeps (counted run.0 report) ts gid tx (delete_unchanged (alone env) t w).1
        (delete_unchanged-keeps t gid tx w stored other) others

  validated-keeps :
      (gid : String) (tx : Transaction) (w : World) (policy : Result RetentionPolicy)
      → lookup gid w.store.txs ≡ some tx
      → ((p : RetentionPolicy) → policy ≡ ok p → transaction_expired tx (env.now w.ticks) p ≡ false)
      → lookup gid ((lift policy >>= purge_under (alone env)) w).1.store.txs ≡ some tx
  unfolding purge_under current_millis list_all purged
  validated-keeps gid tx w (err e) stored live = stored
  validated-keeps gid tx w (ok p) stored live =
      let now = env.now w.ticks in
      let txs = list_transactions w.store in
      purge_each-keeps (record { scanned = length txs; eligible = 0; deleted = 0; conflicts = 0 })
        (purged (alone env) p now txs) gid tx _ stored
        (All-take (λ t. t ≢ tx) p.batch_size _
          (All-weaken (λ t. transaction_expired t now p ≡ true) (λ t. t ≢ tx)
            (filterb (λ t. transaction_expired t now p) (sort_oldest txs))
            (λ t old same.
              false≢true
                (sym (live p refl) ∙ ap (λ u. transaction_expired u now p) (sym same) ∙ old))
            (All-filterb (λ t. transaction_expired t now p) (sort_oldest txs))))

  -- A purge leaves every transaction that is not expired, as the policy has it, at the time of the purge. No
  -- other worker interferes.
  pub purge-keeps_live :
      (gid : String) (tx : Transaction) (policy : RetentionPolicy) (w : World)
      → lookup gid w.store.txs ≡ some tx
      → transaction_expired tx (env.now w.ticks) policy ≡ false
      → lookup gid (purge_expired_transactions (alone env) policy w).1.store.txs ≡ some tx
  unfolding purge_expired_transactions
  purge-keeps_live gid tx policy w stored live =
      validated-keeps gid tx w (validate_policy policy) stored
        (λ p same. ap (transaction_expired tx (env.now w.ticks)) (validated policy p same) ∙ live)
