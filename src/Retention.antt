-- ===== src/Retention.antt =====
-- `purge_expired_transactions` of src/lib.rs: expired transactions are deleted, the oldest first, at most as
-- many as a batch holds, and only those that did not change since they were read.
pub mod Purge
use Prim.Native.Nat.{Ordering}
use Prim.Native.String.{compare}
use roze_dtm.Common.{
  ℕ, suc, String, Bool, true, false, List, [], ◌∷◌, ◌&&◌, ◌||◌, ltb, ◌=?◌, if◌then◌else◌, filterb,
  take, length,
}
use roze_dtm.Data.{Transaction, RetentionPolicy, ok}
use roze_dtm.Limits.{validate_policy}
use roze_dtm.Schedule.{transaction_expired}
use roze_dtm.Memory.Transactions.{delete_transaction_if_unchanged}
use roze_dtm.Engine.{Env, Exec, pure, lift, ◌>>=◌, ◌>>◌, access, current_millis}
use roze_dtm.Coordinator.Recovery.{list_all}

pub record RetentionReport : Type 0 where
  pub scanned : ℕ
  pub eligible : ℕ
  pub deleted : ℕ
  pub conflicts : ℕ

abbrev not_after : Ordering → Bool
not_after Ordering.gt = false
not_after _ = true

-- Older, or of the same time and not after it by gid.
unfoldable pub precedes : Transaction → Transaction → Bool
precedes a b =
    ltb a.updated_at_millis b.updated_at_millis
    || (a.updated_at_millis =? b.updated_at_millis && not_after (compare a.gid b.gid))

-- `sort_by`, which is stable.
unfoldable pub insert_sorted : Transaction → List Transaction → List Transaction
unfolding precedes
insert_sorted tx [] = tx ∷ []
insert_sorted tx (t ∷ ts) =
    let rest = insert_sorted tx ts in if precedes tx t then tx ∷ t ∷ ts else t ∷ rest

unfoldable pub sort_oldest : List Transaction → List Transaction
unfolding insert_sorted
sort_oldest [] = []
sort_oldest (tx ∷ txs) = insert_sorted tx (sort_oldest txs)

-- The report after one more deletion was tried.
abbrev pub counted : Bool → RetentionReport → RetentionReport
counted true r = record r { eligible = suc r.eligible; deleted = suc r.deleted }
counted false r = record r { eligible = suc r.eligible; conflicts = suc r.conflicts }

module _ (env : Env) where
  unfoldable pub delete_unchanged : Transaction → Exec Bool
  unfolding access delete_transaction_if_unchanged
  delete_unchanged tx =
      access env
        λ now s. let (deleted, s') = delete_transaction_if_unchanged tx s in (ok deleted, s')

  unfoldable pub purge_each : RetentionReport → List Transaction → Exec RetentionReport
  unfolding delete_unchanged
  purge_each report [] = pure report
  purge_each report (tx ∷ txs) =
      delete_unchanged tx >>= λ deleted. purge_each (counted deleted report) txs

  -- The transactions that a purge tries to delete.
  unfoldable pub purged : RetentionPolicy → ℕ → List Transaction → List Transaction
  unfolding sort_oldest transaction_expired
  purged policy now txs =
      take policy.batch_size (filterb (λ tx. transaction_expired tx now policy) (sort_oldest txs))

  -- The purge under a policy that was accepted.
  unfoldable pub purge_under : RetentionPolicy → Exec RetentionReport
  unfolding current_millis list_all purge_each purged
  purge_under policy = current_millis env >>= λ now. list_all env >>= λ txs.
      purge_each (record { scanned = length txs; eligible = 0; deleted = 0; conflicts = 0 })
        (purged policy now txs)

  unfoldable pub purge_expired_transactions : RetentionPolicy → Exec RetentionReport
  unfolding validate_policy purge_under
  purge_expired_transactions given = lift (validate_policy given) >>= purge_under
