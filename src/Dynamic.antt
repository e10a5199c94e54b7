-- ===== src/Dynamic.antt =====
-- `append_dynamic_branch` and `bump_transaction_revision` of src/lib.rs. The function changes the
-- transaction only where it succeeds, so its error carries no state.
pub mod Registration
use roze_dtm.Common.{
  ℕ, String, Bool, Option, none, some, List, [], ◌∷◌, ◌++◌, any, find, ◌==◌, string_ord,
  saturating_add, if◌then◌else◌,
}
use roze_dtm.Data.{
  TransactionKind, TransactionStatus, Branch, Branch-discrete, Transaction, kind_is, status_in,
  Result, ok, err, ensure, ◌>>=◌, ◌>>◌, no_dynamic_branches, not_accepting_branches,
  branch_conflict,
}
use mathlib.Core.Logic.{ite}

unfoldable pub bump_transaction_revision : ℕ → Transaction → Transaction
bump_transaction_revision now tx = record tx {
  revision = saturating_add tx.revision 1;
  updated_at_millis = now;
}

-- `tx.branches.iter().find(|existing| existing.id == branch.id)`
abbrev pub find_branch : String → List Branch → Option Branch
find_branch id = find (λ b. b.id == id)

unfoldable pub append_new : ℕ → Transaction → Branch → Option Branch → Result Transaction
unfolding bump_transaction_revision
append_new now tx branch none =
    ok (bump_transaction_revision now (record tx { branches = tx.branches ++ branch ∷ [] }))
append_new now tx branch (some existing) =
    ite (Branch-discrete existing branch) (ok tx) (err branch_conflict)

unfoldable pub append_dynamic_branch : ℕ → Transaction → Branch → Result Transaction
unfolding append_new
append_dynamic_branch now tx branch = do
  ensure
      (any (kind_is tx.kind)
        (TransactionKind.tcc ∷ TransactionKind.xa ∷ TransactionKind.workflow ∷ []))
      no_dynamic_branches
  ensure (status_in tx.status (TransactionStatus.submitted ∷ TransactionStatus.prepared ∷ []))
      not_accepting_branches
  append_new now tx branch (find_branch branch.id tx.branches)
