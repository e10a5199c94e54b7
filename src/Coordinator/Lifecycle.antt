-- ===== src/Coordinator/Lifecycle.antt =====
-- The life of a transaction's status: which status a later write of the coordinator may leave.
use roze_dtm.Common.{◌≡◌, arith, Bool, true, List, [], ◌∷◌, ◌||◌}
use roze_dtm.Data.{TransactionKind, TransactionStatus, status_is, status_in}

abbrev ends : List TransactionStatus
ends =
    TransactionStatus.succeeded ∷ TransactionStatus.aborting ∷ TransactionStatus.aborted
    ∷ TransactionStatus.failed ∷ []

abbrev commits : List TransactionStatus
commits = TransactionStatus.succeeded ∷ TransactionStatus.failed ∷ []

-- A decision to commit is final but for a saga and a workflow, a decision to abort for every kind,
-- and nothing follows a terminal status. A callback workflow goes from Prepared back to Submitted.
unfoldable pub futures : TransactionKind → TransactionStatus → List TransactionStatus
futures _ TransactionStatus.succeeded = []
futures _ TransactionStatus.aborted = []
futures _ TransactionStatus.failed = []
futures _ TransactionStatus.aborting = TransactionStatus.aborted ∷ TransactionStatus.failed ∷ []
futures TransactionKind.saga TransactionStatus.succeeding = ends
futures TransactionKind.workflow TransactionStatus.succeeding = ends
futures _ TransactionStatus.succeeding = commits
futures _ TransactionStatus.submitted =
    TransactionStatus.trying ∷ TransactionStatus.prepared ∷ TransactionStatus.succeeding ∷ ends
futures TransactionKind.workflow _ =
    TransactionStatus.submitted ∷ TransactionStatus.trying ∷ TransactionStatus.prepared
    ∷ TransactionStatus.succeeding ∷ ends
futures _ TransactionStatus.trying =
    TransactionStatus.prepared ∷ TransactionStatus.succeeding ∷ ends
futures _ TransactionStatus.prepared = TransactionStatus.succeeding ∷ ends

unfoldable pub later : TransactionKind → TransactionStatus → TransactionStatus → Bool
unfolding futures
later kind s t = status_is s t || status_in t (futures kind s)

pub later_refl : (kind : TransactionKind) (s : TransactionStatus) → later kind s s ≡ true
unfolding later futures
later_refl kind s = ground arith

pub later_trans :
    (kind : TransactionKind) (s t u : TransactionStatus)
    → later kind s t ≡ true
    → later kind t u ≡ true
    → later kind s u ≡ true
unfolding later futures
later_trans kind s t u first second = ground arith
