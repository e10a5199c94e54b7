-- ===== src/Workflow/Progress.antt =====
-- The bounds on recorded progress, and that recording is idempotent.
use roze_dtm.Common.{
  ℕ, ◌+◌, ◌≤◌, ◌<◌, ◌≡◌, false, Option, none, some, List, [], ◌∷◌, ◌++◌, arith, ==_iff, string_ord,
  length, length-append, find, ◌⊎◌, inl, inr, u64_max, leb, if◌then◌else◌,
}
use roze_dtm.Data.{Transaction, WorkflowProgress, ok}
use roze_dtm.Dynamic.{bump_transaction_revision}
use roze_dtm.Workflow.{append_workflow_progress, checked_total, same_step, max_progress_bytes}

abbrev pub total_bytes : List WorkflowProgress → ℕ
total_bytes [] = 0
total_bytes (p ∷ ps) = length p.bytes + total_bytes ps

abbrev pub find_step : WorkflowProgress → List WorkflowProgress → Option WorkflowProgress
find_step p = find (λ q. same_step q p)

abbrev pub DistinctSteps : List WorkflowProgress → Type 0
DistinctSteps [] = Unit {0}
DistinctSteps (p ∷ ps) = (find_step p ps ≡ none) × DistinctSteps ps

-- What holds of the progress that a transaction carries.
pub record ProgressBounded (tx : Transaction) : Type 0 where
  pub steps : DistinctSteps tx.workflow_progresses
  pub count : length tx.workflow_progresses ≤ 1000
  pub bytes : total_bytes tx.workflow_progresses ≤ max_progress_bytes

-- The checked sum is the sum of the sizes, and is lost exactly where that overflows.
checked_total_lem :
    (t : ℕ) (ps : List WorkflowProgress)
    → t ≤ u64_max
    → checked_total t ps
      ≡ (if leb (t + total_bytes ps) u64_max then some (t + total_bytes ps) else none)
unfolding checked_total
checked_total_lem t [] h = ground arith
checked_total_lem t (p ∷ ps) h = ground (arith, checked_total_lem (t + length p.bytes) ps)

total_bytes-append :
    (ps : List WorkflowProgress) (p : WorkflowProgress)
    → total_bytes (ps ++ p ∷ []) ≡ total_bytes ps + length p.bytes
total_bytes-append [] p = omega arith
total_bytes-append (q ∷ ps) p = omega (arith, total_bytes-append ps p)

find_step-append_none :
    (q : WorkflowProgress) (ps : List WorkflowProgress) (p : WorkflowProgress)
    → find_step q ps ≡ none
    → same_step p q ≡ false
    → find_step q (ps ++ p ∷ []) ≡ none
find_step-append_none q [] p h e = ground arith
find_step-append_none q (x ∷ ps) p h e = ground (arith, find_step-append_none q ps p)

find_step-append :
    (ps : List WorkflowProgress) (p : WorkflowProgress)
    → find_step p ps ≡ none
    → find_step p (ps ++ p ∷ []) ≡ some p
find_step-append [] p h =
    ground (arith, ==_iff p.branch_id p.branch_id, ==_iff p.operation p.operation)
find_step-append (x ∷ ps) p h = ground (arith, find_step-append ps p)

same_step_sym : (p q : WorkflowProgress) → same_step p q ≡ false → same_step q p ≡ false
same_step_sym p q h = ground (
  arith,
  ==_iff p.branch_id q.branch_id,
  ==_iff q.branch_id p.branch_id,
  ==_iff p.operation q.operation,
  ==_iff q.operation p.operation,
)

DistinctSteps-append :
    (ps : List WorkflowProgress) (p : WorkflowProgress)
    → DistinctSteps ps
    → find_step p ps ≡ none
    → DistinctSteps (ps ++ p ∷ [])
DistinctSteps-append [] p d h = ground arith
DistinctSteps-append (x ∷ ps) p d h = (
  ground (arith, find_step-append_none x ps p, same_step_sym x p),
  DistinctSteps-append ps p d.1 (ground arith),
)

module _ (now : ℕ) (tx : Transaction) (p : WorkflowProgress) where
  -- Recording either finds the very same step and changes nothing, or appends it as a new one.
  append_workflow_progress_cases :
      (tx' : Transaction)
      → append_workflow_progress now tx p ≡ ok tx'
      → ((find_step p tx.workflow_progresses ≡ some p) × (tx' ≡ tx))
        ⊎ ((find_step p tx.workflow_progresses ≡ none)
            × (length tx.workflow_progresses < 1000)
            × (length p.bytes + total_bytes tx.workflow_progresses ≤ max_progress_bytes)
            × (tx'
                ≡ bump_transaction_revision now
                    (record tx { workflow_progresses = tx.workflow_progresses ++ p ∷ [] })))
  unfolding append_workflow_progress
  append_workflow_progress_cases tx' h =
      ground (arith, checked_total_lem (length p.bytes) tx.workflow_progresses)

  -- Where a transaction has at most 1000 recorded steps, at most 2 MiB of progress data in total, and no two
  -- records of one step, an accepted recording leaves it so, and the recorded step is found.
  pub append_workflow_progress-ProgressBounded :
      (tx' : Transaction)
      → ProgressBounded tx
      → append_workflow_progress now tx p ≡ ok tx'
      → ProgressBounded tx' × (find_step p tx'.workflow_progresses ≡ some p)
  unfolding bump_transaction_revision
  append_workflow_progress-ProgressBounded tx' v h = elim (append_workflow_progress_cases tx' h) [
    | inl (found, same) ↦ ground arith
    | inr (fresh, room, fits, added) ↦ ground (
      arith,
      DistinctSteps-append tx.workflow_progresses p v.steps fresh,
      find_step-append tx.workflow_progresses p fresh,
      total_bytes-append tx.workflow_progresses p,
      length-append tx.workflow_progresses (p ∷ []),
    )
  ]

  -- Recording the same step once more, at any later time, succeeds and changes nothing.
  pub append_workflow_progress_again :
      (later : ℕ) (tx' : Transaction)
      → append_workflow_progress now tx p ≡ ok tx'
      → append_workflow_progress later tx' p ≡ ok tx'
  unfolding append_workflow_progress bump_transaction_revision
  append_workflow_progress_again later tx' h =
      ground (arith, find_step-append tx.workflow_progresses p)
