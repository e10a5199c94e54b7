-- ===== src/Workflow/Completion.antt =====
-- Completion of a callback workflow: once, and idempotent.
use Prim.Native.String.len
use text.Mathlib.TextPositions.{len_utf8-pos}
use roze_dtm.Common.{
  ℕ, ◌≡◌, refl, String, true, false, Option, arith, ◌==◌, ==_iff, ==_refl, string_ord, unwrap_or,
  if◌then◌else◌, ◌⊎◌, inl, inr, ◌∙◌,
}
use roze_dtm.Map.{Map, lookup, lookup-insert, lookup-remove}
use roze_dtm.Data.{Transaction, TransactionStatus, is_terminal, ok}
use roze_dtm.Dynamic.{bump_transaction_revision}
use roze_dtm.Workflow.{apply_workflow_completion, store_text, text_of, is_empty}

-- Only the empty text has no bytes.
empty-eq : (v : String) → is_empty v ≡ true → v ≡ ""
empty-eq String.[] h = refl
empty-eq (String.◌∷◌ c s) h = ground (arith, len.cons c s, len_utf8-pos c)

-- A stored text is read back, the empty one as the default of a missing key.
text_of-store_text :
    (k j v : String) (m : Map String String)
    → unwrap_or (lookup j (store_text k v m)) "" ≡ (if k == j then v else unwrap_or (lookup j m) "")
unfolding store_text
text_of-store_text k j v m = ground (arith, lookup-insert k j v m, lookup-remove k j m, empty-eq v)

lookup-store_text_ne :
    (k j v : String) (m : Map String String)
    → (k == j) ≡ false
    → lookup j (store_text k v m) ≡ lookup j m
unfolding store_text
lookup-store_text_ne k j v m h = ground (arith, lookup-insert k j v m, lookup-remove k j m)

-- The metadata that a completion leaves.
abbrev completed : String → String → Map String String → Map String String
completed reason outcome m =
    store_text "dtm.workflow.result" outcome (store_text "rollback_reason" reason m)

module _ (reason outcome : String) (m : Map String String) where
  abbrev inner : Map String String
  inner = store_text "rollback_reason" reason m

  reason-completed : unwrap_or (lookup "rollback_reason" (completed reason outcome m)) "" ≡ reason
  reason-completed =
      rw (text_of-store_text "dtm.workflow.result" "rollback_reason" outcome inner)
        (text_of-store_text "rollback_reason" "rollback_reason" reason m)

  outcome-completed :
      unwrap_or (lookup "dtm.workflow.result" (completed reason outcome m)) "" ≡ outcome
  outcome-completed = text_of-store_text "dtm.workflow.result" "dtm.workflow.result" outcome inner

  lookup-completed :
      (j : String)
      → ("rollback_reason" == j) ≡ false
      → ("dtm.workflow.result" == j) ≡ false
      → lookup j (completed reason outcome m) ≡ lookup j m
  lookup-completed j p q =
      lookup-store_text_ne "dtm.workflow.result" j outcome inner q
      ∙ lookup-store_text_ne "rollback_reason" j reason m p

module _ (now : ℕ) (tx : Transaction) (status : TransactionStatus)
    (reason outcome : Option String) where
  -- What an accepted completion found: the same completion on record, or a prepared workflow that
  -- it completes.
  completion_cases :
      (tx' : Transaction)
      → apply_workflow_completion now tx status reason outcome ≡ ok tx'
      → (is_terminal status ≡ true)
        × (((is_terminal tx.status ≡ true)
              × (tx' ≡ tx)
              × (tx.status ≡ status)
              × (text_of "rollback_reason" tx ≡ unwrap_or reason "")
              × (text_of "dtm.workflow.result" tx ≡ unwrap_or outcome ""))
            ⊎ ((tx.status ≡ TransactionStatus.prepared)
                × (tx'
                    ≡ bump_transaction_revision now (record tx {
                      status = status;
                      metadata = completed (unwrap_or reason "") (unwrap_or outcome "") tx.metadata;
                    }))))
  unfolding apply_workflow_completion
  completion_cases tx' h = ground (
    arith,
    ==_iff (text_of "rollback_reason" tx) (unwrap_or reason ""),
    ==_iff (text_of "dtm.workflow.result" tx) (unwrap_or outcome ""),
  )

  -- Completing a prepared callback workflow sets the status and the two texts, and leaves every
  -- other metadata entry and the recorded progress as they were.
  pub apply_workflow_completion-sets :
      (tx' : Transaction)
      → tx.status ≡ TransactionStatus.prepared
      → apply_workflow_completion now tx status reason outcome ≡ ok tx'
      → (tx'.status ≡ status)
        × (is_terminal status ≡ true)
        × (text_of "rollback_reason" tx' ≡ unwrap_or reason "")
        × (text_of "dtm.workflow.result" tx' ≡ unwrap_or outcome "")
        × (tx'.workflow_progresses ≡ tx.workflow_progresses)
        × ((j : String)
            → (j ≡ "rollback_reason")
              ⊎ (j ≡ "dtm.workflow.result")
              ⊎ (lookup j tx'.metadata ≡ lookup j tx.metadata))
  unfolding text_of bump_transaction_revision
  apply_workflow_completion-sets tx' p h =
      let found = completion_cases tx' h in
      let r = unwrap_or reason "" in
      let o = unwrap_or outcome "" in
      elim found.1 [
        | inl same ↦ absurd (ground arith)
        | inr (_, e) ↦ (
          ground arith,
          found.0,
          ground (arith, reason-completed r o tx.metadata),
          ground (arith, outcome-completed r o tx.metadata),
          ground arith,
          λ j. ground (
            arith,
            lookup-completed r o tx.metadata j,
            ==_iff "rollback_reason" j,
            ==_iff "dtm.workflow.result" j,
          ),
        )
      ]

  -- The same completion once more, at any later time, succeeds and changes nothing.
  pub apply_workflow_completion_again :
      (later : ℕ) (tx' : Transaction)
      → apply_workflow_completion now tx status reason outcome ≡ ok tx'
      → apply_workflow_completion later tx' status reason outcome ≡ ok tx'
  unfolding apply_workflow_completion bump_transaction_revision
  apply_workflow_completion_again later tx' h = ground (
    arith,
    completion_cases tx' h,
    ==_refl (unwrap_or reason ""),
    ==_refl (unwrap_or outcome ""),
    reason-completed (unwrap_or reason "") (unwrap_or outcome "") tx.metadata,
    outcome-completed (unwrap_or reason "") (unwrap_or outcome "") tx.metadata,
    lookup-completed (unwrap_or reason "") (unwrap_or outcome "") tx.metadata "dtm.query_prepared"
        refl refl,
  )

  -- A terminal workflow is never changed by a completion: one that is accepted says what is
  -- already recorded.
  pub apply_workflow_completion-terminal :
      (tx' : Transaction)
      → is_terminal tx.status ≡ true
      → apply_workflow_completion now tx status reason outcome ≡ ok tx'
      → (tx' ≡ tx)
        × (tx.status ≡ status)
        × (text_of "rollback_reason" tx ≡ unwrap_or reason "")
        × (text_of "dtm.workflow.result" tx ≡ unwrap_or outcome "")
  apply_workflow_completion-terminal tx' t h = ground (arith, completion_cases tx' h)
