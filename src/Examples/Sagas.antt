-- ===== src/Examples/Sagas.antt =====
-- Sagas and workflows of src/lib.rs on concrete transactions.
use roze_dtm.Common.{◌≡◌, true, false, ◌≢◌, refl, [], ◌∷◌, string_ord}
use roze_dtm.Map.{lookup}
use roze_dtm.Data.{
  TransactionKind, TransactionStatus, BranchStatus, Branch, Transaction, err, new_transaction,
  saga_branch, workflow_branch, out_of_fuel,
}
use roze_dtm.Engine.{Env, with_status}
use roze_dtm.Memory.Barriers.{contains, insert_barrier, same_barrier}
use roze_dtm.Coordinator.Saga.{start_saga, abort_saga}
use roze_dtm.Coordinator.Saga.Actions.{start_saga-succeeds}
use roze_dtm.Coordinator.Saga.Compensations.{SagaUndone, abort_saga-undoes}
use roze_dtm.Coordinator.Saga.Following.{compensations}
use roze_dtm.Coordinator.Saga.Reaching.{all_free, start_saga-reaches_success}
use roze_dtm.Coordinator.Saga.Winning.{pending_actions, Wins, not_succeeded}
use roze_dtm.Coordinator.Writes.{alone}
use roze_dtm.Coordinator.Saga.Fuel.{saga_fuelled}
use roze_dtm.Coordinator.Driven.{start_workflow}
use roze_dtm.Coordinator.Driven.Fuel.{start_workflow_fuelled}
use roze_dtm.Examples.Coordinators.{env, with_tx}

-- The third action fails.
abbrev saga : Transaction
saga = new_transaction 1000 "g" TransactionKind.saga (
    saga_branch "a" "book" "unbook" ""
    ∷ saga_branch "b" "pay" "refund" ""
    ∷ saga_branch "c" "down" "undo" ""
    ∷ [])

abbrev succeeded : Branch → Branch
succeeded b = with_status BranchStatus.succeeded b

-- Both actions were run, and the second compensation fails.
abbrev half_undone : Transaction
half_undone = record saga {
  status = TransactionStatus.aborting;
  branches =
      succeeded (saga_branch "a" "book" "unbook" "")
      ∷ succeeded (saga_branch "b" "pay" "down" "")
      ∷ [];
}

abort_saga-undoes_example :
    SagaUndone
      (compensations half_undone.branches)
      (with_tx half_undone)
      (abort_saga env "g" (with_tx half_undone)).0
      (abort_saga env "g" (with_tx half_undone)).1
unfolding lookup new_transaction
abort_saga-undoes_example =
    abort_saga-undoes env "g" half_undone (with_tx half_undone) refl refl refl refl

-- The first action was called in an earlier run, and the others succeed.
abbrev half_done : Transaction
half_done = new_transaction 1000 "g" TransactionKind.saga (
    succeeded (saga_branch "a" "book" "unbook" "")
    ∷ saga_branch "b" "pay" "refund" ""
    ∷ saga_branch "c" "ship" "recall" ""
    ∷ [])

half_done_finishes : not_succeeded (start_saga (alone env) "g" (with_tx half_done)).0 ≡ false
unfolding not_succeeded start_saga new_transaction lookup saga_branch contains insert_barrier
    same_barrier
half_done_finishes = refl

start_saga-succeeds_example :
    Wins ("pay" ∷ "ship" ∷ []) (with_tx half_done) (start_saga (alone env) "g" (with_tx half_done))
unfolding lookup new_transaction pending_actions saga_branch
start_saga-succeeds_example =
    start_saga-succeeds env "g" half_done (with_tx half_done) refl refl refl refl refl

abbrev answering : Env
answering = record env { respond = λ now url payload. true }

start_saga-reaches_success_example :
    not_succeeded (start_saga (alone answering) "g" (with_tx saga)).0 ≡ false
unfolding lookup new_transaction saga_branch all_free contains
start_saga-reaches_success_example =
    start_saga-reaches_success answering "g" saga (with_tx saga) (λ now url payload. refl) refl refl
      refl refl refl

saga_fuelled_example :
    ((start_saga env "g" (with_tx saga)).0 ≢ err out_of_fuel)
    × ((abort_saga env "g" (with_tx saga)).0 ≢ err out_of_fuel)
saga_fuelled_example = saga_fuelled env "g" (with_tx saga)

abbrev workflow : Transaction
workflow = new_transaction 1000 "g" TransactionKind.workflow (
    workflow_branch "a" "book" "unbook" [] ""
    ∷ workflow_branch "b" "down" "undo" ("a" ∷ []) ""
    ∷ [])

start_workflow_fuelled_example : (start_workflow env "g" (with_tx workflow)).0 ≢ err out_of_fuel
start_workflow_fuelled_example = start_workflow_fuelled env "g" (with_tx workflow)
