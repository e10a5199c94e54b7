-- ===== src/Examples/Records.antt =====
-- The branch graph, the retry schedule, the dynamic branches and the workflow updates of src/lib.rs on
-- concrete records.
use roze_dtm.Common.{
  ◌+◌, ◌≤◌, ◌≡◌, ◌≢◌, ◌↔◌, ◌⊎◌, refl, ap, arith, min, max, String, true, false, some, none, List,
  [], ◌∷◌, leb, string_ord, u32_max, saturating_add,
}
use roze_dtm.Map.{lookup, insert, remove}
use roze_dtm.Decimal.{to_string, parse}
use roze_dtm.Data.{
  Branch, BranchStatus, Transaction, TransactionKind, TransactionStatus, WorkflowProgress,
  WorkflowProgressStatus, WorkflowRecoveryDelay, is_terminal, tcc_try_branch, saga_branch,
  saga_with_dependencies, new_transaction, ok, err, out_of_fuel,
}
use roze_dtm.Dynamic.{find_branch, append_dynamic_branch, bump_transaction_revision}
use roze_dtm.Dynamic.Registration.{
  Distinct, append_dynamic_branch-registers, append_dynamic_branch_again,
  append_dynamic_branch_conflict,
}
use roze_dtm.Graph.{validate_dependency_graph}
use roze_dtm.Graph.Dags.{IsDag}
use roze_dtm.Graph.Completeness.{validate_dependency_graph_iff, validate_dependency_graph_fuelled}
use roze_dtm.Schedule.{backoff_after, transaction_due, transaction_next_recovery_millis}
use roze_dtm.Schedule.Backoff.{backoff_bounds, backoff_mono}
use roze_dtm.Schedule.Due.{not_due_before_next_recovery}
use roze_dtm.Workflow.{
  append_workflow_progress, apply_workflow_completion, defer_workflow_recovery, text_of,
  retry_after, validate_delay, callback_attempts, checked_total, all_chars, deferral, number_at,
  callback_workflow_due, is_callback_workflow,
}
use roze_dtm.Workflow.Progress.{
  ProgressBounded, find_step, append_workflow_progress-ProgressBounded,
  append_workflow_progress_again,
}
use roze_dtm.Workflow.Completion.{
  apply_workflow_completion-sets, apply_workflow_completion_again,
  apply_workflow_completion-terminal,
}
use roze_dtm.Workflow.Delay.{
  defer_workflow_recovery-due, retry_after_bounds, callback_attempts-defer,
}

abbrev diamond : List Branch
diamond =
    saga_with_dependencies "d" "a" "c" ("b" ∷ "c" ∷ []) ""
    ∷ saga_with_dependencies "b" "a" "c" ("a" ∷ []) ""
    ∷ saga_with_dependencies "c" "a" "c" ("a" ∷ []) ""
    ∷ saga_branch "a" "a" "c" ""
    ∷ []

validate_dependency_graph_iff_example : (validate_dependency_graph diamond ≡ ok tt) ↔ IsDag diamond
validate_dependency_graph_iff_example = validate_dependency_graph_iff diamond

validate_dependency_graph_fuelled_example : validate_dependency_graph diamond ≢ err out_of_fuel
validate_dependency_graph_fuelled_example = validate_dependency_graph_fuelled diamond

backoff_bounds_example :
    (1000 ≤ backoff_after 3 1000 30000) × (backoff_after 3 1000 30000 ≤ max 30000 1000)
backoff_bounds_example = backoff_bounds 3 1000 30000 (ground arith)

backoff_mono_example : backoff_after 3 1000 30000 ≤ backoff_after 5 1000 30000
backoff_mono_example = backoff_mono 3 5 1000 30000 (ground arith)

abbrev waiting : Transaction
waiting =
    record (new_transaction 1000 "g" TransactionKind.saga (
      record (saga_branch "a" "a" "c" "") {
        status = BranchStatus.failed;
        next_retry_millis = some 5000;
      }
      ∷ [])) { status = TransactionStatus.succeeding }

not_due_before_next_recovery_example : transaction_due waiting 4999 ≡ false
unfolding is_callback_workflow transaction_next_recovery_millis new_transaction saga_branch
not_due_before_next_recovery_example =
    not_due_before_next_recovery waiting 4999 5000 refl refl (ground arith)

abbrev accepting : Transaction
accepting =
    new_transaction 1000 "t" TransactionKind.tcc (tcc_try_branch "a" "" "confirm" "cancel" "" ∷ [])

abbrev second : Branch
second = tcc_try_branch "b" "" "confirm" "cancel" ""

abbrev registered : Transaction
registered = record accepting {
  branches = tcc_try_branch "a" "" "confirm" "cancel" "" ∷ second ∷ [];
  updated_at_millis = 1100;
  revision = 2;
}

registers : append_dynamic_branch 1100 accepting second ≡ ok registered
unfolding append_dynamic_branch bump_transaction_revision new_transaction tcc_try_branch
registers = refl

append_dynamic_branch-registers_example :
    Distinct registered.branches
    × (find_branch "b" registered.branches ≡ some second)
    × (find_branch "a" registered.branches ≡ find_branch "a" accepting.branches)
    × (registered.gid ≡ accepting.gid)
    × (registered.kind ≡ accepting.kind)
    × (registered.status ≡ accepting.status)
unfolding new_transaction tcc_try_branch
append_dynamic_branch-registers_example =
    append_dynamic_branch-registers 1100 accepting second registered "a" (refl, tt) registers

append_dynamic_branch_again_example : append_dynamic_branch 1200 registered second ≡ ok registered
append_dynamic_branch_again_example =
    append_dynamic_branch_again 1100 accepting second 1200 registered registers

abbrev other : Branch
other = record second { attempts = 1 }

other-differs : second ≢ other
unfolding tcc_try_branch
other-differs e = zero-ne-one (ap (λ b. b.attempts) e)
  where
    zero-ne-one : second.attempts ≢ other.attempts
    zero-ne-one = ground arith

append_dynamic_branch_conflict_example : append_dynamic_branch 1200 registered other ≢ ok registered
unfolding tcc_try_branch
append_dynamic_branch_conflict_example =
    append_dynamic_branch_conflict 1200 registered other second refl other-differs registered

abbrev callback : Transaction
callback = record (new_transaction 1000 "w" TransactionKind.workflow []) {
  status = TransactionStatus.prepared;
  metadata = ("dtm.query_prepared", "url") ∷ [];
}

abbrev step : WorkflowProgress
step = record {
  branch_id = "01";
  operation = "action";
  status = WorkflowProgressStatus.succeeded;
  bytes = 1 ∷ 2 ∷ [];
}

abbrev stepped : Transaction
stepped = record callback {
  workflow_progresses = step ∷ [];
  updated_at_millis = 1100;
  revision = 2;
}

steps : append_workflow_progress 1100 callback step ≡ ok stepped
unfolding append_workflow_progress bump_transaction_revision new_transaction lookup checked_total
steps = refl

empty-ProgressBounded : ProgressBounded callback
unfolding new_transaction
empty-ProgressBounded = record { steps = tt; count = ground arith; bytes = ground arith }

append_workflow_progress-ProgressBounded_example :
    ProgressBounded stepped × (find_step step stepped.workflow_progresses ≡ some step)
append_workflow_progress-ProgressBounded_example =
    append_workflow_progress-ProgressBounded 1100 callback step stepped empty-ProgressBounded steps

append_workflow_progress_again_example : append_workflow_progress 1200 stepped step ≡ ok stepped
append_workflow_progress_again_example =
    append_workflow_progress_again 1100 callback step 1200 stepped steps

abbrev finished : Transaction
finished = record callback {
  status = TransactionStatus.succeeded;
  metadata = ("dtm.query_prepared", "url") ∷ ("dtm.workflow.result", "ok") ∷ [];
  updated_at_millis = 1100;
  revision = 2;
}

finishes :
    apply_workflow_completion 1100 callback TransactionStatus.succeeded none (some "ok")
    ≡ ok finished
unfolding apply_workflow_completion bump_transaction_revision new_transaction lookup insert remove
finishes = refl

apply_workflow_completion-sets_example :
    (finished.status ≡ TransactionStatus.succeeded)
    × (is_terminal TransactionStatus.succeeded ≡ true)
    × (text_of "rollback_reason" finished ≡ "")
    × (text_of "dtm.workflow.result" finished ≡ "ok")
    × (finished.workflow_progresses ≡ callback.workflow_progresses)
    × ((j : String)
        → (j ≡ "rollback_reason")
          ⊎ (j ≡ "dtm.workflow.result")
          ⊎ (lookup j finished.metadata ≡ lookup j callback.metadata))
apply_workflow_completion-sets_example =
    apply_workflow_completion-sets 1100 callback TransactionStatus.succeeded none (some "ok")
      finished refl finishes

apply_workflow_completion_again_example :
    apply_workflow_completion 1200 finished TransactionStatus.succeeded none (some "ok")
    ≡ ok finished
apply_workflow_completion_again_example =
    apply_workflow_completion_again 1100 callback TransactionStatus.succeeded none (some "ok") 1200
      finished finishes

apply_workflow_completion-terminal_example :
    (finished ≡ finished)
    × (finished.status ≡ TransactionStatus.succeeded)
    × (text_of "rollback_reason" finished ≡ "")
    × (text_of "dtm.workflow.result" finished ≡ "ok")
apply_workflow_completion-terminal_example =
    apply_workflow_completion-terminal 1200 finished TransactionStatus.succeeded none (some "ok")
      finished refl apply_workflow_completion_again_example

abbrev delay : WorkflowRecoveryDelay
delay = record {
  attempted_at_millis = 2000;
  retry_interval_millis = 1000;
  max_retry_interval_millis = 30000;
  backoff = true;
  outcome = "ongoing";
}

abbrev deferred : Transaction
deferred = record callback {
  metadata =
      ("dtm.callback.attempts", "1")
      ∷ ("dtm.callback.last_attempt_millis", "2000")
      ∷ ("dtm.callback.last_outcome", "ongoing")
      ∷ ("dtm.callback.next_retry_millis", "3000")
      ∷ ("dtm.query_prepared", "url")
      ∷ [];
  updated_at_millis = 2001;
  revision = 2;
}

defers : defer_workflow_recovery 2001 callback delay ≡ ok deferred
unfolding defer_workflow_recovery bump_transaction_revision new_transaction lookup insert to_string
    parse validate_delay all_chars retry_after deferral callback_attempts number_at
defers = refl

defer_workflow_recovery-due_example :
    callback_workflow_due deferred 2999
    ≡ leb (saturating_add 2000 (retry_after delay (callback_attempts callback))) 2999
defer_workflow_recovery-due_example =
    defer_workflow_recovery-due 2001 callback delay deferred defers 2999

retry_after_bounds_example : (1000 ≤ retry_after delay 7) × (retry_after delay 7 ≤ 30000)
unfolding validate_delay
retry_after_bounds_example = retry_after_bounds 2001 callback delay 7 refl

callback_attempts-defer_example :
    callback_attempts deferred ≡ min (callback_attempts callback + 1) u32_max
callback_attempts-defer_example = callback_attempts-defer 2001 callback delay deferred defers
