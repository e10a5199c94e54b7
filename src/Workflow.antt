-- ===== src/Workflow.antt =====
-- Callback workflows: the checks and the in-place updates of src/lib.rs from
-- `append_workflow_progress` to `callback_workflow_due`, and the two `validate` methods they call.
-- Each update changes the transaction only where it succeeds.
pub mod Progress
pub mod Completion
pub mod Delay
use Prim.Native.String.{len, [] as empty, ◌∷◌ as ◌then◌}
use Prim.Native.Char.{Char, code}
use native.Mathlib.Decide.{ℕ_discrete}
use mathlib.Core.Logic.{ite}
use roze_dtm.Common.{
  ℕ, ◌+◌, ◌*◌, ◌-◌, ◌^◌, String, Bool, true, false, Option, none, some, List, [], ◌∷◌, ◌++◌, ◌&&◌,
  ◌||◌, not, min, leb, ltb, ◌==◌, string_ord, if◌then◌else◌, length, find, any, is_some_and,
  is_none_or, unwrap_or, saturating_mul, saturating_add, saturating_suc32, u32_max, u64_max, ◌=?◌,
}
use roze_dtm.Map.{Map, lookup, insert, remove}
use roze_dtm.Decimal.{to_string, parse}
use roze_dtm.Data.{
  TransactionKind, TransactionStatus, Transaction, WorkflowProgress, WorkflowRecoveryDelay,
  WorkflowProgress-discrete, kind_is, status_is, status_in, is_terminal, Error, Result, Checked, ok,
  err, ensure, ◌>>=◌, ◌>>◌, not_workflow, not_callback_workflow, non_replayable,
  invalid_progress_branch_id, invalid_progress_operation, progress_too_large, progress_conflict,
  progress_count_exceeded, progress_size_overflow, progress_total_exceeded,
  invalid_completion_status, rollback_reason_too_long, result_too_long, completion_conflict,
  invalid_retry_interval, invalid_outcome,
}
use roze_dtm.Dynamic.{bump_transaction_revision}

-- `str::is_empty`
abbrev pub is_empty : String → Bool
is_empty s = len s =? 0

unfoldable pub is_callback_workflow : Transaction → Bool
is_callback_workflow tx =
    kind_is tx.kind TransactionKind.workflow
    && length tx.branches =? 0
    && is_some_and (λ v. not (is_empty v)) (lookup "dtm.query_prepared" tx.metadata)

unfoldable pub ensure_callback_workflow : Transaction → Checked
unfolding is_callback_workflow
ensure_callback_workflow tx = do
  ensure (kind_is tx.kind TransactionKind.workflow) not_workflow
  ensure (is_callback_workflow tx) not_callback_workflow

unfoldable pub ensure_status : Transaction → List TransactionStatus → Checked
ensure_status tx allowed = ensure (status_in tx.status allowed) (non_replayable tx.status)

-- 2 MiB, the bound on the data of a workflow.
abbrev pub max_progress_bytes : ℕ
max_progress_bytes = 2097152

-- `WorkflowProgress::validate`
unfoldable pub validate_progress : WorkflowProgress → Checked
validate_progress p = do
  ensure (not (is_empty p.branch_id) && leb (len p.branch_id) 128) invalid_progress_branch_id
  ensure (not (is_empty p.operation) && leb (len p.operation) 64) invalid_progress_operation
  ensure (leb (length p.bytes) max_progress_bytes) progress_too_large

abbrev pub same_step : WorkflowProgress → WorkflowProgress → Bool
same_step a b = a.branch_id == b.branch_id && a.operation == b.operation

-- `checked_add` on a 64-bit usize over all recorded items.
unfoldable pub checked_total : ℕ → List WorkflowProgress → Option ℕ
checked_total total [] = some total
checked_total total (p ∷ ps) =
    let rest = checked_total (total + length p.bytes) ps in
    if leb (total + length p.bytes) u64_max then rest else none

unfoldable pub append_progress : ℕ → Transaction → WorkflowProgress → Option ℕ → Result Transaction
unfolding bump_transaction_revision
append_progress now tx p none = err progress_size_overflow
append_progress now tx p (some total) = do
  ensure (leb total max_progress_bytes) progress_total_exceeded
  ok (
      bump_transaction_revision now
        (record tx { workflow_progresses = tx.workflow_progresses ++ p ∷ [] }))

unfoldable pub record_progress :
    ℕ → Transaction → WorkflowProgress → Option WorkflowProgress → Result Transaction
unfolding append_progress
record_progress now tx p (some existing) =
    ite (WorkflowProgress-discrete existing p) (ok tx) (err progress_conflict)
record_progress now tx p none = do
  ensure (ltb (length tx.workflow_progresses) 1000) progress_count_exceeded
  append_progress now tx p (checked_total (length p.bytes) tx.workflow_progresses)

unfoldable pub append_workflow_progress : ℕ → Transaction → WorkflowProgress → Result Transaction
unfolding ensure_callback_workflow ensure_status validate_progress record_progress
append_workflow_progress now tx p = do
  ensure_callback_workflow tx
  ensure_status tx (TransactionStatus.prepared ∷ [])
  validate_progress p
  record_progress now tx p (find (λ q. same_step q p) tx.workflow_progresses)

-- Metadata holds no empty text: an empty value removes the key.
unfoldable pub store_text : String → String → Map String String → Map String String
store_text key value metadata =
    if is_empty value then remove key metadata else insert key value metadata

unfoldable pub text_of : String → Transaction → String
text_of key tx = unwrap_or (lookup key tx.metadata) ""

unfoldable pub apply_workflow_completion :
    ℕ → Transaction → TransactionStatus → Option String → Option String → Result Transaction
unfolding ensure_callback_workflow ensure_status store_text text_of bump_transaction_revision
apply_workflow_completion now tx status rollback_reason result = do
  ensure_callback_workflow tx
  ensure (status_in status (TransactionStatus.succeeded ∷ TransactionStatus.failed ∷ []))
      invalid_completion_status
  let reason = unwrap_or rollback_reason ""
  let outcome = unwrap_or result ""
  ensure (leb (len reason) 4096) rollback_reason_too_long
  ensure (leb (len outcome) max_progress_bytes) result_too_long
  if is_terminal tx.status
      then (do
        ensure
            (status_is tx.status status
              && text_of "rollback_reason" tx == reason
              && text_of "dtm.workflow.result" tx == outcome)
            completion_conflict
        ok tx)
      else do
        ensure_status tx (TransactionStatus.prepared ∷ [])
        ok (
            bump_transaction_revision now (record tx {
              status = status;
              metadata =
                  store_text "dtm.workflow.result" outcome
                    (store_text "rollback_reason" reason tx.metadata);
            }))

abbrev is_outcome_char : Char → Bool
is_outcome_char c = (leb b'a' (code c) && leb (code c) b'z') || code c =? b'_'

unfoldable pub all_chars : (Char → Bool) → String → Bool
all_chars p empty = true
all_chars p (◌then◌ c s) = p c && all_chars p s

-- `WorkflowRecoveryDelay::validate`
unfoldable pub validate_delay : WorkflowRecoveryDelay → Checked
unfolding all_chars
validate_delay d = do
  ensure
      (ltb 0 d.retry_interval_millis
        && leb d.retry_interval_millis d.max_retry_interval_millis
        && leb d.max_retry_interval_millis 86400000)
      invalid_retry_interval
  ensure (not (is_empty d.outcome) && leb (len d.outcome) 64 && all_chars is_outcome_char d.outcome)
      invalid_outcome

abbrev pub attempts_key : String
attempts_key = "dtm.callback.attempts"

abbrev pub next_retry_key : String
next_retry_key = "dtm.callback.next_retry_millis"

-- `.get(key).and_then(|value| value.parse().ok())` for an integer type with the given maximum.
unfoldable pub number_at : ℕ → String → Map String String → Option ℕ
number_at max key metadata = elim (lookup key metadata) [ none ↦ none | some v ↦ parse max v ]

unfoldable pub callback_attempts : Transaction → ℕ
unfolding number_at
callback_attempts tx = saturating_suc32 (unwrap_or (number_at u32_max attempts_key tx.metadata) 0)

-- The delay before the next callback: doubled with each attempt where the caller asks for it.
unfoldable pub retry_after : WorkflowRecoveryDelay → ℕ → ℕ
retry_after d attempts =
    let shift = if d.backoff then min (attempts - 1) 16 else 0 in
    min (saturating_mul d.retry_interval_millis (2 ^ shift)) d.max_retry_interval_millis

-- The four metadata entries of a deferral.
unfoldable pub deferral : WorkflowRecoveryDelay → ℕ → Map String String → Map String String
deferral d attempts metadata = insert "dtm.callback.last_outcome" d.outcome (
    insert next_retry_key
      (to_string (saturating_add d.attempted_at_millis (retry_after d attempts)))
      (insert "dtm.callback.last_attempt_millis" (to_string d.attempted_at_millis)
        (insert attempts_key (to_string attempts) metadata)))

unfoldable pub defer_workflow_recovery :
    ℕ → Transaction → WorkflowRecoveryDelay → Result Transaction
unfolding ensure_callback_workflow ensure_status validate_delay bump_transaction_revision
defer_workflow_recovery now tx d = do
  ensure_callback_workflow tx
  ensure_status tx (TransactionStatus.prepared ∷ [])
  validate_delay d
  ok (
      bump_transaction_revision now
        (record tx { metadata = deferral d (callback_attempts tx) tx.metadata }))

unfoldable pub callback_workflow_due : Transaction → ℕ → Bool
unfolding number_at
callback_workflow_due tx now =
    is_none_or (λ next. leb next now) (number_at u64_max next_retry_key tx.metadata)
