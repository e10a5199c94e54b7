-- ===== src/Data/Errors.antt =====
-- The error values of the coordinator: one constructor for each message that src/lib.rs builds.
use roze_dtm.Common.{String, Bool, true, false}
use roze_dtm.Data.Status.{TransactionKind, TransactionStatus}

pub data Error : Type 0 where
  not_found : String → Error
  already_exists : String → Error
  wrong_kind : TransactionKind → TransactionKind → Error
  non_replayable : TransactionStatus → Error
  already_terminal : String → Error
  no_dynamic_branches not_accepting_branches branch_conflict : Error
  not_workflow not_callback_workflow callback_workflow : Error
  invalid_progress_branch_id invalid_progress_operation progress_too_large : Error
  progress_conflict progress_count_exceeded progress_size_overflow progress_total_exceeded : Error
  invalid_completion_status rollback_reason_too_long result_too_long completion_conflict : Error
  invalid_retry_interval invalid_outcome invalid_callback : Error
  missing_url : String → Error
  invalid_url invalid_xa_operation : Error
  concurrent_unsupported dependencies_unsupported dependencies_need_concurrent : Error
  ids_not_unique depends_on_itself unknown_dependency repeated_dependency dependency_cycle : Error
  unresolved_dependencies branch_call_failed unreachable : Error
  invalid_delay invalid_interval invalid_timeout invalid_retry_limit invalid_headers : Error
  delay_unsupported invalid_retention : Error
  invalid_topic invalid_subscriber_url remark_too_long url_exists no_such_topic no_such_url : Error
  out_of_fuel : Error  -- of the model, for recursion on fuel: shown never to occur
  topic_contended topic_empty duplicate_branch_ids bad_subscribers : Error

pub data Result (A : Type 0) : Type 0 where
  err : Error → Result A
  ok : A → Result A

-- `anyhow::Result<()>`
abbrev pub Checked : Type 0
Checked = Result (Unit {0})

-- `anyhow::ensure!`
abbrev pub ensure : (condition : Bool) (otherwise : Error) → Checked
ensure true otherwise = ok tt
ensure false otherwise = err otherwise

-- The operator `?`, and what follows it.
infixl 5 ◌>>=◌ ◌>>◌
abbrev pub ◌>>=◌ : {A B : Type 0} → Result A → (A → Result B) → Result B
err failure >>= next = err failure
ok value >>= next = next value

abbrev pub ◌>>◌ : {B : Type 0} → Checked → Result B → Result B
first >> second = first >>= λ done. second
