-- ===== src/Data/Transactions.antt =====
-- `TransactionOptions`, `Transaction`, `DtmOptions` and `RetentionPolicy` of src/lib.rs.
use roze_dtm.Common.{ℕ, String, Bool, true, false, Option, none, List, []}
use roze_dtm.Map.{Map}
use roze_dtm.Data.Status.{TransactionKind, TransactionStatus}
use roze_dtm.Data.Branches.{Branch, WorkflowProgress}

pub record TransactionOptions : Type 0 where
  pub wait_result : Bool
  pub concurrent : Bool
  pub delay_millis : Option ℕ
  pub retry_interval_millis : Option ℕ
  pub request_timeout_millis : Option ℕ
  pub retry_limit : Option ℕ  -- u32
  pub branch_headers : Map String String

pub record Transaction : Type 0 where
  pub gid : String
  pub kind : TransactionKind
  pub status : TransactionStatus
  pub branches : List Branch
  pub created_at_millis : ℕ
  pub updated_at_millis : ℕ
  pub revision : ℕ
  pub timeout_millis : Option ℕ
  pub options : TransactionOptions
  pub workflow_progresses : List WorkflowProgress
  pub metadata : Map String String

pub record DtmOptions : Type 0 where
  pub max_attempts : ℕ
  pub retry_backoff_millis : ℕ
  pub max_retry_backoff_millis : ℕ
  pub branch_call_timeout_millis : ℕ
  pub transaction_timeout_millis : ℕ

pub record RetentionPolicy : Type 0 where
  pub data_expire_millis : ℕ
  pub finished_data_expire_millis : ℕ
  pub batch_size : ℕ

-- `DtmOptions::default`
unfoldable pub default_dtm_options : DtmOptions
default_dtm_options = record {
  max_attempts = 5;
  retry_backoff_millis = 1000;
  max_retry_backoff_millis = 30000;
  branch_call_timeout_millis = 5000;
  transaction_timeout_millis = 60000;
}

-- `TransactionOptions::default`
unfoldable pub default_options : TransactionOptions
default_options = record {
  wait_result = false;
  concurrent = false;
  delay_millis = none;
  retry_interval_millis = none;
  request_timeout_millis = none;
  retry_limit = none;
  branch_headers = [];
}

-- `Transaction::new` at the time `now`.
unfoldable pub new_transaction : ℕ → String → TransactionKind → List Branch → Transaction
unfolding default_options
new_transaction now gid kind branches = record {
  gid = gid;
  kind = kind;
  status = TransactionStatus.submitted;
  branches = branches;
  created_at_millis = now;
  updated_at_millis = now;
  revision = 1;
  timeout_millis = none;
  options = default_options;
  workflow_progresses = [];
  metadata = [];
}

-- `Transaction::concurrent_saga`
unfoldable pub concurrent_saga : ℕ → String → List Branch → Transaction
unfolding new_transaction
concurrent_saga now gid branches =
    let tx = new_transaction now gid TransactionKind.saga branches in
    record tx { options = record tx.options { concurrent = true } }
