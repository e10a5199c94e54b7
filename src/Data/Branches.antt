-- ===== src/Data/Branches.antt =====
-- `Branch`, `WorkflowProgress`, `WorkflowRecoveryDelay` and the branch constructors of src/lib.rs.
-- A `serde_json::Value` is carried and compared as its text, and nothing else is done with it.
use roze_dtm.Common.{ℕ, String, Bool, Option, none, some, List, [], String-discrete}
use native.Mathlib.Decide.{ℕ_discrete}
use roze_dtm.Data.Status.{BranchKind, BranchStatus, WorkflowProgressStatus}

pub record Branch : Type 0 where
  pub id : String
  pub kind : BranchKind
  pub action : String
  pub compensate : Option String
  pub confirm : Option String
  pub cancel : Option String
  pub payload : String
  pub status : BranchStatus
  pub attempts : ℕ  -- u32
  pub last_error : Option String
  pub next_retry_millis : Option ℕ  -- u64
  pub dependencies : List String

pub record WorkflowProgress : Type 0 where
  pub branch_id : String
  pub operation : String
  pub status : WorkflowProgressStatus
  pub bytes : List ℕ  -- the field `data`

pub record WorkflowRecoveryDelay : Type 0 where
  pub attempted_at_millis : ℕ
  pub retry_interval_millis : ℕ
  pub max_retry_interval_millis : ℕ
  pub backoff : Bool
  pub outcome : String

-- The derived `==`.
pub Branch-discrete : Discrete Branch
Branch-discrete = hlevel (String-discrete, ℕ_discrete)

pub WorkflowProgress-discrete : Discrete WorkflowProgress
WorkflowProgress-discrete = hlevel (String-discrete, ℕ_discrete)

-- `Branch::saga` and the constructors built on it.
unfoldable pub saga_branch : String → String → String → String → Branch
saga_branch id action compensate payload = record {
  id = id;
  kind = BranchKind.saga_action;
  action = action;
  compensate = some compensate;
  confirm = none;
  cancel = none;
  payload = payload;
  status = BranchStatus.pending;
  attempts = 0;
  last_error = none;
  next_retry_millis = none;
  dependencies = [];
}

unfoldable pub saga_with_dependencies : String → String → String → List String → String → Branch
unfolding saga_branch
saga_with_dependencies id action compensate dependencies payload =
    record (saga_branch id action compensate payload) { dependencies = dependencies }

unfoldable pub tcc_try_branch : String → String → String → String → String → Branch
tcc_try_branch id try_action confirm_action cancel_action payload = record {
  id = id;
  kind = BranchKind.tcc_try;
  action = try_action;
  compensate = none;
  confirm = some confirm_action;
  cancel = some cancel_action;
  payload = payload;
  status = BranchStatus.pending;
  attempts = 0;
  last_error = none;
  next_retry_millis = none;
  dependencies = [];
}

unfoldable pub message_branch : String → String → String → Branch
unfolding saga_branch
message_branch id action payload = record (saga_branch id action "" payload) {
  kind = BranchKind.message_action;
  compensate = none;
}

unfoldable pub xa_branch : String → String → String → String → Branch
unfolding tcc_try_branch
xa_branch id commit rollback payload = record (tcc_try_branch id "" commit rollback payload) {
  kind = BranchKind.xa_action;
  action = "";
}

unfoldable pub workflow_branch : String → String → String → List String → String → Branch
unfolding saga_branch
workflow_branch id action compensate dependencies payload =
    record (saga_branch id action compensate payload) {
      kind = BranchKind.workflow_action;
      dependencies = dependencies;
    }
