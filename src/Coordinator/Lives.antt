-- ===== src/Coordinator/Lives.antt =====
-- Sequences of the coordinator's methods, and what becomes of a stored transaction.
use roze_dtm.Common.{ℕ, ◌≡◌, List, [], ◌∷◌, String, string_ord, Option, some}
use roze_dtm.Map.{lookup}
use roze_dtm.Data.{Branch, Transaction, TransactionStatus, WorkflowProgress}
use roze_dtm.Engine.{World, Env}
use roze_dtm.Coordinator.Saga.{start_saga, abort_saga}
use roze_dtm.Coordinator.Saga.Life.{start_saga-Evolving, abort_saga-Evolving}
use roze_dtm.Coordinator.Driven.{start_workflow, abort_workflow}
use roze_dtm.Coordinator.Driven.Life.{start_workflow-Evolving, abort_workflow-Evolving}
use roze_dtm.Coordinator.Messages.{dispatch_message}
use roze_dtm.Coordinator.Messages.Life.{dispatch_message-Evolving}
use roze_dtm.Coordinator.Callbacks.{
  register_dynamic_branch, record_progress_of, finish_callback_workflow, recover_callback_workflow,
}
use roze_dtm.Coordinator.Callbacks.Life.{
  register_dynamic_branch-Evolving, record_progress_of-Evolving, finish_callback_workflow-Evolving,
  recover_callback_workflow-Evolving,
}
use roze_dtm.Coordinator.Recovery.{recover, tick_recover_once, reset_retry_batch}
use roze_dtm.Coordinator.Recovery.Life.{
  perform-Evolving, recover-Evolving, tick_recover_once-Evolving, reset_retry_batch-Evolving,
}
use roze_dtm.Submission.{submit}
use roze_dtm.Submission.Life.{submit-Evolving}
use roze_dtm.Coordinator.Writes.{alone}
use roze_dtm.Coordinator.Operations.{Operation, perform}
use roze_dtm.Coordinator.Evolution.{Keyed, Continues, Evolves, stay-Evolves, Evolves-trans}

-- The methods that write transactions: those that write at most once, and the others.
-- `purge_expired_transactions` is not among them: it deletes.
pub data Method : Type 0 where
  single : Operation → Method
  op_start_saga op_abort_saga op_start_workflow op_abort_workflow op_dispatch_message :
      String → Method
  op_register_branch : String → Branch → Method
  op_record_progress : String → WorkflowProgress → Method
  op_finish_callback : String → TransactionStatus → Option String → Option String → Method
  op_recover_callback op_recover : String → Method
  op_tick_recover_once : Method
  op_reset_retry_batch : ℕ → Method
  op_submit : Transaction → Method

unfoldable pub call_method : Env → Method → World → World
unfolding perform start_saga abort_saga start_workflow abort_workflow dispatch_message
    register_dynamic_branch record_progress_of finish_callback_workflow recover_callback_workflow
    recover tick_recover_once reset_retry_batch submit
call_method env (single op) w = (perform env op w).1
call_method env (op_start_saga gid) w = (start_saga env gid w).1
call_method env (op_abort_saga gid) w = (abort_saga env gid w).1
call_method env (op_start_workflow gid) w = (start_workflow env gid w).1
call_method env (op_abort_workflow gid) w = (abort_workflow env gid w).1
call_method env (op_dispatch_message gid) w = (dispatch_message env gid w).1
call_method env (op_register_branch gid b) w = (register_dynamic_branch env gid b w).1
call_method env (op_record_progress gid p) w = (record_progress_of env gid p w).1
call_method env (op_finish_callback gid s reason result) w =
    (finish_callback_workflow env gid s reason result w).1
call_method env (op_recover_callback gid) w = (recover_callback_workflow env gid w).1
call_method env (op_recover gid) w = (recover env gid w).1
call_method env op_tick_recover_once w = (tick_recover_once env w).1
call_method env (op_reset_retry_batch limit) w = (reset_retry_batch env limit w).1
call_method env (op_submit tx) w = (submit env tx w).1

call_method-Evolves : (env : Env) (m : Method) (w : World) → Evolves w (call_method (alone env) m w)
unfolding call_method
call_method-Evolves env (single op) = perform-Evolving env op
call_method-Evolves env (op_start_saga gid) = start_saga-Evolving env gid
call_method-Evolves env (op_abort_saga gid) = abort_saga-Evolving env gid
call_method-Evolves env (op_start_workflow gid) = start_workflow-Evolving env gid
call_method-Evolves env (op_abort_workflow gid) = abort_workflow-Evolving env gid
call_method-Evolves env (op_dispatch_message gid) = dispatch_message-Evolving env gid
call_method-Evolves env (op_register_branch gid b) = register_dynamic_branch-Evolving env gid b
call_method-Evolves env (op_record_progress gid p) = record_progress_of-Evolving env gid p
call_method-Evolves env (op_finish_callback gid s reason result) =
    finish_callback_workflow-Evolving env gid s reason result
call_method-Evolves env (op_recover_callback gid) = recover_callback_workflow-Evolving env gid
call_method-Evolves env (op_recover gid) = recover-Evolving env gid
call_method-Evolves env op_tick_recover_once = tick_recover_once-Evolving env
call_method-Evolves env (op_reset_retry_batch limit) = reset_retry_batch-Evolving env limit
call_method-Evolves env (op_submit tx) = submit-Evolving env tx

unfoldable pub run_all : Env → List Method → World → World
unfolding call_method
run_all env [] w = w
run_all env (m ∷ ms) w = run_all env ms (call_method env m w)

run_all-Evolves : (env : Env) (ms : List Method) (w : World) → Evolves w (run_all (alone env) ms w)
unfolding run_all
run_all-Evolves env [] w = stay-Evolves w
run_all-Evolves env (m ∷ ms) w =
    let w1 = call_method (alone env) m w in
    Evolves-trans w w1 (run_all (alone env) ms w1) (call_method-Evolves env m w)
      (run_all-Evolves env ms w1)

-- Under any sequence of the methods that `Method` lists, rounds of recovery among them but no purge, with no
-- other worker and from a store that has each transaction under its own gid, a stored transaction stays stored
-- and keeps its kind, and its status only moves along the life of that kind: a terminal transaction never
-- changes, one that is Aborting only becomes Aborted or Failed, and a TCC, XA or message transaction that is
-- Succeeding only becomes Succeeded or Failed.
pub run_all-Continues :
    (env : Env) (ms : List Method) (gid : String) (old : Transaction) (w : World)
    → Keyed w.store
    → lookup gid w.store.txs ≡ some old
    → Continues old (run_all (alone env) ms w).store gid
unfolding Evolves
run_all-Continues env ms gid old w keyed stored = (run_all-Evolves env ms w keyed).1 gid old stored
