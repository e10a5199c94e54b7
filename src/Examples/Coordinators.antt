-- ===== src/Examples/Coordinators.antt =====
-- The coordinator of src/lib.rs on a TCC and an XA transaction with a failing branch.
use roze_dtm.Common.{
  true, some, ◌≡◌, ◌↔◌, ◌&&◌, false, none, map, if◌then◌else◌, refl, arith, List, [], ◌∷◌, ◌+◌, not,
  ◌==◌, ==_iff, string_ord,
}
use roze_dtm.Map.{insert, lookup}
use roze_dtm.Data.{
  TransactionKind, TransactionStatus, Transaction, new_transaction, tcc_try_branch, xa_branch,
  default_dtm_options,
}
use roze_dtm.Memory.Barriers.{insert_barrier, same_barrier, BranchBarrier, contains}
use roze_dtm.Memory.Transactions.Deletion.{
  delete_transaction_if_unchanged-deletes_iff, delete_transaction_if_unchanged-leaves,
}
use roze_dtm.Memory.Transactions.{MemoryStore, delete_transaction_if_unchanged, empty_store}
use roze_dtm.External.{External, UrlParts}
use roze_dtm.Callback.{CallbackAnswer}
use roze_dtm.Engine.{invoke, invoke_branch, World, Env}
use roze_dtm.Coordinator.Tcc.{
  guarded_loop, run_unless, run_loop, confirm_branch, confirm_decided, deliver, write_loop,
  prepare_tcc, confirm_tcc, cancel_tcc,
}
use roze_dtm.Coordinator.Xa.{commit_xa, rollback_xa}
use roze_dtm.Coordinator.Endings.{
  Ends, PhaseEnds, TryEnds, prepare_tcc-stops_at_failure, confirm_tcc-stops_at_failure,
  cancel_tcc-stops_at_failure, commit_xa-stops_at_failure, rollback_xa-stops_at_failure,
}
use roze_dtm.Coordinator.Writes.{alone}
use roze_dtm.Coordinator.Moves.{Moves}
use roze_dtm.Coordinator.Operations.{
  op_prepare_tcc, op_schedule_submit, op_confirm_tcc, op_schedule_abort, op_cancel_tcc,
  op_force_stop, perform, perform-Moves,
}
use roze_dtm.Coordinator.Evolution.{Keyed, Continues}
use roze_dtm.Coordinator.Lives.{
  Method, single, op_submit, op_recover, op_tick_recover_once, run_all, run_all-Continues,
}

abbrev tcc : Transaction
tcc = new_transaction 1000 "g" TransactionKind.tcc (
    tcc_try_branch "a" "try" "confirm" "cancel" ""
    ∷ tcc_try_branch "b" "try" "down" "cancel" ""
    ∷ [])

abbrev pub with_tx : Transaction → World
with_tx tx = record {
  store = record empty_store { txs = ("g", tx) ∷ [] };
  calls = [];
  alerts = [];
  ticks = 0;
}

abbrev plain_url : UrlParts
plain_url = record {
  scheme = "http";
  has_host = true;
  username = "";
  has_password = false;
  has_fragment = false;
  query_pairs = [];
}

-- A host that knows no third-party format but URLs, and leaves out their queries.
abbrev pub no_external : External
no_external = record {
  parse_url = λ s. some plain_url;
  replace_query = λ s pairs. s;
  parse_json = λ s. none;
  decode_base64 = λ s. none;
  is_header_name = λ s. true;
  is_header_value = λ s. true;
  encode_subscribers = λ s. "";
  decode_subscribers = λ s. none;
}

-- Every call succeeds but those of the URL "down".
abbrev pub env : Env
env = record {
  now = λ n. 1000 + n;
  others = λ n s. s;
  respond = λ n url payload. not (url == "down");
  arrival = λ n. 0;
  query_callback = λ n request options. CallbackAnswer.ongoing;
  external = no_external;
  options = default_dtm_options;
}

abbrev prepared_tcc : Transaction
prepared_tcc = record tcc { status = TransactionStatus.prepared }

abbrev prepared_xa : Transaction
prepared_xa =
    record (new_transaction 1000 "g" TransactionKind.xa
      (xa_branch "a" "commit" "rollback" "" ∷ xa_branch "b" "down" "rollback" "" ∷ [])) {
        status = TransactionStatus.prepared;
      }

prepare_tcc-stops_at_failure_example :
    Ends TryEnds
      (with_tx tcc)
      (prepare_tcc env "g" (with_tx tcc)).0
      (prepare_tcc env "g" (with_tx tcc)).1
prepare_tcc-stops_at_failure_example = prepare_tcc-stops_at_failure env "g" (with_tx tcc)

confirm_tcc-stops_at_failure_example :
    Ends
      (PhaseEnds TransactionStatus.succeeding TransactionStatus.succeeded)
      (with_tx prepared_tcc)
      (confirm_tcc env "g" (with_tx prepared_tcc)).0
      (confirm_tcc env "g" (with_tx prepared_tcc)).1
confirm_tcc-stops_at_failure_example = confirm_tcc-stops_at_failure env "g" (with_tx prepared_tcc)

cancel_tcc-stops_at_failure_example :
    Ends
      (PhaseEnds TransactionStatus.aborting TransactionStatus.aborted)
      (with_tx prepared_tcc)
      (cancel_tcc env "g" (with_tx prepared_tcc)).0
      (cancel_tcc env "g" (with_tx prepared_tcc)).1
cancel_tcc-stops_at_failure_example = cancel_tcc-stops_at_failure env "g" (with_tx prepared_tcc)

commit_xa-stops_at_failure_example :
    Ends
      (PhaseEnds TransactionStatus.succeeding TransactionStatus.succeeded)
      (with_tx prepared_xa)
      (commit_xa env "g" (with_tx prepared_xa)).0
      (commit_xa env "g" (with_tx prepared_xa)).1
commit_xa-stops_at_failure_example = commit_xa-stops_at_failure env "g" (with_tx prepared_xa)

rollback_xa-stops_at_failure_example :
    Ends
      (PhaseEnds TransactionStatus.aborting TransactionStatus.aborted)
      (with_tx prepared_xa)
      (rollback_xa env "g" (with_tx prepared_xa)).0
      (rollback_xa env "g" (with_tx prepared_xa)).1
rollback_xa-stops_at_failure_example = rollback_xa-stops_at_failure env "g" (with_tx prepared_xa)

perform-Moves_example :
    Moves "g" (with_tx tcc) (perform (alone env) (op_prepare_tcc "g") (with_tx tcc))
perform-Moves_example = perform-Moves env (op_prepare_tcc "g") (with_tx tcc)

abbrev history : List Method
history =
    op_submit tcc
    ∷ single (op_prepare_tcc "g")
    ∷ single (op_schedule_submit "g")
    ∷ single (op_schedule_abort "g")
    ∷ op_tick_recover_once
    ∷ op_recover "g"
    ∷ single (op_cancel_tcc "g")
    ∷ single (op_force_stop "g")
    ∷ single (op_confirm_tcc "g")
    ∷ []

with_tx-Keyed : Keyed (with_tx tcc).store
unfolding Keyed lookup new_transaction
with_tx-Keyed gid tx e = ground (arith, e, ==_iff "g" gid)

run_all-Continues_example : Continues tcc (run_all (alone env) history (with_tx tcc)).store "g"
unfolding lookup
run_all-Continues_example = run_all-Continues env history "g" tcc (with_tx tcc) with_tx-Keyed refl

abbrev try_key : BranchBarrier
try_key = record { gid = "g"; branch_id = "a"; op = "try" }

abbrev stored : MemoryStore
stored = record (with_tx tcc).store { barriers = try_key ∷ [] }

delete_transaction_if_unchanged-deletes_iff_example :
    ((delete_transaction_if_unchanged prepared_tcc stored).0 ≡ true)
    ↔ (lookup "g" stored.txs ≡ some prepared_tcc)
unfolding new_transaction
delete_transaction_if_unchanged-deletes_iff_example =
    delete_transaction_if_unchanged-deletes_iff prepared_tcc stored

delete_transaction_if_unchanged-leaves_example :
    (lookup "h" (delete_transaction_if_unchanged tcc stored).1.txs ≡ (
      if (delete_transaction_if_unchanged tcc stored).0 && (tcc.gid == "h")
      then none
      else lookup "h" stored.txs))
    × (contains try_key (delete_transaction_if_unchanged tcc stored).1.barriers ≡ (
        if (delete_transaction_if_unchanged tcc stored).0 && (try_key.gid == tcc.gid)
        then false
        else contains try_key stored.barriers))
    × ((delete_transaction_if_unchanged tcc stored).1.kv ≡ stored.kv)
    × ((delete_transaction_if_unchanged tcc stored).1.leases ≡ stored.leases)
unfolding new_transaction
delete_transaction_if_unchanged-leaves_example =
    delete_transaction_if_unchanged-leaves tcc stored "h" try_key

-- The first branch confirms and the second one fails: its barrier is given back and it is put off.
confirm-stops :
    (map (λ c. c.success) (confirm_tcc env "g" (with_tx prepared_tcc)).1.calls ≡ true ∷ false ∷ [])
    × (map (λ b. b.branch_id) (confirm_tcc env "g" (with_tx prepared_tcc)).1.store.barriers
        ≡ "a" ∷ [])
unfolding confirm_tcc guarded_loop run_unless run_loop confirm_branch confirm_decided deliver
    invoke_branch invoke write_loop lookup new_transaction tcc_try_branch insert contains
    insert_barrier same_barrier
confirm-stops = (refl, refl)

-- The decision to commit stands against requests to abort, until the transaction is stopped for good.
history-end :
    (elim (lookup "g" (run_all (alone env) history (with_tx tcc)).store.txs) [
      | none ↦ none
      | some tx ↦ some tx.status
    ])
    ≡ some TransactionStatus.failed
unfolding run_all perform lookup new_transaction tcc_try_branch insert contains insert_barrier
    same_barrier
history-end = refl
