-- ===== src/Coordinator/Callbacks/Life.antt =====
-- How the callback workflows of src/lib.rs, and the updates that pass on to the store, move the stored
-- transactions.
use roze_dtm.Common.{
  ℕ, suc, ◌≡◌, refl, sym, ◌∙◌, arith, ap, String, Bool, true, false, Option, none, some, ◌⊎◌, inr,
  string_ord, max, unwrap_or,
}
use roze_dtm.Map.{lookup, insert}
use roze_dtm.Data.{
  TransactionKind, TransactionStatus, Branch, Transaction, WorkflowProgress, WorkflowRecoveryDelay,
  Result, ok, err, is_terminal, status_is,
}
use roze_dtm.Dynamic.{append_dynamic_branch, append_new, bump_transaction_revision}
use roze_dtm.Memory.Transactions.{
  MemoryStore, written, modified, modify, register_branch, record_workflow_progress,
  finish_workflow, defer_recovery,
}
use roze_dtm.Workflow.{
  ensure_callback_workflow, ensure_status, append_workflow_progress, record_progress,
  append_progress, apply_workflow_completion, defer_workflow_recovery,
}
use roze_dtm.Callback.{WorkflowCallbackRequest, CallbackAnswer, workflow_callback_request}
use roze_dtm.Engine.{
  World, Env, Exec, pure, lift, ◌>>=◌, ◌>>◌, access, load, current_millis, require_status,
}
use roze_dtm.Coordinator.Control.{prepare_workflow}
use roze_dtm.Coordinator.Callbacks.{
  prepared_only, delay_of, register_dynamic_branch, record_progress_of, finish_callback_workflow,
  terminal_loaded, terminal_after_conflict, settle, or_terminal, defer_callback_workflow, answered,
  latest_loaded, query, requested, recover_callback_loaded, recover_callback_workflow, expired,
  expire_callback_workflow,
}
use roze_dtm.Coordinator.Lifecycle.{later, futures, later_refl}
use roze_dtm.Coordinator.Writes.{alone}
use roze_dtm.Coordinator.Evolution.{
  Keyed, Shifts, Evolves, Shifts-Evolves, same-Evolves, stay-Evolves, Evolves-trans,
}
use roze_dtm.Coordinator.Tracking.{
  Evolving, bind-Evolving, lift-Evolving, if-Evolving, reload-Evolving, of_kind-Evolving,
}

-- An update in place that keeps the transaction's gid and kind, and moves its status along.
unfoldable pub Advances : Transaction → Transaction → Type 0
Advances old new =
    (new.gid ≡ old.gid)
    × (new.kind ≡ old.kind)
    × (later old.kind old.status new.status ≡ true)
    × ((is_terminal old.status ≡ false) ⊎ (new ≡ old))

append_dynamic_branch-Advances :
    (now : ℕ) (old : Transaction) (b : Branch) (new : Transaction)
    → append_dynamic_branch now old b ≡ ok new
    → Advances old new
unfolding append_dynamic_branch append_new bump_transaction_revision Advances
append_dynamic_branch-Advances now old b new e = ground (arith, later_refl old.kind old.status)

append_workflow_progress-Advances :
    (now : ℕ) (old : Transaction) (p : WorkflowProgress) (new : Transaction)
    → append_workflow_progress now old p ≡ ok new
    → Advances old new
unfolding append_workflow_progress record_progress append_progress bump_transaction_revision
    ensure_status Advances
append_workflow_progress-Advances now old p new e = ground (arith, later_refl old.kind old.status)

apply_workflow_completion-Advances :
    (now : ℕ) (old : Transaction) (s : TransactionStatus) (reason result : Option String)
    (new : Transaction)
    → apply_workflow_completion now old s reason result ≡ ok new
    → Advances old new
unfolding apply_workflow_completion ensure_callback_workflow ensure_status bump_transaction_revision
    Advances later futures
apply_workflow_completion-Advances now old s reason result new e = ground arith

defer_workflow_recovery-Advances :
    (now : ℕ) (old : Transaction) (d : WorkflowRecoveryDelay) (new : Transaction)
    → defer_workflow_recovery now old d ≡ ok new
    → Advances old new
unfolding defer_workflow_recovery ensure_status bump_transaction_revision Advances
defer_workflow_recovery-Advances now old d new e = ground (arith, later_refl old.kind old.status)

module _ (env : Env) (gid : String) where
  -- The world after an access that leaves a store.
  abbrev stored : World → MemoryStore → World
  stored w s = record w { store = s; ticks = suc w.ticks }

  written-Evolves :
      (w : World) (old : Transaction) (r : Result Transaction)
      → lookup gid w.store.txs ≡ some old
      → ((new : Transaction) → r ≡ ok new → Advances old new)
      → Evolves w (stored w (written w.store gid r).1)
  unfolding Evolves Keyed Advances Shifts
  written-Evolves w old (err e) at advances keyed = same-Evolves w (stored w w.store) refl keyed
  written-Evolves w old (ok new) at advances keyed =
      let (same_gid, same_kind, next, active) = advances new refl in
      Shifts-Evolves gid w (stored w (written w.store gid (ok new)).1)
        (inr (
          old,
          new,
          at,
          active,
          same_gid,
          same_kind,
          next,
          ap (λ g. insert g new w.store.txs) (sym (same_gid ∙ keyed gid old at)),
        ))
        keyed

  modified-Evolves :
      (update : Transaction → Result Transaction) (w : World) (o : Option Transaction)
      → lookup gid w.store.txs ≡ o
      → ((old new : Transaction) → update old ≡ ok new → Advances old new)
      → Evolves w (stored w (modified gid update w.store o).1)
  modified-Evolves update w none at advances = same-Evolves w (stored w w.store) refl
  modified-Evolves update w (some old) at advances =
      written-Evolves w old (update old) at (advances old)

  modify-Evolving :
      (update : ℕ → Transaction → Result Transaction)
      → ((now : ℕ) (old new : Transaction) → update now old ≡ ok new → Advances old new)
      → Evolving (access (alone env) λ now s. modify gid (update now) s)
  unfolding access modify
  modify-Evolving update advances w =
      modified-Evolves (update (env.now w.ticks)) w (lookup gid w.store.txs) refl
        (advances (env.now w.ticks))

  pub register_dynamic_branch-Evolving :
      (b : Branch) → Evolving (register_dynamic_branch (alone env) gid b)
  unfolding register_dynamic_branch register_branch
  register_dynamic_branch-Evolving b =
      modify-Evolving (λ now tx. append_dynamic_branch now tx b)
        (λ now old new e. append_dynamic_branch-Advances now old b new e)

  pub record_progress_of-Evolving :
      (p : WorkflowProgress) → Evolving (record_progress_of (alone env) gid p)
  unfolding record_progress_of record_workflow_progress
  record_progress_of-Evolving p =
      modify-Evolving (λ now tx. append_workflow_progress now tx p)
        (λ now old new e. append_workflow_progress-Advances now old p new e)

  pub finish_callback_workflow-Evolving :
      (s : TransactionStatus) (reason result : Option String)
      → Evolving (finish_callback_workflow (alone env) gid s reason result)
  unfolding finish_callback_workflow finish_workflow
  finish_callback_workflow-Evolving s reason result =
      modify-Evolving (λ now tx. apply_workflow_completion now tx s reason result)
        (λ now old new e. apply_workflow_completion-Advances now old s reason result new e)

  defer-Evolving :
      (d : WorkflowRecoveryDelay)
      → Evolving (access (alone env) λ now s. defer_recovery now gid d s)
  unfolding defer_recovery
  defer-Evolving d =
      modify-Evolving (λ now tx. defer_workflow_recovery now tx d)
        (λ now old new e. defer_workflow_recovery-Advances now old d new e)

module _ (env : Env) where
  settle-Evolves :
      (gid : String) (w : World) (run : Result Transaction × World)
      → Evolves w run.1
      → Evolves w (settle (alone env) gid run.0 run.1).1
  unfolding terminal_after_conflict terminal_loaded
  settle-Evolves gid w (ok tx, w1) first = first
  settle-Evolves gid w (err e, w1) first =
      Evolves-trans w w1 (terminal_after_conflict (alone env) gid e w1).1 first (
        bind-Evolving (load (alone env) gid) (terminal_loaded (alone env) e)
          (reload-Evolving env gid)
          (λ latest.
            if-Evolving (is_terminal latest.status) (pure latest) (lift (err e))
              (λ v. stay-Evolves v) (λ v. stay-Evolves v))
          w1)

  or_terminal-Evolving :
      (gid : String) (m : Exec Transaction) → Evolving m → Evolving (or_terminal (alone env) gid m)
  unfolding or_terminal
  or_terminal-Evolving gid m first w = settle-Evolves gid w (m w) (first w)

  defer_callback_workflow-Evolving :
      (tx : Transaction) (at : ℕ) (backoff : Bool) (outcome : String)
      → Evolving (defer_callback_workflow (alone env) tx at backoff outcome)
  unfolding defer_callback_workflow
  defer_callback_workflow-Evolving tx at backoff outcome =
      let interval =
        max (unwrap_or tx.options.retry_interval_millis env.options.retry_backoff_millis) 1 in
      let delay = delay_of at interval env.options.max_retry_backoff_millis backoff outcome in
      or_terminal-Evolving tx.gid (access (alone env) λ now s. defer_recovery now tx.gid delay s)
        (defer-Evolving env tx.gid delay)

  answered-Evolving :
      (gid : String) (at : ℕ) (answer : CallbackAnswer) (latest : Transaction)
      → Evolving (answered (alone env) gid at answer latest)
  unfolding answered
  answered-Evolving gid at (CallbackAnswer.failed_with reason) latest =
      let why = some (unwrap_or reason "workflow callback reported failure") in
      or_terminal-Evolving gid
        (finish_callback_workflow (alone env) gid TransactionStatus.failed why none)
        (finish_callback_workflow-Evolving env gid TransactionStatus.failed why none)
  answered-Evolving gid at CallbackAnswer.ongoing latest =
      defer_callback_workflow-Evolving latest at false "ongoing"
  answered-Evolving gid at CallbackAnswer.completed latest =
      defer_callback_workflow-Evolving latest at true "completed_without_terminal"
  answered-Evolving gid at CallbackAnswer.transport_error latest =
      defer_callback_workflow-Evolving latest at true "transport_error"

  -- A transaction that is in Prepared, or else an error.
  prepared_workflow-Evolving :
      (tx : Transaction) (m : Exec Transaction)
      → Evolving m
      → Evolving
          (lift (ensure_callback_workflow tx) >> (require_status (alone env) tx prepared_only >> m))
  unfolding require_status
  prepared_workflow-Evolving tx m evolving =
      lift-Evolving (ensure_callback_workflow tx)
        (λ _. require_status (alone env) tx prepared_only >> m)
        (λ _. lift-Evolving (ensure_status tx prepared_only) (λ _. m) (λ _. evolving))

  latest_loaded-Evolving :
      (gid : String) (at : ℕ) (answer : CallbackAnswer) (latest : Transaction)
      → Evolving (latest_loaded (alone env) gid at answer latest)
  unfolding latest_loaded
  latest_loaded-Evolving gid at answer latest =
      if-Evolving (is_terminal latest.status) (pure latest)
        (lift (ensure_callback_workflow latest)
          >> (require_status (alone env) latest prepared_only
              >> answered (alone env) gid at answer latest))
        (λ w. stay-Evolves w)
        (prepared_workflow-Evolving latest (answered (alone env) gid at answer latest)
          (answered-Evolving gid at answer latest))

  requested-Evolving :
      (gid : String) (tx : Transaction) (at : ℕ) (request : Result WorkflowCallbackRequest)
      → Evolving (requested (alone env) gid tx at request)
  unfolding requested query
  requested-Evolving gid tx at (err e) =
      defer_callback_workflow-Evolving tx at true "invalid_callback"
  requested-Evolving gid tx at (ok request) =
      bind-Evolving (query (alone env) request tx)
        (λ answer. load (alone env) gid >>= latest_loaded (alone env) gid at answer)
        (λ w. same-Evolves w (query (alone env) request tx w).1 refl)
        λ answer.
          bind-Evolving (load (alone env) gid) (latest_loaded (alone env) gid at answer)
            (reload-Evolving env gid) (latest_loaded-Evolving gid at answer)

  recover_callback_loaded-Evolving :
      (gid : String) (tx : Transaction) → Evolving (recover_callback_loaded (alone env) gid tx)
  unfolding recover_callback_loaded current_millis
  recover_callback_loaded-Evolving gid tx =
      let rest =
        λ (now : ℕ). requested (alone env) gid tx now (workflow_callback_request env.external tx) in
      if-Evolving (is_terminal tx.status) (pure tx)
        (lift (ensure_callback_workflow tx)
          >> (require_status (alone env) tx prepared_only >> (current_millis (alone env) >>= rest)))
        (λ w. stay-Evolves w)
        (prepared_workflow-Evolving tx (current_millis (alone env) >>= rest) (
          bind-Evolving (current_millis (alone env)) rest
            (λ w. same-Evolves w (current_millis (alone env) w).1 refl)
            (λ now. requested-Evolving gid tx now (workflow_callback_request env.external tx))))

  pub recover_callback_workflow-Evolving :
      (gid : String) → Evolving (recover_callback_workflow (alone env) gid)
  unfolding recover_callback_workflow
  recover_callback_workflow-Evolving gid =
      of_kind-Evolving env gid TransactionKind.workflow (recover_callback_loaded (alone env) gid)
        (λ tx kind w tracked. recover_callback_loaded-Evolving gid tx w)

  expired-Evolving : (tx : Transaction) → Evolving (expired (alone env) tx)
  unfolding expired require_status
  expired-Evolving tx =
      let why = some "workflow callback timed out" in
      let finish = finish_callback_workflow (alone env) tx.gid TransactionStatus.failed why none in
      lift-Evolving (ensure_status tx prepared_only) (λ _. or_terminal (alone env) tx.gid finish)
        (λ _.
          or_terminal-Evolving tx.gid finish
            (finish_callback_workflow-Evolving env tx.gid TransactionStatus.failed why none))

  pub expire_callback_workflow-Evolving :
      (tx : Transaction)
      → Evolving (prepare_workflow (alone env) tx.gid)
      → Evolving (expire_callback_workflow (alone env) tx)
  unfolding expire_callback_workflow
  expire_callback_workflow-Evolving tx prepares =
      if-Evolving (status_is tx.status TransactionStatus.submitted)
        (prepare_workflow (alone env) tx.gid >>= expired (alone env)) (expired (alone env) tx)
        (bind-Evolving (prepare_workflow (alone env) tx.gid) (expired (alone env)) prepares
          expired-Evolving)
        (expired-Evolving tx)
