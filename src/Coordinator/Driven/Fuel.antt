-- ===== src/Coordinator/Driven/Fuel.antt =====
-- The workflows that src/lib.rs drives never run out of the model's fuel.
use roze_dtm.Common.{
  ℕ, zero, suc, ◌≡◌, ◌≢◌, ◌<◌, ◌≤◌, refl, sym, subst, arith, List, [], ◌∷◌, String, Bool, true,
  false, Option, none, some, not, length, find, if◌then◌else◌, All, ◌∙◌,
}
use roze_dtm.Data.{
  TransactionKind, TransactionStatus, BranchStatus, Branch, Transaction, TransactionOptions, err,
  status_in, branch_is, callback_workflow, non_replayable, unresolved_dependencies, out_of_fuel,
}
use roze_dtm.Memory.Barriers.{BarrierDecision}
use roze_dtm.Workflow.{is_callback_workflow, ensure_status}
use roze_dtm.Engine.{
  World, Env, Exec, pure, lift, ◌>>=◌, ◌>>◌, claim, release, invoke_branch, require_status,
  or_missing, settled, with_status, barrier_of,
}
use roze_dtm.Coordinator.Tcc.{run_unless}
use roze_dtm.Coordinator.Tasks.{is_execute, put_at, enumerated}
use roze_dtm.Coordinator.Tasks.Progress.{holds_at, count, put_at-count-lt}
use roze_dtm.Coordinator.Tasks.Places.{enumerated-holds, or_missing-Given}
use roze_dtm.Coordinator.Concurrent.{all_succeeded, is_ready, launched, persist_as}
use roze_dtm.Coordinator.Concurrent.Shrinking.{unfinished, count-le-length}
use roze_dtm.Coordinator.Saga.{roll_back, abort_loop}
use roze_dtm.Coordinator.Saga.Fuel.{Given-fuelled, abort_loop-Gives, roll_back-Gives}
use roze_dtm.Coordinator.Driven.{
  workflow_start_states, workflow_abort_states, next_ready, workflow_rollback_decided,
  rollback_step, abort_workflow_loaded, abort_workflow, workflow_end, step_called, step_decided,
  workflow_step, workflow_steps, start_workflow_loaded, start_workflow,
}
use roze_dtm.Coordinator.Giving.{
  Given, Gives, Anything, bind-Gives, pure-Gives, if-Gives, lift-Gives, ensure-Gives, load-Gives,
  of_kind-Gives, unless-Gives, persist_as-Gives, persist-Anything, claim-Gives, release-Gives,
  invoke_branch-Gives,
}

-- What is found among placed elements is at its place, and satisfies the test.
abbrev Found : (Branch → Bool) → List Branch → Option (ℕ × Branch) → Type 0
Found q bs none = Unit {0}
Found q bs (some (i, b)) = holds_at q i bs ≡ true

first_or_rest :
    (q : Branch → Bool) (bs : List Branch) (i : ℕ) (b : Branch) (rest : Option (ℕ × Branch))
    (c : Bool)
    → (c ≡ true → holds_at q i bs ≡ true)
    → Found q bs rest
    → Found q bs (if c then some (i, b) else rest)
first_or_rest q bs i b rest true on found = on refl
first_or_rest q bs i b rest false on found = found

find-Found :
    (q r : Branch → Bool) (bs : List Branch) (ts : List (ℕ × Branch))
    → ((b : Branch) → r b ≡ true → q b ≡ true)
    → All (λ t. holds_at q t.0 bs ≡ q t.1) ts
    → Found q bs (find (λ t. r t.1) ts)
find-Found q r bs [] implied at = tt
find-Found q r bs ((i, b) ∷ ts) implied (at, ats) =
    first_or_rest q bs i b (find (λ t. r t.1) ts) (r b) (λ on. at ∙ implied b on)
      (find-Found q r bs ts implied ats)

ready-unfinished : (bs : List Branch) (b : Branch) → is_ready bs b ≡ true → unfinished b ≡ true
unfolding is_ready
ready-unfinished bs b ready = ground (arith, ready)

next_ready-Found : (bs : List Branch) → Found unfinished bs (next_ready bs)
unfolding next_ready
next_ready-Found bs =
    find-Found unfinished (is_ready bs) bs (enumerated bs) (ready-unfinished bs)
      (enumerated-holds unfinished bs)

module _ (env : Env) where
  workflow_rollback_decided-Gives :
      (options : TransactionOptions) (gid : String) (b : Branch) (c : Bool)
      → Gives Anything (workflow_rollback_decided env options gid b c)
  unfolding workflow_rollback_decided
  workflow_rollback_decided-Gives options gid b true =
      lift-Gives Anything Anything (or_missing b.id b.compensate)
        (roll_back env options gid "workflow_rollback" b) (or_missing-Given b.id b.compensate)
        (λ url _. roll_back-Gives env options gid "workflow_rollback" b url)
  workflow_rollback_decided-Gives options gid b false = pure-Gives Anything _ tt

  rollback_step-Gives :
      (options : TransactionOptions) (gid : String) (b : Branch)
      → Gives Anything (rollback_step env options gid b)
  unfolding rollback_step
  rollback_step-Gives options gid b =
      let barrier = barrier_of gid b "workflow_rollback" in
      let decided =
        λ (d : BarrierDecision). workflow_rollback_decided env options gid b (is_execute d) in
      if-Gives Anything (not (branch_is b.status BranchStatus.succeeded))
        (pure (
          if branch_is b.status BranchStatus.pending then with_status BranchStatus.skipped b else b,
          none,
        ))
        (claim env barrier >>= decided) (λ _. pure-Gives Anything _ tt)
        (λ _.
          bind-Gives Anything Anything (claim env barrier) decided (claim-Gives env barrier)
            (λ d _. workflow_rollback_decided-Gives options gid b (is_execute d)))

  abort_workflow_loaded-Gives : (tx : Transaction) → Gives Anything (abort_workflow_loaded env tx)
  unfolding abort_workflow_loaded require_status ensure_status
  abort_workflow_loaded-Gives tx =
      ensure-Gives Anything (status_in tx.status workflow_abort_states) (non_replayable tx.status)
        (abort_loop env (rollback_step env tx.options tx.gid) tx) refl
        λ _.
          abort_loop-Gives env (rollback_step env tx.options tx.gid) tx
            (rollback_step-Gives tx.options tx.gid)

  abort_workflow-Gives : (gid : String) → Gives Anything (abort_workflow env gid)
  unfolding abort_workflow
  abort_workflow-Gives gid =
      of_kind-Gives env gid TransactionKind.workflow
        (run_unless env TransactionStatus.aborted (abort_workflow_loaded env))
        λ tx.
          unless-Gives env TransactionStatus.aborted (abort_workflow_loaded env) tx
            (abort_workflow_loaded-Gives tx)

  module _ (gid : String) where
    module _ (next : Transaction → Exec Transaction) (n : ℕ)
        (next_gives : (tx : Transaction)
          → count unfinished tx.branches < n
          → Gives Anything (next tx)) where
      step_called-Gives :
          (tx : Transaction) (i : ℕ) (run : Branch × Bool)
          → count unfinished tx.branches ≤ n
          → holds_at unfinished i tx.branches ≡ true
          → Gives Anything (step_called env gid next tx i run)
      unfolding step_called
      step_called-Gives tx i (b, true) room at =
          let bs = put_at i (settled BranchStatus.succeeded b) tx.branches in
          bind-Gives (λ tx'. tx'.branches ≡ bs) Anything
            (persist_as env tx TransactionStatus.succeeding bs) next
            (persist_as-Gives env tx TransactionStatus.succeeding bs)
            λ tx' same. next_gives tx' (
              subst (λ cs. count unfinished cs < n) (sym same)
                (omega (
                  arith,
                  room,
                  put_at-count-lt unfinished i (settled BranchStatus.succeeded b) tx.branches refl
                      at,
                )))
      step_called-Gives tx i (b, false) room at =
          let barrier = barrier_of tx.gid b "workflow" in
          let bs = put_at i (with_status BranchStatus.failed b) tx.branches in
          let undo = persist_as env tx TransactionStatus.aborting bs in
          bind-Gives Anything Anything (release env barrier)
            (λ _. undo >>= λ tx'. abort_workflow env gid) (release-Gives env barrier)
            (λ _ _.
              bind-Gives Anything Anything undo (λ tx'. abort_workflow env gid)
                (persist-Anything env tx TransactionStatus.aborting bs)
                (λ tx' _. abort_workflow-Gives gid))

      step_decided-Gives :
          (tx : Transaction) (i : ℕ) (b : Branch) (c : Bool)
          → count unfinished tx.branches ≤ n
          → holds_at unfinished i tx.branches ≡ true
          → Gives Anything (step_decided env gid next tx (i, b) c)
      unfolding step_decided
      step_decided-Gives tx i b true room at =
          bind-Gives Anything Anything
            (invoke_branch env tx.options tx.gid TransactionStatus.succeeding (launched b) b.action)
            (step_called env gid next tx i)
            (invoke_branch-Gives env tx.options tx.gid TransactionStatus.succeeding (launched b)
              b.action)
            (λ run _. step_called-Gives tx i run room at)
      step_decided-Gives tx i b false room at = load-Gives env gid

      workflow_step-Gives :
          (tx : Transaction) (place : Option (ℕ × Branch))
          → count unfinished tx.branches ≤ n
          → Found unfinished tx.branches place
          → Gives Anything (workflow_step env gid next tx place)
      unfolding workflow_step workflow_end Given
      workflow_step-Gives tx none room at =
          if-Gives Anything (all_succeeded tx.branches)
            (persist_as env tx TransactionStatus.succeeded tx.branches)
            (lift (err unresolved_dependencies))
            (λ _. persist-Anything env tx TransactionStatus.succeeded tx.branches) (λ _ w. refl)
      workflow_step-Gives tx (some (i, b)) room at =
          let barrier = barrier_of tx.gid b "workflow" in
          bind-Gives Anything Anything (claim env barrier)
            (λ d. step_decided env gid next tx (i, b) (is_execute d)) (claim-Gives env barrier)
            (λ d _. step_decided-Gives tx i b (is_execute d) room at)

    workflow_steps-Gives :
        (fuel : ℕ) (tx : Transaction)
        → count unfinished tx.branches < fuel
        → Gives Anything (workflow_steps env gid fuel tx)
    unfolding workflow_steps
    workflow_steps-Gives zero tx room = absurd (omega (arith, room))
    workflow_steps-Gives (suc fuel) tx room =
        workflow_step-Gives (workflow_steps env gid fuel) fuel (workflow_steps-Gives fuel) tx
          (next_ready tx.branches) (omega (arith, room)) (next_ready-Found tx.branches)

    start_workflow_loaded-Gives :
        (tx : Transaction) → Gives Anything (start_workflow_loaded env gid tx)
    unfolding start_workflow_loaded require_status ensure_status
    start_workflow_loaded-Gives tx =
        let steps = workflow_steps env gid (suc (length tx.branches)) tx in
        ensure-Gives Anything (not (is_callback_workflow tx)) callback_workflow
          (require_status env tx workflow_start_states >> steps) refl
          λ _.
            ensure-Gives Anything (status_in tx.status workflow_start_states)
              (non_replayable tx.status) steps refl
              λ _.
                workflow_steps-Gives (suc (length tx.branches)) tx
                  (omega (arith, count-le-length unfinished tx.branches))

  start_workflow-Gives : (gid : String) → Gives Anything (start_workflow env gid)
  unfolding start_workflow
  start_workflow-Gives gid =
      of_kind-Gives env gid TransactionKind.workflow
        (run_unless env TransactionStatus.succeeded (start_workflow_loaded env gid))
        λ tx.
          unless-Gives env TransactionStatus.succeeded (start_workflow_loaded env gid) tx
            (start_workflow_loaded-Gives gid tx)

  -- A workflow that the coordinator drives never ends for want of the model's fuel, whatever other workers
  -- do.
  pub start_workflow_fuelled :
      (gid : String) (w : World) → (start_workflow env gid w).0 ≢ err out_of_fuel
  start_workflow_fuelled gid w =
      Given-fuelled (start_workflow env gid w).0 (start_workflow-Gives gid w)
