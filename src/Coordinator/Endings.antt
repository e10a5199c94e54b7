-- ===== src/Coordinator/Endings.antt =====
-- How the methods of src/lib.rs that call branches end: the status that they report, and the calls made.
use mathlib.Core.List.{append-nil}
use roze_dtm.Common.{
  ◌≡◌, refl, sym, arith, List, [], ◌++◌, String, Bool, true, false, Option, ◌⊎◌, inl, if◌then◌else◌,
}
use roze_dtm.Data.{
  TransactionKind, TransactionStatus, Branch, Transaction, Error, Result, ok, err, status_is,
  status_is_iff,
}
use roze_dtm.Engine.{
  Call, World, Env, Exec, ◌>>=◌, pure, lift, looked, seen, found_of_kind, access,
  transaction_of_kind, require_status, persist_transaction, Stop, for_branches,
}
use roze_dtm.Memory.Transactions.{get_transaction}
use roze_dtm.Workflow.{ensure_status}
use roze_dtm.Engine.Loops.{stop_of, Obeys}
use roze_dtm.Coordinator.Tcc.{
  write_loop, run_unless, run_loop, guarded_loop, ended, prepared_status, prepare_tcc, confirm_tcc,
  cancel_tcc, prepare_states, confirm_states, cancel_states, try_branch, cancel_branch,
  confirm_branch,
}
use roze_dtm.Coordinator.Xa.{
  rollback_states, commit_branch, rollback_branch, commit_xa, rollback_xa,
}
use roze_dtm.Coordinator.Traces.{
  all_succeed, ends_in_failure, by_call, always, fits, Traced, for_branches-Traced,
  try_branch-Traced, confirm_branch-Traced, cancel_branch-Traced, commit_branch-Traced,
  rollback_branch-Traced,
}

-- A result of a second phase: `finished` after calls that all succeed, `early` after a call that fails, or
-- an error after calls that all succeed.
unfoldable pub PhaseEnds :
    TransactionStatus → TransactionStatus → Result Transaction → List Call → Type 0
PhaseEnds early finished (err e) new = all_succeed new ≡ true
PhaseEnds early finished (ok tx) new =
    (tx.status ≡ finished × (all_succeed new ≡ true))
    ⊎ (tx.status ≡ early × (ends_in_failure new ≡ true))

module _ (P : Result Transaction → List Call → Type 0) where
  -- A run appends calls that fit its result.
  unfoldable pub Ends : World → Result Transaction → World → Type 0
  Ends w r w' = (new : List Call) × (w'.calls ≡ w.calls ++ new) × P r new

  abbrev pub Always : Exec Transaction → Type 0
  Always m = (w : World) → Ends w (m w).0 (m w).1

  pure-Always : (tx : Transaction) → P (ok tx) [] → Always (pure tx)
  unfolding Ends
  pure-Always tx p w = ([], sym (append-nil w.calls), p)

  if-Always :
      (c : Bool) (m n : Exec Transaction)
      → (c ≡ true → Always m)
      → Always n
      → Always (if c then m else n)
  if-Always true m n m_always n_always = m_always refl
  if-Always false m n m_always n_always = n_always

  lift-Always :
      {A : Type 0} (r : Result A) (k : A → Exec Transaction)
      → ((e : Error) → P (err e) [])
      → ((a : A) → Always (k a))
      → Always (lift r >>= k)
  unfolding Ends
  lift-Always (ok a) k fails always w = always a w
  lift-Always (err e) k fails always w = ([], sym (append-nil w.calls), fails e)

  loaded-Always :
      (env : Env) (gid : String) (kind : TransactionKind) (k : Transaction → Exec Transaction)
      → ((e : Error) → P (err e) [])
      → ((tx : Transaction) → Always (k tx))
      → Always (transaction_of_kind env gid kind >>= k)
  unfolding transaction_of_kind Ends
  loaded-Always env gid kind k fails always w =
      lift-Always (found_of_kind kind gid (get_transaction gid (seen env w))) k fails always
        (looked env w)

  -- After the loop, the transaction is written.
  after_loop :
      (env : Env) (called : Stop → Bool) (tx : Transaction)
      (status : Option Stop → TransactionStatus) (w : World)
      (run : Result (List Branch × Option Stop) × World)
      → ((e : Error) (new : List Call) → fits called (err e) new ≡ true → P (err e) new)
      → ((done : Transaction) (stop : Option Stop) (new : List Call)
          → done.status ≡ status stop
          → fits called (ok stop) new ≡ true
          → P (ok done) new)
      → Traced called w (stop_of run.0) run.1
      → Ends w
          (((λ _. run) >>= write_loop env tx status) w).0
          (((λ _. run) >>= write_loop env tx status) w).1
  unfolding Ends Traced stop_of write_loop persist_transaction access
  after_loop env called tx status w (err e, w1) fails writes (new, calls, fit) =
      (new, calls, fails e new fit)
  after_loop env called tx status w (ok (bs, stop), w1) fails writes (new, calls, fit) =
      (new, calls, writes _ stop new refl fit)

  -- The shape of the methods: guards, a loop, and a write.
  pub method-Always :
      (env : Env) (called : Stop → Bool) (gid : String) (kind : TransactionKind)
      (already : TransactionStatus) (allowed : List TransactionStatus)
      (status : Option Stop → TransactionStatus)
      (body : Transaction → Branch → Exec (Branch × Option Stop))
      → ((e : Error) (new : List Call) → all_succeed new ≡ true → P (err e) new)
      → ((done : Transaction) → done.status ≡ already → P (ok done) [])
      → ((done : Transaction) (stop : Option Stop) (new : List Call)
          → done.status ≡ status stop
          → fits called (ok stop) new ≡ true
          → P (ok done) new)
      → ((tx : Transaction) (b : Branch) → Obeys (Traced called) (body tx b))
      → Always (guarded_loop env gid kind already allowed status body)
  unfolding guarded_loop run_unless run_loop all_succeed fits require_status
  method-Always env called gid kind already allowed status body fails absorbs writes traced =
      loaded-Always env gid kind _ (λ e. fails e [] refl)
        λ tx.
          if-Always (status_is tx.status already) _ _
            (λ e. pure-Always tx (absorbs tx ((status_is_iff tx.status already).0 e)))
            (lift-Always (ensure_status tx allowed) _ (λ e. fails e [] refl)
              λ _ w.
                after_loop env called tx status w (for_branches (body tx) tx.branches w) fails
                  writes (for_branches-Traced called (body tx) (traced tx) tx.branches w))

-- The end of `prepare_tcc`: prepared after calls that all succeed, trying after a call that fails, or aborting.
unfoldable pub TryEnds : Result Transaction → List Call → Type 0
TryEnds (err e) new = all_succeed new ≡ true
TryEnds (ok tx) new =
    (tx.status ≡ TransactionStatus.prepared × (all_succeed new ≡ true))
    ⊎ (tx.status ≡ TransactionStatus.trying × (ends_in_failure new ≡ true))
    ⊎ (tx.status ≡ TransactionStatus.aborting
        × ((all_succeed new ≡ true) ⊎ (ends_in_failure new ≡ true)))

module _ (env : Env) (gid : String) where
  -- `prepare_tcc` makes no call after one that fails. It reports Prepared only
  -- when all the calls that it made succeeded, and Trying only when the last one failed; else it reports
  -- Aborting. When it gives an error, all the calls that it made succeeded.
  pub prepare_tcc-stops_at_failure :
      (w : World) → Ends TryEnds w (prepare_tcc env gid w).0 (prepare_tcc env gid w).1
  unfolding prepare_tcc TryEnds all_succeed fits by_call prepared_status
  prepare_tcc-stops_at_failure =
      method-Always TryEnds env by_call gid TransactionKind.tcc TransactionStatus.prepared
        prepare_states prepared_status (λ tx. try_branch env tx.options tx.gid) (λ e new h. h)
        (λ done h. inl (h, refl)) (λ done stop new h fit. ground (arith, h, fit))
        (λ tx. try_branch-Traced env tx.options tx.gid)

  second_phase :
      (kind : TransactionKind) (allowed : List TransactionStatus)
      (early finished : TransactionStatus)
      (body : Transaction → Branch → Exec (Branch × Option Stop))
      → ((tx : Transaction) (b : Branch) → Obeys (Traced always) (body tx b))
      → Always
          (PhaseEnds early finished)
          (guarded_loop env gid kind finished allowed (ended early finished) body)
  unfolding PhaseEnds all_succeed fits always
  second_phase kind allowed early finished body =
      method-Always (PhaseEnds early finished) env always gid kind finished allowed
        (ended early finished) body (λ e new h. h) (λ done h. inl (h, refl))
        (λ done stop new h fit. ground (arith, h, fit))

  -- `confirm_tcc` makes no call after one that fails. It reports Succeeded only when all the calls that it
  -- made succeeded, and else Succeeding, after a call that failed.
  -- When it gives an error, all the calls that it made succeeded.
  pub confirm_tcc-stops_at_failure :
      (w : World)
      → Ends
          (PhaseEnds TransactionStatus.succeeding TransactionStatus.succeeded)
          w
          (confirm_tcc env gid w).0
          (confirm_tcc env gid w).1
  unfolding confirm_tcc
  confirm_tcc-stops_at_failure =
      second_phase TransactionKind.tcc confirm_states TransactionStatus.succeeding
        TransactionStatus.succeeded (λ tx. confirm_branch env tx.options tx.gid)
        (λ tx. confirm_branch-Traced env tx.options tx.gid)

  -- `cancel_tcc` makes no call after one that fails. It reports Aborted only when all the calls that it
  -- made succeeded, and else Aborting, after a call that failed.
  -- When it gives an error, all the calls that it made succeeded.
  pub cancel_tcc-stops_at_failure :
      (w : World)
      → Ends
          (PhaseEnds TransactionStatus.aborting TransactionStatus.aborted)
          w
          (cancel_tcc env gid w).0
          (cancel_tcc env gid w).1
  unfolding cancel_tcc
  cancel_tcc-stops_at_failure =
      second_phase TransactionKind.tcc cancel_states TransactionStatus.aborting
        TransactionStatus.aborted (λ tx. cancel_branch env tx.options tx.gid)
        (λ tx. cancel_branch-Traced env tx.options tx.gid)

  -- `commit_xa` makes no call after one that fails. It reports Succeeded only when all the calls that it
  -- made succeeded, and else Succeeding, after a call that failed.
  -- When it gives an error, all the calls that it made succeeded.
  pub commit_xa-stops_at_failure :
      (w : World)
      → Ends
          (PhaseEnds TransactionStatus.succeeding TransactionStatus.succeeded)
          w
          (commit_xa env gid w).0
          (commit_xa env gid w).1
  unfolding commit_xa
  commit_xa-stops_at_failure =
      second_phase TransactionKind.xa confirm_states TransactionStatus.succeeding
        TransactionStatus.succeeded (λ tx. commit_branch env tx.options tx.gid)
        (λ tx. commit_branch-Traced env tx.options tx.gid)

  -- `rollback_xa` makes no call after one that fails. It reports Aborted only when all the calls that it
  -- made succeeded, and else Aborting, after a call that failed.
  -- When it gives an error, all the calls that it made succeeded.
  pub rollback_xa-stops_at_failure :
      (w : World)
      → Ends
          (PhaseEnds TransactionStatus.aborting TransactionStatus.aborted)
          w
          (rollback_xa env gid w).0
          (rollback_xa env gid w).1
  unfolding rollback_xa
  rollback_xa-stops_at_failure =
      second_phase TransactionKind.xa rollback_states TransactionStatus.aborting
        TransactionStatus.aborted (λ tx. rollback_branch env tx.options tx.gid)
        (λ tx. rollback_branch-Traced env tx.options tx.gid)
