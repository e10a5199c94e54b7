-- ===== src/Coordinator/Concurrent/Shrinking.antt =====
-- Counts of branches over a round of the concurrent sagas of src/lib.rs.
use roze_dtm.Common.{
  ℕ, ◌≡◌, ◌≢◌, ◌<◌, ◌≤◌, refl, arith, List, [], ◌∷◌, map, Bool, true, false, not, inl, inr, All,
  length, if◌then◌else◌,
}
use roze_dtm.Data.{BranchStatus, Branch, Transaction, Result, ok, err, branch_is, out_of_fuel}
use roze_dtm.Graph.{validate_transaction_dependencies, validate_other}
use roze_dtm.Graph.Completeness.{validate_dependency_graph_fuelled}
use roze_dtm.Engine.{attempted}
use roze_dtm.Coordinator.Tasks.{Outcome, put_all}
use roze_dtm.Coordinator.Tasks.Progress.{holds_at, count, put_all-count-lt, Listing, OutcomeAt}
use roze_dtm.Coordinator.Concurrent.{
  is_ready, is_compensable, launched, some_retryable, some_exhausted, some_failed,
}
use roze_dtm.Coordinator.Giving.{Given, Anything}

pub count-map :
    (p : Branch → Bool) (f : Branch → Branch) (bs : List Branch)
    → ((b : Branch) → p (f b) ≡ p b)
    → count p (map f bs) ≡ count p bs
count-map p f [] same = refl
count-map p f (b ∷ bs) same = ground (arith, same b, count-map p f bs same)

pub count-le-length : (p : Branch → Bool) (bs : List Branch) → count p bs ≤ length bs
count-le-length p [] = omega arith
count-le-length p (b ∷ bs) = ground (arith, count-le-length p bs)

-- What is to be compensated, and what is to be called.
abbrev pub compensating : Branch → Bool
compensating b = branch_is b.status BranchStatus.compensating

abbrev pub unfinished : Branch → Bool
unfinished b = not (branch_is b.status BranchStatus.succeeded)

-- Outcomes without a failure.
outcomes_done :
    (p : Branch → Bool) (bs : List Branch) (os : List Outcome)
    → All (OutcomeAt p bs) os
    → some_failed os ≡ false
    → All (λ o. p o.branch ≡ false) os
outcomes_done p bs [] at fine = tt
outcomes_done p bs (o ∷ os) ((on, inl failed), ats) fine = absurd (ground (arith, failed, fine))
outcomes_done p bs (o ∷ os) ((on, inr off), ats) fine =
    (off, outcomes_done p bs os ats (ground (arith, fine)))

outcomes_placed :
    (p : Branch → Bool) (bs : List Branch) (os : List Outcome)
    → All (OutcomeAt p bs) os
    → All (λ o. holds_at p o.index bs ≡ true) os
outcomes_placed p bs [] at = tt
outcomes_placed p bs (o ∷ os) ((on, off), ats) = (on, outcomes_placed p bs os ats)

-- A round without a failure leaves fewer.
pub round-lt :
    (p : Branch → Bool) (bs : List Branch) (os : List Outcome) (n : ℕ)
    → 1 ≤ n
    → Listing (OutcomeAt p bs) n os
    → some_failed os ≡ false
    → count p (put_all os bs) < count p bs
round-lt p bs os n some_task (at, l) fine =
    put_all-count-lt p os bs (omega (arith, some_task, l)) (outcomes_done p bs os at fine)
      (outcomes_placed p bs os at)

pub not_failed :
    (limit : ℕ) (os : List Outcome)
    → some_exhausted limit os ≡ false
    → some_retryable limit os ≡ false
    → some_failed os ≡ false
not_failed limit [] e r = refl
not_failed limit (o ∷ os) e r = ground (arith, e, r, not_failed limit os)

fuelled-Given : (r : Result (Unit {0})) → r ≢ err out_of_fuel → Given Anything r
unfolding Given
fuelled-Given (ok u) enough = tt
fuelled-Given (err e) enough = ground arith

validation_fuelled : (tx : Transaction) → validate_transaction_dependencies tx ≢ err out_of_fuel
unfolding validate_transaction_dependencies validate_other
validation_fuelled tx h = ground (arith, h, validate_dependency_graph_fuelled tx.branches)

pub validated-Given : (tx : Transaction) → Given Anything (validate_transaction_dependencies tx)
validated-Given tx = fuelled-Given (validate_transaction_dependencies tx) (validation_fuelled tx)

pub compensable-compensating :
    (bs : List Branch) (b : Branch) → is_compensable bs b ≡ true → compensating (attempted b) ≡ true
unfolding is_compensable
compensable-compensating bs b ready = ground (arith, ready)

pub ready-unfinished : (b : Branch) → unfinished (launched b) ≡ true
ready-unfinished b = refl

pub count-launched :
    (bs : List Branch) (b : Branch)
    → unfinished (if is_ready bs b then launched b else b) ≡ unfinished b
unfolding is_ready
count-launched bs b = ground arith

pub count-attempted :
    (bs : List Branch) (b : Branch)
    → compensating (if is_compensable bs b then attempted b else b) ≡ compensating b
count-attempted bs b = ground arith
