-- ===== src/Schedule/Due.antt =====
-- When a transaction is due, and the time that recovery sorts it by.
use roze_dtm.Common.{
  ℕ, ◌≤◌, ◌<◌, ◌≡◌, Bool, true, false, Option, none, some, List, [], ◌∷◌, arith, leb, min, all,
  filterb, is_none_or, Option-cases, Bool-cases, inl, inr,
}
use roze_dtm.Data.{Branch, Transaction}
use roze_dtm.Workflow.{is_callback_workflow}
use roze_dtm.Schedule.{
  transaction_due, transaction_next_recovery_millis, earliest_retry, first_delivery, is_delayed,
  is_unsettled, message_dispatch_due,
}

abbrev due_by : ℕ → List Branch → Bool
due_by now = all (λ b. is_none_or (λ next. leb next now) b.next_retry_millis)

earliest_retry-le :
    (now : ℕ) (next : Option ℕ) (bs : List Branch) (t : ℕ)
    → is_none_or (λ n. leb n now) next ≡ true
    → due_by now bs ≡ true
    → earliest_retry next bs ≡ some t
    → t ≤ now
unfolding earliest_retry
earliest_retry-le now next [] t a d h = ground arith
earliest_retry-le now next (b ∷ bs) t a d h = elim (Option-cases b.next_retry_millis) [
  | inl e ↦ absurd (ground arith)
  | inr (n, e) ↦
      earliest_retry-le now (some (elim next [ none ↦ n | some current ↦ min current n ])) bs t
        (ground arith) (ground arith) (ground arith)
]

delivery_due :
    (tx : Transaction) (now : ℕ)
    → is_delayed tx now ≡ false
    → is_none_or (λ n. leb n now) (first_delivery tx) ≡ true
unfolding message_dispatch_due
delivery_due tx now h = ground arith

-- A transaction whose next recovery lies in the future is not due, callback workflows aside.
pub not_due_before_next_recovery :
    (tx : Transaction) (now t : ℕ)
    → is_callback_workflow tx ≡ false
    → transaction_next_recovery_millis tx ≡ some t
    → now < t
    → transaction_due tx now ≡ false
unfolding transaction_next_recovery_millis transaction_due
not_due_before_next_recovery tx now t c h l = elim (Bool-cases (transaction_due tx now)) [
  | inl due ↦ absurd (
      ground (
        arith,
        delivery_due tx now,
        earliest_retry-le now (first_delivery tx) (filterb is_unsettled tx.branches) t,
      ))
  | inr not_due ↦ not_due
]
