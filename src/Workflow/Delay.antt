-- ===== src/Workflow/Delay.antt =====
-- The schedule of callback retries.
use roze_dtm.Common.{
  ℕ, ◌+◌, ◌-◌, ◌≤◌, ◌≡◌, String, some, arith, string_ord, saturating_add, u64_max, u32_max, min,
  leb, le-mul-pow,
}
use roze_dtm.Map.{Map, lookup, lookup-insert}
use roze_dtm.Decimal.{to_string, parse-to_string}
use roze_dtm.Data.{Transaction, WorkflowRecoveryDelay, ok}
use roze_dtm.Workflow.{
  defer_workflow_recovery, retry_after, callback_workflow_due, callback_attempts, validate_delay,
  number_at, deferral, next_retry_key, attempts_key,
}

module _ (d : WorkflowRecoveryDelay) (attempts : ℕ) (metadata : Map String String) where
  lookup_next_retry-deferral :
      lookup next_retry_key (deferral d attempts metadata)
      ≡ some (to_string (saturating_add d.attempted_at_millis (retry_after d attempts)))
  unfolding deferral
  lookup_next_retry-deferral = simp lookup-insert

  lookup_attempts-deferral :
      lookup attempts_key (deferral d attempts metadata) ≡ some (to_string attempts)
  unfolding deferral
  lookup_attempts-deferral = simp lookup-insert

  next_retry-deferral :
      number_at u64_max next_retry_key (deferral d attempts metadata)
      ≡ some (saturating_add d.attempted_at_millis (retry_after d attempts))
  unfolding number_at
  next_retry-deferral =
      rw (lookup_next_retry-deferral, number_at) (parse-to_string u64_max _ (omega arith))

  attempts-deferral :
      attempts ≤ u32_max
      → number_at u32_max attempts_key (deferral d attempts metadata) ≡ some attempts
  unfolding number_at
  attempts-deferral h =
      rw (lookup_attempts-deferral, number_at) (parse-to_string u32_max attempts h)

module _ (now : ℕ) (tx : Transaction) (d : WorkflowRecoveryDelay) where
  -- A deferred callback is due again exactly from the time of the attempt plus the delay on: the
  -- time survives its way through the text of the metadata.
  pub defer_workflow_recovery-due :
      (tx' : Transaction)
      → defer_workflow_recovery now tx d ≡ ok tx'
      → (t : ℕ)
      → callback_workflow_due tx' t
        ≡ leb (saturating_add d.attempted_at_millis (retry_after d (callback_attempts tx))) t
  unfolding defer_workflow_recovery callback_workflow_due
  defer_workflow_recovery-due tx' h t =
      ground (arith, next_retry-deferral d (callback_attempts tx) tx.metadata)

  -- The delay of a valid request lies between one interval and the largest one.
  pub retry_after_bounds :
      (attempts : ℕ)
      → validate_delay d ≡ ok tt
      → (d.retry_interval_millis ≤ retry_after d attempts)
        × (retry_after d attempts ≤ d.max_retry_interval_millis)
  unfolding retry_after validate_delay
  retry_after_bounds attempts h =
      ground (arith, le-mul-pow d.retry_interval_millis (min (attempts - 1) 16))

  -- Each deferral counts one more attempt, up to the range of u32.
  pub callback_attempts-defer :
      (tx' : Transaction)
      → defer_workflow_recovery now tx d ≡ ok tx'
      → callback_attempts tx' ≡ min (callback_attempts tx + 1) u32_max
  unfolding defer_workflow_recovery callback_attempts
  callback_attempts-defer tx' h =
      ground (arith, attempts-deferral d (callback_attempts tx) tx.metadata)
