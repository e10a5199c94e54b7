-- ===== src/Limits.antt =====
-- `TransactionOptions::validate` and `RetentionPolicy::validate` of src/lib.rs.
use Prim.Native.String.{len}
use roze_dtm.Common.{ℕ, String, Bool, ◌&&◌, not, leb, ltb, all, length, is_none_or, Option}
use roze_dtm.Data.{
  TransactionOptions, RetentionPolicy, Result, Checked, ok, ensure, ◌>>◌, invalid_delay,
  invalid_interval, invalid_timeout, invalid_retry_limit, invalid_headers, invalid_retention,
}
use roze_dtm.External.{External}
use roze_dtm.Workflow.{is_empty}

-- `(1..=max).contains(&value)` where a value is given.
abbrev pub in_range : ℕ → Option ℕ → Bool
in_range max = is_none_or (λ v. leb 1 v && leb v max)

abbrev pub is_header : External → String × String → Bool
is_header ext (name, value) =
    not (is_empty name)
    && leb (len name) 64
    && leb (len value) 1024
    && ext.is_header_name name
    && ext.is_header_value value

unfoldable pub validate_options : External → TransactionOptions → Checked
validate_options ext options = do
  ensure (in_range 31536000000 options.delay_millis) invalid_delay
  ensure (in_range 86400000 options.retry_interval_millis) invalid_interval
  ensure (in_range 86400000 options.request_timeout_millis) invalid_timeout
  ensure (is_none_or (λ v. leb v 10000) options.retry_limit) invalid_retry_limit
  ensure (leb (length options.branch_headers) 32 && all (is_header ext) options.branch_headers)
      invalid_headers

unfoldable pub validate_policy : RetentionPolicy → Result RetentionPolicy
validate_policy policy = do
  ensure (ltb 0 policy.data_expire_millis) invalid_retention
  ensure (ltb 0 policy.finished_data_expire_millis) invalid_retention
  ensure (leb policy.finished_data_expire_millis policy.data_expire_millis) invalid_retention
  ensure (leb 1 policy.batch_size && leb policy.batch_size 10000) invalid_retention
  ok policy
