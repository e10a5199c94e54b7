-- ===== src/Memory/Leases.antt =====
-- `try_acquire_recovery_lease` and `acquire_recovery_lease` of the in-memory store, at the time
-- `now` that the call reads just before it takes the lock of the leases.
pub mod Exclusion
use roze_dtm.Common.{
  ℕ, ◌+◌, String, Bool, true, false, Option, none, some, not, ◌==◌, ◌&&◌, string_ord, ltb,
  saturating_add, if◌then◌else◌,
}
use roze_dtm.Map.{Map, lookup, insert}

pub record RecoveryLease : Type 0 where
  pub owner : String
  pub expires_at_millis : ℕ

pub record RecoveryLeaseFence : Type 0 where
  pub name : String
  pub owner : String
  pub epoch : ℕ

abbrev pub Leases : Type 0
Leases = Map String RecoveryLease

abbrev pub held_by_other : String → ℕ → Option RecoveryLease → Bool
held_by_other owner now none = false
held_by_other owner now (some l) = not (l.owner == owner) && ltb now l.expires_at_millis

unfoldable pub try_acquire_recovery_lease :
    (now : ℕ) (name owner : String) (ttl_millis : ℕ) → Leases → Bool × Leases
try_acquire_recovery_lease now name owner ttl_millis leases =
    if held_by_other owner now (lookup name leases) then (false, leases) else (
      true,
      insert name (record { owner = owner; expires_at_millis = saturating_add now ttl_millis })
          leases,
    )

-- `acquire_recovery_lease`, the trait's default method: the epoch of every fence is 1.
unfoldable pub acquire_recovery_lease :
    (now : ℕ) (name owner : String) (ttl_millis : ℕ) → Leases → Option RecoveryLeaseFence × Leases
unfolding try_acquire_recovery_lease
acquire_recovery_lease now name owner ttl_millis leases =
    let (acquired, leases') = try_acquire_recovery_lease now name owner ttl_millis leases in
    (if acquired then some (record { name = name; owner = owner; epoch = 1 }) else none, leases')
