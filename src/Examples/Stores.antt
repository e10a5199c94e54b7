-- ===== src/Examples/Stores.antt =====
-- The in-memory store of src/lib.rs on concrete barriers, leases and entries.
use roze_dtm.Common.{
  ◌+◌, ◌≤◌, ◌≡◌, ◌≢◌, ◌↔◌, refl, arith, true, false, some, List, [], ◌∷◌, ◌⊎◌, string_ord, pair_ord,
  saturating_add,
}
use roze_dtm.Map.{lookup}
use roze_dtm.Memory.Barriers.{BranchBarrier, BarrierDecision, contains, same_barrier, barrier}
use roze_dtm.Memory.Barriers.Claims.{barrier-execute_iff}
use roze_dtm.Memory.Barriers.Histories.{
  BarrierCall, claim, release, executions, release_count, taken, executions-le-releases,
  no_try_after_cancel, null_compensation,
}
use roze_dtm.Memory.Leases.{RecoveryLease, Leases}
use roze_dtm.Memory.Leases.Exclusion.{
  Attempt, Holds, HeldByOther, attempt, run_attempts, all_refused, attempt-granted_iff,
  attempt-Holds, lease_exclusive,
}
use roze_dtm.Memory.Entries.{KvEntry, Entries}
use roze_dtm.Memory.Entries.Versions.{create, update, run_kv, successes, version_counts_successes}

abbrev try_key : BranchBarrier
try_key = record { gid = "g"; branch_id = "b"; op = "try" }

abbrev cancel_key : BranchBarrier
cancel_key = record { gid = "g"; branch_id = "b"; op = "cancel" }

-- Two workers try, the first one fails and releases, and a third one cancels.
abbrev calls : List BarrierCall
calls = claim try_key ∷ claim try_key ∷ release try_key ∷ claim try_key ∷ claim cancel_key ∷ []

barrier-execute_iff_example : ((barrier cancel_key (try_key ∷ [])).0 ≡ BarrierDecision.execute) ↔ (
    (contains cancel_key (try_key ∷ []) ≡ false)
    × ((cancel_key.op ≢ "try") ⊎ (contains cancel_key (try_key ∷ []) ≡ false))
    × ((cancel_key.op ≢ "cancel") ⊎ (contains try_key (try_key ∷ []) ≡ true)))
barrier-execute_iff_example = barrier-execute_iff cancel_key (try_key ∷ [])

executions-le-releases_example :
    executions try_key [] calls + taken (contains try_key []) ≤ release_count try_key calls + 1
executions-le-releases_example = executions-le-releases try_key [] calls

no_try_after_cancel_example :
    executions try_key (cancel_key ∷ []) (claim try_key ∷ claim cancel_key ∷ claim try_key ∷ []) ≡ 0
unfolding contains release_count same_barrier
no_try_after_cancel_example =
    no_try_after_cancel cancel_key (cancel_key ∷ [])
      (claim try_key ∷ claim cancel_key ∷ claim try_key ∷ []) refl refl

null_compensation_example :
    ((barrier cancel_key []).0 ≡ BarrierDecision.skip_null_compensation)
    × (executions try_key (barrier cancel_key []).1 (claim try_key ∷ []) ≡ 0)
unfolding contains release_count
null_compensation_example = null_compensation cancel_key [] (claim try_key ∷ []) refl refl refl

abbrev lease : RecoveryLease
lease = record { owner = "one"; expires_at_millis = 100 }

abbrev leases : Leases
leases = ("recovery", lease) ∷ []

abbrev second : Attempt
second = record { at = 50; name = "recovery"; owner = "two"; ttl_millis = 30 }

abbrev elsewhere : Attempt
elsewhere = record { at = 60; name = "retention"; owner = "two"; ttl_millis = 30 }

attempt-granted_iff_example :
    ((attempt leases elsewhere).0 ≡ true) ↔ (¬ HeldByOther leases elsewhere)
attempt-granted_iff_example = attempt-granted_iff leases elsewhere

attempt-Holds_example : Holds "retention" "two" 80 (attempt leases elsewhere).1
unfolding attempt lookup
attempt-Holds_example = attempt-Holds leases elsewhere 80 refl (ground arith)

lease_exclusive_example :
    (lookup "recovery" (run_attempts leases (second ∷ elsewhere ∷ second ∷ [])) ≡ some lease)
    × (all_refused "recovery" leases (second ∷ elsewhere ∷ second ∷ []) ≡ true)
unfolding lookup
lease_exclusive_example =
    lease_exclusive lease "recovery" leases (second ∷ elsewhere ∷ second ∷ []) refl refl

abbrev entry : KvEntry
entry = record {
  category = "topics";
  key = "orders";
  value = "[]";
  version = 7;
  created_at_millis = 0;
  updated_at_millis = 0;
}

abbrev next : KvEntry
next = record entry { version = 8 }

abbrev entries : Entries
entries = (("topics", "orders"), entry) ∷ []

-- Two workers update the same version, and one of them loses.
version_counts_successes_example :
    (e' : KvEntry) × (lookup
        ("topics", "orders")
        (run_kv entries (update next 7 ∷ update next 7 ∷ create entry ∷ []))
      ≡ some e')
    × (e'.version
        ≡ saturating_add 7 (
            successes
              ("topics", "orders")
              entries
              (update next 7 ∷ update next 7 ∷ create entry ∷ [])))
unfolding lookup
version_counts_successes_example =
    version_counts_successes ("topics", "orders") entries
      (update next 7 ∷ update next 7 ∷ create entry ∷ []) entry refl (ground arith)
