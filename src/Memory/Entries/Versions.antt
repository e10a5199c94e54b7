-- ===== src/Memory/Entries/Versions.antt =====
-- Optimistic concurrency on key-value entries.
use roze_dtm.Common.{
  ℕ, ◌+◌, ◌≤◌, ◌≡◌, ◌↔◌, String, Bool, true, some, List, [], ◌∷◌, arith, ◌==◌, ==_iff, string_ord,
  pair_ord, saturating_add, u64_max, if◌then◌else◌, ◌&&◌, inl, inr, Bool-cases,
}
use roze_dtm.Map.{lookup, lookup-insert}
use roze_dtm.Memory.Entries.{KvEntry, Entries, key_of, create_kv, update_kv}

-- An update succeeds exactly when the stored version is the expected one and the new entry
-- carries the next version.
update_kv-succeeds_iff :
    (entry : KvEntry) (expected : ℕ) (kv : Entries)
    → ((update_kv entry expected kv).0 ≡ true) ↔ (
        (existing : KvEntry) × (lookup (key_of entry) kv ≡ some existing)
        × (existing.version ≡ expected)
        × (entry.version ≡ saturating_add expected 1))
unfolding update_kv
update_kv-succeeds_iff entry expected kv = (λ h. ground arith, λ (e, found, old, new). ground arith)

-- The calls on entries that keep them: several workers may interleave them in any order.
pub data KvCall : Type 0 where
  create : KvEntry → KvCall
  update : KvEntry → ℕ → KvCall

unfoldable pub call_kv : Entries → KvCall → Bool × Entries
unfolding create_kv update_kv
call_kv kv (create entry) = create_kv entry kv
call_kv kv (update entry expected) = update_kv entry expected kv

abbrev pub names : String × String → KvCall → Bool
names k (create entry) = key_of entry == k
names k (update entry _) = key_of entry == k

unfoldable pub run_kv : Entries → List KvCall → Entries
run_kv kv [] = kv
run_kv kv (c ∷ cs) = run_kv (call_kv kv c).1 cs

-- How many calls of the run succeed on the key.
unfoldable pub successes : String × String → Entries → List KvCall → ℕ
successes k kv [] = 0
successes k kv (c ∷ cs) =
    let rest = successes k (call_kv kv c).1 cs in
    if names k c && (call_kv kv c).0 then rest + 1 else rest

version_step :
    (k : String × String) (kv : Entries) (c : KvCall) (e : KvEntry)
    → lookup k kv ≡ some e
    → (e' : KvEntry) × (lookup k (call_kv kv c).1 ≡ some e')
      × (e'.version
          ≡ (if names k c && (call_kv kv c).0 then saturating_add e.version 1 else e.version))
unfolding call_kv
version_step k kv (create entry) e h = (
  e,
  ground (arith, ==_iff (key_of entry) k, lookup-insert (key_of entry) k entry kv),
  ground (arith, ==_iff (key_of entry) k),
)
version_step k kv (update entry expected) e h =
    let same = ==_iff (key_of entry) k in
    let stored = lookup-insert (key_of entry) k entry kv in
    elim (Bool-cases ((key_of entry == k) && (update_kv entry expected kv).0)) [
      | inl wins ↦ (entry, ground (arith, same, stored), ground (arith, same, stored))
      | inr loses ↦ (e, ground (arith, same, stored), ground (arith, same, stored))
    ]

-- No update is lost: from an entry at version v, after any interleaving of creates and updates the
-- entry is there and its version is v plus the number of calls that succeeded on it, up to the
-- saturation of u64.
pub version_counts_successes :
    (k : String × String) (kv : Entries) (cs : List KvCall) (e : KvEntry)
    → lookup k kv ≡ some e
    → e.version ≤ u64_max
    → (e' : KvEntry) × (lookup k (run_kv kv cs) ≡ some e')
      × (e'.version ≡ saturating_add e.version (successes k kv cs))
unfolding run_kv successes
version_counts_successes k kv [] e h b = (e, h, omega arith)
version_counts_successes k kv (c ∷ cs) e h b =
    let step = version_step k kv c e h in
    let rest =
      version_counts_successes k (call_kv kv c).1 cs step.0 step.1 (ground (arith, step.2)) in
    (rest.0, rest.1, ground (arith, step.2, rest.2))
