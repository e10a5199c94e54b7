-- ===== src/Memory/Barriers/Histories.antt =====
-- Claims and releases of barriers in any order, as several workers make them: each call holds the
-- lock of the set, so an interleaving is a list of calls.
use roze_dtm.Common.{
  ℕ, ◌+◌, ◌≤◌, ◌≡◌, refl, Bool, true, false, List, [], ◌∷◌, ◌&&◌, arith, string_ord, if◌then◌else◌,
}
use roze_dtm.Memory.Barriers.{
  BranchBarrier, BarrierDecision, BarrierSet, same_barrier, contains, release_barrier, barrier,
}
use roze_dtm.Memory.Barriers.Claims.{
  same_barrier_iff, contains-release, barrier-contains, barrier-execute_iff, try_of, cancel_of,
}

pub data BarrierCall : Type 0 where
  claim : BranchBarrier → BarrierCall
  release : BranchBarrier → BarrierCall

unfoldable pub call_barriers : BarrierSet → BarrierCall → BarrierSet
call_barriers s (claim b) = (barrier b s).1
call_barriers s (release b) = release_barrier b s

unfoldable pub run_barriers : BarrierSet → List BarrierCall → BarrierSet
run_barriers s [] = s
run_barriers s (c ∷ cs) = run_barriers (call_barriers s c) cs

abbrev is_execute : BarrierDecision → Bool
is_execute BarrierDecision.execute = true
is_execute _ = false

abbrev count_if : Bool → ℕ → ℕ
count_if b n = if b then n + 1 else n

-- Does the call decide to execute the operation of key `b`, and does it release `b`?
abbrev executes : BranchBarrier → BarrierSet → BarrierCall → Bool
executes b s (claim c) = same_barrier c b && is_execute (barrier c s).0
executes b s (release c) = false

abbrev releases : BranchBarrier → BarrierCall → Bool
releases b (claim c) = false
releases b (release c) = same_barrier c b

-- How often a history executes, and releases, the key.
unfoldable pub executions : BranchBarrier → BarrierSet → List BarrierCall → ℕ
executions b s [] = 0
executions b s (c ∷ cs) = count_if (executes b s c) (executions b (call_barriers s c) cs)

unfoldable pub release_count : BranchBarrier → List BarrierCall → ℕ
release_count b [] = 0
release_count b (c ∷ cs) = count_if (releases b c) (release_count b cs)

abbrev pub taken : Bool → ℕ
taken true = 1
taken false = 0

execution_step :
    (b : BranchBarrier) (s : BarrierSet) (c : BarrierCall)
    → count_if (executes b s c) 0 + taken (contains b s)
      ≤ count_if (releases b c) 0 + taken (contains b (call_barriers s c))
unfolding call_barriers
execution_step b s (claim c) =
    ground (arith, barrier-contains c b s, barrier-execute_iff c s, same_barrier_iff c b)
execution_step b s (release c) = ground (arith, contains-release c b s)

-- In any interleaving of claims and releases an operation is executed at most once more than it is
-- released, and only as often as released if its key was claimed at the start.
pub executions-le-releases :
    (b : BranchBarrier) (s : BarrierSet) (cs : List BarrierCall)
    → executions b s cs + taken (contains b s) ≤ release_count b cs + 1
unfolding executions release_count
executions-le-releases b s [] = ground arith
executions-le-releases b s (c ∷ cs) =
    ground (arith, execution_step b s c, executions-le-releases b (call_barriers s c) cs)

claimed_step :
    (b : BranchBarrier) (s : BarrierSet) (c : BarrierCall)
    → contains b s ≡ true
    → releases b c ≡ false
    → contains b (call_barriers s c) ≡ true
unfolding call_barriers
claimed_step b s (claim c) h n = ground (arith, barrier-contains c b s)
claimed_step b s (release c) h n = ground (arith, contains-release c b s)

cancelled_step :
    (b : BranchBarrier) (s : BarrierSet) (c : BarrierCall)
    → contains (cancel_of b) s ≡ true
    → executes (try_of b) s c ≡ false
cancelled_step b s (claim c) h =
    ground (arith, barrier-execute_iff c s, same_barrier_iff c (try_of b))
cancelled_step b s (release c) h = refl

-- Once the Cancel of a branch is on record, executed or as a null compensation, no interleaving
-- that does not release it executes the branch's Try: a late Try never hangs.
pub no_try_after_cancel :
    (b : BranchBarrier) (s : BarrierSet) (cs : List BarrierCall)
    → contains (cancel_of b) s ≡ true
    → release_count (cancel_of b) cs ≡ 0
    → executions (try_of b) s cs ≡ 0
unfolding executions release_count
no_try_after_cancel b s [] h n = refl
no_try_after_cancel b s (c ∷ cs) h n = ground (
  arith,
  cancelled_step b s c,
  claimed_step (cancel_of b) s c,
  no_try_after_cancel b (call_barriers s c) cs,
)

-- A claim of a Cancel, where neither the Cancel nor the Try of its branch is on record, is answered
-- SkipNullCompensation. No interleaving of claims and releases after it that does not release the Cancel
-- executes the Try.
pub null_compensation :
    (b : BranchBarrier) (s : BarrierSet) (cs : List BarrierCall)
    → contains (cancel_of b) s ≡ false
    → contains (try_of b) s ≡ false
    → release_count (cancel_of b) cs ≡ 0
    → ((barrier (cancel_of b) s).0 ≡ BarrierDecision.skip_null_compensation)
      × (executions (try_of b) (barrier (cancel_of b) s).1 cs ≡ 0)
unfolding barrier
null_compensation b s cs c t n = (ground arith, no_try_after_cancel b _ cs on_record n)
  where
    on_record : contains (cancel_of b) (barrier (cancel_of b) s).1 ≡ true
    on_record = ground (
      arith,
      barrier-contains (cancel_of b) (cancel_of b) s,
      same_barrier_iff (cancel_of b) (cancel_of b),
    )
