-- ===== src/Memory/Barriers/Claims.antt =====
-- The set laws of the barrier keys, and what a decision says of the claims before and after it.
use roze_dtm.Common.{
  ◌≡◌, ◌≢◌, ◌⊎◌, ◌↔◌, String, Bool, true, false, [], ◌∷◌, arith, ◌==◌, ==_iff, string_ord,
  if◌then◌else◌, ◌||◌, ◌&&◌,
}
use roze_dtm.Memory.Barriers.{
  BranchBarrier, BarrierDecision, BarrierSet, same_barrier, contains, insert_barrier,
  release_barrier, barrier, drop_barriers_of,
}

pub same_barrier_iff : (a b : BranchBarrier) → (same_barrier a b ≡ true) ↔ (a ≡ b)
unfolding same_barrier
same_barrier_iff a b =
    ground (arith, ==_iff a.gid b.gid, ==_iff a.branch_id b.branch_id, ==_iff a.op b.op)

pub contains-insert :
    (a b : BranchBarrier) (s : BarrierSet)
    → contains b (insert_barrier a s) ≡ (if same_barrier a b then true else contains b s)
unfolding contains insert_barrier
contains-insert a b s = ground (arith, same_barrier_iff a b)

pub contains-release :
    (a b : BranchBarrier) (s : BarrierSet)
    → contains b (release_barrier a s) ≡ (if same_barrier a b then false else contains b s)
unfolding contains release_barrier
contains-release a b [] = ground arith
contains-release a b (c ∷ s) = ground (
  arith,
  contains-release a b s,
  same_barrier_iff c a,
  same_barrier_iff c b,
  same_barrier_iff a b,
)

pub contains-drop :
    (gid : String) (b : BranchBarrier) (s : BarrierSet)
    → contains b (drop_barriers_of gid s) ≡ (if b.gid == gid then false else contains b s)
unfolding contains drop_barriers_of
contains-drop gid b [] = ground arith
contains-drop gid b (c ∷ s) =
    ground (arith, contains-drop gid b s, same_barrier_iff c b, ==_iff c.gid gid, ==_iff b.gid gid)

-- The decisions that leave the claimed key on record: all but the skip of a cancelled Try.
abbrev pub is_recorded : BarrierDecision → Bool
is_recorded BarrierDecision.skip_cancelled_try = false
is_recorded _ = true

-- The keys of a branch's Try and Cancel.
abbrev pub try_of : BranchBarrier → BranchBarrier
try_of b = record b { op = "try" }

abbrev pub cancel_of : BranchBarrier → BranchBarrier
cancel_of b = record b { op = "cancel" }

pub try≢cancel : (b c : BranchBarrier) → same_barrier (try_of b) (cancel_of c) ≡ false
unfolding same_barrier
try≢cancel b c = ground arith

-- A claim is executed exactly when its key is free, a Try has not been cancelled, and a Cancel has
-- its Try on record.
pub barrier-execute_iff :
    (b : BranchBarrier) (s : BarrierSet)
    → ((barrier b s).0 ≡ BarrierDecision.execute) ↔ (
        (contains b s ≡ false)
        × ((b.op ≢ "try") ⊎ (contains (cancel_of b) s ≡ false))
        × ((b.op ≢ "cancel") ⊎ (contains (try_of b) s ≡ true)))
unfolding barrier
barrier-execute_iff b s = ground (arith, ==_iff b.op "try", ==_iff b.op "cancel")

-- Whatever is decided, the keys claimed before stay claimed, and no key but the claimed one and
-- the Cancel of its branch is added.
pub barrier-contains :
    (b c : BranchBarrier) (s : BarrierSet)
    → contains c (barrier b s).1
      ≡ (contains c s || (same_barrier b c && is_recorded (barrier b s).0))
unfolding barrier
barrier-contains b c s = ground (
  arith,
  same_barrier_iff b c,
  contains-insert b c s,
  contains-insert (cancel_of b) c s,
  ==_iff b.op "cancel",
)
