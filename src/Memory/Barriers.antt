-- ===== src/Memory/Barriers.antt =====
-- `barrier` and `release_barrier` of the in-memory store: the set of claimed (gid, branch, op) keys
-- and the decision on a new claim. The set's iteration order is never observed.
pub mod Claims
pub mod Histories
use roze_dtm.Common.{
  String, Bool, Option, List, [], ◌∷◌, ◌&&◌, any, filterb, not, ◌==◌, string_ord, if◌then◌else◌,
}

pub record BranchBarrier : Type 0 where
  pub gid : String
  pub branch_id : String
  pub op : String

pub data BarrierDecision : Type 0 where
  execute skip_duplicate skip_null_compensation skip_cancelled_try : BarrierDecision

-- The order of the set's keys is that of (gid, branch_id, op); only its equality is used.
unfoldable pub same_barrier : BranchBarrier → BranchBarrier → Bool
same_barrier a b = a.gid == b.gid && a.branch_id == b.branch_id && a.op == b.op

abbrev pub BarrierSet : Type 0
BarrierSet = List BranchBarrier

unfoldable pub contains : BranchBarrier → BarrierSet → Bool
contains b = any (λ c. same_barrier c b)

unfoldable pub insert_barrier : BranchBarrier → BarrierSet → BarrierSet
insert_barrier b s = if contains b s then s else b ∷ s

-- `release_barrier`
unfoldable pub release_barrier : BranchBarrier → BarrierSet → BarrierSet
release_barrier b = filterb (λ c. not (same_barrier c b))

-- `retain(|(gid, _, _)| gid != transaction.gid)`, when a transaction is deleted.
unfoldable pub drop_barriers_of : String → BarrierSet → BarrierSet
drop_barriers_of gid = filterb (λ c. not (c.gid == gid))

-- `barrier`
unfoldable pub barrier : BranchBarrier → BarrierSet → BarrierDecision × BarrierSet
barrier b s =
    let cancel_key = record b { op = "cancel" } in
    let try_key = record b { op = "try" } in
    if contains b s
    then (BarrierDecision.skip_duplicate, s)
    else if b.op == "try" && contains cancel_key s
    then (BarrierDecision.skip_cancelled_try, s)
    else if b.op == "cancel" && not (contains try_key s)
    then (BarrierDecision.skip_null_compensation, insert_barrier cancel_key s)
    else (BarrierDecision.execute, insert_barrier b s)
