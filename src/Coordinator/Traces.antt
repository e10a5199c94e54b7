-- ===== src/Coordinator/Traces.antt =====
-- The branch calls that the methods make: what a loop over the branches appends to the calls, and why it
-- stops.
use mathlib.Core.List.{append-nil, append_assoc}
use roze_dtm.Common.{
  ◌≡◌, sym, refl, arith, List, [], ◌∷◌, ◌++◌, String, Bool, true, false, Option, none, some, ◌&&◌,
  not, all, if◌then◌else◌,
}
use roze_dtm.Data.{
  TransactionStatus, BranchStatus, Branch, TransactionOptions, Result, ok, err, Error,
}
use roze_dtm.Memory.Barriers.{BranchBarrier}
use roze_dtm.Engine.{
  Call, World, Env, Exec, Stop, for_branches, invoke, invoke_branch, current_millis, release,
  access, claim, notify_branch_failure,
}
use roze_dtm.Engine.Loops.{stop_of, Obeys, for_branches-Obeys}
use roze_dtm.Coordinator.Tcc.{deliver, try_branch, confirm_branch, cancel_branch}
use roze_dtm.Coordinator.Bodies.{
  try_branch-Obeys, confirm_branch-Obeys, cancel_branch-Obeys, commit_branch-Obeys,
  rollback_branch-Obeys,
}
use roze_dtm.Coordinator.Xa.{commit_branch, rollback_branch}

unfoldable pub all_succeed : List Call → Bool
all_succeed = all (λ c. c.success)

-- Every call succeeds but the last, which fails.
unfoldable pub ends_in_failure : List Call → Bool
ends_in_failure [] = false
ends_in_failure (c ∷ cs) =
    let rest = ends_in_failure cs in elim cs [ [] ↦ not c.success | _ ∷ _ ↦ c.success && rest ]

pub all_succeed-++ :
    (xs ys : List Call) → all_succeed (xs ++ ys) ≡ (all_succeed xs && all_succeed ys)
unfolding all_succeed
all_succeed-++ [] ys = refl
all_succeed-++ (x ∷ xs) ys = ground (arith, all_succeed-++ xs ys)

pub ends_in_failure-++ :
    (xs ys : List Call)
    → all_succeed xs ≡ true
    → ends_in_failure ys ≡ true
    → ends_in_failure (xs ++ ys) ≡ true
unfolding all_succeed ends_in_failure
ends_in_failure-++ [] ys all_ok failed = failed
ends_in_failure-++ (x ∷ []) [] all_ok failed = ground arith
ends_in_failure-++ (x ∷ []) (y ∷ ys) all_ok failed = ground arith
ends_in_failure-++ (x ∷ z ∷ xs) ys all_ok failed = ground (arith, ends_in_failure-++ (z ∷ xs) ys)

-- The reasons to stop that a failed call gives, in a loop that may also stop at a cancelled try.
unfoldable pub by_call : Stop → Bool
by_call Stop.cancelled_try = false
by_call _ = true

-- Every reason to stop, in a loop that stops at failed calls alone.
unfoldable pub always : Stop → Bool
always s = true

-- The calls of a loop fit its end: a failed call ends the loop, and no other call fails.
unfoldable pub fits : (Stop → Bool) → Result (Option Stop) → List Call → Bool
fits called (ok (some s)) cs = if called s then ends_in_failure cs else all_succeed cs
fits called (ok none) cs = all_succeed cs
fits called (err e) cs = all_succeed cs

-- A run appends calls that fit its result.
unfoldable pub Traced : (Stop → Bool) → World → Result (Option Stop) → World → Type 0
Traced called w r w' = (new : List Call) × (w'.calls ≡ w.calls ++ new) × (fits called r new ≡ true)

Traced-nil : (called : Stop → Bool) (w : World) → Traced called w (ok none) w
unfolding Traced fits all_succeed
Traced-nil called w = ([], sym (append-nil w.calls), refl)

fits-++ :
    (called : Stop → Bool) (r : Result (Option Stop)) (xs ys : List Call)
    → all_succeed xs ≡ true
    → fits called r ys ≡ true
    → fits called r (xs ++ ys) ≡ true
unfolding fits
fits-++ called r xs ys all_ok fit = ground (arith, all_succeed-++ xs ys, ends_in_failure-++ xs ys)

Traced-step :
    (called : Stop → Bool) (w w1 w2 : World) (r : Result (Option Stop))
    → Traced called w (ok none) w1
    → Traced called w1 r w2
    → Traced called w r w2
unfolding Traced fits
Traced-step called w w1 w2 r (new, calls, fit) (more, calls', fit') =
    (new ++ more, ground (arith, append_assoc w.calls new more), fits-++ called r new more fit fit')

pub for_branches-Traced :
    (called : Stop → Bool) (body : Branch → Exec (Branch × Option Stop))
    → ((b : Branch) → Obeys (Traced called) (body b))
    → (bs : List Branch) → Obeys (Traced called) (for_branches body bs)
for_branches-Traced called =
    for_branches-Obeys (Traced called) (Traced-nil called) (Traced-step called)

module _ (env : Env) where
  pub deliver-Traced :
      (called : Stop → Bool)
      → called Stop.call_failed ≡ true
      → called Stop.attempts_exhausted ≡ true
      → (options : TransactionOptions) (gid : String) (status : TransactionStatus) (op : String)
        (done : BranchStatus) (b : Branch) (url : String)
      → Obeys (Traced called) (deliver env options gid status op done b url)
  unfolding deliver invoke_branch invoke current_millis notify_branch_failure release access fits
      all_succeed ends_in_failure Traced stop_of
  deliver-Traced called failed exhausted options gid status op done b url w =
      let success = env.respond w.ticks url b.payload in
      (
        record { url = url; payload = b.payload; success = success } ∷ [],
        ground arith,
        ground arith,
      )

  claim-quiet :
      (called : Stop → Bool) (b : BranchBarrier) (w : World)
      → Traced called w (ok none) (claim env b w).1
  unfolding Traced fits all_succeed claim access
  claim-quiet called b w = ([], sym (append-nil w.calls), refl)

  fails : (called : Stop → Bool) (w : World) (e : Error) → Traced called w (err e) w
  unfolding Traced fits all_succeed
  fails called w e = ([], sym (append-nil w.calls), refl)

  cancels : (w : World) → Traced by_call w (ok (some Stop.cancelled_try)) w
  unfolding Traced fits all_succeed by_call
  cancels w = ([], sym (append-nil w.calls), refl)

  pub try_branch-Traced :
      (options : TransactionOptions) (gid : String) (b : Branch)
      → Obeys (Traced by_call) (try_branch env options gid b)
  unfolding by_call
  try_branch-Traced =
      try_branch-Obeys env (Traced by_call) (Traced-nil by_call) (Traced-step by_call)
        (claim-quiet by_call) (fails by_call) (deliver-Traced by_call refl refl) cancels

  pub confirm_branch-Traced :
      (options : TransactionOptions) (gid : String) (b : Branch)
      → Obeys (Traced always) (confirm_branch env options gid b)
  unfolding always
  confirm_branch-Traced =
      confirm_branch-Obeys env (Traced always) (Traced-nil always) (Traced-step always)
        (claim-quiet always) (fails always) (deliver-Traced always refl refl)

  pub cancel_branch-Traced :
      (options : TransactionOptions) (gid : String) (b : Branch)
      → Obeys (Traced always) (cancel_branch env options gid b)
  unfolding always
  cancel_branch-Traced =
      cancel_branch-Obeys env (Traced always) (Traced-nil always) (Traced-step always)
        (claim-quiet always) (fails always) (deliver-Traced always refl refl)

  pub commit_branch-Traced :
      (options : TransactionOptions) (gid : String) (b : Branch)
      → Obeys (Traced always) (commit_branch env options gid b)
  unfolding always
  commit_branch-Traced =
      commit_branch-Obeys env (Traced always) (Traced-nil always) (Traced-step always)
        (claim-quiet always) (fails always) (deliver-Traced always refl refl)

  pub rollback_branch-Traced :
      (options : TransactionOptions) (gid : String) (b : Branch)
      → Obeys (Traced always) (rollback_branch env options gid b)
  unfolding always
  rollback_branch-Traced =
      rollback_branch-Obeys env (Traced always) (Traced-nil always) (Traced-step always)
        (claim-quiet always) (fails always) (deliver-Traced always refl refl)
