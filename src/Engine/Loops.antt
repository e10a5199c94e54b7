-- ===== src/Engine/Loops.antt =====
-- The rule for the loops over the branches: what each body does to the world, the loop does.
use roze_dtm.Common.{Bool, true, false, if◌then◌else◌, List, [], ◌∷◌, Option, none, some}
use roze_dtm.Data.{Branch, Error, Result, ok, err}
use roze_dtm.Memory.Barriers.{BranchBarrier, BarrierDecision, barrier}
use roze_dtm.Engine.{
  World, Env, Exec, lift, access, seen, claim, ◌>>=◌, Stop, prepended, after_branch, for_branches,
}

-- How a run ended, without what it computed.
unfoldable pub stop_of : {A : Type 0} → Result (A × Option Stop) → Result (Option Stop)
stop_of (err e) = err e
stop_of (ok (a, stop)) = ok stop

module _ (P : World → Result (Option Stop) → World → Type 0) where
  abbrev pub Obeys : {A : Type 0} → Exec (A × Option Stop) → Type 0
  Obeys m = (w : World) → P w (stop_of (m w).0) (m w).1

  module _ (nil : (w : World) → P w (ok none) w)
      (step : (w w1 w2 : World) (r : Result (Option Stop))
        → P w (ok none) w1
        → P w1 r w2
        → P w r w2) where
    prepend-obeys :
        (w w1 : World) (b : Branch) (run : Result (List Branch × Option Stop) × World)
        → P w (ok none) w1
        → P w1 (stop_of run.0) run.1
        → P w (stop_of (((λ _. run) >>= prepended b) w1).0) (((λ _. run) >>= prepended b) w1).1
    unfolding stop_of
    prepend-obeys w w1 b (err e, w2) first more = step w w1 w2 (err e) first more
    prepend-obeys w w1 b (ok (bs, stop), w2) first more = step w w1 w2 (ok stop) first more

    after_branch-obeys :
        (bs : List Branch) (rest : Exec (List Branch × Option Stop))
        → Obeys rest
        → (w : World) (run : Result (Branch × Option Stop) × World) → P w (stop_of run.0) run.1
        → P w
            (stop_of (((λ _. run) >>= after_branch bs rest) w).0)
            (((λ _. run) >>= after_branch bs rest) w).1
    unfolding stop_of after_branch
    after_branch-obeys bs rest obeys w (err e, w1) first = first
    after_branch-obeys bs rest obeys w (ok (b, some reason), w1) first = first
    after_branch-obeys bs rest obeys w (ok (b, none), w1) first =
        prepend-obeys w w1 b (rest w1) first (obeys w1)

    pub for_branches-Obeys :
        (body : Branch → Exec (Branch × Option Stop))
        → ((b : Branch) → Obeys (body b))
        → (bs : List Branch) → Obeys (for_branches body bs)
    unfolding stop_of for_branches
    for_branches-Obeys body obeys [] w = nil w
    for_branches-Obeys body obeys (b ∷ bs) w =
        after_branch-obeys bs (for_branches body bs) (for_branches-Obeys body obeys bs) w (body b w)
          (obeys b w)

    -- An action that claims a barrier first, for each decision.
    pub claim-Obeys :
        {A : Type 0} (env : Env) (b : BranchBarrier) (k : BarrierDecision → Exec (A × Option Stop))
        → ((w : World) → P w (ok none) (claim env b w).1)
        → ((d : BarrierDecision) → Obeys (k d))
        → Obeys (claim env b >>= k)
    unfolding claim access stop_of
    claim-Obeys env b k quiet obeys w =
        step w (claim env b w).1 _ _ (quiet w)
          (obeys (barrier b (seen env w).barriers).0 (claim env b w).1)

pub lift-Obeys :
    (P : World → Result (Option Stop) → World → Type 0) {A B : Type 0} (r : Result A)
    (k : A → Exec (B × Option Stop))
    → ((w : World) (e : Error) → P w (err e) w)
    → ((a : A) → Obeys P (k a))
    → Obeys P (lift r >>= k)
unfolding stop_of
lift-Obeys P (ok a) k fails obeys w = obeys a w
lift-Obeys P (err e) k fails obeys w = fails w e

pub if-Obeys :
    (P : World → Result (Option Stop) → World → Type 0) {A : Type 0} (c : Bool)
    (m n : Exec (A × Option Stop))
    → Obeys P m
    → Obeys P n
    → Obeys P (if c then m else n)
if-Obeys P true m n m_obeys n_obeys = m_obeys
if-Obeys P false m n m_obeys n_obeys = n_obeys
