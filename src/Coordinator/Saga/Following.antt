-- ===== src/Coordinator/Saga/Following.antt =====
-- Runs of `abort_saga` in src/lib.rs against a list of calls that are due: the rules for its loop.
use mathlib.Core.List.{append-nil, append_assoc}
use roze_dtm.Common.{
  ◌≡◌, refl, sym, ap, ◌∙◌, arith, List, [], ◌∷◌, ◌++◌, map, reverse, String, Bool, true, false,
  Option, none, some, if◌then◌else◌, string_ord,
}
use roze_dtm.Data.{BranchStatus, Branch, Error, Result, ok, err, branch_in}
use roze_dtm.Engine.{Call, World, Exec, ◌>>=◌, Stop, prepended, after_branch, for_branches}
use roze_dtm.Engine.Loops.{stop_of}
use roze_dtm.Coordinator.Traces.{all_succeed, fits, all_succeed-++, ends_in_failure-++}

abbrev pub given_url : Option String → List String
given_url none = []
given_url (some url) = url ∷ []

-- The compensation that a branch is due: it succeeded, its action is out of attempts, or its compensation
-- failed before.
unfoldable pub due : Branch → List String
due b =
    if branch_in b.status (BranchStatus.succeeded ∷ BranchStatus.compensating ∷ [])
    then given_url b.compensate
    else []

-- The calls of branches in turn.
unfoldable pub all_own : (Branch → List String) → List Branch → List String
all_own own [] = []
all_own own (b ∷ bs) = own b ++ all_own own bs

-- The compensations that a saga is due, from the last branch to the first.
unfoldable pub compensations : List Branch → List String
unfolding all_own due
compensations bs = all_own due (reverse bs)

abbrev pub urls : List Call → List String
urls = map (λ c. c.url)

-- A loop that stops at a failed call, or where another worker has the barrier.
unfoldable pub failing : Stop → Bool
failing Stop.claimed_elsewhere = false
failing _ = true

-- A run that ends gives no error and leaves nothing to call, unless it stopped.
unfoldable pub finishes : Result (Option Stop) → List String → Bool
finishes (ok none) [] = true
finishes (ok none) (_ ∷ _) = false
finishes (ok (some _)) rest = true
finishes (err e) rest = false

-- A run makes the first of the calls that are due, in their order.
unfoldable pub Follows : List String → World → Result (Option Stop) → World → Type 0
Follows calls w r w' =
    (new : List Call) × (rest : List String) × (w'.calls ≡ w.calls ++ new)
    × (urls new ++ rest ≡ calls)
    × (fits failing r new ≡ true)
    × (finishes r rest ≡ true)

pub idle-Follows :
    (w w' : World) (stop : Option Stop) (calls : List String)
    → w'.calls ≡ w.calls
    → fits failing (ok stop) [] ≡ true
    → finishes (ok stop) calls ≡ true
    → Follows calls w (ok stop) w'
unfolding Follows
idle-Follows w w' stop calls same fit finish =
    ([], calls, same ∙ sym (append-nil w.calls), refl, fit, finish)

pub urls-++ : (xs ys : List Call) → urls (xs ++ ys) ≡ urls xs ++ urls ys
urls-++ [] ys = refl
urls-++ (x ∷ xs) ys = ap (λ us. x.url ∷ us) (urls-++ xs ys)

pub finished-nil : (rest : List String) → finishes (ok none) rest ≡ true → rest ≡ []
unfolding finishes
finished-nil [] e = refl
finished-nil (u ∷ us) e = absurd (ground (arith, e))

fits-after :
    (r : Result (Option Stop)) (xs ys : List Call)
    → all_succeed xs ≡ true
    → fits failing r ys ≡ true
    → fits failing r (xs ++ ys) ≡ true
unfolding fits
fits-after r xs ys all_ok fit = ground (arith, all_succeed-++ xs ys, ends_in_failure-++ xs ys)

Follows-step :
    (first then_due : List String) (w w1 w2 : World) (r : Result (Option Stop))
    → Follows first w (ok none) w1
    → Follows then_due w1 r w2
    → Follows (first ++ then_due) w r w2
unfolding Follows fits
Follows-step first then_due w w1 w2 r (new, rest, calls, order, fit, finish)
      (new', rest', calls', order', fit', finish') =
    let all_called = ap (λ us. urls new ++ us) (sym (finished-nil rest finish)) in
    (
      new ++ new',
      rest',
      calls' ∙ ap (λ cs. cs ++ new') calls ∙ append_assoc w.calls new new',
      ap (λ us. us ++ rest') (urls-++ new new')
          ∙ append_assoc (urls new) (urls new') rest'
          ∙ ap (λ us. urls new ++ us) order'
          ∙ ap (λ us. us ++ then_due) (sym (append-nil (urls new)) ∙ all_called ∙ order),
      fits-after r new new' fit fit',
      finish',
    )

module _ (body : Branch → Exec (Branch × Option Stop)) (own : Branch → List String) where
  prepend-Follows :
      (first then_due : List String) (w w1 : World) (b : Branch)
      (run : Result (List Branch × Option Stop) × World)
      → Follows first w (ok none) w1
      → Follows then_due w1 (stop_of run.0) run.1
      → Follows
          (first ++ then_due)
          w
          (stop_of (((λ _. run) >>= prepended b) w1).0)
          (((λ _. run) >>= prepended b) w1).1
  unfolding stop_of
  prepend-Follows first then_due w w1 b (err e, w2) follows more =
      Follows-step first then_due w w1 w2 (err e) follows more
  prepend-Follows first then_due w w1 b (ok (bs, stop), w2) follows more =
      Follows-step first then_due w w1 w2 (ok stop) follows more

  stopped-Follows :
      (first then_due : List String) (w w1 : World) (s : Stop)
      → Follows first w (ok (some s)) w1
      → Follows (first ++ then_due) w (ok (some s)) w1
  unfolding Follows finishes
  stopped-Follows first then_due w w1 s (new, rest, calls, order, fit, finish) = (
    new,
    rest ++ then_due,
    calls,
    sym (append_assoc (urls new) rest then_due) ∙ ap (λ us. us ++ then_due) order,
    fit,
    refl,
  )

  failed-Follows :
      {A : Type 0} (first : List String) (w w1 : World) (e : Error) → Follows first w (err e) w1 → A
  unfolding Follows finishes
  failed-Follows first w w1 e (new, rest, calls, order, fit, finish) =
      absurd (ground (arith, finish))

  after_branch-Follows :
      (b0 : Branch) (bs : List Branch) (rest : Exec (List Branch × Option Stop))
      → ((v : World) → Follows (all_own own bs) v (stop_of (rest v).0) (rest v).1)
      → (w : World) (run : Result (Branch × Option Stop) × World)
      → Follows (own b0) w (stop_of run.0) run.1
      → Follows
          (own b0 ++ all_own own bs)
          w
          (stop_of (((λ _. run) >>= after_branch bs rest) w).0)
          (((λ _. run) >>= after_branch bs rest) w).1
  unfolding stop_of after_branch
  after_branch-Follows b0 bs rest follows w (err e, w1) first = failed-Follows (own b0) w w1 e first
  after_branch-Follows b0 bs rest follows w (ok (b, some reason), w1) first =
      stopped-Follows (own b0) (all_own own bs) w w1 reason first
  after_branch-Follows b0 bs rest follows w (ok (b, none), w1) first =
      prepend-Follows (own b0) (all_own own bs) w w1 b (rest w1) first (follows w1)

  -- A loop makes the calls of its branches in their order.
  pub for_branches-Follows :
      ((b : Branch) (w : World) → Follows (own b) w (stop_of (body b w).0) (body b w).1)
      → (bs : List Branch) (w : World)
      → Follows (all_own own bs) w (stop_of (for_branches body bs w).0) (for_branches body bs w).1
  unfolding for_branches stop_of fits all_succeed finishes all_own
  for_branches-Follows follows [] w = idle-Follows w w none [] refl refl refl
  for_branches-Follows follows (b ∷ bs) w =
      after_branch-Follows b bs (for_branches body bs) (for_branches-Follows follows bs) w
        (body b w) (follows b w)

-- The same for an action, wherever it starts.
abbrev pub FollowsAll : {A : Type 0} → List String → Exec (A × Option Stop) → Type 0
FollowsAll calls m = (w : World) → Follows calls w (stop_of (m w).0) (m w).1

pub if-Follows :
    {A : Type 0} (calls : List String) (c : Bool) (m n : Exec (A × Option Stop))
    → (c ≡ true → FollowsAll calls m)
    → (c ≡ false → FollowsAll calls n)
    → FollowsAll calls (if c then m else n)
if-Follows calls true m n m_follows n_follows = m_follows refl
if-Follows calls false m n m_follows n_follows = n_follows refl
