-- ===== src/Coordinator/Tasks/Places.antt =====
-- The tasks of a round stand at the branches that are ready, and there is one for each of them.
use roze_dtm.Common.{
  ℕ, zero, suc, ◌≡◌, refl, arith, ap, List, [], ◌∷◌, map, Bool, true, false, Option, none, some,
  All, length, filterb, String, if◌then◌else◌, ◌∙◌,
}
use roze_dtm.Data.{Branch, Result, ok, err}
use roze_dtm.Engine.{or_missing}
use roze_dtm.Coordinator.Tasks.{
  enumerated, on_ready, selected, Task, action_tasks, with_task, compensation_tasks,
}
use roze_dtm.Coordinator.Tasks.Progress.{holds_at, TaskAt, Listing}
use roze_dtm.Coordinator.Giving.{Given, Anything}

All-map :
    {A B : Type 0} (P : B → Type 0) (f : A → B) (xs : List A)
    → All (λ x. P (f x)) xs
    → All P (map f xs)
All-map P f [] ps = tt
All-map P f (x ∷ xs) (p, ps) = (p, All-map P f xs ps)

kept-All :
    {A : Type 0} (P : A → Type 0) (r : A → Bool) (x : A) (rest : List A) (c : Bool)
    → r x ≡ c
    → P x
    → All (λ y. P y × (r y ≡ true)) rest
    → All (λ y. P y × (r y ≡ true)) (if c then x ∷ rest else rest)
kept-All P r x rest true e p ps = ((p, e), ps)
kept-All P r x rest false e p ps = ps

All-filterb :
    {A : Type 0} (P : A → Type 0) (r : A → Bool) (xs : List A)
    → All P xs
    → All (λ x. P x × (r x ≡ true)) (filterb r xs)
All-filterb P r [] ps = tt
All-filterb P r (x ∷ xs) (p, ps) =
    kept-All P r x (filterb r xs) (r x) refl p (All-filterb P r xs ps)

All-weaken :
    {A : Type 0} (P Q : A → Type 0) (xs : List A) → ((x : A) → P x → Q x) → All P xs → All Q xs
All-weaken P Q [] f ps = tt
All-weaken P Q (x ∷ xs) f (p, ps) = (f x p, All-weaken P Q xs f ps)

pub length-map : {A B : Type 0} (f : A → B) (xs : List A) → length (map f xs) ≡ length xs
length-map f [] = refl
length-map f (x ∷ xs) = ap suc (length-map f xs)

pub enumerated-holds :
    (q : Branch → Bool) (bs : List Branch) → All (λ t. holds_at q t.0 bs ≡ q t.1) (enumerated bs)
unfolding holds_at
enumerated-holds q [] = tt
enumerated-holds q (b ∷ bs) =
    (refl, All-map _ (λ t. (suc t.0, t.1)) (enumerated bs) (enumerated-holds q bs))

holds_at-map :
    (p : Branch → Bool) (f : Branch → Branch) (i : ℕ) (bs : List Branch)
    → holds_at p i (map f bs) ≡ holds_at (λ b. p (f b)) i bs
unfolding holds_at
holds_at-map p f i [] = refl
holds_at-map p f zero (b ∷ bs) = refl
holds_at-map p f (suc i) (b ∷ bs) = holds_at-map p f i bs

length-filter-shifted :
    (r : Branch → Bool) (ts : List (ℕ × Branch))
    → length {A = ℕ × Branch} (filterb (λ t. r t.1) (map (λ t. (suc t.0, t.1)) ts))
      ≡ length {A = ℕ × Branch} (filterb (λ t. r t.1) ts)
length-filter-shifted r [] = refl
length-filter-shifted r (t ∷ ts) = ground (arith, length-filter-shifted r ts)

length-ready :
    (r : Branch → Bool) (bs : List Branch)
    → length {A = ℕ × Branch} (filterb (λ t. r t.1) (enumerated bs)) ≡ length (filterb r bs)
length-ready r [] = refl
length-ready r (b ∷ bs) = ground (arith, length-filter-shifted r (enumerated bs), length-ready r bs)

-- The branches of a round, at their places after its change.
abbrev pub Placed : (Branch → Bool) → List Branch → ℕ × Branch → Type 0
Placed p bs t = holds_at p t.0 bs ≡ true

pub selected-Listing :
    (p ready : Branch → Bool) (change : Branch → Branch) (bs : List Branch)
    → ((b : Branch) → ready b ≡ true → p (change b) ≡ true)
    → Listing
        (Placed p (on_ready ready change bs))
        (length (filterb ready bs))
        (selected ready change bs)
selected-Listing p ready change bs active =
    let f = λ (b : Branch). if ready b then change b else b in
    let ts = filterb (λ t. ready t.1) (enumerated bs) in
    (
      All-map (Placed p (on_ready ready change bs)) (λ t. (t.0, change t.1)) ts
          (All-weaken (λ t. (holds_at (λ b. p (f b)) t.0 bs ≡ p (f t.1)) × (ready t.1 ≡ true))
            (λ t. holds_at p t.0 (on_ready ready change bs) ≡ true) ts
            (λ t (at, is_ready).
              holds_at-map p f t.0 bs
              ∙ at
              ∙ ap (λ c. p (if c then change t.1 else t.1)) is_ready
              ∙ active t.1 is_ready)
            (All-filterb (λ t. holds_at (λ b. p (f b)) t.0 bs ≡ p (f t.1)) (λ t. ready t.1)
              (enumerated bs) (enumerated-holds (λ b. p (f b)) bs))),
      length-map (λ t. (t.0, change t.1)) ts ∙ length-ready ready bs,
    )

pub action_tasks-Listing :
    (p : Branch → Bool) (bs : List Branch) (n : ℕ) (ts : List (ℕ × Branch))
    → Listing (Placed p bs) n ts
    → Listing (TaskAt p bs) n (action_tasks ts)
unfolding action_tasks
action_tasks-Listing p bs n ts (at, l) = (All-map (TaskAt p bs) _ ts at, length-map _ ts ∙ l)

pub or_missing-Given : (id : String) (url : Option String) → Given Anything (or_missing id url)
unfolding Given
or_missing-Given id none = refl
or_missing-Given id (some url) = tt

with_task-Given :
    (p : Branch → Bool) (bs : List Branch) (i : ℕ) (b : Branch) (n : ℕ) (url : Result String)
    (rest : Result (List Task))
    → Placed p bs (i, b)
    → Given Anything url
    → Given (Listing (TaskAt p bs) n) rest
    → Given (Listing (TaskAt p bs) (suc n)) (with_task i b url rest)
unfolding Given
with_task-Given p bs i b n (err e) rest at fine given = fine
with_task-Given p bs i b n (ok url) (err e) at fine given = given
with_task-Given p bs i b n (ok url) (ok tasks) at fine (ats, l) = ((at, ats), ap suc l)

pub compensation_tasks-Given :
    (p : Branch → Bool) (bs : List Branch) (ts : List (ℕ × Branch))
    → All (Placed p bs) ts
    → Given (Listing (TaskAt p bs) (length ts)) (compensation_tasks ts)
unfolding compensation_tasks Given
compensation_tasks-Given p bs [] at = (tt, refl)
compensation_tasks-Given p bs ((i, b) ∷ ts) (at, ats) =
    with_task-Given p bs i b (length ts) (or_missing b.id b.compensate) (compensation_tasks ts) at
      (or_missing-Given b.id b.compensate) (compensation_tasks-Given p bs ts ats)
