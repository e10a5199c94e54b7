-- ===== src/Graph/Positions.antt =====
-- The index of each branch id: the map has as many entries as branches exactly when ids are
-- distinct, and each entry is the index of a branch of that id.
use roze_dtm.Common.{
  ℕ, zero, suc, ◌+◌, ◌≤◌, ◌≡◌, ◌↔◌, refl, ◌∙◌, subst, String, none, some, List, [], ◌∷◌, arith,
  length, get_elem?, Bool-cases, Option-cases, inl, inr, ◌⊎◌, string_ord, ◌==◌, ==_iff,
}
use roze_dtm.Map.{lookup, insert, lookup-insert}
use roze_dtm.Map.Sorted.{Sorted, insert-Sorted, length-insert}
use roze_dtm.Data.{Branch}
use roze_dtm.Dynamic.{find_branch}
use roze_dtm.Dynamic.Registration.{Distinct}
use roze_dtm.Graph.{Positions, collect_positions, positions_of}

-- An entry of the collected map is an old one, or stands for a branch of the list.
abbrev pub At : List Branch → String → ℕ → Type 0
At bs d k = (b : Branch) × (get_elem? bs k ≡ some b) × (b.id ≡ d)

lookup-collect :
    (d : String) (i : ℕ) (bs : List Branch) (m : Positions) (j : ℕ)
    → lookup d (collect_positions i bs m) ≡ some j
    → (lookup d m ≡ some j) ⊎ ((k : ℕ) × (j ≡ i + k) × At bs d k)
unfolding collect_positions
lookup-collect d i [] m j h = inl h
lookup-collect d i (b ∷ bs) m j h = elim (lookup-collect d (suc i) bs (insert b.id i m) j h) [
  | inl old ↦ elim (Bool-cases (b.id == d)) [
    | inl same ↦
        inr (zero, ground (arith, lookup-insert b.id d i m), (b, refl, (==_iff b.id d).0 same))
    | inr other ↦ inl (ground (arith, lookup-insert b.id d i m))
  ]
  | inr (k, e, at) ↦ inr (suc k, omega arith, at)
]

-- A known id stands at its index.
pub lookup-positions_of :
    (bs : List Branch) (d : String) (j : ℕ) → lookup d (positions_of bs) ≡ some j → At bs d j
unfolding positions_of lookup
lookup-positions_of bs d j h = elim (lookup-collect d 0 bs [] j h) [
  | inl old ↦ absurd (ground arith)
  | inr (k, e, at) ↦ subst (At bs d) (omega arith) at
]

-- Every id of a branch is known.
known-kept :
    (d : String) (i : ℕ) (bs : List Branch) (m : Positions)
    → (j : ℕ) × (lookup d m ≡ some j)
    → (j : ℕ) × (lookup d (collect_positions i bs m) ≡ some j)
unfolding collect_positions
known-kept d i [] m h = h
known-kept d i (b ∷ bs) m (j, h) =
    known-kept d (suc i) bs (insert b.id i m) (elim (Bool-cases (b.id == d)) [
      | inl same ↦ (i, ground (arith, lookup-insert b.id d i m))
      | inr other ↦ (j, ground (arith, lookup-insert b.id d i m))
    ])

known-collect :
    (d : String) (i : ℕ) (bs : List Branch) (m : Positions) (b : Branch)
    → find_branch d bs ≡ some b
    → (j : ℕ) × (lookup d (collect_positions i bs m) ≡ some j)
unfolding collect_positions
known-collect d i [] m b h = cc
known-collect d i (x ∷ bs) m b h = elim (Bool-cases (x.id == d)) [
  | inl same ↦
      known-kept d (suc i) bs (insert x.id i m) (i, ground (arith, lookup-insert x.id d i m))
  | inr other ↦ known-collect d (suc i) bs (insert x.id i m) b (ground arith)
]

pub known-positions_of :
    (bs : List Branch) (d : String) (b : Branch)
    → find_branch d bs ≡ some b
    → (j : ℕ) × (lookup d (positions_of bs) ≡ some j)
unfolding positions_of
known-positions_of bs d b h = known-collect d 0 bs [] b h

-- The ids of the list that the map does not have yet, each once.
abbrev Fresh : List Branch → Positions → Type 0
Fresh [] m = Unit {0}
Fresh (b ∷ bs) m = (lookup b.id m ≡ none) × Fresh bs m

length-collect-le :
    (i : ℕ) (bs : List Branch) (m : Positions)
    → Sorted m
    → length (collect_positions i bs m) ≤ length bs + length m
unfolding collect_positions
length-collect-le i [] m s = omega arith
length-collect-le i (b ∷ bs) m s = ground (
  arith,
  length-collect-le (suc i) bs (insert b.id i m) (insert-Sorted b.id i m s),
  length-insert b.id i m s,
)

Fresh-insert :
    (bs : List Branch) (m : Positions) (b : Branch) (i : ℕ)
    → Fresh bs m
    → find_branch b.id bs ≡ none
    → Fresh bs (insert b.id i m)
Fresh-insert [] m b i f h = tt
Fresh-insert (x ∷ bs) m b i f h = (
  ground (arith, lookup-insert b.id x.id i m, ==_iff x.id b.id, ==_iff b.id x.id),
  Fresh-insert bs m b i f.1 (ground arith),
)

Fresh-of_insert :
    (bs : List Branch) (m : Positions) (b : Branch) (i : ℕ)
    → Fresh bs (insert b.id i m)
    → Fresh bs m × (find_branch b.id bs ≡ none)
Fresh-of_insert [] m b i f = ground arith
Fresh-of_insert (x ∷ bs) m b i f = ground (
  arith,
  lookup-insert b.id x.id i m,
  ==_iff x.id b.id,
  ==_iff b.id x.id,
  Fresh-of_insert bs m b i f.1,
)

length-collect :
    (i : ℕ) (bs : List Branch) (m : Positions)
    → Sorted m
    → Fresh bs m
    → Distinct bs
    → length (collect_positions i bs m) ≡ length bs + length m
unfolding collect_positions
length-collect i [] m s f d = omega arith
length-collect i (b ∷ bs) m s f d = ground (
  arith,
  length-collect (suc i) bs (insert b.id i m) (insert-Sorted b.id i m s)
      (Fresh-insert bs m b i f.1 d.0) d.1,
  length-insert b.id i m s,
)

Distinct-of_length :
    (i : ℕ) (bs : List Branch) (m : Positions)
    → Sorted m
    → length (collect_positions i bs m) ≡ length bs + length m
    → Fresh bs m × Distinct bs
unfolding collect_positions
Distinct-of_length i [] m s h = (tt, tt)
Distinct-of_length i (b ∷ bs) m s h =
    let m' = insert b.id i m in
    let s' = insert-Sorted b.id i m s in
    let le = length-collect-le (suc i) bs m' s' in
    let size = length-insert b.id i m s in
    elim (Option-cases (lookup b.id m)) [
      | inl new ↦
          let grown : length m' ≡ suc (length m) = ground (arith, size) in
          let rest = Distinct-of_length (suc i) bs m' s' (omega (arith, grown)) in
          let back = Fresh-of_insert bs m b i rest.0 in ((new, back.0), (back.1, rest.1))
      | inr (j, old) ↦ absurd (ground (arith, size, le))
    ]

Fresh-empty : (bs : List Branch) → Fresh bs []
unfolding lookup
Fresh-empty [] = tt
Fresh-empty (b ∷ bs) = (refl, Fresh-empty bs)

-- The map has an entry for each branch exactly when the ids are distinct.
pub length-positions_of_iff :
    (bs : List Branch) → (length (positions_of bs) ≡ length bs) ↔ Distinct bs
unfolding positions_of
length-positions_of_iff bs = (
  λ h. (Distinct-of_length 0 bs [] tt (omega arith)).1,
  λ d. length-collect 0 bs [] tt (Fresh-empty bs) d ∙ omega arith,
)
