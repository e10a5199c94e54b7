-- ===== src/Graph/Soundness.antt =====
-- A graph that passes the validation has distinct ids, known dependencies and no cycle: there is a
-- rank that falls along every dependency.
use roze_dtm.Common.{
  ℕ, zero, suc, ◌+◌, ◌≤◌, ◌<◌, ◌≡◌, refl, subst, String, true, false, none, some, List, [], ◌∷◌,
  arith, length, All, ◌=?◌, get_elem?, Bool-cases, inl, inr, if◌then◌else◌, string_ord, =?_iff,
}
use roze_dtm.Map.{lookup}
use roze_dtm.Data.{Branch, ok}
use roze_dtm.Dynamic.{find_branch}
use roze_dtm.Dynamic.Registration.{Distinct}
use roze_dtm.Graph.{
  Positions, Marks, index_in, dependencies_at, visit, visit_from, positions_of,
  validate_dependency_graph,
}
use roze_dtm.Graph.Pigeonhole.{DistinctIndices}
use roze_dtm.Graph.Positions.{lookup-positions_of, known-positions_of, length-positions_of_iff}
use roze_dtm.Graph.Search.{
  Marked, Closed, Inv, Extends, Extends-trans, visit_sound, >>=-eq-ok, ok_path,
}
use roze_dtm.Graph.Dags.{
  Falls, Knows, IsDag, DistinctTexts, find_branch-get_elem, All-of_get_elem, get_elem-lt,
}
use roze_dtm.Graph.Checks.{Passes, check_branches_iff, Listed}

-- How far from the end the index stands in the order of completion; 0 if it is not there.
abbrev height : List ℕ → ℕ → ℕ
height [] i = 0
height (j ∷ rest) i = let below = height rest i in if j =? i then suc (length rest) else below

height-le : (order : List ℕ) (i : ℕ) → height order i ≤ length order
height-le [] i = omega arith
height-le (j ∷ rest) i = ground (arith, height-le rest i)

-- The rank of a text: the height of its branch.
abbrev rank_in : Positions → List ℕ → String → ℕ
rank_in positions order d = elim (lookup d positions) [ none ↦ 0 | some i ↦ height order i ]

index_in-ne :
    (x j : ℕ) (xs : List ℕ) → index_in x xs ≡ false → index_in j xs ≡ true → (x =? j) ≡ false
index_in-ne x j [] h k = cc
index_in-ne x j (y ∷ xs) h k = ground (arith, index_in-ne x j xs)

module _ (bs : List Branch) (positions : Positions) where
  -- The dependency stands in the order, nearer to the end than the index.
  abbrev Lower : List ℕ → ℕ → String → Type 0
  Lower order i d =
      (j : ℕ) × (lookup d positions ≡ some j)
      × (index_in j order ≡ true)
      × (height order j < height order i)

  Lower-head :
      (x : ℕ) (rest : List ℕ) (ds : List String)
      → index_in x rest ≡ false
      → All (Marked bs positions rest) ds
      → All (Lower (x ∷ rest) x) ds
  Lower-head x rest [] h a = tt
  Lower-head x rest (d ∷ ds) h ((j, e, k), a) = (
    (j, e, ground (arith), ground (arith, index_in-ne x j rest h k, height-le rest j)),
    Lower-head x rest ds h a,
  )

  Lower-tail :
      (x i : ℕ) (rest : List ℕ) (ds : List String)
      → index_in x rest ≡ false
      → (x =? i) ≡ false
      → All (Lower rest i) ds
      → All (Lower (x ∷ rest) i) ds
  Lower-tail x i rest [] h n a = tt
  Lower-tail x i rest (d ∷ ds) h n ((j, e, k, l), a) =
      ((j, e, ground arith, ground (arith, index_in-ne x j rest h k)), Lower-tail x i rest ds h n a)

  -- Along a closed order of distinct indices the height falls at every dependency.
  height-falls :
      (order : List ℕ) (i : ℕ)
      → Closed bs positions order
      → DistinctIndices order
      → index_in i order ≡ true
      → All (Lower order i) (dependencies_at bs i)
  height-falls [] i c d h = cc
  height-falls (x ∷ rest) i c d h = elim (Bool-cases (x =? i)) [
    | inl same ↦
        subst (λ k. All (Lower (x ∷ rest) k) (dependencies_at bs k)) ((=?_iff x i).0 same)
          (Lower-head x rest (dependencies_at bs x) d.0 c.0)
    | inr other ↦
        Lower-tail x i rest (dependencies_at bs i) d.0 other
          (height-falls rest i c.1 d.1 (ground arith))
  ]

  pub visit_from_sound :
      (fuel left i : ℕ) (m m' : Marks)
      → Inv bs positions m
      → visit_from fuel left i bs positions m ≡ ok m'
      → Inv bs positions m'
        × Extends bs positions m m'
        × ((j : ℕ) → i ≤ j → j < i + left → index_in j m'.visited ≡ true)
  unfolding visit_from
  visit_from_sound fuel zero i m m' v h =
      subst
        (λ x.
          Inv bs positions x
          × Extends bs positions m x
          × ((j : ℕ) → i ≤ j → j < i + 0 → index_in j x.visited ≡ true))
        (ok_path h) (v, record { same = refl; grows = λ j k. k }, λ j a b. absurd (omega arith))
  visit_from_sound fuel (suc left) i m m' v h =
      let (m1, h1, h2) =
        >>=-eq-ok (visit fuel bs positions i m) (visit_from fuel left (suc i) bs positions) h in
      let (v1, e1, k1) = visit_sound bs positions fuel i m m1 v h1 in
      let (v2, e2, k2) = visit_from_sound fuel left (suc i) m1 m' v1 h2 in
      (
        v2,
        Extends-trans bs positions e1 e2,
        λ j a b. elim (Bool-cases (i =? j)) [
          | inl here ↦
              subst (λ x. index_in x m'.visited ≡ true) ((=?_iff i j).0 here) (e2.grows i k1)
          | inr later ↦ k2 j (ground arith) (omega arith)
        ],
      )

-- An index that ranks below gives a text that does.
rank_of_Lower :
    (bs : List Branch) (positions : Positions) (order : List ℕ) (i : ℕ) (id : String)
    (ds : List String)
    → lookup id positions ≡ some i
    → All (Lower bs positions order i) ds
    → All (λ d. rank_in positions order d < rank_in positions order id) ds
rank_of_Lower bs positions order i id [] e a = tt
rank_of_Lower bs positions order i id (d ∷ ds) e ((j, f, k, l), a) =
    (ground arith, rank_of_Lower bs positions order i id ds e a)

pub dependencies_at-eq :
    (bs : List Branch) (i : ℕ) (b : Branch)
    → get_elem? bs i ≡ some b
    → dependencies_at bs i ≡ b.dependencies
dependencies_at-eq bs i b h = ground arith

module _ (bs : List Branch) where
  abbrev pub found : Positions
  found = positions_of bs

  -- The marks from which the search starts.
  abbrev pub start : Marks
  start = record { visiting = []; visited = [] }

  pub start-Inv : Inv bs found start
  start-Inv = record { closed = tt; distinct = tt; disjoint = λ j h. cc }

  -- A branch is found by the search at the index of its id.
  own_index :
      Distinct bs
      → (k : ℕ) (b : Branch) → get_elem? bs k ≡ some b
      → (i : ℕ) × (lookup b.id found ≡ some i) × (get_elem? bs i ≡ some b)
  own_index d k b h =
      let f = find_branch-get_elem bs k b d h in
      let (i, e) = known-positions_of bs b.id b f in
      let (c, g, same) = lookup-positions_of bs b.id i e in
      (i, e, ground (arith, find_branch-get_elem bs i c d g))

  Falls-of_search :
      (m : Marks)
      → Distinct bs
      → visit_from (suc (length bs)) (length bs) 0 bs found start ≡ ok m
      → All (Falls (rank_in found m.visited)) bs
  Falls-of_search m d h = All-of_get_elem (Falls (rank_in found m.visited)) bs λ k b at.
      let (v, e, all_visited) =
        visit_from_sound bs found (suc (length bs)) (length bs) 0 start m start-Inv h in
      let (i, p, at_i) = own_index d k b at in
      let lower =
        height-falls bs found m.visited i v.closed v.distinct
          (all_visited i (omega arith) (omega (arith, get_elem-lt bs i b at_i))) in
      rank_of_Lower bs found m.visited i b.id b.dependencies p
        (subst (All (Lower bs found m.visited i)) (dependencies_at-eq bs i b at_i) lower)

  Knows-of_Listed : Distinct bs → (ds : List String) → All (Listed found) ds → All (Knows bs) ds
  Knows-of_Listed d [] a = tt
  Knows-of_Listed d (e ∷ ds) ((j, h), a) =
      let (c, g, same) = lookup-positions_of bs e j h in
      (
        (c, subst (λ x. find_branch x bs ≡ some c) same (find_branch-get_elem bs j c d g)),
        Knows-of_Listed d ds a,
      )

  Passes-known :
      Distinct bs
      → (cs : List Branch) → All (λ b. Passes found b.id [] b.dependencies) cs
      → All (λ b. All (Knows bs) b.dependencies) cs × All (λ b. DistinctTexts b.dependencies) cs
  Passes-known d [] a = (tt, tt)
  Passes-known d (c ∷ cs) a =
      let rest = Passes-known d cs a.1 in
      ((Knows-of_Listed d c.dependencies a.0.listed, rest.0), (a.0.distinct, rest.1))

  -- A graph that passes validation is a DAG over distinct ids.
  pub validate_dependency_graph-IsDag : validate_dependency_graph bs ≡ ok tt → IsDag bs
  unfolding validate_dependency_graph
  validate_dependency_graph-IsDag h =
      let distinct : Distinct bs = (length-positions_of_iff bs).0 (ground arith) in
      let passes = (check_branches_iff found bs).0 (ground arith) in
      let (kn, un) = Passes-known distinct bs passes in
      let (m, searched, _) =
        >>=-eq-ok (visit_from (suc (length bs)) (length bs) 0 bs found start) (λ _. ok tt)
          (ground arith) in
      record {
        distinct = distinct;
        known = kn;
        unrepeated = un;
        rank = rank_in found m.visited;
        falls = Falls-of_search m distinct searched;
      }
