-- ===== src/Graph/Fuel.antt =====
-- The search of `validate_dependency_graph` in src/lib.rs: its fuel and its errors.
use roze_dtm.Common.{
  ℕ, zero, suc, ◌+◌, ◌≤◌, ◌<◌, ◌≡◌, ◌≢◌, refl, sym, ap, ◌∙◌, subst, String, false, some, List, [],
  ◌∷◌, arith, length, All, ◌=?◌, =?_iff, Bool-cases, Option-cases, inl, inr, ◌⊎◌, string_ord,
}
use roze_dtm.Map.{lookup}
use roze_dtm.Data.{Branch, Result, ok, err, ◌>>=◌, Error, out_of_fuel}
use roze_dtm.Graph.{
  Positions, Marks, index_in, dependencies_at, visit, visit_each, visit_from, leave,
}
use roze_dtm.Graph.Pigeonhole.{DistinctIndices, length-le_of_DistinctIndices}
use roze_dtm.Graph.Search.{Inv, Visits, visit_sound, entered, entered-Inv}

-- Where a chain of two fails, the first failed or the second did on its result.
pub >>=-eq-err :
    {A B : Type 0} (m : Result A) (f : A → Result B) {e : Error}
    → (m >>= f) ≡ err e
    → (m ≡ err e) ⊎ ((a : A) × (m ≡ ok a) × (f a ≡ err e))
>>=-eq-err (ok a) f h = inr (a, refl, h)
>>=-eq-err (err e) f h = inl (cc)

module _ (bs : List Branch) (positions : Positions) (n : ℕ)
    (bounded : (d : String) (j : ℕ) → lookup d positions ≡ some j → j < n) where
  -- The fuel left covers every index that is not being visited.
  abbrev Room : ℕ → List ℕ → Type 0
  Room fuel visiting =
      DistinctIndices visiting × All (λ i. i < n) visiting × (suc n ≤ fuel + length visiting)

  abbrev Fuelled : ℕ → (ℕ → Marks → Result Marks) → Type 0
  Fuelled fuel f =
      (i : ℕ) (m : Marks)
      → i < n
      → Inv bs positions m
      → Room fuel m.visiting
      → f i m ≢ err out_of_fuel

  visit_each-Fuelled :
      (fuel : ℕ) (f : ℕ → Marks → Result Marks)
      → Visits bs positions f
      → Fuelled fuel f
      → (ds : List String) (m : Marks) → Inv bs positions m
      → Room fuel m.visiting
      → visit_each f positions ds m ≢ err out_of_fuel
  unfolding visit_each
  visit_each-Fuelled fuel f vf ff [] m v r h = cc
  visit_each-Fuelled fuel f vf ff (d ∷ ds) m v r h = elim (Option-cases (lookup d positions)) [
    | inl e ↦ ground arith
    | inr (i, e) ↦ elim (>>=-eq-err (f i m) (visit_each f positions ds) (ground arith)) [
      | inl failed ↦ ff i m (bounded d i e) v r failed
      | inr (m1, h1, h2) ↦
          let (v1, e1, k1) = vf i m m1 v h1 in
          visit_each-Fuelled fuel f vf ff ds m1 v1 (subst (Room fuel) (sym e1.same) r) h2
    ]
  ]

  pub visit-Fuelled : (fuel : ℕ) → Fuelled fuel (visit fuel bs positions)
  unfolding visit
  visit-Fuelled zero i m b v r h = omega (arith, length-le_of_DistinctIndices n m.visiting r.0 r.1)
  visit-Fuelled (suc fuel) i m b v r h = elim (Bool-cases (index_in i m.visited)) [
    | inl done ↦ ground arith
    | inr new ↦ elim (Bool-cases (index_in i m.visiting)) [
      | inl cycle ↦ ground arith
      | inr free ↦
          elim (>>=-eq-err
            (visit_each (visit fuel bs positions) positions (dependencies_at bs i) (entered i m))
            (leave i) (rw (new, free) at h)) [
              | inl failed ↦
                  visit_each-Fuelled fuel (visit fuel bs positions) (visit_sound bs positions fuel)
                    (visit-Fuelled fuel) (dependencies_at bs i) (entered i m)
                    (entered-Inv bs positions i m v new) ((free, r.0), (b, r.1), omega arith) failed
              | inr (m1, h1, h2) ↦ cc
            ]
    ]
  ]

module _ (bs : List Branch) (positions : Positions) (rank : ℕ → ℕ) where
  -- The dependency is known, and ranks below all that is being visited.
  abbrev pub Below : List ℕ → String → Type 0
  Below visiting d = (j : ℕ) × (lookup d positions ≡ some j) × All (λ v. rank j < rank v) visiting

  abbrev Cycleless : (ℕ → Marks → Result Marks) → Type 0
  Cycleless f =
      (i : ℕ) (m : Marks) (e : Error)
      → Inv bs positions m
      → All (λ v. rank i < rank v) m.visiting
      → f i m ≡ err e
      → e ≡ out_of_fuel

  visit_each-Cycleless :
      (f : ℕ → Marks → Result Marks)
      → Visits bs positions f
      → Cycleless f
      → (ds : List String) (m : Marks) (e : Error) → Inv bs positions m
      → All (Below m.visiting) ds
      → visit_each f positions ds m ≡ err e
      → e ≡ out_of_fuel
  unfolding visit_each
  visit_each-Cycleless f vf cf [] m e v a h = cc
  visit_each-Cycleless f vf cf (d ∷ ds) m e v ((j, p, below), a) h =
      elim (>>=-eq-err (f j m) (visit_each f positions ds) (ground arith)) [
        | inl failed ↦ cf j m e v below failed
        | inr (m1, h1, h2) ↦
            let (v1, e1, k1) = vf j m m1 v h1 in
            visit_each-Cycleless f vf cf ds m1 e v1 (subst (λ x. All (Below x) ds) (sym e1.same) a)
              h2
      ]

  rank_absent : (i : ℕ) (vs : List ℕ) → All (λ v. rank i < rank v) vs → index_in i vs ≡ false
  rank_absent i [] a = refl
  rank_absent i (v ∷ vs) a = elim (Bool-cases (v =? i)) [
    | inl same ↦ absurd (omega (arith, ap rank ((=?_iff v i).0 same)))
    | inr other ↦ ground (arith, rank_absent i vs a.1)
  ]

  -- Along every dependency the rank falls.
  abbrev pub FallsBelow : Type 0
  FallsBelow =
      (i : ℕ) (vs : List ℕ)
      → All (λ v. rank i < rank v) vs
      → All (Below (i ∷ vs)) (dependencies_at bs i)

  module _ (falls : FallsBelow) where
    visit-Cycleless : (fuel : ℕ) → Cycleless (visit fuel bs positions)
    unfolding visit
    visit-Cycleless zero i m e v a h = cc
    visit-Cycleless (suc fuel) i m e v a h = elim (Bool-cases (index_in i m.visited)) [
      | inl done ↦ ground arith
      | inr new ↦
          elim (>>=-eq-err
            (visit_each (visit fuel bs positions) positions (dependencies_at bs i) (entered i m))
            (leave i) (rw (new, rank_absent i m.visiting a) at h)) [
              | inl failed ↦
                  visit_each-Cycleless (visit fuel bs positions) (visit_sound bs positions fuel)
                    (visit-Cycleless fuel) (dependencies_at bs i) (entered i m) e
                    (entered-Inv bs positions i m v new) (falls i m.visiting a) failed
              | inr (m1, h1, h2) ↦ cc
            ]
    ]

    pub visit_from_cycleless :
        (fuel left i : ℕ) (m : Marks) (e : Error)
        → Inv bs positions m
        → m.visiting ≡ []
        → visit_from fuel left i bs positions m ≡ err e
        → e ≡ out_of_fuel
    unfolding visit_from
    visit_from_cycleless fuel zero i m e v s h = cc
    visit_from_cycleless fuel (suc left) i m e v s h =
        elim (>>=-eq-err (visit fuel bs positions i m) (visit_from fuel left (suc i) bs positions)
          h) [
            | inl failed ↦ visit-Cycleless fuel i m e v (rw s tt) failed
            | inr (m1, h1, h2) ↦
                let (v1, e1, k1) = visit_sound bs positions fuel i m m1 v h1 in
                visit_from_cycleless fuel left (suc i) m1 e v1 (e1.same ∙ s) h2
          ]
