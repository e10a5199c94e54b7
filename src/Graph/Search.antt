-- ===== src/Graph/Search.antt =====
-- The invariant of the depth-first search: what is visited is closed under dependencies, in the
-- order of completion.
use roze_dtm.Common.{
  ℕ, zero, suc, ◌≡◌, refl, ◌∙◌, subst, String, true, false, some, List, [], ◌∷◌, arith, All,
  Bool-cases, Option-cases, inl, inr,
}
use roze_dtm.Map.{lookup}
use roze_dtm.Common.{string_ord}
use roze_dtm.Data.{Branch, Result, ok, err, ◌>>=◌}
use roze_dtm.Graph.{Positions, Marks, index_in, dependencies_at, visit, visit_each, leave}
use roze_dtm.Graph.Pigeonhole.{DistinctIndices, without, without-absent}

pub >>=-eq-ok :
    {A B : Type 0} (first : Result A) (next : A → Result B) {final : B}
    → (first >>= next) ≡ ok final
    → (between : A) × (first ≡ ok between) × (next between ≡ ok final)
>>=-eq-ok (err failure) next h = cc
>>=-eq-ok (ok value) next h = (value, refl, h)

pub ok_path : {A : Type 0} {a b : A} → ◌≡◌ {A = Result A} (ok a) (ok b) → a ≡ b
ok_path h = cc

-- The marks on entering an index, and those on leaving it.
abbrev pub entered : ℕ → Marks → Marks
entered i m = record m { visiting = i ∷ m.visiting }

abbrev left : ℕ → Marks → Marks
left i m = record { visiting = without i m.visiting; visited = i ∷ m.visited }

module _ (bs : List Branch) (positions : Positions) where
  -- The dependency is known and its branch is among the visited ones.
  abbrev pub Marked : List ℕ → String → Type 0
  Marked visited d = (j : ℕ) × (lookup d positions ≡ some j) × (index_in j visited ≡ true)

  -- Every index stands before all that it depends on.
  abbrev pub Closed : List ℕ → Type 0
  Closed [] = Unit {0}
  Closed (i ∷ rest) = All (Marked rest) (dependencies_at bs i) × Closed rest

  pub record Inv (m : Marks) : Type 0 where
    pub closed : Closed m.visited
    pub distinct : DistinctIndices m.visited
    pub disjoint : (j : ℕ) → index_in j m.visiting ≡ true → index_in j m.visited ≡ false

  pub record Extends (m m' : Marks) : Type 0 where
    pub same : m'.visiting ≡ m.visiting
    pub grows : (j : ℕ) → index_in j m.visited ≡ true → index_in j m'.visited ≡ true

  pub Extends-trans : {a b c : Marks} → Extends a b → Extends b c → Extends a c
  Extends-trans x y = record { same = y.same ∙ x.same; grows = λ j h. y.grows j (x.grows j h) }

  -- What a successful visit of one index, or of a list of dependencies, achieves.
  abbrev pub Visits : (ℕ → Marks → Result Marks) → Type 0
  Visits f =
      (i : ℕ) (m m' : Marks)
      → Inv m
      → f i m ≡ ok m'
      → Inv m' × Extends m m' × (index_in i m'.visited ≡ true)

  Marked-grows :
      (m m' : Marks) (ds : List String)
      → Extends m m'
      → All (Marked m.visited) ds
      → All (Marked m'.visited) ds
  Marked-grows m m' [] e h = tt
  Marked-grows m m' (d ∷ ds) e h = ((h.0.0, h.0.1, e.grows h.0.0 h.0.2), Marked-grows m m' ds e h.1)

  visit_each_sound :
      (f : ℕ → Marks → Result Marks)
      → Visits f
      → (ds : List String) (m m' : Marks) → Inv m
      → visit_each f positions ds m ≡ ok m'
      → Inv m' × Extends m m' × All (Marked m'.visited) ds
  unfolding visit_each
  visit_each_sound f vf [] m m' v h =
      subst (λ x. Inv x × Extends m x × Unit {0}) (ok_path h)
        (v, record { same = refl; grows = λ j k. k }, tt)
  visit_each_sound f vf (d ∷ ds) m m' v h = elim (Option-cases (lookup d positions)) [
    | inl e ↦ absurd (ground arith)
    | inr (i, e) ↦
        let (m1, h1, h2) = >>=-eq-ok (f i m) (visit_each f positions ds) (ground arith) in
        let (v1, e1, k1) = vf i m m1 v h1 in
        let (v2, e2, k2) = visit_each_sound f vf ds m1 m' v1 h2 in
        (v2, Extends-trans e1 e2, ((i, e, e2.grows i k1), k2))
  ]

  pub entered-Inv : (i : ℕ) (m : Marks) → Inv m → index_in i m.visited ≡ false → Inv (entered i m)
  entered-Inv i m v new = record {
    closed = v.closed;
    distinct = v.distinct;
    disjoint = λ j h. ground (arith, v.disjoint j);
  }

  without_head : (i : ℕ) (xs : List ℕ) → index_in i xs ≡ false → without i (i ∷ xs) ≡ xs
  without_head i xs h = ground (arith, without-absent i xs h)

  left-Inv :
      (i : ℕ) (m m1 : Marks)
      → index_in i m.visiting ≡ false
      → Inv m1
      → Extends (entered i m) m1
      → All (Marked m1.visited) (dependencies_at bs i)
      → Inv (left i m1) × Extends m (left i m1) × (index_in i (left i m1).visited ≡ true)
  left-Inv i m m1 free v e k =
      let back : without i m1.visiting ≡ m.visiting =
        rw (e.same) (without_head i m.visiting free) in
      (
        record {
          closed = (k, v.closed);
          distinct = (v.disjoint i (rw (e.same) (ground arith)), v.distinct);
          disjoint = λ j h. ground (arith, v.disjoint j, e.same, back);
        },
        record { same = back; grows = λ j h. ground (arith, e.grows j h) },
        ground arith,
      )

  pub visit_sound : (fuel : ℕ) → Visits (visit fuel bs positions)
  unfolding visit
  visit_sound zero i m m' v h = cc
  visit_sound (suc fuel) i m m' v h = elim (Bool-cases (index_in i m.visited)) [
    | inl done ↦
        subst (λ x. Inv x × Extends m x × (index_in i x.visited ≡ true)) (ok_path (rw done at h))
          (v, record { same = refl; grows = λ j k. k }, done)
    | inr new ↦ elim (Bool-cases (index_in i m.visiting)) [
      | inl cycle ↦ absurd (ground arith)
      | inr free ↦
          let (m1, h1, h2) =
            >>=-eq-ok
              (visit_each (visit fuel bs positions) positions (dependencies_at bs i) (entered i m))
              (leave i) (rw (new, free) at h) in
          let (v1, e1, k1) =
            visit_each_sound (visit fuel bs positions) (visit_sound fuel) (dependencies_at bs i)
              (entered i m) m1 (entered-Inv i m v new) h1 in
          subst (λ x. Inv x × Extends m x × (index_in i x.visited ≡ true)) (ok_path h2)
            (left-Inv i m m1 free v1 e1 k1)
    ]
  ]
