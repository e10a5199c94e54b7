-- ===== src/Graph/Completeness.antt =====
-- `validate_dependency_graph` in src/lib.rs: its fuel as a whole, and the graphs that it accepts.
use roze_dtm.Common.{
  ℕ, zero, suc, ◌+◌, ◌≤◌, ◌<◌, ◌≡◌, ◌≢◌, ◌↔◌, refl, sym, ap, ◌∙◌, subst, String, false, none, some,
  List, [], ◌∷◌, arith, length, All, get_elem?, Option-cases, inl, inr, string_ord,
}
use roze_dtm.Map.{lookup}
use roze_dtm.Data.{Branch, Result, ok, err, Error, out_of_fuel}
use roze_dtm.Graph.{Marks, dependencies_at, visit, visit_from, text_in, validate_dependency_graph}
use roze_dtm.Graph.Positions.{lookup-positions_of, known-positions_of, length-positions_of_iff}
use roze_dtm.Graph.Search.{Inv, visit_sound}
use roze_dtm.Graph.Dags.{Falls, Knows, IsDag, DistinctTexts, get_elem_of_All, get_elem-lt}
use roze_dtm.Graph.Checks.{Passes, check_branches_iff, check_branches-fuel, Listed}
use roze_dtm.Graph.Soundness.{
  validate_dependency_graph-IsDag, found, start, start-Inv, dependencies_at-eq,
}
use roze_dtm.Graph.Fuel.{visit_from_cycleless, >>=-eq-err, visit-Fuelled, Below, FallsBelow}

ok_of_no_error :
    {A : Type 0} (r : Result A)
    → r ≢ err out_of_fuel
    → ((e : Error) → r ≡ err e → e ≡ out_of_fuel)
    → (a : A) × (r ≡ ok a)
ok_of_no_error (ok a) n o = (a, refl)
ok_of_no_error {A} (err e) n o = absurd (n (ap {B = Result A} err (o e refl)))

dependencies_at-none :
    (bs : List Branch) (i : ℕ) → get_elem? bs i ≡ none → dependencies_at bs i ≡ []
dependencies_at-none bs i h = ground arith

module _ (bs : List Branch) where
  -- Positions are in range, so the search has fuel enough.
  found-lt : (d : String) (j : ℕ) → lookup d (found bs) ≡ some j → j < length bs
  found-lt d j h = let (b, at, same) = lookup-positions_of bs d j h in get_elem-lt bs j b at

  visit_from_fuelled :
      (left i : ℕ) (m : Marks)
      → i + left ≤ length bs
      → Inv bs (found bs) m
      → m.visiting ≡ []
      → visit_from (suc (length bs)) left i bs (found bs) m ≢ err out_of_fuel
  unfolding visit_from
  visit_from_fuelled zero i m b v s h = cc
  visit_from_fuelled (suc left) i m b v s h =
      elim (>>=-eq-err (visit (suc (length bs)) bs (found bs) i m)
        (visit_from (suc (length bs)) left (suc i) bs (found bs)) h) [
          | inl failed ↦
              visit-Fuelled bs (found bs) (length bs) found-lt (suc (length bs)) i m (omega arith) v
                (rw s (omega arith)) failed
          | inr (m1, h1, h2) ↦
              let (v1, e1, k1) = visit_sound bs (found bs) (suc (length bs)) i m m1 v h1 in
              visit_from_fuelled left (suc i) m1 (omega arith) v1 (e1.same ∙ s) h2
        ]

  -- The fuel of the validation, one more than the branches, is enough for every graph.
  pub validate_dependency_graph_fuelled : validate_dependency_graph bs ≢ err out_of_fuel
  unfolding validate_dependency_graph
  validate_dependency_graph_fuelled h = ground (
    arith,
    check_branches-fuel (found bs) bs,
    visit_from_fuelled (length bs) 0 (start bs) (omega arith) (start-Inv bs) refl,
  )

  -- The rank of an index is that of its branch.
  abbrev rank_at : (String → ℕ) → ℕ → ℕ
  rank_at rank i = elim (get_elem? bs i) [ none ↦ 0 | some b ↦ rank b.id ]

  rank_at-eq :
      (rank : String → ℕ) (i : ℕ) (b : Branch)
      → get_elem? bs i ≡ some b
      → rank_at rank i ≡ rank b.id
  rank_at-eq rank i b h = ground arith

  rank_below :
      (rank : String → ℕ) (i j : ℕ) (vs : List ℕ)
      → rank_at rank j < rank_at rank i
      → All (λ v. rank_at rank i < rank_at rank v) vs
      → All (λ v. rank_at rank j < rank_at rank v) vs
  rank_below rank i j [] h a = tt
  rank_below rank i j (v ∷ vs) h a = (omega (arith, a.0), rank_below rank i j vs h a.1)

  Below-each :
      (rank : String → ℕ) (i : ℕ) (b : Branch) (vs : List ℕ) (ds : List String)
      → get_elem? bs i ≡ some b
      → All (λ v. rank_at rank i < rank_at rank v) vs
      → All (Knows bs) ds
      → All (λ d. rank d < rank b.id) ds
      → All (Below bs (found bs) (rank_at rank) (i ∷ vs)) ds
  Below-each rank i b vs [] at a kn f = tt
  Below-each rank i b vs (d ∷ ds) at a ((c, k), kn) (l, f) =
      let (j, p) = known-positions_of bs d c k in
      let (x, at_j, same) = lookup-positions_of bs d j p in
      let less : rank_at rank j < rank_at rank i =
        omega (arith, l, rank_at-eq rank i b at, rank_at-eq rank j x at_j, ap rank same) in
      ((j, p, (less, rank_below rank i j vs less a)), Below-each rank i b vs ds at a kn f)

  falls_below : (g : IsDag bs) → FallsBelow bs (found bs) (rank_at g.rank)
  falls_below g i vs a = elim (Option-cases (get_elem? bs i)) [
    | inl e ↦
        subst (All (Below bs (found bs) (rank_at g.rank) (i ∷ vs)))
          (sym (dependencies_at-none bs i e)) tt
    | inr (b, e) ↦
        subst (All (Below bs (found bs) (rank_at g.rank) (i ∷ vs)))
          (sym (dependencies_at-eq bs i b e))
          (Below-each g.rank i b vs b.dependencies e a
            (get_elem_of_All (λ b. All (Knows bs) b.dependencies) bs i b g.known e)
            (get_elem_of_All (Falls g.rank) bs i b g.falls e))
  ]

  others_of_falls :
      (rank : String → ℕ) (id : String) (ds : List String)
      → All (λ d. rank d < rank id) ds
      → All (λ d. d ≢ id) ds
  others_of_falls rank id [] a = tt
  others_of_falls rank id (d ∷ ds) a =
      (λ e. omega (arith, ap rank e), others_of_falls rank id ds a.1)

  Listed-of_Knows : (ds : List String) → All (Knows bs) ds → All (Listed (found bs)) ds
  Listed-of_Knows [] a = tt
  Listed-of_Knows (d ∷ ds) ((c, k), a) = (known-positions_of bs d c k, Listed-of_Knows ds a)

  none_seen : (ds : List String) → All (λ d. text_in d [] ≡ false) ds
  none_seen [] = tt
  none_seen (d ∷ ds) = (refl, none_seen ds)

  Passes-of_dag :
      (rank : String → ℕ) (cs : List Branch)
      → All (λ b. All (Knows bs) b.dependencies) cs
      → All (λ b. DistinctTexts b.dependencies) cs
      → All (Falls rank) cs
      → All (λ b. Passes (found bs) b.id [] b.dependencies) cs
  Passes-of_dag rank [] kn un f = tt
  Passes-of_dag rank (c ∷ cs) kn un f = (
    record {
      others = others_of_falls rank c.id c.dependencies f.0;
      listed = Listed-of_Knows c.dependencies kn.0;
      distinct = un.0;
      unseen = none_seen c.dependencies;
    },
    Passes-of_dag rank cs kn.1 un.1 f.1,
  )

  -- A DAG over distinct ids passes validation.
  validate_dependency_graph_complete : IsDag bs → validate_dependency_graph bs ≡ ok tt
  unfolding validate_dependency_graph
  validate_dependency_graph_complete g =
      let searched =
        ok_of_no_error (visit_from (suc (length bs)) (length bs) 0 bs (found bs) (start bs))
          (visit_from_fuelled (length bs) 0 (start bs) (omega arith) (start-Inv bs) refl)
          (λ e.
            visit_from_cycleless bs (found bs) (rank_at g.rank) (falls_below g) (suc (length bs))
              (length bs) 0 (start bs) e (start-Inv bs) refl) in
      ground (
        arith,
        (length-positions_of_iff bs).1 g.distinct,
        (check_branches_iff (found bs) bs).1 (Passes-of_dag g.rank bs g.known g.unrepeated g.falls),
        searched.1,
      )

  -- Validation accepts exactly the DAGs over distinct and known ids.
  pub validate_dependency_graph_iff : (validate_dependency_graph bs ≡ ok tt) ↔ IsDag bs
  validate_dependency_graph_iff =
      (validate_dependency_graph-IsDag bs, validate_dependency_graph_complete)
