-- ===== src/Graph/Checks.antt =====
-- The checks before the search: no branch depends on itself, on an unknown id, or twice on one id.
use roze_dtm.Common.{
  ℕ, ◌≡◌, ◌≢◌, ◌↔◌, refl, String, false, some, List, [], ◌∷◌, arith, All, Option-cases, inl, inr,
  string_ord, ==_iff,
}
use roze_dtm.Map.{lookup}
use roze_dtm.Data.{Branch, ok, err, out_of_fuel}
use roze_dtm.Graph.{Positions, text_in, check_dependencies, check_branches}
use roze_dtm.Graph.Dags.{DistinctTexts}

abbrev pub Listed : Positions → String → Type 0
Listed positions d = (j : ℕ) × (lookup d positions ≡ some j)

-- What the checks establish of one branch.
pub record Passes (positions : Positions) (id : String) (seen ds : List String) : Type 0 where
  pub others : All (λ d. d ≢ id) ds
  pub listed : All (Listed positions) ds
  pub distinct : DistinctTexts ds
  pub unseen : All (λ d. text_in d seen ≡ false) ds

unseen_tail :
    (d : String) (seen ds : List String)
    → All (λ e. text_in e (d ∷ seen) ≡ false) ds
    → All (λ e. text_in e seen ≡ false) ds × (text_in d ds ≡ false)
unseen_tail d seen [] h = (tt, refl)
unseen_tail d seen (e ∷ ds) h =
    let rest = unseen_tail d seen ds h.1 in
    ((ground arith, rest.0), ground (arith, ==_iff e d, ==_iff d e))

check_dependencies_sound :
    (positions : Positions) (id : String) (seen ds : List String)
    → check_dependencies positions id seen ds ≡ ok tt
    → Passes positions id seen ds
unfolding check_dependencies
check_dependencies_sound positions id seen [] h = record {
  others = tt;
  listed = tt;
  distinct = tt;
  unseen = tt;
}
check_dependencies_sound positions id seen (d ∷ ds) h = elim (Option-cases (lookup d positions)) [
  | inl e ↦ absurd (ground arith)
  | inr (j, e) ↦
      let rest = check_dependencies_sound positions id (d ∷ seen) ds (ground arith) in
      let apart = unseen_tail d seen ds rest.unseen in
      record {
        others = (λ p. ground (arith, ==_iff d id), rest.others);
        listed = ((j, e), rest.listed);
        distinct = (apart.1, rest.distinct);
        unseen = (ground arith, apart.0);
      }
]

unseen_cons :
    (d : String) (seen ds : List String)
    → All (λ e. text_in e seen ≡ false) ds
    → text_in d ds ≡ false
    → All (λ e. text_in e (d ∷ seen) ≡ false) ds
unseen_cons d seen [] h n = tt
unseen_cons d seen (e ∷ ds) h n =
    (ground (arith, ==_iff e d, ==_iff d e), unseen_cons d seen ds h.1 (ground arith))

check_dependencies_complete :
    (positions : Positions) (id : String) (seen ds : List String)
    → Passes positions id seen ds
    → check_dependencies positions id seen ds ≡ ok tt
unfolding check_dependencies
check_dependencies_complete positions id seen [] v = refl
check_dependencies_complete positions id seen (d ∷ ds) v = ground (
  arith,
  ==_iff d id,
  v.listed.0.1,
  check_dependencies_complete positions id (d ∷ seen) ds (record {
    others = v.others.1;
    listed = v.listed.1;
    distinct = v.distinct.1;
    unseen = unseen_cons d seen ds v.unseen.1 v.distinct.0;
  }),
)

-- The checks pass exactly when every branch is in order.
pub check_branches_iff :
    (positions : Positions) (bs : List Branch)
    → (check_branches positions bs ≡ ok tt) ↔ All (λ b. Passes positions b.id [] b.dependencies) bs
unfolding check_branches
check_branches_iff positions [] = (λ h. tt, λ a. refl)
check_branches_iff positions (b ∷ bs) = (
  λ h. (
    check_dependencies_sound positions b.id [] b.dependencies (ground arith),
    (check_branches_iff positions bs).0 (ground arith),
  ),
  λ a. ground (
    arith,
    check_dependencies_complete positions b.id [] b.dependencies a.0,
    (check_branches_iff positions bs).1 a.1,
  ),
)

check_dependencies-fuel :
    (positions : Positions) (id : String) (seen ds : List String)
    → check_dependencies positions id seen ds ≢ err out_of_fuel
unfolding check_dependencies
check_dependencies-fuel positions id seen [] h = cc
check_dependencies-fuel positions id seen (d ∷ ds) h =
    ground (arith, check_dependencies-fuel positions id (d ∷ seen) ds)

pub check_branches-fuel :
    (positions : Positions) (bs : List Branch) → check_branches positions bs ≢ err out_of_fuel
unfolding check_branches
check_branches-fuel positions [] h = cc
check_branches-fuel positions (b ∷ bs) h = ground (
  arith,
  check_dependencies-fuel positions b.id [] b.dependencies,
  check_branches-fuel positions bs,
)
