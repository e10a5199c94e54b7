-- ===== src/Graph.antt =====
-- `validate_transaction_dependencies` and `validate_dependency_graph` of src/lib.rs: unique ids, known
-- dependencies, and a depth-first search for cycles. The search runs on fuel.
pub mod Positions
pub mod Dags
pub mod Checks
pub mod Pigeonhole
pub mod Search
pub mod Soundness
pub mod Fuel
pub mod Completeness
use roze_dtm.Common.{
  ℕ, zero, suc, ◌+◌, String, Bool, true, false, Option, none, some, List, [], ◌∷◌, ◌&&◌, ◌||◌, not,
  ◌==◌, string_ord, if◌then◌else◌, length, get_elem?, all, any, filterb, ◌=?◌,
}
use roze_dtm.Map.{Map, lookup, insert}
use roze_dtm.Data.{
  TransactionKind, Branch, Transaction, kind_is, Result, Checked, ok, err, ensure, ◌>>=◌, ◌>>◌,
  concurrent_unsupported, dependencies_unsupported, dependencies_need_concurrent, ids_not_unique,
  depends_on_itself, unknown_dependency, repeated_dependency, dependency_cycle, unreachable,
  out_of_fuel,
}

abbrev pub Positions : Type 0
Positions = Map String ℕ

-- `enumerate().map(|(index, branch)| (branch.id, index)).collect()`
unfoldable pub collect_positions : ℕ → List Branch → Positions → Positions
collect_positions index [] positions = positions
collect_positions index (b ∷ bs) positions =
    collect_positions (suc index) bs (insert b.id index positions)

unfoldable pub positions_of : List Branch → Positions
unfolding collect_positions
positions_of bs = collect_positions 0 bs []

-- A set of texts or indices: only its membership is used.
abbrev pub text_in : String → List String → Bool
text_in s = any (λ t. t == s)

abbrev pub index_in : ℕ → List ℕ → Bool
index_in i = any (λ j. j =? i)

unfoldable pub check_dependencies : Positions → String → List String → List String → Checked
check_dependencies positions id unique [] = ok tt
check_dependencies positions id unique (d ∷ ds) = do
  ensure (not (d == id)) depends_on_itself
  ensure (elim (lookup d positions) [ none ↦ false | some _ ↦ true ]) unknown_dependency
  ensure (not (text_in d unique)) repeated_dependency
  check_dependencies positions id (d ∷ unique) ds

unfoldable pub check_branches : Positions → List Branch → Checked
unfolding check_dependencies
check_branches positions [] = ok tt
check_branches positions (b ∷ bs) = do
  check_dependencies positions b.id [] b.dependencies
  check_branches positions bs

-- The sets `visiting` and `visited` of the search.
pub record Marks : Type 0 where
  pub visiting : List ℕ
  pub visited : List ℕ

-- `branches[index].dependencies`; every index that is visited is in range.
abbrev pub dependencies_at : List Branch → ℕ → List String
dependencies_at bs i = elim (get_elem? bs i) [ none ↦ [] | some b ↦ b.dependencies ]

-- The loop over the dependencies, given the recursive call.
unfoldable pub visit_each :
    (ℕ → Marks → Result Marks) → Positions → List String → Marks → Result Marks
visit_each visit positions [] m = ok m
visit_each visit positions (d ∷ ds) m = elim (lookup d positions) [
  | none ↦ err unreachable
  | some i ↦ visit i m >>= visit_each visit positions ds
]

abbrev pub leave : ℕ → Marks → Result Marks
leave i m =
    ok (record { visiting = filterb (λ j. not (j =? i)) m.visiting; visited = i ∷ m.visited })

unfoldable pub visit : ℕ → List Branch → Positions → ℕ → Marks → Result Marks
unfolding visit_each
visit zero bs positions i m = err out_of_fuel
visit (suc fuel) bs positions i m =
    let body =
      visit_each (visit fuel bs positions) positions (dependencies_at bs i)
        (record m { visiting = i ∷ m.visiting })
      >>= leave i in
    if index_in i m.visited
    then ok m
    else if index_in i m.visiting
    then err dependency_cycle
    else body

-- `for index in 0..branches.len()`: the indices from `i` on, as many as `left`.
unfoldable pub visit_from : ℕ → ℕ → ℕ → List Branch → Positions → Marks → Result Marks
unfolding visit
visit_from fuel zero i bs positions m = ok m
visit_from fuel (suc left) i bs positions m =
    visit fuel bs positions i m >>= visit_from fuel left (suc i) bs positions

unfoldable pub validate_dependency_graph : List Branch → Checked
unfolding positions_of check_branches visit_from
validate_dependency_graph bs = do
  let positions = positions_of bs
  ensure (length positions =? length bs) ids_not_unique
  check_branches positions bs
  m ←
      visit_from (suc (length bs)) (length bs) 0 bs positions
        (record { visiting = []; visited = [] })
  ok tt

abbrev pub no_dependencies : List Branch → Bool
no_dependencies = all (λ b. length b.dependencies =? 0)

-- The checks of the kinds other than Saga.
unfoldable pub validate_other : Transaction → Checked
unfolding validate_dependency_graph
validate_other tx =
    if kind_is tx.kind TransactionKind.workflow
    then validate_dependency_graph tx.branches
    else ensure (no_dependencies tx.branches) dependencies_unsupported

unfoldable pub validate_transaction_dependencies : Transaction → Checked
unfolding validate_dependency_graph validate_other
validate_transaction_dependencies tx =
    if not (kind_is tx.kind TransactionKind.saga)
    then ensure (kind_is tx.kind TransactionKind.message || not tx.options.concurrent)
        concurrent_unsupported
      >> validate_other tx
    else if not tx.options.concurrent
    then ensure (no_dependencies tx.branches) dependencies_need_concurrent
    else validate_dependency_graph tx.branches
